-- ===== src/AccessControl/Tests/Granting.antt =====
-- A grant that goes through, and the first administrator of an empty platform.
use service_backend.Prelude.{◌≡◌, refl, true, false, none, trim_space}
use service_backend.Errors.{ok}
use service_backend.Access.Context.{actor}
use service_backend.AccessControl.{Repository}
use service_backend.AccessControl.Operations.{put, grant_target}
use service_backend.AccessControl.Identity.{bootstrap}
use service_backend.AccessControl.Rights.{IsPut, IsBootstrapped, put-MayGrant, bootstrap_alone}
use service_backend.AccessControl.Tests.{
  Store, store, repo, codec, ctx, ann, grant, written, for_platform,
}

was_put : put repo codec none ctx for_platform store ≡ (ok grant, written store)
unfolding put grant_target actor trim_space
was_put = refl

put-MayGrant_example : IsPut repo none ctx for_platform grant store (written store)
put-MayGrant_example =
    put-MayGrant repo codec none ctx for_platform grant store (written store) was_put

abbrev new_platform : Repository Store
new_platform = record repo { has_platform_admins = λ s. (ok false, s) }

was_first : bootstrap new_platform codec false ann store ≡ (ok true, written store)
unfolding bootstrap
was_first = refl

bootstrap_alone_example : IsBootstrapped new_platform false ann true store (written store)
bootstrap_alone_example =
    bootstrap_alone new_platform codec false ann true store (written store) was_first
