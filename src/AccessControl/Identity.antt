-- ===== src/AccessControl/Identity.antt =====
-- ResolveCurrentActor of internal/usecase/access_control/usecase.go, and resolveExternalActor of
-- external.go. `now` and `later` are the two clock readings of the latter.
use service_backend.Prelude.{
  ℕ, Bool, true, false, not, ◌&&◌, ◌||◌, eqb, ltb, Option, none, some, List, if◌then◌else◌,
}
use service_backend.Errors.{forbidden}
use service_backend.Entities.{User}
use service_backend.Policy.{Policy, external}
use service_backend.Exec.{Exec, pure, raise, lift, within_transaction, ◌>>=◌, ◌>>◌}
use service_backend.AccessControl.{
  AccessGrantInput, ExternalAccessSnapshot, ExternalAccessState, UpsertCurrentUserInput, Repository,
  Codec, reads,
}
use service_backend.AccessControl.Snapshot.{
  mapped_grants, Verdict, stale, ambiguous, unchanged, replace, compare_tokens, unusable,
}

module _ {S : Type 0} (repo : Repository S) (codec : Codec) where
  unfoldable pub apply_verdict :
      User → List AccessGrantInput → ExternalAccessState → Verdict → Exec S (Unit {0})
  apply_verdict user grants state stale = raise (forbidden "external_access_stale")
  apply_verdict user grants state ambiguous = raise (forbidden "external_access_ambiguous")
  apply_verdict user grants state unchanged = pure tt
  apply_verdict user grants state replace = repo.replace_external_access user.id grants state

  -- the transaction of resolveExternalActor for an active user
  unfoldable pub synchronize : ℕ → ExternalAccessSnapshot → User → Exec S (User × Bool)
  unfolding apply_verdict
  synchronize later snapshot user =
      if not (ltb later snapshot.expires_at)
      then raise (forbidden "external_access_expired")
      else do
        (platform, grants) ← reads (λ st. mapped_grants (repo.workspaces st) user snapshot.grants)
        digest ← lift (codec.grants_hash snapshot.grants)
        let state : ExternalAccessState = record {
          config_version = snapshot.config_version;
          token_hash = snapshot.token_hash;
          issued_at = snapshot.issued_at;
          grants_hash = digest;
          last_synchronized_at = 0;
        }
        previous ← repo.get_external_access_state user.id
        apply_verdict user grants state (compare_tokens state previous)
        pure (user, platform)

  -- the transaction of resolveExternalActor
  unfoldable pub external_in_tx :
      ℕ → UpsertCurrentUserInput → ExternalAccessSnapshot → Exec S (User × Bool)
  unfolding synchronize
  external_in_tx later input snapshot = do
    user ← repo.upsert_current_user input
    if not user.active then pure (user, false) else synchronize later snapshot user

  -- resolveExternalActor
  unfoldable pub resolve_external :
      Option Policy
      → ℕ
      → ℕ
      → UpsertCurrentUserInput
      → Option ExternalAccessSnapshot
      → Exec S (User × Bool)
  unfolding external_in_tx
  resolve_external policy now later input none = raise (forbidden "external_access_invalid")
  resolve_external policy now later input (some snapshot) =
      if unusable policy now input snapshot
      then raise (forbidden "external_access_invalid")
      else within_transaction (external_in_tx later input snapshot)

  -- the first grant of a platform administrator, in the transaction of ResolveCurrentActor
  unfoldable pub bootstrap : Bool → User → Exec S Bool
  bootstrap legacy user = do
    admins ← repo.has_platform_admins
    humans ← repo.count_human_users
    external_before ← repo.has_external_access_history
    if legacy || (not admins && eqb humans 1 && not external_before)
        then (do
          repo.upsert_access_grant (record {
            user_id = user.id;
            scope_type = "platform";
            workspace_id = none;
            role = "admin";
            actor_id = user.id;
          })
          pure true)
        else pure false

  -- the transaction of ResolveCurrentActor
  unfoldable pub resolve_in_tx : UpsertCurrentUserInput → Bool → Exec S (User × Bool)
  unfolding bootstrap
  resolve_in_tx input legacy = do
    repo.lock_bootstrap
    user ← repo.upsert_current_user input
    if not user.active then pure (user, false) else do
      platform ← repo.is_platform_admin user.id
      if platform
          then pure (user, true)
          else do granted ← bootstrap legacy user; pure (user, granted)

  -- ResolveCurrentActor
  unfoldable pub resolve_current_actor :
      Option Policy
      → ℕ
      → ℕ
      → UpsertCurrentUserInput
      → Bool
      → Option ExternalAccessSnapshot
      → Exec S (User × Bool)
  unfolding resolve_external resolve_in_tx
  resolve_current_actor policy now later input legacy snapshot =
      if external policy then resolve_external policy now later input snapshot else do
        admins ← repo.has_platform_admins
        if admins && not legacy
            then (do
              user ← repo.upsert_current_user input
              platform ← repo.is_platform_admin user.id
              pure (user, platform))
            else within_transaction (resolve_in_tx input legacy)
