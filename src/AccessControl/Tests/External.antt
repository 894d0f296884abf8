-- ===== src/AccessControl/Tests/External.antt =====
-- External synchronization over the small store: a late token and a newer one.
use service_backend.Prelude.{
  ◌≤◌, String, ◌≡◌, refl, sym, ap, ◌∙◌, ◌==◌, some, [], arith, if◌then◌else◌,
}
use service_backend.Prelude.Map
use service_backend.Prelude.Map.{Map, get-put}
use service_backend.Errors.{err, forbidden}
use service_backend.Policy.{Policy}
use service_backend.Exec.{pure-inv}
use service_backend.AccessControl.{
  ExternalAccessSnapshot, ExternalAccessState, UpsertCurrentUserInput,
}
use service_backend.AccessControl.Snapshot.{mapped_grants, compare_tokens}
use service_backend.AccessControl.Identity.{
  apply_verdict, synchronize, external_in_tx, resolve_external,
}
use service_backend.AccessControl.Atomic.{resolve_external-atomic}
use service_backend.AccessControl.Watermark.{StoresStates, issued, resolve_external_newer}
use service_backend.AccessControl.Tests.{Store, store, repo, codec}

abbrev policy : Policy
policy = record { provider = "idp"; name = "Directory"; version = "1"; rules = [] }

abbrev login : UpsertCurrentUserInput
login = record {
  provider_id = "idp";
  subject = "ann";
  issuer = "https://idp";
  username = "ann";
  display_name = "Ann";
}

abbrev late : ExternalAccessSnapshot
late = record {
  config_version = "1";
  token_hash = "b";
  issued_at = 40;
  expires_at = 90;
  grants = [];
}

refused_late :
    resolve_external repo codec (some policy) 60 61 login (some late) store
    ≡ (err (forbidden "external_access_stale"), store)
unfolding resolve_external external_in_tx synchronize mapped_grants compare_tokens apply_verdict
    Map.get
refused_late = refl

resolve_external-atomic_example : store ≡ store
resolve_external-atomic_example =
    resolve_external-atomic repo codec (some policy) 60 61 login (some late) store store
      (forbidden "external_access_stale") refused_late

put_lem :
    (id k : String) (new : ExternalAccessState) (s : Store)
    → issued (Map.get (Map.put id new s.states) k)
      ≡ (if id == k then new.issued_at else issued (Map.get s.states k))
put_lem id k new s = ground (arith, get-put s.states id k new)

stores_states : StoresStates repo (λ s k. Map.get s.states k)
stores_states = record {
  gets = λ id s t o h. pure-inv h λ a b. (sym a, sym b);
  upserts = λ i s t u k h. pure-inv h λ a b. ap (λ (x : Store). Map.get x.states k) (sym b);
  replaces = λ id grants new s t k h.
      pure-inv h
        λ a b. ap (λ (x : Store). issued (Map.get x.states k)) (sym b) ∙ put_lem id k new s;
}

abbrev newer : ExternalAccessSnapshot
newer = record late { issued_at = 55 }

resolve_external_newer_example :
    issued (Map.get store.states "u1")
    ≤ issued (
        Map.get
          (resolve_external repo codec (some policy) 60 61 login (some newer) store).1.states
          "u1")
resolve_external_newer_example =
    resolve_external_newer repo codec (λ s k. Map.get s.states k) stores_states (some policy) 60 61
      login (some newer) store "u1"
