-- ===== src/AccessControl/Snapshot.antt =====
-- The decisions of resolveExternalActor in internal/usecase/access_control/external.go: is the
-- snapshot usable, what grants does it stand for, and is it newer than what is stored.
use service_backend.Prelude.{
  ℕ, String, Bool, false, not, ◌&&◌, ◌||◌, ◌==◌, eqb, ltb, Option, none, some, List, [], ◌∷◌,
  if◌then◌else◌,
}
use service_backend.Errors.{Result, ok, err, ◌>>=◌, forbidden}
use service_backend.Entities.{User}
use service_backend.Policy.{Policy, MappedAccessGrant, version, provider}
use service_backend.Access.Authorize.{WorkspaceRepository}
use service_backend.AccessControl.{
  AccessGrantInput, ExternalAccessSnapshot, ExternalAccessState, UpsertCurrentUserInput,
}

-- the target of one mapped grant; `none` for the platform
unfoldable pub mapped_target : WorkspaceRepository → MappedAccessGrant → Result (Option String)
mapped_target workspaces g = if g.scope == "platform" then ok none else (do
  w ← workspaces.get_workspace g.workspace
  if w.active then ok (some w.id) else err (forbidden "external_access_workspace_inactive"))

-- the loop over the snapshot's grants: the platform flag, and the grants in their order
unfoldable pub mapped_grants :
    WorkspaceRepository → User → List MappedAccessGrant → Result (Bool × List AccessGrantInput)
unfolding mapped_target
mapped_grants workspaces user [] = ok (false, [])
mapped_grants workspaces user (g ∷ gs) = do
  target ← mapped_target workspaces g
  (platform, rest) ← mapped_grants workspaces user gs
  ok (
    g.scope == "platform" || platform,
    record {
      user_id = user.id;
      scope_type = g.scope;
      workspace_id = target;
      role = g.role;
      actor_id = user.id;
    }
        ∷ rest,
  )

-- the comparison with the state of an earlier token: refuse, nothing to do, or replace
pub data Verdict : Type 0 where
  stale ambiguous unchanged replace : Verdict

unfoldable pub compare_tokens : ExternalAccessState → Option ExternalAccessState → Verdict
compare_tokens new none = replace
compare_tokens new (some previous) =
    let same_time =
      new.config_version == previous.config_version && eqb new.issued_at previous.issued_at in
    if ltb new.issued_at previous.issued_at
    then stale
    else if same_time
        && not (new.token_hash == previous.token_hash)
        && not (new.grants_hash == previous.grants_hash)
    then ambiguous
    else if same_time && new.grants_hash == previous.grants_hash
    then unchanged
    else replace

-- the first `if` of resolveExternalActor
abbrev pub unusable : Option Policy → ℕ → UpsertCurrentUserInput → ExternalAccessSnapshot → Bool
unusable policy now input s =
    not (s.config_version == version policy)
    || not (input.provider_id == provider policy)
    || eqb s.issued_at 0
    || s.token_hash == ""
    || not (ltb now s.expires_at)
