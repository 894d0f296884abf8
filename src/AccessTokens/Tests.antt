-- ===== src/AccessTokens/Tests.antt =====
-- Issuing and using one token, over a store that holds a credential or nothing.
use Prim.Native.String.{◌++◌}
use service_backend.Prelude.{
  ℕ, ◌+◌, ◌*◌, String, ◌≡◌, refl, true, false, none, some, [], ◌∷◌, trim_space,
}
use service_backend.Errors.{ok, err, row_missing, not_found}
use service_backend.Entities.{User, Workspace, AccessToken, status}
use service_backend.Access.Context.{RequestContext, Caller, actor}
use service_backend.Access.Authorize.{WorkspaceRepository}
use service_backend.AccessTokens.{
  second, CreateInput, Created, AccessTokenCredential, AccessTokenRepository, Crypto,
  valid_secret_format, session_actor, validate_create, normalize, prepare, secret_of,
}
use service_backend.AccessTokens.Operations.{revoke, accept, authenticate, principal_of}
use service_backend.AccessTokens.Issue.{IsPermitted, prepare-IsPermitted}
use service_backend.AccessTokens.Authentication.{IsAccepted, authenticate-IsAccepted, revoke_hides}

abbrev ann : User
ann = record {
  id = "u1";
  provider_id = "idp";
  subject = "ann";
  issuer = "https://idp";
  username = "ann";
  display_name = "Ann";
  active = true;
}

abbrev main : Workspace
main = record {
  id = "w1";
  identity = "main";
  display_name = "Main";
  active = true;
  deleted_at = none;
}

abbrev token : AccessToken
token = record {
  id = "t1";
  owner = record { id = "u1"; username = "ann"; display_name = "Ann" };
  workspace_id = "w1";
  workspace_identity = "main";
  name = "ci";
  description = "";
  scope = "write";
  can_commit = true;
  can_delete = false;
  token_prefix = "endge_pat_abcdefgh";
  expires_at = 90 * second;
  last_used_at = none;
  revoked_at = none;
}

-- 43 characters
abbrev body : String
body = "abcdefghijklmnopqrstuvwxyzABCDEFGHIJKLMNOPQ"

abbrev crypto : Crypto
crypto = record { sha256 = λ s. "sha256:" ++ s; is_raw_url_base64 = λ s. true }

abbrev credential : AccessTokenCredential
credential = record { token = token; secret_hash = crypto.sha256 (secret_of body); owner = ann }

-- a store with the one token; the state counts the writes
abbrev tokens : AccessTokenRepository ℕ
tokens = record {
  create_access_token = λ i n. (ok token, n + 1);
  list_access_tokens = λ owner n. (ok (token ∷ []), n);
  get_access_token = λ id n. (ok token, n);
  find_access_token_credential = λ hash n. (ok credential, n);
  revoke_access_token = λ id by n. (ok tt, n + 1);
  touch_access_token = λ id interval n. (ok tt, n + 1);
}

abbrev empty : AccessTokenRepository ℕ
empty = record tokens { get_access_token = λ id n. (err row_missing, n) }

abbrev database : WorkspaceRepository
database = record {
  get_workspace = λ identity. ok main;
  list_workspaces = λ user platform. ok (main ∷ []);
  workspace_role = λ w user platform. ok "admin";
  list_deleted_workspaces = λ user platform. ok [];
  deleted_workspace_role = λ w user platform. ok "";
}

abbrev by : User → RequestContext
by u = record {
  current_actor = some (record { user = some u; platform_admin = false });
  workspace_access = none;
  access_token = none;
}

abbrev input : CreateInput
input = record {
  workspace_identity = "main";
  name = "ci";
  description = "";
  scope = "write";
  can_commit = true;
  can_delete = false;
  expires_at = 90 * second;
}

abbrev prepared : Caller × CreateInput × Workspace
prepared = (record { user = ann; platform_admin = false }, input, main)

accepted_input : prepare database (3600 * second) 0 (by ann) input ≡ ok prepared
unfolding prepare session_actor actor validate_create normalize trim_space
accepted_input = refl

prepare-IsPermitted_example : IsPermitted database (3600 * second) 0 (by ann) prepared
prepare-IsPermitted_example =
    prepare-IsPermitted database (3600 * second) 0 (by ann) input prepared accepted_input

abbrev made : Created
made = record { token = token; secret = secret_of body }

was_accepted :
    authenticate tokens crypto (30 * second) (secret_of body) 0
    ≡ (ok (principal_of tokens credential), 1)
unfolding authenticate accept status valid_secret_format secret_of
was_accepted = refl

authenticate-IsAccepted_example :
    IsAccepted tokens crypto (30 * second) (secret_of body) 0 (principal_of tokens credential)
authenticate-IsAccepted_example =
    authenticate-IsAccepted tokens crypto (30 * second) (secret_of body) 0 1
      (principal_of tokens credential) was_accepted

abbrev bob : User
bob = record ann { id = "u2"; username = "bob" }

bob_here : session_actor (by bob) ≡ ok (record { user = bob; platform_admin = false })
unfolding session_actor actor
bob_here = refl

revoke_hides_example :
    ((revoke tokens (by bob) "t1" 5).0 ≡ (revoke empty (by bob) "t1" 5).0)
    × ((revoke tokens (by bob) "t1" 5).0 ≡ err (not_found "access_token_not_found"))
    × ((revoke tokens (by bob) "t1" 5).1 ≡ 5)
    × ((revoke empty (by bob) "t1" 5).1 ≡ 5)
revoke_hides_example =
    revoke_hides tokens empty (by bob) "t1" (record { user = bob; platform_admin = false }) token 5
      5 5 bob_here refl refl refl refl
