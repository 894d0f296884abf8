-- ===== src/AccessTokens/Authentication.antt =====
-- What a secret is accepted for, and who may revoke a token.
use Prim.Native.String.{len}
use text.Mathlib.TextPositions.{starts_with-append, slice-append_right, len-append}
use service_backend.Prelude.{
  ℕ, ◌<◌, String, ◌≡◌, true, false, not, ◌==◌, none, arith, refl, trim_space, eq_iff, ap, subst,
  sym,
}
use service_backend.Errors.{Result, ok, err, row_missing, not_found}
use service_backend.Entities.{AccessToken, TokenStatus, status, active, expired, revoked}
use service_backend.Access.Context.{RequestContext, Caller}
use service_backend.Exec
use service_backend.AccessTokens.{
  AccessTokenRepository, AccessTokenCredential, Authenticated, Crypto, valid_secret_format,
  secret_of, session_actor,
}
use service_backend.AccessTokens.Operations.{
  accept, authenticate, revoke, invalid_token, principal_of,
}

-- a secret made from 43 characters of base64 has the format that authentication asks for
valid_secret_format-secret_of :
    (crypto : Crypto) (body : String)
    → len body ≡ 43
    → crypto.is_raw_url_base64 body ≡ true
    → valid_secret_format crypto (secret_of body) ≡ true
unfolding valid_secret_format secret_of
valid_secret_format-secret_of crypto body l b = ground (
  arith,
  starts_with-append "endge_pat_" body,
  len-append "endge_pat_" body,
  slice-append_right "endge_pat_" body,
)

-- A token is active exactly if it was not revoked and has not reached its expiry; a revoked one
-- counts as revoked also after its expiry.
pub status_active :
    (t : AccessToken) (now : ℕ)
    → status t now ≡ active
    → (t.revoked_at ≡ none) × (now < t.expires_at)
unfolding status
status_active t now h = (ground arith, ground arith)

-- What an answer takes from the credential.
pub record IsPrincipal (c : AccessTokenCredential) (a : Authenticated) : Type 0 where
  pub token_id : a.principal.token_id ≡ c.token.id
  pub user_id : a.principal.user_id ≡ c.owner.id
  pub workspace_id : a.principal.workspace_id ≡ c.token.workspace_id
  pub workspace_identity : a.principal.workspace_identity ≡ c.token.workspace_identity
  pub scope : a.principal.scope ≡ c.token.scope
  pub can_commit : a.principal.can_commit ≡ c.token.can_commit
  pub can_delete : a.principal.can_delete ≡ c.token.can_delete
  pub expires_at : a.principal.expires_at ≡ c.token.expires_at
  pub no_platform_role : a.principal.owner_platform_admin ≡ false
  pub owner : a.owner ≡ c.owner

-- What an accepted secret stands for.
pub record IsAccepted {S : Type 0} (tokens : AccessTokenRepository S) (crypto : Crypto) (now : ℕ)
    (secret : String) (s : S) (a : Authenticated) : Type 0 where
  pub well_formed : valid_secret_format crypto secret ≡ true
  pub credential : AccessTokenCredential
  pub after_find : S
  pub found :
      tokens.find_access_token_credential (crypto.sha256 secret) s ≡ (ok credential, after_find)
  pub same_hash : credential.secret_hash ≡ crypto.sha256 secret
  pub not_revoked : credential.token.revoked_at ≡ none
  pub not_expired : now < credential.token.expires_at
  pub answer : IsPrincipal credential a

module _ {S : Type 0} (tokens : AccessTokenRepository S) (crypto : Crypto) (now : ℕ) where
  principal_of-IsPrincipal : (c : AccessTokenCredential) → IsPrincipal c (principal_of tokens c)
  principal_of-IsPrincipal c = record {
    token_id = refl;
    user_id = refl;
    workspace_id = refl;
    workspace_identity = refl;
    scope = refl;
    can_commit = refl;
    can_delete = refl;
    expires_at = refl;
    no_platform_role = refl;
    owner = refl;
  }

  accept-inv :
      (c : AccessTokenCredential) (st : TokenStatus) (s s' : S) (a : Authenticated)
      → accept tokens now c st s ≡ (ok a, s')
      → (st ≡ active) × (a ≡ principal_of tokens c)
  unfolding accept
  accept-inv c revoked s s' a h = cc (ap (λ (q : Result Authenticated × S). q.0) h)
  accept-inv c expired s s' a h = cc (ap (λ (q : Result Authenticated × S). q.0) h)
  accept-inv c active s s' a h = (refl, ground arith)

  -- An accepted secret is well formed; its credential was found under its hash and stores that
  -- hash; the token is neither revoked nor expired; and the answer carries the credential's owner and
  -- the token's id, workspace, scope, flags and expiry, with no platform role.
  pub authenticate-IsAccepted :
      (secret : String) (s s' : S) (a : Authenticated)
      → authenticate tokens crypto now secret s ≡ (ok a, s')
      → IsAccepted tokens crypto now secret s a
  unfolding authenticate
  authenticate-IsAccepted secret s s' a h =
      Exec.raise_if-inv (not (valid_secret_format crypto secret)) invalid_token _ s h λ format h1.
        Exec.>>=-inv
          (Exec.not_found_as invalid_token
            (tokens.find_access_token_credential (crypto.sha256 secret)))
          _ s h1
          λ c t ec h2.
            Exec.raise_if-inv (not (c.secret_hash == crypto.sha256 secret)) invalid_token _ t h2
              λ same h3.
                let (live, says) = accept-inv c (status c.token now) t s' a h3 in
                let (unrevoked, in_time) = status_active c.token now live in
                record {
                  well_formed = ground arith;
                  credential = c;
                  after_find = t;
                  found =
                      Exec.not_found_as-inv invalid_token
                        (tokens.find_access_token_credential (crypto.sha256 secret)) s ec;
                  same_hash = ground (arith, eq_iff c.secret_hash (crypto.sha256 secret));
                  not_revoked = unrevoked;
                  not_expired = in_time;
                  answer = subst (IsPrincipal c) (sym says) (principal_of-IsPrincipal c);
                }

-- A caller who is no platform administrator cannot tell someone else's token from a missing one:
-- revoking gives the same 404, and the store is as the lookup left it, in both cases.
pub revoke_hides :
    {S : Type 0} (tokens others : AccessTokenRepository S) (ctx : RequestContext) (id : String)
    (c : Caller) (token : AccessToken) (s t u : S)
    → session_actor ctx ≡ ok c
    → c.platform_admin ≡ false
    → tokens.get_access_token (trim_space id) s ≡ (ok token, t)
    → (token.owner.id == c.user.id) ≡ false
    → others.get_access_token (trim_space id) s ≡ (err row_missing, u)
    → ((revoke tokens ctx id s).0 ≡ (revoke others ctx id s).0)
      × ((revoke tokens ctx id s).0 ≡ err (not_found "access_token_not_found"))
      × ((revoke tokens ctx id s).1 ≡ t)
      × ((revoke others ctx id s).1 ≡ u)
unfolding revoke
revoke_hides tokens others ctx id c token s t u ec plain et foreign missing = (
  rw (ec, et, foreign, plain, missing),
  rw (ec, et, foreign, plain),
  rw (ec, et, foreign, plain),
  rw (ec, missing),
)
