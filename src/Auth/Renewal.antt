-- ===== src/Auth/Renewal.antt =====
-- refresh of internal/auth/session_manager.go up to its UPDATE: new tokens, and the claims in them.
-- An error that the code wraps with %w passes through as it is.
use service_backend.Prelude.{ℕ, String, Bool, not, ◌&&◌, ◌==◌, Option, if◌then◌else◌}
use service_backend.Errors.{Result, ok, err, fault, refuse_if, ◌>>=◌, ◌>>◌}
use service_backend.Policy.{Policy}
use service_backend.Auth.{Claims, SessionRow, Times, World}
use service_backend.Auth.Access.{
  with_external_access, claims_token, encrypt_optional, decrypt_optional, token_expiry,
}

-- the new values of the UPDATE
pub record Renewal : Type 0 where
  pub claims : Claims
  pub refresh_encrypted : String
  pub refresh_at : ℕ

abbrev pub same_identity : Claims → SessionRow → Bool
same_identity c r = c.provider_id == r.provider_id && c.subject == r.subject && c.issuer == r.issuer

abbrev pub kept_token : String → String → String
kept_token new old = if new == "" then old else new

-- any error of `m` becomes the text `e`
abbrev pub or_fault {ℓ} : {A : Type ℓ} → String → Result A → Result A
or_fault e (ok a) = ok a
or_fault e (err x) = err (fault e)

unfoldable pub renewal : World → Option Policy → Times → SessionRow → Result Renewal
unfolding with_external_access token_expiry
renewal w policy t row = do
  old ← or_fault "configurator session has expired" (decrypt_optional w row.refresh_token_encrypted)
  refuse_if (old == "") (fault "configurator session has expired")
  adapter ← w.current_adapter
  tokens ← adapter.refresh old
  claims ← w.resolve_token (claims_token tokens)
  refuse_if (not (same_identity claims row))
      (fault "refreshed Configurator identity does not match the session")
  identity ← with_external_access w policy t.mapping claims tokens.access_token
  encrypted ← encrypt_optional w (kept_token tokens.refresh_token old)
  ok (record {
    claims = identity;
    refresh_encrypted = encrypted;
    refresh_at = token_expiry t.expiry tokens.expires_in identity.expires_at;
  })
