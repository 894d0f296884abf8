-- ===== src/Auth/Access.antt =====
-- What internal/auth/session_manager.go and external_access.go compute from tokens: expiries, the
-- snapshot of external access, and whether a session's identity is due for a refresh.
use service_backend.Prelude.{
  ℕ, ◌+◌, ◌-◌, ◌*◌, ◌^◌, String, Bool, true, false, not, ◌&&◌, ◌||◌, ◌==◌, eqb, ltb, Option, none,
  some, trim_space, if◌then◌else◌,
}
use Prim.Native.Nat.{◌%◌}
use service_backend.Errors.{Result, ok, err, fault, refuse_if, ◌>>=◌, ◌>>◌}
use service_backend.AccessControl.{ℤ, pos, negsuc, ExternalAccessSnapshot}
use service_backend.Policy.{Policy, external, provider, version, map_claims}
use service_backend.Policy.Pointer.{Value}
use service_backend.Auth.{second, Claims, SessionIdentity, SessionRow, TokenSet, World}

-- now.Add(time.Duration(seconds) * time.Second), with the product in 64 bits
abbrev after_seconds : ℕ → ℕ → ℕ
after_seconds now seconds =
    let d = (seconds * second) % 2 ^ 64 in if ltb d (2 ^ 63) then now + d else now - (2 ^ 64 - d)

-- the first `if` of tokenExpiry; `none` is the zero time
abbrev pub granted_until : ℕ → ℤ → Option ℕ
granted_until now (negsuc n) = none
granted_until now (pos n) = if eqb n 0 then none else some (after_seconds now n)

-- the second `if` of tokenExpiry
abbrev pub earlier : Option ℕ → ℕ → ℕ
earlier none claims_expiry = claims_expiry
earlier (some t) claims_expiry =
    if not (eqb claims_expiry 0) && ltb claims_expiry t then claims_expiry else t

-- tokenExpiry
unfoldable pub token_expiry : ℕ → ℤ → ℕ → ℕ
token_expiry now expires_in claims_expiry = earlier (granted_until now expires_in) claims_expiry

-- the snapshot that MapExternalAccess makes of claims with the attributes `v`
abbrev snapshot_of : World → Option Policy → Claims → Value → ExternalAccessSnapshot
snapshot_of w policy c v = record {
  config_version = version policy;
  token_hash = c.token_hash;
  issued_at = c.issued_at;
  expires_at = c.expires_at;
  grants = map_claims w.equal_numbers policy v;
}

abbrev mapped :
    World → Option Policy → ℕ → Claims → Option Value → Result (Option ExternalAccessSnapshot)
mapped w policy now c none = err (fault "external access requires verified access token with iat")
mapped w policy now c (some v) =
    if not (c.provider_id == provider policy) || eqb c.issued_at 0 || c.token_hash == ""
    then err (fault "external access requires verified access token with iat")
    else if not (ltb now c.expires_at)
        || ltb (now + 30 * second) c.issued_at
        || not (ltb c.issued_at c.expires_at)
    then err (fault "external access token timestamps are invalid")
    else ok (some (snapshot_of w policy c v))

-- MapExternalAccess
unfoldable pub map_external_access :
    World → Option Policy → ℕ → Claims → Result (Option ExternalAccessSnapshot)
map_external_access w policy now c =
    if not (external policy) then ok none else mapped w policy now c c.attributes

abbrev pub narrowed : Claims → Claims → Option ExternalAccessSnapshot → Claims
narrowed identity access snapshot = record identity {
  external_access = snapshot;
  platform_admin = false;
  expires_at =
      (if ltb access.expires_at identity.expires_at
        then access.expires_at
        else identity.expires_at);
}

-- withExternalAccess
unfoldable pub with_external_access : World → Option Policy → ℕ → Claims → String → Result Claims
unfolding map_external_access
with_external_access w policy now identity access_token =
    if not (external policy) then ok identity else (do
      access ← w.resolve_token access_token
      refuse_if
          (not (access.provider_id == identity.provider_id)
            || not (access.issuer == identity.issuer)
            || not (access.subject == identity.subject))
          (fault "access token identity does not match login identity")
      snapshot ← map_external_access w policy now access
      ok (narrowed identity access snapshot))

-- the token that the identity is read from
abbrev pub claims_token : TokenSet → String
claims_token t = if t.identity_token == "" then t.access_token else t.identity_token

-- encryptOptional
abbrev pub encrypt_optional : World → String → Result String
encrypt_optional w value = if trim_space value == "" then ok "" else w.encrypt value

-- decryptOptional
abbrev pub decrypt_optional : World → String → Result String
decrypt_optional w value = if value == "" then ok "" else w.decrypt value

-- sessionRecord.identity
abbrev pub identity_of : SessionRow → SessionIdentity
identity_of r = record {
  claims = record {
    provider_id = r.provider_id;
    subject = r.subject;
    issuer = r.issuer;
    username = r.username;
    display_name = r.display_name;
    nonce = "";
    groups = r.groups;
    platform_admin = r.platform_admin;
    expires_at = r.identity_refresh_at;
    issued_at = 0;
    token_hash = "";
    attributes = none;
    external_access = r.external_access;
  };
  session_id = r.id;
}

abbrev outdated : Option Policy → ℕ → Option ExternalAccessSnapshot → Bool
outdated policy now none = true
outdated policy now (some s) =
    not (s.config_version == version policy) || not (ltb (now + 30 * second) s.expires_at)

-- identityRefreshDue
unfoldable pub refresh_due : Option Policy → SessionRow → ℕ → Bool
refresh_due policy r now =
    external policy && outdated policy now r.external_access
    || not (ltb (now + 30 * second) r.identity_refresh_at)
