-- ===== src/Auth.antt =====
-- internal/auth/session_manager.go: browser logins and the sessions behind the session cookie.
-- The two tables that the code's SQL reads and writes are lists of rows; this file has the rows,
-- the configuration and the outside world.
--
-- A column that may be NULL holds "" for NULL where the code reads it back as bytes. Which SQL
-- statements fail is up to the world; a failing statement changes nothing.
pub mod Access
pub mod ReturnUrl
pub mod Login
pub mod Renewal
pub mod Sessions
pub mod Dead
pub mod SamePerson
pub mod Identity
pub mod Cleanup
pub mod OneTime
pub mod Redirect
mod Tests
use service_backend.Prelude.{ℕ, ◌*◌, String, Bool, Option, List, ◌==◌, ◌&&◌, not, is_some, ltb}
use service_backend.Errors.{Result}
use service_backend.AccessControl.{ℤ, ExternalAccessSnapshot}
use service_backend.Policy.Pointer.{Value}

abbrev pub second : ℕ
second = 1000000000

abbrev pub day : ℕ
day = 86400 * second

-- Claims
pub record Claims : Type 0 where
  pub provider_id : String
  pub subject : String
  pub issuer : String
  pub username : String
  pub display_name : String
  pub nonce : String
  pub groups : List String
  pub platform_admin : Bool
  pub expires_at : ℕ
  pub issued_at : ℕ
  pub token_hash : String
  pub attributes : Option Value
  pub external_access : Option ExternalAccessSnapshot

pub record SessionIdentity : Type 0 where
  pub claims : Claims
  pub session_id : String

pub record LoginStart : Type 0 where
  pub location : String
  pub browser_nonce : String
  pub expires_at : ℕ

pub record TokenSet : Type 0 where
  pub access_token : String
  pub refresh_token : String
  pub identity_token : String
  pub expires_in : ℤ

-- a row of configurator_auth_transactions
pub record LoginRow : Type 0 where
  pub state_hash : String
  pub browser_nonce_hash : String
  pub verifier_encrypted : String
  pub oidc_nonce_encrypted : String
  pub return_url : String
  pub expires_at : ℕ

-- a row of configurator_auth_sessions
pub record SessionRow : Type 0 where
  pub id : String
  pub token_hash : String
  pub provider_id : String
  pub subject : String
  pub issuer : String
  pub username : String
  pub display_name : String
  pub groups : List String
  pub platform_admin : Bool
  pub refresh_token_encrypted : String
  pub identity_refresh_at : ℕ
  pub expires_at : ℕ
  pub external_access : Option ExternalAccessSnapshot
  pub revoked_at : Option ℕ

pub record Tables : Type 0 where
  pub logins : List LoginRow
  pub sessions : List SessionRow

pub record AuthConfig : Type 0 where
  pub dev : Bool
  pub session_ttl : ℕ
  pub transaction_ttl : ℕ
  pub return_url : String
  pub allowed_return_origins : List String

-- LoginAdapter
pub record LoginAdapter : Type 0 where
  pub login_url : String → String → String → Bool → Result String
  pub exchange : String → String → Result TokenSet
  pub refresh : String → Result TokenSet
  pub logout : String → Result (Unit {0})

-- the SQL statements of the file
pub data Statement : Type 0 where
  begins inserts_login consumes_login inserts_session selects updates_session revokes deletes_logins
        deletes_sessions commits :
      Statement

-- SHA-256, the keyring, the token resolver, the login adapter and the database's health during a call
pub record World : Type 0 where
  pub sha256 : String → String
  pub challenge : String → String
  pub encrypt : String → Result String
  pub decrypt : String → Result String
  pub resolve_token : String → Result Claims
  pub current_adapter : Result LoginAdapter
  pub equal_numbers : String → String → Bool
  pub fails : Statement → Bool

-- the clock readings of one call: the database's at the first read and in the transaction that locks
-- the row, and the code's
pub record Times : Type 0 where
  pub database : ℕ
  pub locked : ℕ
  pub first_check : ℕ
  pub second_check : ℕ
  pub mapping : ℕ
  pub expiry : ℕ

-- sessionSelect: the rows that a cookie may stand for
abbrev pub is_live : String → ℕ → SessionRow → Bool
is_live hash now row =
    row.token_hash == hash && not (is_some row.revoked_at) && ltb now row.expires_at
