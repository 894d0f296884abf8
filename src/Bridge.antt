-- ===== src/Bridge.antt =====
-- internal/usecase/bridge/usecase.go: participants, debug sessions and pending commands of the
-- debug bridge. This file has the data; the operations are below it.
--
-- The three maps of `UseCase` are fields of `State`. What is handed to the delivery port is kept in
-- `trace`, the newest first; whether `Send` succeeds is a parameter, a function of that history.
-- `now` is the clock reading of a call, and the ids that uuid.NewString makes are arguments.
pub mod Delivery
pub mod Sessions
pub mod Exchange
pub mod Directory
pub mod Members
pub mod Handle
pub mod Invariant
pub mod Ending
pub mod Expiry
pub mod Operations
pub mod Commands
pub mod Membership
pub mod Revocation
pub mod Steps
pub mod Calls
pub mod Grants
mod Tests
use service_backend.Prelude.{ℕ, ◌*◌, String, Bool, Option, List}
use service_backend.Prelude.Map.{Map}
use service_backend.Entities.{Actor}

abbrev pub second : ℕ
second = 1000000000

abbrev pub request_ttl : ℕ
request_ttl = 45 * second

abbrev pub session_ttl : ℕ
session_ttl = 1800 * second

abbrev pub max_event_bytes : ℕ
max_event_bytes = 1024 * 1024

abbrev pub max_inspection_bytes : ℕ
max_inspection_bytes = 15 * 1024 * 1024

abbrev pub max_command_bytes : ℕ
max_command_bytes = 64 * 1024

-- workspaceAccess
pub record BridgeAccess : Type 0 where
  pub role : String
  pub display_name : String

pub record BridgePrincipal : Type 0 where
  pub user_id : String
  pub session_id : String
  pub expires_at : ℕ

pub record BridgeHello : Type 0 where
  pub all_workspaces : Bool
  pub protocol : ℕ
  pub workspace_identity : String
  pub label : String
  pub debug : Bool

pub record BridgeConfigurator : Type 0 where
  pub workspace_display_name : String
  pub instance_id : String
  pub user_id : String
  pub display_name : String
  pub label : String

pub record BridgeClient : Type 0 where
  pub workspace_identity : String
  pub workspace_display_name : String
  pub instance_id : String
  pub label : String

pub record BridgeSession : Type 0 where
  pub session_id : String
  pub client_id : String
  pub configurator_id : String

-- The `data` of a message: the JSON text of a received message, or what the use case marshals.
pub data Payload : Type 0 where
  absent null_value : Payload
  raw : String → Payload
  welcome : String → Payload
  session_requested : String → String → String → ℕ → Payload
  session_info : BridgeSession → Payload
  configurator_list : List BridgeConfigurator → Payload
  client_list : List BridgeClient → Payload

pub record BridgeMessage : Type 0 where
  pub kind : String
  pub id : String
  pub session_id : String
  pub target_id : String
  pub identity : String
  pub expected_hash : String
  pub accepted : Bool
  pub body : Payload
  pub error : String

pub record Participant : Type 0 where
  pub all_workspaces : Bool
  pub workspaces : Map BridgeAccess
  pub id : String
  pub role : String
  pub workspace : String
  pub label : String
  pub workspace_display_name : String
  pub principal : BridgePrincipal
  pub actor : Actor
  pub debug : Bool
  pub access_role : String
  pub last_request : ℕ

pub record Session : Type 0 where
  pub info : BridgeSession
  pub open info use *
  pub workspace : String
  pub request_id : String
  pub active : Bool
  pub deadline : ℕ

pub record Command : Type 0 where
  pub session_id : String
  pub request_id : String
  pub deadline : ℕ

-- a call of the delivery port
pub data Effect : Type 0 where
  sent : String → BridgeMessage → Effect
  closed : String → Effect

pub record State : Type 0 where
  pub peers : Map Participant
  pub sessions : Map Session
  pub commands : Map Command
  pub trace : List Effect

-- the delivery port's answers and json.Valid
pub record Port : Type 0 where
  pub accepts : List Effect → String → BridgeMessage → Bool
  pub valid_json : String → Bool
