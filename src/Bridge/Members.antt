-- ===== src/Bridge/Members.antt =====
-- Who takes part: Join, Check and Leave of internal/usecase/bridge/usecase.go.
use Prim.Native.String.{len}
use service_backend.Prelude.{
  ℕ, ◌+◌, String, Bool, true, false, not, ◌&&◌, ◌||◌, ◌==◌, ltb, leb, eqb, Option, none, some, [],
  ◌∷◌, if◌then◌else◌, is_some, length,
}
use service_backend.Prelude.Map
use service_backend.Prelude.Map.{Map}
use service_backend.Errors.{Result, ok, err, fault, ◌>>=◌}
use service_backend.Entities.{Actor}
use service_backend.Exec.{Exec, pure, raise}
use service_backend.Bridge.{
  BridgeAccess, BridgePrincipal, BridgeHello, Participant, Session, State, welcome, session_ttl,
}
use service_backend.Bridge.Directory.{Directory, Authorization, authorize}
use service_backend.Bridge.Delivery.{send, can_debug, broadcast}
use service_backend.Bridge.Sessions.{end_where}

-- the conditions of the three early returns of Join
unfoldable pub hello_error : Bool → String → BridgeHello → Option String
hello_error debug_enabled role hello =
    if not (eqb hello.protocol 1)
      || (hello.workspace_identity == ""
          && not (role == "configurator" && hello.debug && hello.all_workspaces))
      || ltb 160 (len hello.workspace_identity)
      || ltb 160 (len hello.label)
      || (not (role == "client") && not (role == "configurator"))
    then some "Invalid bridge registration"
    else if hello.all_workspaces && (not (role == "configurator") || not hello.debug)
    then some "Invalid discovery scope"
    else if role == "client" && (not debug_enabled || not hello.debug)
    then some "Client debug is disabled"
    else none

abbrev pub newcomer : Bool → String → String → BridgePrincipal → BridgeHello → ℕ → Participant
newcomer debug_enabled id role principal hello now = record {
  all_workspaces = hello.all_workspaces;
  workspaces = [];
  id = id;
  role = role;
  workspace = hello.workspace_identity;
  label = hello.label;
  workspace_display_name = "";
  principal =
      (if role == "configurator" && eqb principal.expires_at 0
        then record principal { expires_at = now + session_ttl }
        else principal);
  actor = record { id = ""; username = ""; display_name = "" };
  debug = hello.debug && debug_enabled;
  access_role = "";
  last_request = 0;
}

abbrev pub with_authorization : Participant → Authorization → Participant
with_authorization p a = record p {
  actor = a.actor;
  access_role = a.role;
  workspace_display_name = a.workspace_name;
  workspaces = a.permissions;
}

-- the participant that Join is about to register: a configurator is authorized first
unfoldable pub admitted : Directory → ℕ → Participant → Result Participant
admitted dir now p =
    if p.role == "configurator"
    then (do a ← authorize dir now p; ok (with_authorization p a))
    else ok p

-- what Join counts against its limit
abbrev pub competes : Participant → Participant → Bool
competes p other =
    other.role == p.role
    && ((not p.all_workspaces && other.workspace == p.workspace)
        || (p.all_workspaces && other.principal.user_id == p.principal.user_id))

unfoldable pub competitors : Participant → Map Participant → ℕ
competitors p [] = 0
competitors p ((k, other) ∷ peers) = (if competes p other then 1 else 0) + competitors p peers

abbrev pub registered : Participant → State → State
registered p st =
    let peers = Map.put p.id p st.peers in
    record st {
      peers = peers;
      trace = broadcast p.workspace peers (send p.id "welcome" (welcome p.id) st.trace);
    }

-- the part of Join under the lock
unfoldable pub register : Participant → Exec State (Unit {0})
unfolding competitors
register p st =
    if is_some (Map.get st.peers p.id)
    then raise (fault "Already registered") st
    else if leb 64 (competitors p st.peers)
    then raise (fault "Workspace connection limit reached") st
    else pure tt (registered p st)

abbrev pub register_admitted : Result Participant → Exec State (Unit {0})
register_admitted (ok p) st = register p st
register_admitted (err e) st = raise e st

-- Join
unfoldable pub join :
    Bool → Directory → ℕ → String → String → BridgePrincipal → BridgeHello → Exec State (Unit {0})
unfolding hello_error admitted register
join debug_enabled dir now id role principal hello st =
    elim (hello_error debug_enabled role hello) [
      | some e ↦ raise (fault e) st
      | none ↦
          register_admitted (admitted dir now (newcomer debug_enabled id role principal hello now))
            st
    ]

abbrev same_actor : Actor → Actor → Bool
same_actor a b = a.id == b.id && a.username == b.username && a.display_name == b.display_name

abbrev same_access : Option BridgeAccess → BridgeAccess → Bool
same_access none b = false
same_access (some a) b = a.role == b.role && a.display_name == b.display_name

pub all_in : Map BridgeAccess → Map BridgeAccess → Bool
all_in m [] = true
all_in m ((k, b) ∷ rest) = same_access (Map.get m k) b && all_in m rest

-- maps.Equal
abbrev same_permissions : Map BridgeAccess → Map BridgeAccess → Bool
same_permissions m n = eqb (length m) (length n) && all_in m n

abbrev pub changed : Participant → Authorization → Bool
changed p a =
    not (p.access_role == a.role)
    || not (same_actor p.actor a.actor)
    || not (p.workspace_display_name == a.workspace_name)
    || not (same_permissions p.workspaces a.permissions)

-- a configurator's session that its new permissions do not cover
abbrev pub revoked : String → Participant → Session → Bool
revoked id p s = s.configurator_id == id && not (can_debug p s.workspace)

-- the part of Check after a successful authorization
unfoldable pub refresh : String → Participant → Authorization → State → State
unfolding all_in
refresh id p a st =
    let fresh = with_authorization p a in
    let ended =
      end_where (revoked id fresh) "Debug access revoked"
        (record st { peers = Map.put id fresh st.peers }) in
    if changed p a
    then record ended { trace = broadcast p.workspace ended.peers ended.trace }
    else ended

abbrev pub refresh_if : String → Participant → Result Authorization → State → Bool × State
refresh_if id p (ok a) st = (true, refresh id p a st)
refresh_if id p (err e) st = (false, st)

abbrev pub check_found : Directory → ℕ → String → Option Participant → State → Bool × State
check_found dir now id none st = (false, st)
check_found dir now id (some p) st =
    if p.role == "client" then (true, st) else refresh_if id p (authorize dir now p) st

-- Check
unfoldable pub check : Directory → ℕ → String → State → Bool × State
unfolding refresh
check dir now id st = check_found dir now id (Map.get st.peers id) st

abbrev pub left_by : String → Option Participant → State → State
left_by id none st = st
left_by id (some p) st =
    let gone = record st { peers = Map.delete id st.peers } in
    let ended =
      end_where (λ s. s.client_id == id || s.configurator_id == id) "Connection closed" gone in
    record ended { trace = broadcast p.workspace ended.peers ended.trace }

-- Leave
unfoldable pub leave : String → State → State
leave id st = left_by id (Map.get st.peers id) st
