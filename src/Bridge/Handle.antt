-- ===== src/Bridge/Handle.antt =====
-- Handle and Sweep of internal/usecase/bridge/usecase.go.
use Prim.Native.String.{len}
use service_backend.Prelude.{
  ℕ, String, Bool, true, false, not, ◌&&◌, ◌||◌, ◌==◌, ltb, Option, none, some, ◌∷◌, if◌then◌else◌,
}
use service_backend.Prelude.Map
use service_backend.Prelude.Map.{Map}
use service_backend.Errors.{Result, fault}
use service_backend.Exec.{Exec, pure, raise}
use service_backend.Bridge.{
  BridgeMessage, null_value, Participant, Session, Command, State, Port, closed,
}
use service_backend.Bridge.Delivery.{message, deliver, result}
use service_backend.Bridge.Sessions.{end, expire, request_session, accept_session}
use service_backend.Bridge.Exchange.{request_command, forward_client_event}
use service_backend.Bridge.Members.{check, leave}
use service_backend.Bridge.Directory.{Directory}

-- the cases of the `switch` on the message's type
pub data Operation : Type 0 where
  requests_session accepts_session ends_session commands forwards answers unsupported : Operation

abbrev is_command : String → Bool
is_command kind =
    kind == "getSnapshot"
    || kind == "startContextSync"
    || kind == "executeCommand"
    || kind == "runSimulation"
    || kind == "refreshInspection"
    || kind == "setInspectionOptions"

abbrev is_client_event : String → Bool
is_client_event kind =
    kind == "clientEvent" || kind == "inspectionSnapshot" || kind == "inspectionChunk"

unfoldable pub operation_of : String → Operation
operation_of kind =
    if kind == "requestSession"
    then requests_session
    else if kind == "acceptSession"
    then accepts_session
    else if kind == "endSession"
    then ends_session
    else if is_command kind
    then commands
    else if is_client_event kind
    then forwards
    else if kind == "commandResult"
    then answers
    else unsupported

abbrev pub end_session : String → BridgeMessage → Option Session → Exec State (Unit {0})
end_session id m none st = raise (fault "Session is not available") st
end_session id m (some s) st =
    if not (s.client_id == id) && not (s.configurator_id == id)
    then raise (fault "Session is not available") st
    else (let ended = end m.session_id "Session ended" st in
        pure tt (record ended { trace = result id m.id null_value "" ended.trace }))

abbrev pub answered : BridgeMessage → Session → Command → State → State
answered m s pending st = record st {
  commands = Map.delete m.id st.commands;
  trace =
      deliver s.configurator_id
        (record (message "result" m.body) { id = pending.request_id; error = m.error }) st.trace;
}

abbrev pub answer : String → BridgeMessage → Option Session → Option Command → Exec State (Unit {0})
answer id m none pending st = raise (fault "Command is not pending") st
answer id m (some s) none st = raise (fault "Command is not pending") st
answer id m (some s) (some pending) st =
    if not s.active || not (s.client_id == id) || not (pending.session_id == s.session_id)
    then raise (fault "Command is not pending") st
    else pure tt (answered m s pending st)

-- the `switch` of Handle; `new_id` is the id that the operation would draw
unfoldable pub perform :
    Operation → Port → String → Participant → BridgeMessage → String → ℕ → Exec State (Unit {0})
perform requests_session port id p m new_id now st = request_session p m new_id now st
perform accepts_session port id p m new_id now st = accept_session p m now st
perform ends_session port id p m new_id now st =
    end_session id m (Map.get st.sessions m.session_id) st
perform commands port id p m new_id now st = request_command port p m new_id now st
perform forwards port id p m new_id now st = forward_client_event port p m st
perform answers port id p m new_id now st =
    answer id m (Map.get st.sessions m.session_id) (Map.get st.commands m.id) st
perform unsupported port id p m new_id now st = raise (fault "Unsupported bridge operation") st

abbrev pub perform_as :
    Port → String → Option Participant → BridgeMessage → String → ℕ → State → Exec State (Unit {0})
perform_as port id none m new_id now late st = raise (fault "Connection is not registered") st
perform_as port id (some p) m new_id now late st =
    perform (operation_of m.kind) port id p m new_id now late

-- the second locked section of Handle: expire, then the operation
unfoldable pub operate : Port → String → BridgeMessage → String → ℕ → Exec State (Unit {0})
operate port id m new_id now st =
    perform_as port id (Map.get st.peers id) m new_id now (expire now st) st

abbrev pub from_client : String → Bool
from_client kind = kind == "acceptSession" || kind == "commandResult" || is_client_event kind

abbrev pub controller_of : Option Session → String
controller_of none = ""
controller_of (some s) = s.configurator_id

abbrev pub dropped : String → Bool × State → State
dropped controller (true, st) = st
dropped controller (false, st) =
    let gone = leave controller st in record gone { trace = closed controller ∷ gone.trace }

-- the controlling configurator is checked before a client's answer reaches it
unfoldable pub guard_controller : Directory → ℕ → BridgeMessage → State → State
guard_controller dir now m st =
    let controller = controller_of (Map.get st.sessions m.session_id) in
    if from_client m.kind && not (controller == "")
    then dropped controller (check dir now controller st)
    else st

unfoldable pub too_long : BridgeMessage → Bool
too_long m =
    ltb 80 (len m.id)
    || ltb 80 (len m.session_id)
    || ltb 80 (len m.target_id)
    || ltb 160 (len m.identity)
    || ltb 512 (len m.error)

abbrev pub after_check :
    Directory
    → Port
    → String
    → BridgeMessage
    → String
    → ℕ
    → Bool × State
    → Result (Unit {0}) × State
after_check dir port id m new_id now (false, st) = raise (fault "Authorization expired") st
after_check dir port id m new_id now (true, st) =
    operate port id m new_id now (guard_controller dir now m st)

-- Handle
unfoldable pub handle :
    Directory → Port → String → BridgeMessage → String → ℕ → Exec State (Unit {0})
unfolding guard_controller operate too_long
handle dir port id m new_id now st =
    if too_long m
    then raise (fault "Invalid bridge message") st
    else after_check dir port id m new_id now (check dir now id st)

-- Sweep
unfoldable pub sweep : ℕ → State → State
sweep now st = expire now st
