-- ===== src/Bridge/Exchange.antt =====
-- requestCommand and forwardClientEvent of internal/usecase/bridge/usecase.go.
use Prim.Native.Char.{Char, code}
use Prim.Native.String.{len}
use service_backend.Prelude.{
  ℕ, ◌+◌, String, Bool, true, false, not, ◌&&◌, ◌||◌, ◌==◌, leb, eqb, Option, none, some, [], ◌∷◌,
  if◌then◌else◌, trim_space,
}
use service_backend.Prelude.Map
use service_backend.Prelude.Map.{Map}
use service_backend.Errors.{fault}
use service_backend.Exec.{Exec, pure, raise}
use service_backend.Bridge.{
  BridgeMessage, Payload, absent, raw, Participant, Session, Command, State, Port, request_ttl,
  max_event_bytes, max_inspection_bytes, max_command_bytes,
}
use service_backend.Bridge.Delivery.{message, deliver, can_debug}
use service_backend.Bridge.Sessions.{belongs_to, end}

is_hash_char : Char → Bool
is_hash_char c = leb 97 (code c) && leb (code c) 102 || leb 48 (code c) && leb (code c) 57

all_hash_chars : String → Bool
unfolding is_hash_char
all_hash_chars String.[] = true
all_hash_chars (String.◌∷◌ c s) = is_hash_char c && all_hash_chars s

-- hashPattern
unfoldable pub is_hash : String → Bool
unfolding all_hash_chars
is_hash s = eqb (len s) 64 && all_hash_chars s

-- `len(m.Data) == 0 || len(m.Data) > limit || !json.Valid(m.Data)`, negated
unfoldable pub valid_payload : Port → ℕ → Payload → Bool
valid_payload port limit (raw t) = not (eqb (len t) 0) && leb (len t) limit && port.valid_json t
valid_payload port limit _ = false

unfoldable pub pending_of : String → Map Command → ℕ
pending_of id [] = 0
pending_of id ((k, c) ∷ cs) = (if belongs_to id c then 1 else 0) + pending_of id cs

abbrev keeps_data : String → Bool
keeps_data kind =
    kind == "executeCommand" || kind == "setInspectionOptions" || kind == "refreshInspection"

abbrev pub forwarded : BridgeMessage → String → BridgeMessage
forwarded m command_id = record m {
  id = command_id;
  body = (if keeps_data m.kind then m.body else absent);
  error = "";
}

abbrev pub command_added : BridgeMessage → String → String → ℕ → State → State
command_added m session_id command_id now st = record st {
  commands =
      Map.put command_id
        (record { session_id = session_id; request_id = m.id; deadline = now + request_ttl })
        st.commands;
}

-- the end of requestCommand: deliver, and end the session if the client cannot be reached
abbrev pub dispatched : Port → BridgeMessage → String → Session → State → State
dispatched port m command_id s st =
    let told = record st { trace = deliver s.client_id (forwarded m command_id) st.trace } in
    if port.accepts st.trace s.client_id (forwarded m command_id)
    then told
    else end s.session_id "Client is unavailable" told

abbrev pub command_to :
    Port → Participant → BridgeMessage → String → ℕ → Option Session → Exec State (Unit {0})
command_to port p m command_id now none st = raise (fault "Debug session is not available") st
command_to port p m command_id now (some s) st =
    if not p.debug
      || not (can_debug p s.workspace)
      || not s.active
      || not (s.configurator_id == p.id)
      || m.id == ""
    then raise (fault "Debug session is not available") st
    else if m.kind == "runSimulation"
        && (trim_space m.identity == "" || not (is_hash m.expected_hash))
    then raise (fault "Simulation identity and SHA-256 are required") st
    else if (m.kind == "executeCommand" || m.kind == "setInspectionOptions")
        && not (valid_payload port max_command_bytes m.body)
    then raise (fault "Invalid command payload") st
    else if leb 8 (pending_of s.session_id st.commands)
    then raise (fault "Pending command limit reached") st
    else pure tt (dispatched port m command_id s (command_added m s.session_id command_id now st))

-- requestCommand
unfoldable pub request_command :
    Port → Participant → BridgeMessage → String → ℕ → Exec State (Unit {0})
unfolding pending_of
request_command port p m command_id now st =
    command_to port p m command_id now (Map.get st.sessions m.session_id) st

abbrev pub event_limit : String → ℕ
event_limit kind =
    if kind == "inspectionSnapshot" || kind == "inspectionChunk"
    then max_inspection_bytes
    else max_event_bytes

abbrev pub event_message : BridgeMessage → Session → BridgeMessage
event_message m s = record (message m.kind m.body) { session_id = s.session_id }

abbrev pub event_to : Port → Participant → BridgeMessage → Option Session → Exec State (Unit {0})
event_to port p m none st = raise (fault "Event session is not available") st
event_to port p m (some s) st =
    if not (p.role == "client") || not p.debug || not s.active || not (s.client_id == p.id)
    then raise (fault "Event session is not available") st
    else if not (valid_payload port (event_limit m.kind) m.body)
    then raise (fault "Invalid event payload") st
    else (let told = record st { trace = deliver s.configurator_id (event_message m s) st.trace } in
        pure tt (
          if port.accepts st.trace s.configurator_id (event_message m s)
          then told
          else end s.session_id "Configurator is unavailable" told))

-- forwardClientEvent
unfoldable pub forward_client_event : Port → Participant → BridgeMessage → Exec State (Unit {0})
forward_client_event port p m st = event_to port p m (Map.get st.sessions m.session_id) st
