-- ===== src/Bridge/Sessions.antt =====
-- Sessions and commands of internal/usecase/bridge/usecase.go: end, expire, and the operations that
-- a participant's message asks for.
use service_backend.Prelude.{
  ℕ, ◌+◌, ◌-◌, ◌*◌, String, Bool, true, false, not, ◌||◌, ◌==◌, ltb, Option, none, some, [], ◌∷◌,
  if◌then◌else◌,
}
use service_backend.Prelude.Map
use service_backend.Prelude.Map.{Map}
use service_backend.Errors.{fault}
use service_backend.Exec.{Exec, pure, raise}
use service_backend.Bridge.{
  BridgeMessage, BridgeSession, absent, null_value, session_requested, session_info, Participant,
  Session, Command, State, second, request_ttl, session_ttl,
}
use service_backend.Bridge.Delivery.{Trace, message, deliver, send, result, can_debug}

abbrev pub belongs_to : String → Command → Bool
belongs_to id c = c.session_id == id

-- the results to the pending commands of an ended session
unfoldable pub fail_commands : String → String → String → Map Command → Trace → Trace
fail_commands id configurator reason [] trace = trace
fail_commands id configurator reason ((k, c) ∷ cs) trace =
    fail_commands id configurator reason cs
      (if belongs_to id c then result configurator c.request_id null_value reason trace else trace)

-- all that `end` sends about the session `s`
unfoldable pub farewell : String → Session → String → Map Command → Trace → Trace
unfolding fail_commands
farewell id s reason commands trace =
    let refused =
      if s.active then trace else result s.configurator_id s.request_id null_value reason trace in
    let failed = fail_commands id s.configurator_id reason commands refused in
    let over = record (message "sessionEnded" absent) { session_id = id } in
    deliver s.configurator_id over (deliver s.client_id over failed)

abbrev end_found : String → String → State → Option Session → State
end_found id reason st none = st
end_found id reason st (some s) = record st {
  sessions = Map.delete id st.sessions;
  commands = Map.retain (λ c. not (belongs_to id c)) st.commands;
  trace = farewell id s reason st.commands st.trace;
}

-- end
unfoldable pub end : String → String → State → State
end id reason st = end_found id reason st (Map.get st.sessions id)

-- `for id, s := range u.sessions { if test(s) { u.end(id, reason) } }`, over the given entries
unfoldable pub end_each : (Session → Bool) → String → Map Session → State → State
end_each test reason [] st = st
end_each test reason ((id, s) ∷ entries) st =
    end_each test reason entries (if test s then end id reason st else st)

abbrev pub end_where : (Session → Bool) → String → State → State
end_where test reason st = end_each test reason st.sessions st

abbrev timed_out : Map Session → Command → Trace → Trace
timed_out sessions c trace = elim (Map.get sessions c.session_id) [
  | none ↦ trace
  | some s ↦ result s.configurator_id c.request_id null_value "Client command timed out" trace
]

unfoldable pub time_out : ℕ → Map Session → Map Command → Trace → Trace
time_out now sessions [] trace = trace
time_out now sessions ((k, c) ∷ cs) trace =
    time_out now sessions cs (if ltb now c.deadline then trace else timed_out sessions c trace)

-- expire: what has reached its deadline goes, sessions first
unfoldable pub expire : ℕ → State → State
expire now st =
    let left = end_where (λ s. not (ltb now s.deadline)) "Session expired" st in
    record left {
      commands = Map.retain (λ c. ltb now c.deadline) left.commands;
      trace = time_out now left.sessions left.commands left.trace;
    }

unfoldable pub client_busy : String → Map Session → Bool
client_busy client [] = false
client_busy client ((k, s) ∷ ss) = s.client_id == client || client_busy client ss

abbrev pub opened : Participant → Participant → BridgeMessage → String → ℕ → State → State
opened p target m new_id now st =
    let info : BridgeSession = record {
      session_id = new_id;
      client_id = target.id;
      configurator_id = p.id;
    } in
    record st {
      peers = Map.put p.id (record p { last_request = now }) st.peers;
      sessions =
          Map.put new_id
            (record {
              info = info;
              workspace = target.workspace;
              request_id = m.id;
              active = false;
              deadline = now + request_ttl;
            })
            st.sessions;
      trace =
          send target.id "sessionRequested"
            (session_requested new_id p.actor.display_name target.workspace (now + request_ttl))
            st.trace;
    }

abbrev pub request_to :
    Participant → BridgeMessage → String → ℕ → Option Participant → Exec State (Unit {0})
request_to p m new_id now none st = raise (fault "Client is not available") st
request_to p m new_id now (some target) st =
    if not (target.role == "client") || not target.debug || not (can_debug p target.workspace)
    then raise (fault "Client is not available") st
    else if ltb (now - p.last_request) (5 * second)
    then raise (fault "Please wait before requesting another session") st
    else if client_busy target.id st.sessions
    then raise (fault "Client is busy") st
    else pure tt (opened p target m new_id now st)

-- requestSession
unfoldable pub request_session : Participant → BridgeMessage → String → ℕ → Exec State (Unit {0})
unfolding client_busy
request_session p m new_id now st =
    if not p.debug || not (p.role == "configurator") || m.id == ""
    then raise (fault "Debug access denied") st
    else request_to p m new_id now (Map.get st.peers m.target_id) st

abbrev pub started : Session → ℕ → Session
started s now = record s { active = true; deadline = now + session_ttl }

abbrev pub accept_found : Participant → BridgeMessage → ℕ → Option Session → Exec State (Unit {0})
accept_found p m now none st = raise (fault "Session request is not pending") st
accept_found p m now (some s) st =
    if s.active || not (s.client_id == p.id) || not (p.role == "client")
    then raise (fault "Session request is not pending") st
    else if not m.accepted
    then pure tt (end s.session_id "Client declined the connection" st)
    else pure tt (record st {
      sessions = Map.put m.session_id (started s now) st.sessions;
      trace =
          result s.configurator_id s.request_id (session_info s.info) ""
            (send s.client_id "sessionStarted" (session_info s.info) st.trace);
    })

-- acceptSession
unfoldable pub accept_session : Participant → BridgeMessage → ℕ → Exec State (Unit {0})
accept_session p m now st = accept_found p m now (Map.get st.sessions m.session_id) st
