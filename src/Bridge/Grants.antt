-- ===== src/Bridge/Grants.antt =====
-- What a successful requestCommand of internal/usecase/bridge/usecase.go has found and done.
use service_backend.Prelude.{
  ℕ, ◌+◌, ◌<◌, ◌⊎◌, inl, inr, Bool, Bool-cases, if◌then◌else◌, ◌∷◌, subst, String, ◌≡◌, refl, sym,
  ap, ◌∙◌, true, false, not, ◌&&◌, ◌||◌, ◌==◌, leb, Option, none, some, arith, eq_iff, eq_refl,
  trim_space,
}
use service_backend.Prelude.Map
use service_backend.Prelude.Map.{get-put}
use service_backend.Errors.{Result, ok}
use service_backend.Exec.{refused-inv, pure-inv}
use service_backend.Bridge.{
  BridgeMessage, Participant, Session, State, Port, absent, sent, request_ttl, max_command_bytes,
}
use service_backend.Bridge.Delivery.{can_debug, deliver}
use service_backend.Bridge.Exchange.{
  is_hash, valid_payload, pending_of, request_command, command_to, dispatched, command_added,
  forwarded,
}
use service_backend.Bridge.Sessions.{end}
use service_backend.Bridge.Invariant.{end-peers, end-sessions}

-- The message reaches the client's end of the session, and the command is pending.
pub record IsDelivered (port : Port) (m : BridgeMessage) (command_id : String) (now : ℕ)
    (session : Session) (message : BridgeMessage) (st next : State) : Type 0 where
  accepts : port.accepts st.trace session.client_id message ≡ true
  trace : next.trace ≡ sent session.client_id message ∷ st.trace
  commands :
      next.commands
      ≡ Map.put command_id
          (record {
            session_id = session.session_id;
            request_id = m.id;
            deadline = now + request_ttl;
          })
          st.commands
  sessions : next.sessions ≡ st.sessions
  peers : next.peers ≡ st.peers

-- What a command that is passed on goes through, and what it leaves.
pub record IsCommandable (port : Port) (p : Participant) (m : BridgeMessage) (command_id : String)
    (now : ℕ) (st next : State) : Type 0 where
  pub session : Session
  pub found : Map.get st.sessions m.session_id ≡ some session
  pub active : session.active ≡ true
  pub controlled : session.configurator_id ≡ p.id
  pub debuggable : can_debug p session.workspace ≡ true
  pub few_pending : pending_of session.session_id st.commands < 8
  pub message : BridgeMessage
  pub message_id : message.id ≡ command_id
  pub message_kind : message.kind ≡ m.kind
  pub message_session : message.session_id ≡ m.session_id
  pub message_body : message.body ≡ (
      if m.kind == "executeCommand"
        || m.kind == "setInspectionOptions"
        || m.kind == "refreshInspection"
      then m.body
      else absent)
  pub message_error : message.error ≡ ""
  pub message_identity : message.identity ≡ m.identity
  pub message_hash : message.expected_hash ≡ m.expected_hash
  pub outcome :
      IsDelivered port m command_id now session message st next
      ⊎ ((port.accepts st.trace session.client_id message ≡ false)
          × (Map.get next.sessions session.session_id ≡ none)
          × (next.peers ≡ st.peers))

gone : (id reason : String) (st : State) → Map.get (end id reason st).sessions id ≡ none
gone id reason st = ground (arith, end-sessions id reason st id, eq_refl id)

dispatched-outcome :
    (port : Port) (m : BridgeMessage) (command_id : String) (now : ℕ) (s : Session)
    (st next : State)
    → dispatched port m command_id s (command_added m s.session_id command_id now st) ≡ next
    → IsDelivered port m command_id now s (forwarded m command_id) st next
      ⊎ ((port.accepts st.trace s.client_id (forwarded m command_id) ≡ false)
          × (Map.get next.sessions s.session_id ≡ none)
          × (next.peers ≡ st.peers))
dispatched-outcome port m command_id now s st next e =
    elim (Bool-cases (port.accepts st.trace s.client_id (forwarded m command_id))) [
      | inl reached ↦ inl (
          subst (IsDelivered port m command_id now s (forwarded m command_id) st)
            (sym (ap (λ (b : Bool). if b then told else lost) reached) ∙ e)
            (record {
              accepts = reached;
              trace = refl;
              commands = refl;
              sessions = refl;
              peers = refl;
            }))
      | inr missed ↦ inr (
        missed,
        subst (λ (x : State). Map.get x.sessions s.session_id ≡ none)
            (sym (ap (λ (b : Bool). if b then told else lost) missed) ∙ e)
            (gone s.session_id "Client is unavailable" told),
        subst (λ (x : State). x.peers ≡ st.peers)
            (sym (ap (λ (b : Bool). if b then told else lost) missed) ∙ e)
            (end-peers s.session_id "Client is unavailable" told),
      )
    ]
  where
    told : State
    told = record (command_added m s.session_id command_id now st) {
      trace = deliver s.client_id (forwarded m command_id) st.trace;
    }

    lost : State
    lost = end s.session_id "Client is unavailable" told

command_to-IsCommandable :
    (port : Port) (p : Participant) (m : BridgeMessage) (command_id : String) (now : ℕ)
    (o : Option Session) (st next : State)
    → Map.get st.sessions m.session_id ≡ o
    → command_to port p m command_id now o st ≡ (ok tt, next)
    → IsCommandable port p m command_id now st next
command_to-IsCommandable port p m command_id now none st next e h =
    cc (ap (λ (q : Result (Unit {0}) × State). q.0) h)
command_to-IsCommandable port p m command_id now (some s) st next e h =
    refused-inv
      (not p.debug
        || not (can_debug p s.workspace)
        || not s.active
        || not (s.configurator_id == p.id)
        || m.id == "")
      _ _ st h
      λ allowed h1.
        refused-inv
          (m.kind == "runSimulation"
            && (trim_space m.identity == "" || not (is_hash m.expected_hash)))
          _ _ st h1
          λ _ h2.
            refused-inv
              ((m.kind == "executeCommand" || m.kind == "setInspectionOptions")
                && not (valid_payload port max_command_bytes m.body))
              _ _ st h2
              λ _ h3. refused-inv (leb 8 (pending_of s.session_id st.commands)) _ _ st h3 λ few h4.
                record {
                  session = s;
                  found = e;
                  active = ground arith;
                  controlled = ground (arith, eq_iff s.configurator_id p.id);
                  debuggable = ground arith;
                  few_pending = ground arith;
                  message = forwarded m command_id;
                  message_id = refl;
                  message_kind = refl;
                  message_session = refl;
                  message_body = refl;
                  message_error = refl;
                  message_identity = refl;
                  message_hash = refl;
                  outcome =
                      pure-inv h4 λ _ same. dispatched-outcome port m command_id now s st next same;
                }

-- A command is passed on only through an active session that the sender itself controls, in a
-- workspace that it may debug, and only while fewer than eight commands of the session are pending.
-- It goes, under the new id and with the payload of the three kinds that carry one, to the client of
-- that session, and is pending until its deadline; nothing else is sent, and no session changes. If the client cannot be reached, the session is ended.
pub request_command-IsCommandable :
    (port : Port) (p : Participant) (m : BridgeMessage) (command_id : String) (now : ℕ)
    (st next : State)
    → request_command port p m command_id now st ≡ (ok tt, next)
    → IsCommandable port p m command_id now st next
unfolding request_command
request_command-IsCommandable port p m command_id now st next h =
    command_to-IsCommandable port p m command_id now (Map.get st.sessions m.session_id) st next refl
      h
