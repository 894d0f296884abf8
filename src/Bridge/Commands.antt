-- ===== src/Bridge/Commands.antt =====
-- Accepting a session, commands and client events keep the registry consistent; so does the whole
-- `switch` of Handle.
use service_backend.Prelude.{
  ℕ, ◌+◌, ◌≤◌, String, ◌≡◌, refl, ap, sym, ◌∙◌, inl, inr, true, false, not, ◌&&◌, ◌||◌, ◌==◌, leb,
  Option, none, some, arith, eq_iff, trim_space, Bool-cases, is_some, if◌then◌else◌,
}
use service_backend.Prelude.Map
use service_backend.Prelude.Map.{Map, get-put-some}
use service_backend.Exec.{refused_or}
use service_backend.Bridge.{
  BridgeMessage, Participant, Session, Command, State, Port, max_command_bytes, request_ttl,
}
use service_backend.Bridge.Delivery.{deliver, can_debug}
use service_backend.Bridge.Sessions.{belongs_to, started, accept_found}
use service_backend.Bridge.Exchange.{
  pending_of, command_added, dispatched, command_to, event_to, event_limit, event_message,
  forwarded, is_hash, valid_payload,
}
use service_backend.Bridge.Invariant.{IsOrderly, is_active, pending_of-delete}
use service_backend.Bridge.Expiry.{IsConsistent, end-IsConsistent}
use service_backend.Bridge.Operations.{IsOrderly-put}

-- the same participants and sessions, other commands
pub other_commands :
    (st next : State)
    → IsConsistent st
    → next.peers ≡ st.peers
    → next.sessions ≡ st.sessions
    → IsOrderly st.sessions next.commands
    → IsConsistent next
other_commands st next v peers sessions tidy = record {
  orderly = rw sessions tidy;
  peer_id = λ k p h. v.peer_id k p (rw peers at h);
  client_here = λ k s h. rw peers (v.client_here k s (rw sessions at h));
  configurator_here = λ k s h. rw peers (v.configurator_here k s (rw sessions at h));
}

started-IsOrderly :
    (s : Session) (id : String) (now : ℕ) (st : State)
    → IsConsistent st
    → Map.get st.sessions id ≡ some s
    → IsOrderly (Map.put id (started s now) st.sessions) st.commands
started-IsOrderly s id now st v found =
    IsOrderly-put id (started s now) st.sessions st.commands v.orderly (v.orderly.own_id id s found)
      (λ k t h same. v.orderly.one_session k id t s h found same) (λ _. refl)

pub accept_found-IsConsistent :
    (p : Participant) (m : BridgeMessage) (now : ℕ) (o : Option Session) (st : State)
    → IsConsistent st
    → Map.get st.sessions m.session_id ≡ o
    → IsConsistent (accept_found p m now o st).1
accept_found-IsConsistent p m now none st v found = v
accept_found-IsConsistent p m now (some s) st v found =
    refused_or IsConsistent (s.active || not (s.client_id == p.id) || not (p.role == "client")) _ _
      st v
      λ _. elim (Bool-cases m.accepted) [
        | inl accepts ↦ rw accepts (record {
          orderly = started-IsOrderly s m.session_id now st v found;
          peer_id = v.peer_id;
          client_here = λ k t h. elim (get-put-some st.sessions m.session_id k _ h) [
            | inl (at, same) ↦
                ap (λ (x : Session). is_some (Map.get st.peers x.client_id)) (sym same)
                ∙ v.client_here m.session_id s found
            | inr old ↦ v.client_here k t old
          ];
          configurator_here = λ k t h. elim (get-put-some st.sessions m.session_id k _ h) [
            | inl (at, same) ↦
                ap (λ (x : Session). is_some (Map.get st.peers x.configurator_id)) (sym same)
                ∙ v.configurator_here m.session_id s found
            | inr old ↦ v.configurator_here k t old
          ];
        })
        | inr declines ↦
            rw declines (end-IsConsistent s.session_id "Client declined the connection" st v)
      ]

pending_of-put :
    (id k : String) (c : Command) (m : Map Command)
    → pending_of id (Map.put k c m) ≤ (if belongs_to id c then 1 else 0) + pending_of id m
unfolding pending_of Map.put
pending_of-put id k c m = ground (arith, pending_of-delete id k m)

command_added-IsConsistent :
    (m : BridgeMessage) (s : Session) (command_id : String) (now : ℕ) (st : State)
    → IsConsistent st
    → Map.get st.sessions m.session_id ≡ some s
    → s.active ≡ true
    → leb 8 (pending_of s.session_id st.commands) ≡ false
    → IsConsistent (command_added m s.session_id command_id now st)
command_added-IsConsistent m s command_id now st v found active room =
    let own = v.orderly.own_id m.session_id s found in
    other_commands st _ v refl refl (record {
      own_id = v.orderly.own_id;
      one_session = v.orderly.one_session;
      live_command = λ c k h. elim (get-put-some st.commands command_id c _ h) [
        | inl (at, same) ↦
            ap (λ (x : Command). is_active (Map.get st.sessions x.session_id)) (sym same)
            ∙ (ap (λ (x : String). is_active (Map.get st.sessions x)) own
                ∙ (ap is_active found ∙ active))
        | inr old ↦ v.orderly.live_command c k old
      ];
      at_most_eight = λ j. ground (
        arith,
        pending_of-put j command_id
            (record { session_id = s.session_id; request_id = m.id; deadline = now + request_ttl })
            st.commands,
        v.orderly.at_most_eight j,
        eq_iff s.session_id j,
        ap (λ (x : String). pending_of x st.commands),
      );
    })

dispatched-IsConsistent :
    (port : Port) (m : BridgeMessage) (command_id : String) (s : Session) (st : State)
    → IsConsistent st
    → IsConsistent (dispatched port m command_id s st)
dispatched-IsConsistent port m command_id s st v =
    let told : IsConsistent
        (record st { trace = deliver s.client_id (forwarded m command_id) st.trace }) =
      other_commands st _ v refl refl v.orderly in
    elim (Bool-cases (port.accepts st.trace s.client_id (forwarded m command_id))) [
      | inl sent ↦ rw sent told
      | inr lost ↦ rw lost (end-IsConsistent s.session_id "Client is unavailable" _ told)
    ]

pub command_to-IsConsistent :
    (port : Port) (p : Participant) (m : BridgeMessage) (command_id : String) (now : ℕ)
    (o : Option Session) (st : State)
    → IsConsistent st
    → Map.get st.sessions m.session_id ≡ o
    → IsConsistent (command_to port p m command_id now o st).1
command_to-IsConsistent port p m command_id now none st v found = v
command_to-IsConsistent port p m command_id now (some s) st v found =
    refused_or IsConsistent
      (not p.debug
        || not (can_debug p s.workspace)
        || not s.active
        || not (s.configurator_id == p.id)
        || m.id == "")
      _ _ st v
      λ may.
        refused_or IsConsistent
          (m.kind == "runSimulation"
            && (trim_space m.identity == "" || not (is_hash m.expected_hash)))
          _ _ st v
          λ _.
            refused_or IsConsistent
              ((m.kind == "executeCommand" || m.kind == "setInspectionOptions")
                && not (valid_payload port max_command_bytes m.body))
              _ _ st v
              λ _.
                refused_or IsConsistent (leb 8 (pending_of s.session_id st.commands)) _
                  (
                    _,
                    dispatched port m command_id s (command_added m s.session_id command_id now st),
                  )
                  st v
                  λ room.
                    dispatched-IsConsistent port m command_id s _
                      (command_added-IsConsistent m s command_id now st v found (ground arith) room)

pub event_to-IsConsistent :
    (port : Port) (p : Participant) (m : BridgeMessage) (o : Option Session) (st : State)
    → IsConsistent st
    → IsConsistent (event_to port p m o st).1
event_to-IsConsistent port p m none st v = v
event_to-IsConsistent port p m (some s) st v =
    refused_or IsConsistent
      (not (p.role == "client") || not p.debug || not s.active || not (s.client_id == p.id)) _ _ st
      v
      λ _.
        refused_or IsConsistent (not (valid_payload port (event_limit m.kind) m.body)) _ _ st v λ _.
          let told : IsConsistent
              (record st { trace = deliver s.configurator_id (event_message m s) st.trace }) =
            other_commands st _ v refl refl v.orderly in
          elim (Bool-cases (port.accepts st.trace s.configurator_id (event_message m s))) [
            | inl sent ↦ rw sent told
            | inr lost ↦
                rw lost (end-IsConsistent s.session_id "Configurator is unavailable" _ told)
          ]
