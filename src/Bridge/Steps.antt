-- ===== src/Bridge/Steps.antt =====
-- The bridge as a transition system: each locked section of a method is one step, so the sections of
-- concurrent calls may come in any order.
use service_backend.Prelude.{
  ℕ, String, ◌≡◌, refl, ap, ◌∙◌, inl, inr, not, ◌&&◌, ◌||◌, ◌==◌, Option, none, some, [], ◌∷◌,
  Option-cases, arith,
}
use service_backend.Prelude.Map
use service_backend.Exec.{refused_or}
use service_backend.Bridge.{BridgeMessage, Participant, Session, Command, State, Port, closed}
use service_backend.Bridge.Sessions.{end, expire, accept_session}
use service_backend.Bridge.Exchange.{pending_of, request_command, forward_client_event}
use service_backend.Bridge.Members.{register, refresh, check, leave}
use service_backend.Bridge.Directory.{Directory, Authorization}
use service_backend.Bridge.Handle.{
  Operation, requests_session, accepts_session, ends_session, commands, forwards, answers,
  unsupported, end_session, answer, answered, perform, perform_as, operate, operation_of, sweep,
}
use service_backend.Bridge.Expiry.{
  IsConsistent, IsOrderly-delete, end-IsConsistent, expire-IsConsistent, expire-peers,
  expire-sessions,
}
use service_backend.Bridge.Operations.{request_session-IsConsistent}
use service_backend.Bridge.Commands.{
  other_commands, accept_found-IsConsistent, command_to-IsConsistent, event_to-IsConsistent,
}
use service_backend.Bridge.Membership.{
  register-IsConsistent, refresh-IsConsistent, check-IsConsistent,
}
use service_backend.Bridge.Revocation.{leave-IsConsistent}

end_session-IsConsistent :
    (id : String) (m : BridgeMessage) (o : Option Session) (st : State)
    → IsConsistent st
    → IsConsistent (end_session id m o st).1
end_session-IsConsistent id m none st v = v
end_session-IsConsistent id m (some s) st v =
    refused_or IsConsistent (not (s.client_id == id) && not (s.configurator_id == id)) _
      (_, record (end m.session_id "Session ended" st) { trace = _ }) st v
      λ _.
        let kept = end-IsConsistent m.session_id "Session ended" st v in
        other_commands _ _ kept refl refl kept.orderly

answer-IsConsistent :
    (id : String) (m : BridgeMessage) (o : Option Session) (c : Option Command) (st : State)
    → IsConsistent st
    → IsConsistent (answer id m o c st).1
answer-IsConsistent id m none c st v = v
answer-IsConsistent id m (some s) none st v = v
answer-IsConsistent id m (some s) (some pending) st v =
    refused_or IsConsistent
      (not s.active || not (s.client_id == id) || not (pending.session_id == s.session_id)) _
      (_, answered m s pending st) st v
      λ _. other_commands st _ v refl refl (IsOrderly-delete m.id _ _ v.orderly)

-- the state after an operation of a registered participant, when the new id is not in use
perform-IsConsistent :
    (op : Operation) (port : Port) (id : String) (p : Participant) (m : BridgeMessage)
    (new_id : String) (now : ℕ) (st : State)
    → IsConsistent st
    → Map.get st.peers p.id ≡ some p
    → Map.get st.sessions new_id ≡ none
    → IsConsistent (perform op port id p m new_id now st).1
unfolding perform accept_session request_command forward_client_event
perform-IsConsistent requests_session port id p m new_id now st v here fresh =
    request_session-IsConsistent p m new_id now st v here fresh
perform-IsConsistent accepts_session port id p m new_id now st v here fresh =
    accept_found-IsConsistent p m now (Map.get st.sessions m.session_id) st v refl
perform-IsConsistent ends_session port id p m new_id now st v here fresh =
    end_session-IsConsistent id m (Map.get st.sessions m.session_id) st v
perform-IsConsistent commands port id p m new_id now st v here fresh =
    command_to-IsConsistent port p m new_id now (Map.get st.sessions m.session_id) st v refl
perform-IsConsistent forwards port id p m new_id now st v here fresh =
    event_to-IsConsistent port p m (Map.get st.sessions m.session_id) st v
perform-IsConsistent answers port id p m new_id now st v here fresh =
    answer-IsConsistent id m (Map.get st.sessions m.session_id) (Map.get st.commands m.id) st v
perform-IsConsistent unsupported port id p m new_id now st v here fresh = v

-- expiry makes no session
fresh-expire :
    (now : ℕ) (st : State) (id : String)
    → Map.get st.sessions id ≡ none
    → Map.get (expire now st).sessions id ≡ none
fresh-expire now st id fresh = elim (Option-cases (Map.get (expire now st).sessions id)) [
  | inl gone ↦ gone
  | inr (s, found) ↦ (let old = expire-sessions now st id s found in cc)
]

pub operate-IsConsistent :
    (port : Port) (id : String) (m : BridgeMessage) (new_id : String) (now : ℕ) (st : State)
    → IsConsistent st
    → Map.get st.sessions new_id ≡ none
    → IsConsistent (operate port id m new_id now st).1
unfolding operate
operate-IsConsistent port id m new_id now st v fresh = by_peer (Map.get st.peers id) refl
  where
    by_peer :
        (o : Option Participant)
        → Map.get st.peers id ≡ o
        → IsConsistent (perform_as port id o m new_id now (expire now st) st).1
    by_peer none found = v
    by_peer (some p) found =
        perform-IsConsistent (operation_of m.kind) port id p m new_id now (expire now st)
          (expire-IsConsistent now st v)
          (rw (expire-peers now st) (ap (Map.get st.peers) (v.peer_id id p found) ∙ found))
          (fresh-expire now st new_id fresh)

-- What can happen to the registry: the part of Join under the lock, a whole Check, the last part of
-- Check with whatever permissions an earlier authorization found, one operation of Handle with an id
-- that no session has, Leave, Sweep, and the closing of a connection.
pub data Step : State → State → Type 0 where
  registers : (p : Participant) (st : State) → Step st (register p st).1
  checks : (dir : Directory) (now : ℕ) (id : String) (st : State) → Step st (check dir now id st).1
  refreshes :
      (id : String) (p : Participant) (a : Authorization) (st : State)
      → Map.get st.peers id ≡ some p
      → Step st (refresh id p a st)
  operates :
      (port : Port) (id : String) (m : BridgeMessage) (new_id : String) (now : ℕ) (st : State)
      → Map.get st.sessions new_id ≡ none
      → Step st (operate port id m new_id now st).1
  leaves : (id : String) (st : State) → Step st (leave id st)
  sweeps : (now : ℕ) (st : State) → Step st (sweep now st)
  closes : (id : String) (st : State) → Step st (record st { trace = closed id ∷ st.trace })

pub data Reach : State → State → Type 0 where
  here : (st : State) → Reach st st
  after : (st mid next : State) → Reach st mid → Step mid next → Reach st next

-- NewUseCase
unfoldable pub initial : State
initial = record { peers = []; sessions = []; commands = []; trace = [] }

-- Every step keeps the registry consistent, whether the call it belongs to succeeds or fails.
pub Step-IsConsistent : (st next : State) → Step st next → IsConsistent st → IsConsistent next
unfolding sweep
Step-IsConsistent _ _ (registers p st) v = register-IsConsistent p st v
Step-IsConsistent _ _ (checks dir now id st) v = check-IsConsistent dir now id st v
Step-IsConsistent _ _ (refreshes id p a st found) v =
    refresh-IsConsistent id p a st v (v.peer_id id p found)
Step-IsConsistent _ _ (operates port id m new_id now st fresh) v =
    operate-IsConsistent port id m new_id now st v fresh
Step-IsConsistent _ _ (leaves id st) v = leave-IsConsistent id st v
Step-IsConsistent _ _ (sweeps now st) v = expire-IsConsistent now st v
Step-IsConsistent _ _ (closes id st) v = other_commands st _ v refl refl v.orderly

initial-IsConsistent : IsConsistent initial
unfolding initial Map.get pending_of
initial-IsConsistent = record {
  orderly = record {
    own_id = λ k s h. cc;
    one_session = λ j k s t h l same. cc;
    live_command = λ c k h. cc;
    at_most_eight = λ id. omega arith;
  };
  peer_id = λ k p h. cc;
  client_here = λ k s h. cc;
  configurator_here = λ k s h. cc;
}

-- Whatever the order in which the steps of concurrent calls come, the registry that starts empty is
-- consistent: keys are the ids of what they hold, a client has at most one session, both ends of a
-- session are connected, every pending command is of a live session, and no session has more than
-- eight of them.
pub Reach-IsConsistent : (st : State) → Reach initial st → IsConsistent st
Reach-IsConsistent _ (here _) = initial-IsConsistent
Reach-IsConsistent _ (after _ mid next run step) =
    Step-IsConsistent mid next step (Reach-IsConsistent mid run)
