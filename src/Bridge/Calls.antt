-- ===== src/Bridge/Calls.antt =====
-- Whole calls of Handle of internal/usecase/bridge/usecase.go, run without interruption.
use service_backend.Prelude.{
  ℕ, String, ◌≡◌, refl, inl, inr, Bool, true, false, not, ◌&&◌, ◌==◌, Option, none, some,
  Bool-cases, Option-cases, if◌then◌else◌,
}
use service_backend.Prelude.Map
use service_backend.Errors.{Result, ok, err, fault}
use service_backend.Exec.{refused_or}
use service_backend.Bridge.{BridgeMessage, Participant, Session, State, Port}
use service_backend.Bridge.Directory.{Directory, Authorization, authorize}
use service_backend.Bridge.Members.{
  with_authorization, changed, revoked, refresh, refresh_if, check, check_found, leave,
}
use service_backend.Bridge.Handle.{
  from_client, controller_of, dropped, guard_controller, too_long, after_check, handle,
}
use service_backend.Bridge.Ending.{end_each-sessions}
use service_backend.Bridge.Expiry.{IsConsistent}
use service_backend.Bridge.Commands.{other_commands}
use service_backend.Bridge.Membership.{check-IsConsistent}
use service_backend.Bridge.Revocation.{leave-IsConsistent, leave_lem}
use service_backend.Bridge.Steps.{operate-IsConsistent}

refresh-sessions :
    (id : String) (p : Participant) (a : Authorization) (st : State) (k : String) (s : Session)
    → Map.get (refresh id p a st).sessions k ≡ some s
    → Map.get st.sessions k ≡ some s
unfolding refresh
refresh-sessions id p a st k s h = elim (Bool-cases (changed p a)) [
  | inl news ↦
      end_each-sessions (revoked id fresh) "Debug access revoked" st.sessions next k s
        (rw (news, refresh) at h)
  | inr quiet ↦
      end_each-sessions (revoked id fresh) "Debug access revoked" st.sessions next k s
        (rw (quiet, refresh) at h)
]
  where
    fresh : Participant
    fresh = with_authorization p a

    next : State
    next = record st { peers = Map.put id fresh st.peers }

check_found-sessions :
    (dir : Directory) (now : ℕ) (id : String) (o : Option Participant) (st : State) (k : String)
    (s : Session)
    → Map.get (check_found dir now id o st).1.sessions k ≡ some s
    → Map.get st.sessions k ≡ some s
check_found-sessions dir now id none st k s h = h
check_found-sessions dir now id (some p) st k s h = elim (Bool-cases (p.role == "client")) [
  | inl client ↦ (rw client at h)
  | inr other ↦ by_answer (authorize dir now p) (rw other at h)
]
  where
    by_answer :
        (r : Result Authorization)
        → Map.get (refresh_if id p r st).1.sessions k ≡ some s
        → Map.get st.sessions k ≡ some s
    by_answer (ok a) left = refresh-sessions id p a st k s left
    by_answer (err e) left = left

-- a state whose sessions are those of an earlier one has no session under an unused id
still_unused :
    (st next : State) (id : String)
    → ((s : Session) → Map.get next.sessions id ≡ some s → Map.get st.sessions id ≡ some s)
    → Map.get st.sessions id ≡ none
    → Map.get next.sessions id ≡ none
still_unused st next id fewer unused = elim (Option-cases (Map.get next.sessions id)) [
  | inl gone ↦ gone
  | inr (s, found) ↦ (let old = fewer s found in cc)
]

check_unused :
    (dir : Directory) (now : ℕ) (who id : String) (st : State)
    → Map.get st.sessions id ≡ none
    → Map.get (check dir now who st).1.sessions id ≡ none
unfolding check
check_unused dir now who id st unused =
    still_unused st (check dir now who st).1 id
      (λ s h. check_found-sessions dir now who (Map.get st.peers who) st id s h) unused

dropped-IsConsistent :
    (controller : String) (q : Bool × State)
    → IsConsistent q.1
    → IsConsistent (dropped controller q)
dropped-IsConsistent controller (true, st) v = v
dropped-IsConsistent controller (false, st) v =
    let kept = leave-IsConsistent controller st v in other_commands _ _ kept refl refl kept.orderly

dropped-unused :
    (controller id : String) (q : Bool × State)
    → IsConsistent q.1
    → Map.get q.1.sessions id ≡ none
    → Map.get (dropped controller q).sessions id ≡ none
dropped-unused controller id (true, st) v unused = unused
dropped-unused controller id (false, st) v unused =
    still_unused st (leave controller st) id (λ s h. ((leave_lem controller st v).1 id s h).1)
      unused

-- a state from which an operation may go on and draw `id`
abbrev IsReady : String → State → Type 0
IsReady id st = IsConsistent st × (Map.get st.sessions id ≡ none)

either-IsReady :
    (test : Bool) (id : String) (a b : State)
    → IsReady id a
    → IsReady id b
    → IsReady id (if test then a else b)
either-IsReady true id a b left right = left
either-IsReady false id a b left right = right

guarded :
    (dir : Directory) (now : ℕ) (m : BridgeMessage) (st : State) (id : String)
    → IsConsistent st
    → Map.get st.sessions id ≡ none
    → IsReady id (guard_controller dir now m st)
unfolding guard_controller
guarded dir now m st id v unused =
    let controller = controller_of (Map.get st.sessions m.session_id) in
    let checked = check-IsConsistent dir now controller st v in
    either-IsReady (from_client m.kind && not (controller == "")) id
      (dropped controller (check dir now controller st)) st
      (
        dropped-IsConsistent controller _ checked,
        dropped-unused controller id _ checked (check_unused dir now controller id st unused),
      )
      (v, unused)

after_check-IsConsistent :
    (dir : Directory) (port : Port) (id : String) (m : BridgeMessage) (new_id : String) (now : ℕ)
    (q : Bool × State)
    → IsConsistent q.1
    → Map.get q.1.sessions new_id ≡ none
    → IsConsistent (after_check dir port id m new_id now q).1
after_check-IsConsistent dir port id m new_id now (false, st) v unused = v
after_check-IsConsistent dir port id m new_id now (true, st) v unused =
    let (kept, free) = guarded dir now m st new_id v unused in
    operate-IsConsistent port id m new_id now (guard_controller dir now m st) kept free

-- A whole Handle, whatever its message and outcome, keeps a consistent registry consistent, when the
-- id that it may draw for a session is not in use.
pub handle-IsConsistent :
    (dir : Directory) (port : Port) (id : String) (m : BridgeMessage) (new_id : String) (now : ℕ)
    (st : State)
    → IsConsistent st
    → Map.get st.sessions new_id ≡ none
    → IsConsistent (handle dir port id m new_id now st).1
unfolding handle
handle-IsConsistent dir port id m new_id now st v unused =
    refused_or IsConsistent (too_long m) (fault "Invalid bridge message")
      (after_check dir port id m new_id now (check dir now id st)) st v
      λ _.
        after_check-IsConsistent dir port id m new_id now (check dir now id st)
          (check-IsConsistent dir now id st v) (check_unused dir now id new_id st unused)
