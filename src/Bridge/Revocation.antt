-- ===== src/Bridge/Revocation.antt =====
-- What is gone after a participant left, and after a check that found narrower permissions.
use service_backend.Prelude.{
  ℕ, String, ◌≡◌, refl, ap, inl, inr, Bool, true, false, ◌||◌, ◌==◌, none, some, arith, eq_iff,
  eq_refl, Bool-cases, Option-cases,
}
use service_backend.Prelude.Map
use service_backend.Prelude.Map.{Map, get-put, get-delete, get-delete-some}
use service_backend.Errors.{Error, ok, err}
use service_backend.Bridge.{Participant, Session, State}
use service_backend.Bridge.Delivery.{can_debug}
use service_backend.Bridge.Sessions.{end_where}
use service_backend.Bridge.Members.{with_authorization, refresh, revoked, changed, check, leave}
use service_backend.Bridge.Directory.{Directory, Authorization, authorize}
use service_backend.Bridge.Ending.{
  end_each-IsOrderly, end_each-peers, end_each-sessions, end_where-fails,
}
use service_backend.Bridge.Expiry.{IsConsistent}
use service_backend.Bridge.Commands.{other_commands}

abbrev pub takes_part : String → Session → Bool
takes_part id s = s.client_id == id || s.configurator_id == id

-- what is left of a state after `id` is gone
module _ (id : String) (st : State) where
  abbrev gone : State
  gone = record st { peers = Map.delete id st.peers }

  abbrev ended : State
  ended = end_where (takes_part id) "Connection closed" gone

  ended-IsConsistent : IsConsistent st → IsConsistent ended
  ended-IsConsistent v =
      let same = end_each-peers (takes_part id) "Connection closed" st.sessions gone in
      record {
        orderly = end_each-IsOrderly (takes_part id) "Connection closed" st.sessions gone v.orderly;
        peer_id = λ k p h. v.peer_id k p (get-delete-some st.peers id k (rw same at h)).0;
        client_here = λ k s h.
            let old =
              end_each-sessions (takes_part id) "Connection closed" st.sessions gone k s h in
            let stays = end_where-fails (takes_part id) "Connection closed" gone k s h in
            rw same (
              ground (
                arith,
                v.client_here k s old,
                get-delete st.peers id s.client_id,
                eq_iff id s.client_id,
                eq_iff s.client_id id,
              ));
        configurator_here = λ k s h.
            let old =
              end_each-sessions (takes_part id) "Connection closed" st.sessions gone k s h in
            let stays = end_where-fails (takes_part id) "Connection closed" gone k s h in
            rw same (
              ground (
                arith,
                v.configurator_here k s old,
                get-delete st.peers id s.configurator_id,
                eq_iff id s.configurator_id,
                eq_iff s.configurator_id id,
              ));
      }

pub leave-IsConsistent : (id : String) (st : State) → IsConsistent st → IsConsistent (leave id st)
unfolding leave
leave-IsConsistent id st v = elim (Option-cases (Map.get st.peers id)) [
  | inl missing ↦ rw (missing, leave) v
  | inr (p, found) ↦
      let kept = ended-IsConsistent id st v in
      rw (found, leave) (other_commands _ _ kept refl refl kept.orderly)
]

-- both parts of what Leave removes
pub leave_lem :
    (id : String) (st : State)
    → IsConsistent st
    → (Map.get (leave id st).peers id ≡ none)
      × ((k : String) (s : Session)
          → Map.get (leave id st).sessions k ≡ some s
          → (takes_part id s ≡ false) × (Map.get st.sessions k ≡ some s))
unfolding leave
leave_lem id st v = elim (Option-cases (Map.get st.peers id)) [
  | inl missing ↦
      rw (missing, leave)
        (
          missing,
          λ k s h. (
            ground (
              arith,
              v.client_here k s h,
              v.configurator_here k s h,
              missing,
              eq_iff s.client_id id,
              eq_iff s.configurator_id id,
              ap (λ (x : String). Map.get st.peers x),
            ),
            h,
          ),
        )
  | inr (p, found) ↦
      rw (found, leave)
        (
          rw (end_each-peers (takes_part id) "Connection closed" st.sessions (gone id st))
              (ground (arith, get-delete st.peers id id, eq_refl id)),
          λ k s h. (
            end_where-fails (takes_part id) "Connection closed" (gone id st) k s h,
            end_each-sessions (takes_part id) "Connection closed" st.sessions (gone id st) k s h,
          ),
        )
]

-- A session that remains after `Leave` from a consistent registry has the participant, which is not
-- registered any more, at neither end, and was there before, unchanged.
pub leave_clean :
    (id : String) (st : State) (k : String) (s : Session)
    → IsConsistent st
    → Map.get (leave id st).sessions k ≡ some s
    → (Map.get (leave id st).peers id ≡ none)
      × (takes_part id s ≡ false)
      × (Map.get st.sessions k ≡ some s)
leave_clean id st k s v h =
    let (gone_now, sessions_now) = leave_lem id st v in
    (gone_now, (sessions_now k s h).0, (sessions_now k s h).1)

refresh-revokes :
    (id : String) (p : Participant) (a : Authorization) (st : State) (k : String) (s : Session)
    → Map.get (refresh id p a st).sessions k ≡ some s
    → (s.configurator_id == id) ≡ true
    → can_debug (with_authorization p a) s.workspace ≡ true
unfolding refresh
refresh-revokes id p a st k s h controls = elim (Bool-cases (changed p a)) [
  | inl news ↦ kept (rw (news, refresh) at h)
  | inr quiet ↦ kept (rw (quiet, refresh) at h)
]
  where
    fresh : Participant
    fresh = with_authorization p a

    next : State
    next = record st { peers = Map.put id fresh st.peers }

    kept :
        Map.get (end_where (revoked id fresh) "Debug access revoked" next).sessions k ≡ some s
        → can_debug fresh s.workspace ≡ true
    kept left =
        let stays = end_where-fails (revoked id fresh) "Debug access revoked" next k s left in
        ground arith

-- If the check of a registered configurator authorizes it anew, the check succeeds, and each session
-- that it still controls is in a workspace that its new permissions let it debug.
pub check_revokes :
    (dir : Directory) (now : ℕ) (id : String) (p : Participant) (a : Authorization) (st : State)
    (k : String) (s : Session)
    → Map.get st.peers id ≡ some p
    → (p.role == "client") ≡ false
    → authorize dir now p ≡ ok a
    → Map.get (check dir now id st).1.sessions k ≡ some s
    → (s.configurator_id == id) ≡ true
    → ((check dir now id st).0 ≡ true) × (can_debug (with_authorization p a) s.workspace ≡ true)
unfolding check
check_revokes dir now id p a st k s found other grants left controls = (
  rw (found, check, other, grants),
  refresh-revokes id p a st k s (rw (found, check, other, grants) at left) controls,
)

-- If the check of a registered configurator fails to authorize it, the check fails, and nothing has
-- changed: its sessions go when the connection is dropped.
pub check_refuses :
    (dir : Directory) (now : ℕ) (id : String) (p : Participant) (e : Error) (st : State)
    → Map.get st.peers id ≡ some p
    → (p.role == "client") ≡ false
    → authorize dir now p ≡ err e
    → check dir now id st ≡ (false, st)
unfolding check
check_refuses dir now id p e st found other refuses = rw (found, check, other, refuses)
