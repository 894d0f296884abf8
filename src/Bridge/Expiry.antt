-- ===== src/Bridge/Expiry.antt =====
-- Smaller registries: what dropping commands or sessions keeps, and what expiry leaves.
use service_backend.Prelude.{ℕ, ◌<◌, String, ◌≡◌, Bool, true, not, some, arith, ltb, is_some}
use service_backend.Prelude.Map
use service_backend.Prelude.Map.{Map, get-delete-some, get-retain-some}
use service_backend.Bridge.{Participant, Session, Command, State}
use service_backend.Bridge.Sessions.{end, end_where, expire}
use service_backend.Bridge.Invariant.{
  is_active, IsOrderly, end-IsOrderly, end-peers, end-sessions, pending_of-delete,
  pending_of-retain,
}
use service_backend.Bridge.Ending.{
  end_each-IsOrderly, end_each-peers, end_each-sessions, end_where-fails,
}

pub IsOrderly-retain :
    (f : Command → Bool) (sessions : Map Session) (commands : Map Command)
    → IsOrderly sessions commands
    → IsOrderly sessions (Map.retain f commands)
IsOrderly-retain f sessions commands v = record {
  own_id = v.own_id;
  one_session = v.one_session;
  live_command = λ c k h. v.live_command c k (get-retain-some f commands c h).0;
  at_most_eight = λ j. omega (arith, pending_of-retain j f commands, v.at_most_eight j);
}

pub IsOrderly-delete :
    (id : String) (sessions : Map Session) (commands : Map Command)
    → IsOrderly sessions commands
    → IsOrderly sessions (Map.delete id commands)
IsOrderly-delete id sessions commands v = record {
  own_id = v.own_id;
  one_session = v.one_session;
  live_command = λ c k h. v.live_command c k (get-delete-some commands id c h).0;
  at_most_eight = λ j. omega (arith, pending_of-delete j id commands, v.at_most_eight j);
}

-- The registry between two calls: it is orderly, participants stand under their own ids, and both
-- ends of a session are connected.
pub record IsConsistent (st : State) : Type 0 where
  pub orderly : IsOrderly st.sessions st.commands
  pub peer_id : (k : String) (p : Participant) → Map.get st.peers k ≡ some p → p.id ≡ k
  pub client_here :
      (k : String) (s : Session)
      → Map.get st.sessions k ≡ some s
      → is_some (Map.get st.peers s.client_id) ≡ true
  pub configurator_here :
      (k : String) (s : Session)
      → Map.get st.sessions k ≡ some s
      → is_some (Map.get st.peers s.configurator_id) ≡ true

-- the same participants, and no new or changed sessions
pub IsConsistent-fewer :
    (st next : State)
    → IsConsistent st
    → next.peers ≡ st.peers
    → ((k : String) (s : Session)
        → Map.get next.sessions k ≡ some s
        → Map.get st.sessions k ≡ some s)
    → IsOrderly next.sessions next.commands
    → IsConsistent next
IsConsistent-fewer st next v same fewer tidy = record {
  orderly = tidy;
  peer_id = λ k p h. v.peer_id k p (rw same at h);
  client_here = λ k s h. rw same (v.client_here k s (fewer k s h));
  configurator_here = λ k s h. rw same (v.configurator_here k s (fewer k s h));
}

pub end-IsConsistent :
    (id reason : String) (st : State) → IsConsistent st → IsConsistent (end id reason st)
end-IsConsistent id reason st v =
    IsConsistent-fewer st (end id reason st) v (end-peers id reason st)
      (λ k s h. ground (arith, end-sessions id reason st k)) (end-IsOrderly id reason st v.orderly)

pub end_where-IsConsistent :
    (test : Session → Bool) (reason : String) (st : State)
    → IsConsistent st
    → IsConsistent (end_where test reason st)
end_where-IsConsistent test reason st v =
    IsConsistent-fewer st _ v (end_each-peers test reason st.sessions st)
      (end_each-sessions test reason st.sessions st)
      (end_each-IsOrderly test reason st.sessions st v.orderly)

pub expire-peers : (now : ℕ) (st : State) → (expire now st).peers ≡ st.peers
unfolding expire
expire-peers now st = end_each-peers _ "Session expired" st.sessions st

pub expire-sessions :
    (now : ℕ) (st : State) (k : String) (s : Session)
    → Map.get (expire now st).sessions k ≡ some s
    → Map.get st.sessions k ≡ some s
unfolding expire
expire-sessions now st k s h = end_each-sessions _ "Session expired" st.sessions st k s h

pub expire-IsConsistent : (now : ℕ) (st : State) → IsConsistent st → IsConsistent (expire now st)
unfolding expire
expire-IsConsistent now st v =
    let w = end_where-IsConsistent (λ s. not (ltb now s.deadline)) "Session expired" st v in
    record {
      orderly = IsOrderly-retain (λ c. ltb now c.deadline) _ _ w.orderly;
      peer_id = w.peer_id;
      client_here = w.client_here;
      configurator_here = w.configurator_here;
    }

-- A session that remains after expiry has its deadline ahead, and was there before, unchanged.
pub expire_fresh :
    (now : ℕ) (st : State) (k : String) (s : Session)
    → Map.get (expire now st).sessions k ≡ some s
    → (now < s.deadline) × (Map.get st.sessions k ≡ some s)
unfolding expire
expire_fresh now st k s h =
    let late =
      end_where-fails (λ (s : Session). not (ltb now s.deadline)) "Session expired" st k s h in
    (ground arith, end_each-sessions _ "Session expired" st.sessions st k s h)

expire-deadline :
    (now : ℕ) (st : State) (c : String) (k : Command)
    → Map.get (expire now st).commands c ≡ some k
    → now < k.deadline
unfolding expire
expire-deadline now st c k h =
    let left = (get-retain-some (λ (c : Command). ltb now c.deadline) _ c h).1 in ground arith

-- A command that remains after expiry in a consistent registry has its deadline ahead, and its
-- session is still there and active.
pub expire_command :
    (now : ℕ) (st : State) (c : String) (k : Command)
    → IsConsistent st
    → Map.get (expire now st).commands c ≡ some k
    → (now < k.deadline) × (is_active (Map.get (expire now st).sessions k.session_id) ≡ true)
expire_command now st c k v h =
    (expire-deadline now st c k h, (expire-IsConsistent now st v).orderly.live_command c k h)
