-- ===== src/Bridge/Invariant.antt =====
-- What holds of the bridge's registry between two calls, and that ending sessions keeps it.
use service_backend.Prelude.{
  ◌≤◌, String, ◌≡◌, ap, inl, inr, Bool, true, false, not, ◌==◌, Option, none, some, [], ◌∷◌, arith,
  eq_iff, Option-cases, if◌then◌else◌,
}
use service_backend.Prelude.Map
use service_backend.Prelude.Map.{Map, get-delete, get-put, get-delete-some, get-retain-some}
use service_backend.Bridge.{Session, Command, State}
use service_backend.Bridge.Sessions.{belongs_to, end}
use service_backend.Bridge.Exchange.{pending_of}

abbrev pub is_active : Option Session → Bool
is_active none = false
is_active (some s) = s.active

-- the registry of sessions and commands
pub record IsOrderly (sessions : Map Session) (commands : Map Command) : Type 0 where
  -- a session stands under its own id
  pub own_id : (k : String) (s : Session) → Map.get sessions k ≡ some s → s.session_id ≡ k
  -- a client has at most one session, pending or active
  pub one_session :
      (j k : String) (s t : Session)
      → Map.get sessions j ≡ some s
      → Map.get sessions k ≡ some t
      → s.client_id ≡ t.client_id
      → j ≡ k
  -- a pending command belongs to an active session
  pub live_command :
      (c : String) (k : Command)
      → Map.get commands c ≡ some k
      → is_active (Map.get sessions k.session_id) ≡ true
  -- a session has at most eight pending commands
  pub at_most_eight : (id : String) → pending_of id commands ≤ 8

pub pending_of-delete :
    (id k : String) (m : Map Command) → pending_of id (Map.delete k m) ≤ pending_of id m
unfolding pending_of Map.delete
pending_of-delete id k [] = omega arith
pending_of-delete id k ((j, c) ∷ m) = ground (arith, pending_of-delete id k m)

pub pending_of-retain :
    (id : String) (f : Command → Bool) (m : Map Command)
    → pending_of id (Map.retain f m) ≤ pending_of id m
unfolding pending_of Map.retain
pending_of-retain id f [] = omega arith
pending_of-retain id f ((j, c) ∷ m) =
    ground (arith, pending_of-retain id f m, pending_of-delete id j (Map.retain f m))

-- Without the session `id` and its commands the registry is as orderly as before.
pub IsOrderly-without :
    (id : String) (sessions : Map Session) (commands : Map Command)
    → IsOrderly sessions commands
    → IsOrderly (Map.delete id sessions) (Map.retain (λ c. not (belongs_to id c)) commands)
IsOrderly-without id sessions commands v = record {
  own_id = λ k s h. v.own_id k s (get-delete-some sessions id k h).0;
  one_session = λ j k s t hj hk same.
      v.one_session j k s t (get-delete-some sessions id j hj).0
        (get-delete-some sessions id k hk).0 same;
  live_command = λ c k h.
      let (old, other) = get-retain-some (λ c. not (belongs_to id c)) commands c h in
      rw (get-delete sessions id k.session_id)
        (ground (arith, v.live_command c k old, eq_iff id k.session_id, eq_iff k.session_id id));
  at_most_eight = λ j.
      omega (arith, pending_of-retain j (λ c. not (belongs_to id c)) commands, v.at_most_eight j);
}

pub end-IsOrderly :
    (id reason : String) (st : State)
    → IsOrderly st.sessions st.commands
    → IsOrderly (end id reason st).sessions (end id reason st).commands
unfolding end
end-IsOrderly id reason st v = elim (Option-cases (Map.get st.sessions id)) [
  | inl missing ↦ rw (missing, end) v
  | inr (s, found) ↦ rw (found, end) (IsOrderly-without id st.sessions st.commands v)
]

pub end-peers : (id reason : String) (st : State) → (end id reason st).peers ≡ st.peers
unfolding end
end-peers id reason st = ground arith

pub end-sessions :
    (id reason : String) (st : State) (k : String)
    → Map.get (end id reason st).sessions k ≡ (if id == k then none else Map.get st.sessions k)
unfolding end
end-sessions id reason st k = elim (Option-cases (Map.get st.sessions id)) [
  | inl missing ↦
      rw (missing, end) (ground (arith, eq_iff id k, ap (λ (x : String). Map.get st.sessions x)))
  | inr (s, found) ↦ rw (found, end) (get-delete st.sessions id k)
]
