-- ===== src/Bridge/Ending.antt =====
-- The loops that end every session passing a test: what they leave and what they remove.
use service_backend.Prelude.{
  String, ◌≡◌, refl, sym, ap, ◌∙◌, Bool, true, false, ◌==◌, some, [], ◌∷◌, arith, Bool-cases,
  some_eq, inl, inr, if◌then◌else◌,
}
use service_backend.Prelude.Map
use service_backend.Prelude.Map.{Map}
use service_backend.Bridge.{Session, State}
use service_backend.Bridge.Sessions.{end, end_each, end_where}
use service_backend.Bridge.Invariant.{IsOrderly, end-IsOrderly, end-peers, end-sessions}

abbrev round : Bool → String → String → State → State
round b id reason st = if b then end id reason st else st

round-IsOrderly :
    (b : Bool) (id reason : String) (st : State)
    → IsOrderly st.sessions st.commands
    → IsOrderly (round b id reason st).sessions (round b id reason st).commands
round-IsOrderly true id reason st v = end-IsOrderly id reason st v
round-IsOrderly false id reason st v = v

round-peers : (b : Bool) (id reason : String) (st : State) → (round b id reason st).peers ≡ st.peers
round-peers true id reason st = end-peers id reason st
round-peers false id reason st = refl

round-sessions :
    (b : Bool) (id reason : String) (st : State) (k : String) (s : Session)
    → Map.get (round b id reason st).sessions k ≡ some s
    → Map.get st.sessions k ≡ some s
round-sessions true id reason st k s h = ground (arith, end-sessions id reason st k)
round-sessions false id reason st k s h = h

module _ (test : Session → Bool) (reason : String) where
  pub end_each-IsOrderly :
      (entries : Map Session) (st : State)
      → IsOrderly st.sessions st.commands
      → IsOrderly
          (end_each test reason entries st).sessions
          (end_each test reason entries st).commands
  unfolding end_each
  end_each-IsOrderly [] st v = v
  end_each-IsOrderly ((id, s) ∷ entries) st v =
      end_each-IsOrderly entries (round (test s) id reason st)
        (round-IsOrderly (test s) id reason st v)

  pub end_each-peers :
      (entries : Map Session) (st : State) → (end_each test reason entries st).peers ≡ st.peers
  unfolding end_each
  end_each-peers [] st = refl
  end_each-peers ((id, s) ∷ entries) st =
      end_each-peers entries (round (test s) id reason st) ∙ round-peers (test s) id reason st

  -- no session is added or changed
  pub end_each-sessions :
      (entries : Map Session) (st : State) (k : String) (s : Session)
      → Map.get (end_each test reason entries st).sessions k ≡ some s
      → Map.get st.sessions k ≡ some s
  unfolding end_each
  end_each-sessions [] st k s h = h
  end_each-sessions ((id, t) ∷ entries) st k s h =
      round-sessions (test t) id reason st k s
        (end_each-sessions entries (round (test t) id reason st) k s h)

  round_gone :
      (u : Session) (id k : String) (st : State) (s : Session)
      → test u ≡ true
      → (id == k) ≡ true
      → Map.get (round (test u) id reason st).sessions k ≡ some s
      → ⊥
  round_gone u id k st s passes here h =
      let left : Map.get (end id reason st).sessions k ≡ some s = rw passes at h in
      ground (arith, end-sessions id reason st k)

  -- what is left under the key of an entry does not pass the test
  end_each-fails :
      (entries : Map Session) (st : State) (k : String) (s t : Session)
      → Map.get entries k ≡ some t
      → Map.get (end_each test reason entries st).sessions k ≡ some s
      → test t ≡ false
  unfolding end_each Map.get
  end_each-fails [] st k s t e h = cc
  end_each-fails ((id, u) ∷ entries) st k s t e h = elim (Bool-cases (id == k)) [
    | inl here ↦
        let same : u ≡ t = some_eq (rw here at e) in
        let left = end_each-sessions entries (round (test u) id reason st) k s h in
        elim (Bool-cases (test u)) [
          | inl passes ↦ absurd (round_gone u id k st s passes here left)
          | inr fails ↦ ap test (sym same) ∙ fails
        ]
    | inr there ↦ end_each-fails entries (round (test u) id reason st) k s t (rw there at e) h
  ]

  -- After the loop over a state's own sessions no session that is left passes the test.
  pub end_where-fails :
      (st : State) (k : String) (s : Session)
      → Map.get (end_where test reason st).sessions k ≡ some s
      → test s ≡ false
  end_where-fails st k s h =
      end_each-fails st.sessions st k s s (end_each-sessions st.sessions st k s h) h
