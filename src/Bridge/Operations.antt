-- ===== src/Bridge/Operations.antt =====
-- Every operation on sessions and commands keeps the registry consistent.
use service_backend.Prelude.{
  ℕ, ◌-◌, ◌*◌, String, ◌≡◌, refl, ap, sym, ◌∙◌, inl, inr, true, false, not, ◌||◌, ◌==◌, ltb, Option,
  none, some, [], ◌∷◌, arith, eq_iff, Bool-cases, is_some, some_eq,
}
use service_backend.Prelude.Map
use service_backend.Prelude.Map.{Map, get-put, get-put-some}
use service_backend.Exec.{refused_or}
use service_backend.Bridge.{BridgeMessage, Participant, Session, Command, State, second}
use service_backend.Bridge.Delivery.{can_debug}
use service_backend.Bridge.Sessions.{client_busy, opened, request_to, request_session}
use service_backend.Bridge.Invariant.{IsOrderly, is_active}
use service_backend.Bridge.Expiry.{IsConsistent}

client_busy-none :
    (client : String) (m : Map Session) (k : String) (s : Session)
    → client_busy client m ≡ false
    → Map.get m k ≡ some s
    → (s.client_id == client) ≡ false
unfolding client_busy Map.get
client_busy-none client [] k s free h = cc
client_busy-none client ((i, t) ∷ m) k s free h = elim (Bool-cases (i == k)) [
  | inl here ↦
      let same : t ≡ s = some_eq (rw here at h) in
      ap (λ (x : Session). x.client_id == client) (sym same) ∙ ground arith
  | inr there ↦ client_busy-none client m k s (ground arith) (rw there at h)
]

-- A session may be put under its own id if it is the only one of its client, and active if it
-- replaces an active one.
pub IsOrderly-put :
    (id : String) (s0 : Session) (sessions : Map Session) (commands : Map Command)
    → IsOrderly sessions commands
    → s0.session_id ≡ id
    → ((k : String) (s : Session)
        → Map.get sessions k ≡ some s
        → s.client_id ≡ s0.client_id
        → k ≡ id)
    → (is_active (Map.get sessions id) ≡ true → s0.active ≡ true)
    → IsOrderly (Map.put id s0 sessions) commands
IsOrderly-put id s0 sessions commands v own alone stays = record {
  own_id = λ k s h. elim (get-put-some sessions id k s0 h) [
    | inl (at, same) ↦ ap (λ (x : Session). x.session_id) (sym same) ∙ (own ∙ at)
    | inr old ↦ v.own_id k s old
  ];
  one_session = λ j k s t hj hk client. elim (get-put-some sessions id j s0 hj) [
    | inl (at_j, same_s) ↦ elim (get-put-some sessions id k s0 hk) [
      | inl (at_k, same_t) ↦ sym at_j ∙ at_k
      | inr old_t ↦
          sym at_j
          ∙ sym (alone k t old_t (sym client ∙ ap (λ (x : Session). x.client_id) (sym same_s)))
    ]
    | inr old_s ↦ elim (get-put-some sessions id k s0 hk) [
      | inl (at_k, same_t) ↦
          alone j s old_s (client ∙ ap (λ (x : Session). x.client_id) (sym same_t)) ∙ at_k
      | inr old_t ↦ v.one_session j k s t old_s old_t client
    ]
  ];
  live_command = λ c k h. rw (get-put sessions id k.session_id s0) (
      ground (
        arith,
        v.live_command c k h,
        stays,
        eq_iff id k.session_id,
        ap (λ (x : String). is_active (Map.get sessions x)),
      ));
  at_most_eight = v.at_most_eight;
}

pub present-put :
    (peers : Map Participant) (k j : String) (p : Participant)
    → is_some (Map.get peers j) ≡ true
    → is_some (Map.get (Map.put k p peers) j) ≡ true
present-put peers k j p h = ground (arith, get-put peers k j p)

pub present : {o : Option Participant} {p : Participant} → o ≡ some p → is_some o ≡ true
present h = rw h

module _ (p target : Participant) (m : BridgeMessage) (new_id : String) (now : ℕ) (st : State)
    (v : IsConsistent st) (here : Map.get st.peers p.id ≡ some p)
    (there : Map.get st.peers target.id ≡ some target) (fresh : Map.get st.sessions new_id ≡ none)
    (free : client_busy target.id st.sessions ≡ false) where
  opened-IsOrderly : IsOrderly (opened p target m new_id now st).sessions st.commands
  opened-IsOrderly =
      IsOrderly-put new_id _ st.sessions st.commands v.orderly refl
        (λ k s h same. cc (
          client_busy-none target.id st.sessions k s free h,
          (eq_iff s.client_id target.id).1 same,
        ))
        (λ active. cc (ap is_active fresh, active))

  opened-peer_id :
      (k : String) (q : Participant)
      → Map.get (opened p target m new_id now st).peers k ≡ some q
      → q.id ≡ k
  opened-peer_id k q h = elim (get-put-some st.peers p.id k (record p { last_request = now }) h) [
    | inl (at, same) ↦ ap (λ (x : Participant). x.id) (sym same) ∙ at
    | inr old ↦ v.peer_id k q old
  ]

  opened-IsConsistent : IsConsistent (opened p target m new_id now st)
  opened-IsConsistent = record {
    orderly = opened-IsOrderly;
    peer_id = opened-peer_id;
    client_here = λ k s h.
        present-put st.peers p.id s.client_id _ (elim (get-put-some st.sessions new_id k _ h) [
          | inl (at, same) ↦
              ap (λ (x : Session). is_some (Map.get st.peers x.client_id)) (sym same)
              ∙ present there
          | inr old ↦ v.client_here k s old
        ]);
    configurator_here = λ k s h.
        present-put st.peers p.id s.configurator_id _
          (elim (get-put-some st.sessions new_id k _ h) [
            | inl (at, same) ↦
                ap (λ (x : Session). is_some (Map.get st.peers x.configurator_id)) (sym same)
                ∙ present here
            | inr old ↦ v.configurator_here k s old
          ]);
  }

request_to-IsConsistent :
    (p : Participant) (m : BridgeMessage) (new_id : String) (now : ℕ) (o : Option Participant)
    (st : State)
    → IsConsistent st
    → Map.get st.peers p.id ≡ some p
    → Map.get st.sessions new_id ≡ none
    → Map.get st.peers m.target_id ≡ o
    → IsConsistent (request_to p m new_id now o st).1
request_to-IsConsistent p m new_id now none st v here fresh found = v
request_to-IsConsistent p m new_id now (some target) st v here fresh found =
    refused_or IsConsistent
      (not (target.role == "client") || not target.debug || not (can_debug p target.workspace)) _ _
      st v
      λ _. refused_or IsConsistent (ltb (now - p.last_request) (5 * second)) _ _ st v λ _.
        refused_or IsConsistent (client_busy target.id st.sessions) _
          (_, opened p target m new_id now st) st v
          λ free.
            opened-IsConsistent p target m new_id now st v here
              (ap (Map.get st.peers) (v.peer_id m.target_id target found) ∙ found) fresh free

pub request_session-IsConsistent :
    (p : Participant) (m : BridgeMessage) (new_id : String) (now : ℕ) (st : State)
    → IsConsistent st
    → Map.get st.peers p.id ≡ some p
    → Map.get st.sessions new_id ≡ none
    → IsConsistent (request_session p m new_id now st).1
unfolding request_session
request_session-IsConsistent p m new_id now st v here fresh =
    refused_or IsConsistent (not p.debug || not (p.role == "configurator") || m.id == "") _ _ st v
      λ _.
        request_to-IsConsistent p m new_id now (Map.get st.peers m.target_id) st v here fresh refl
