-- ===== src/Bridge/Membership.antt =====
-- Joining, checking and leaving keep the registry consistent; what a check and a leave remove.
use service_backend.Prelude.{
  ℕ, String, ◌≡◌, refl, ap, sym, ◌∙◌, inl, inr, ◌==◌, leb, Option, none, some, Bool-cases, is_some,
}
use service_backend.Prelude.Map
use service_backend.Prelude.Map.{Map, get-put, get-put-some, get-delete, get-delete-some}
use service_backend.Errors.{Result, ok, err}
use service_backend.Exec.{refused_or}
use service_backend.Bridge.{Participant, State}
use service_backend.Bridge.Members.{
  with_authorization, register, registered, competitors, refresh, revoked, changed, check,
  check_found, refresh_if,
}
use service_backend.Bridge.Directory.{Directory, Authorization, authorize}
use service_backend.Bridge.Expiry.{IsConsistent, end_where-IsConsistent}
use service_backend.Bridge.Operations.{present-put}
use service_backend.Bridge.Commands.{other_commands}

-- a participant put under its own id
put_peer-IsConsistent :
    (id : String) (p : Participant) (st : State)
    → IsConsistent st
    → p.id ≡ id
    → IsConsistent (record st { peers = Map.put id p st.peers })
put_peer-IsConsistent id p st v own = record {
  orderly = v.orderly;
  peer_id = λ k q h. elim (get-put-some st.peers id k p h) [
    | inl (at, same) ↦ ap (λ (x : Participant). x.id) (sym same) ∙ (own ∙ at)
    | inr old ↦ v.peer_id k q old
  ];
  client_here = λ k s h. present-put st.peers id s.client_id p (v.client_here k s h);
  configurator_here =
      λ k s h. present-put st.peers id s.configurator_id p (v.configurator_here k s h);
}

pub register-IsConsistent :
    (p : Participant) (st : State) → IsConsistent st → IsConsistent (register p st).1
unfolding register
register-IsConsistent p st v =
    refused_or IsConsistent (is_some (Map.get st.peers p.id)) _ _ st v λ _.
      refused_or IsConsistent (leb 64 (competitors p st.peers)) _ (_, registered p st) st v
        λ _.
          other_commands (record st { peers = Map.put p.id p st.peers }) _
            (put_peer-IsConsistent p.id p st v refl) refl refl v.orderly

pub refresh-IsConsistent :
    (id : String) (p : Participant) (a : Authorization) (st : State)
    → IsConsistent st
    → p.id ≡ id
    → IsConsistent (refresh id p a st)
unfolding refresh
refresh-IsConsistent id p a st v own =
    let kept =
      end_where-IsConsistent (revoked id (with_authorization p a)) "Debug access revoked" _
        (put_peer-IsConsistent id (with_authorization p a) st v own) in
    elim (Bool-cases (changed p a)) [
      | inl news ↦ rw news (other_commands _ _ kept refl refl kept.orderly)
      | inr quiet ↦ rw quiet kept
    ]

check_found-IsConsistent :
    (dir : Directory) (now : ℕ) (id : String) (o : Option Participant) (st : State)
    → IsConsistent st
    → Map.get st.peers id ≡ o
    → IsConsistent (check_found dir now id o st).1
check_found-IsConsistent dir now id none st v found = v
check_found-IsConsistent dir now id (some p) st v found = elim (Bool-cases (p.role == "client")) [
  | inl client ↦ rw client v
  | inr other ↦ rw other (by_answer (authorize dir now p))
]
  where
    by_answer : (r : Result Authorization) → IsConsistent (refresh_if id p r st).1
    by_answer (ok a) = refresh-IsConsistent id p a st v (v.peer_id id p found)
    by_answer (err e) = v

pub check-IsConsistent :
    (dir : Directory) (now : ℕ) (id : String) (st : State)
    → IsConsistent st
    → IsConsistent (check dir now id st).1
unfolding check
check-IsConsistent dir now id st v =
    check_found-IsConsistent dir now id (Map.get st.peers id) st v refl
