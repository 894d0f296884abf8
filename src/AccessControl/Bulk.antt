-- ===== src/AccessControl/Bulk.antt =====
-- What the transaction of Bulk in internal/usecase/access_control/usecase.go writes and counts.
use service_backend.Prelude.{
  ℕ, ◌+◌, String, ◌≡◌, ◌⊎◌, refl, subst, Bool, true, false, not, ◌&&◌, ◌==◌, eqb, List, [], ◌∷◌,
  some, arith, Bool-cases, inl, inr, length, contains,
}
use service_backend.Errors.{ok, not_found}
use service_backend.Entities.{Workspace}
use service_backend.Access.Context.{Caller}
use service_backend.Exec.{>>=-inv, pure-inv, raise_if-inv, not_found_as, not_found_as-inv}
use service_backend.AccessControl.{AccessGrant, AccessGrantInput, Repository, Codec}
use service_backend.AccessControl.Operations.{
  BulkInput, BulkResult, takes, counted, bulk_loop, bulk_in_tx,
}

-- the grant in a workspace
pub record IsGrantIn (current : Caller) (i : BulkInput) (w : Workspace) (row : AccessGrantInput)
    : Type 0 where
  pub for_user : row.user_id ≡ i.user_id
  pub scope : row.scope_type ≡ "workspace"
  pub workspace : row.workspace_id ≡ some w.id
  pub role : row.role ≡ i.role
  pub by : row.actor_id ≡ current.user.id

-- an active workspace that is chosen by name, or that all are
pub record IsTaken (i : BulkInput) (chosen : List String) (w : Workspace) : Type 0 where
  pub active : w.active ≡ true
  pub selected : ((i.selection_type == "selected") ≡ false) ⊎ (contains chosen w.identity ≡ true)

abbrev pub IsSkipped : BulkInput → List String → Workspace → Type 0
IsSkipped i chosen w =
    (w.active ≡ false)
    ⊎ (((i.selection_type == "selected") ≡ true) × (contains chosen w.identity ≡ false))

module _ {S : Type 0} (repo : Repository S) (codec : Codec) where
  -- The writes for a list of workspaces, from store to store: how many grants were new, and how many
  -- were there before.
  pub data Grants (current : Caller) (i : BulkInput) (chosen : List String)
      : List Workspace → ℕ → ℕ → S → S → Type 0 where
    ended : (s : S) → Grants current i chosen [] 0 0 s s
    skips :
        (w : Workspace) (ws : List Workspace) (c u : ℕ) (s t : S)
        → IsSkipped i chosen w
        → Grants current i chosen ws c u s t
        → Grants current i chosen (w ∷ ws) c u s t
    creates :
        (w : Workspace) (ws : List Workspace) (c u : ℕ) (s v t : S) (row : AccessGrantInput)
        (g : AccessGrant)
        → IsTaken i chosen w
        → IsGrantIn current i w row
        → repo.upsert_access_grant row s ≡ (ok (g, true), v)
        → Grants current i chosen ws c u v t
        → Grants current i chosen (w ∷ ws) (c + 1) u s t
    updates :
        (w : Workspace) (ws : List Workspace) (c u : ℕ) (s v t : S) (row : AccessGrantInput)
        (g : AccessGrant)
        → IsTaken i chosen w
        → IsGrantIn current i w row
        → repo.upsert_access_grant row s ≡ (ok (g, false), v)
        → Grants current i chosen ws c u v t
        → Grants current i chosen (w ∷ ws) c (u + 1) s t

  takes-IsTaken :
      (i : BulkInput) (chosen : List String) (w : Workspace)
      → takes i chosen w ≡ true
      → IsTaken i chosen w
  takes-IsTaken i chosen w h = record {
    active = ground (arith, h);
    selected = elim (Bool-cases (i.selection_type == "selected")) [
      | inl by_name ↦ inr (ground (arith, h, by_name))
      | inr all ↦ inl all
    ];
  }

  takes-IsSkipped :
      (i : BulkInput) (chosen : List String) (w : Workspace)
      → takes i chosen w ≡ false
      → IsSkipped i chosen w
  takes-IsSkipped i chosen w h = elim (Bool-cases w.active) [
    | inl active ↦ inr (ground (arith, h, active), ground (arith, h, active))
    | inr closed ↦ inl closed
  ]

  -- what was counted from `r` to `r'`
  record IsCounted (current : Caller) (i : BulkInput) (chosen : List String) (ws : List Workspace)
      (r r' : BulkResult) (s t : S) : Type 0 where
    created : ℕ
    updated : ℕ
    grants : Grants current i chosen ws created updated s t
    all_created : r'.created ≡ r.created + created
    all_updated : r'.updated ≡ r.updated + updated
    all_affected : r'.affected ≡ r.affected + (created + updated)

  one_more :
      (current : Caller) (i : BulkInput) (chosen : List String) (w : Workspace)
      (ws : List Workspace) (row : AccessGrantInput) (g : AccessGrant) (made : Bool)
      (r r' : BulkResult) (s v t : S)
      → IsTaken i chosen w
      → IsGrantIn current i w row
      → repo.upsert_access_grant row s ≡ (ok (g, made), v)
      → IsCounted current i chosen ws (counted made r) r' v t
      → IsCounted current i chosen (w ∷ ws) r r' s t
  one_more current i chosen w ws row g true r r' s v t taken is_row wrote c = record {
    created = c.created + 1;
    updated = c.updated;
    grants = creates w ws c.created c.updated s v t row g taken is_row wrote c.grants;
    all_created = omega (arith, c.all_created);
    all_updated = c.all_updated;
    all_affected = omega (arith, c.all_affected);
  }
  one_more current i chosen w ws row g false r r' s v t taken is_row wrote c = record {
    created = c.created;
    updated = c.updated + 1;
    grants = updates w ws c.created c.updated s v t row g taken is_row wrote c.grants;
    all_created = c.all_created;
    all_updated = omega (arith, c.all_updated);
    all_affected = omega (arith, c.all_affected);
  }

  one_skipped :
      (current : Caller) (i : BulkInput) (chosen : List String) (w : Workspace)
      (ws : List Workspace) (r r' : BulkResult) (s t : S)
      → IsSkipped i chosen w
      → IsCounted current i chosen ws r r' s t
      → IsCounted current i chosen (w ∷ ws) r r' s t
  one_skipped current i chosen w ws r r' s t skipped c = record {
    created = c.created;
    updated = c.updated;
    grants = skips w ws c.created c.updated s t skipped c.grants;
    all_created = c.all_created;
    all_updated = c.all_updated;
    all_affected = c.all_affected;
  }

  abbrev row_in : Caller → BulkInput → Workspace → AccessGrantInput
  row_in current i w = record {
    user_id = i.user_id;
    scope_type = "workspace";
    workspace_id = some w.id;
    role = i.role;
    actor_id = current.user.id;
  }

  bulk_loop-IsCounted :
      (current : Caller) (i : BulkInput) (chosen : List String) (ws : List Workspace)
      (r r' : BulkResult) (seen seen' : List String) (s t : S)
      → bulk_loop repo codec current i chosen ws r seen s ≡ (ok (r', seen'), t)
      → IsCounted current i chosen ws r r' s t
  unfolding bulk_loop
  bulk_loop-IsCounted current i chosen [] r r' seen seen' s t h = pure-inv h λ same last.
      subst (λ (q : BulkResult × List String). IsCounted current i chosen [] r q.0 s t) same
        (subst (IsCounted current i chosen [] r r s) last (record {
          created = 0;
          updated = 0;
          grants = ended s;
          all_created = omega arith;
          all_updated = omega arith;
          all_affected = omega arith;
        }))
  bulk_loop-IsCounted current i chosen (w ∷ ws) r r' seen seen' s t h =
      elim (Bool-cases (takes i chosen w)) [
        | inl chosen_now ↦
            >>=-inv
              (not_found_as (not_found "access_target_not_found")
                (repo.upsert_access_grant (row_in current i w)))
              _ s (rw (chosen_now, bulk_loop) at h)
              λ (grant, made) v stored h1.
                one_more current i chosen w ws (row_in current i w) grant made r r' s v t
                  (takes-IsTaken i chosen w chosen_now)
                  (record {
                    for_user = refl;
                    scope = refl;
                    workspace = refl;
                    role = refl;
                    by = refl;
                  })
                  (not_found_as-inv (not_found "access_target_not_found")
                    (repo.upsert_access_grant (row_in current i w)) s stored)
                  (bulk_loop-IsCounted current i chosen ws (counted made r) r' _ seen' v t h1)
        | inr skipped ↦
            one_skipped current i chosen w ws r r' s t (takes-IsSkipped i chosen w skipped) (
              bulk_loop-IsCounted current i chosen ws r r' seen seen' s t
                (rw (skipped, bulk_loop) at h))
      ]

  -- When the transaction of Bulk succeeds, it has written, in the order of the workspaces, one grant of
  -- the role to the user in each that is active and chosen, and nothing else; `created` counts the new
  -- ones, `updated` those that were there before, and `affected` both.
  pub bulk_counts :
      (current : Caller) (i : BulkInput) (chosen : List String) (ws : List Workspace)
      (r : BulkResult) (s t : S)
      → bulk_in_tx repo codec current i chosen ws s ≡ (ok r, t)
      → Grants current i chosen ws r.created r.updated s t × (r.affected ≡ r.created + r.updated)
  unfolding bulk_in_tx
  bulk_counts current i chosen ws r s t h =
      >>=-inv (bulk_loop repo codec current i chosen ws _ []) _ s h λ (r', seen) s1 ran h1.
        raise_if-inv (i.selection_type == "selected" && not (eqb (length seen) (length chosen))) _ _
          s1 h1
          λ _ h2. pure-inv h2 λ same last.
            let c = bulk_loop-IsCounted current i chosen ws _ r' [] seen s s1 ran in
            subst
              (λ (q : BulkResult).
                Grants current i chosen ws q.created q.updated s t
                × (q.affected ≡ q.created + q.updated))
              same
              (
                subst (λ (n : ℕ). Grants current i chosen ws n r'.updated s t)
                    (omega (arith, c.all_created))
                    (subst (λ (n : ℕ). Grants current i chosen ws c.created n s t)
                      (omega (arith, c.all_updated))
                      (subst (Grants current i chosen ws c.created c.updated s) last c.grants)),
                omega (arith, c.all_created, c.all_updated, c.all_affected),
              )
