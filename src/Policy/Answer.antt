-- ===== src/Policy/Answer.antt =====
-- What `Policy.Map` answers, as a list.
use package.text.Mathlib.Text.{is_le}
use Prim.Native.String.{compare, slice, ◌++◌}
use text.Mathlib.TextLemmas.{append_cancel_left, append_assoc}
use text.Mathlib.TextPositions.{slice-append_left}
use service_backend.Prelude.{
  ◌≤◌, ap, String, ◌≡◌, refl, ◌⊎◌, inl, inr, Bool, true, false, Option, none, some, List, [], ◌∷◌,
  arith, eq_iff, Bool-cases, Option-cases, In, ◌∙◌, sym, subst, ◌==◌,
}
use service_backend.Prelude.Map
use service_backend.Prelude.Map.{Map}
use service_backend.Policy.{
  MappedAccessGrant, Rule, Policy, rank, key, applies, collect, insert_key, sort_keys, keys,
  grants_of, map_claims, prepend,
}
use service_backend.Policy.Dominance.{collect_dominates, collect_sound}
use service_backend.Policy.Pointer.{Value}

In-keys :
    (m : Map MappedAccessGrant) (k : String) (g : MappedAccessGrant)
    → Map.get m k ≡ some g
    → In k (keys m)
unfolding Map.get
In-keys [] k g h = cc
In-keys ((j, v) ∷ m) k g h = elim (Bool-cases (j == k)) [
  | inl same ↦ inl ((eq_iff j k).0 same)
  | inr other ↦ inr (In-keys m k g (rw (other, Map.get) at h))
]

later :
    (k j i : String) (ks ls : List String)
    → ((k ≡ j) ⊎ In j ks → In j ls)
    → (k ≡ j) ⊎ In j (i ∷ ks)
    → In j (i ∷ ls)
later k j i ks ls ih (inl e) = inr (ih (inl e))
later k j i ks ls ih (inr (inl e)) = inl e
later k j i ks ls ih (inr (inr m)) = inr (ih (inr m))

In-insert_key : (k j : String) (ks : List String) → (k ≡ j) ⊎ In j ks → In j (insert_key k ks)
unfolding insert_key
In-insert_key k j [] (inl e) = inl e
In-insert_key k j [] (inr h) = elim h [ ]
In-insert_key k j (i ∷ is) h = elim (Bool-cases (is_le (compare k i))) [
  | inl before ↦ rw before h
  | inr after ↦ rw after (later k j i is _ (In-insert_key k j is) h)
]

In-sort_keys : (j : String) (ks : List String) → In j ks → In j (sort_keys ks)
unfolding sort_keys
In-sort_keys j [] h = elim h [ ]
In-sort_keys j (k ∷ ks) (inl e) = In-insert_key k j (sort_keys ks) (inl e)
In-sort_keys j (k ∷ ks) (inr m) = In-insert_key k j (sort_keys ks) (inr (In-sort_keys j ks m))

In-prepend :
    (o : Option MappedAccessGrant) (g : MappedAccessGrant) (gs : List MappedAccessGrant)
    → In g gs
    → In g (prepend o gs)
In-prepend none g gs m = m
In-prepend (some h) g gs m = inr m

In-grants_of :
    (m : Map MappedAccessGrant) (k : String) (g : MappedAccessGrant) (ks : List String)
    → Map.get m k ≡ some g
    → In k ks
    → In g (grants_of m ks)
unfolding grants_of
In-grants_of m k g [] e h = elim h [ ]
In-grants_of m k g (j ∷ ks) e (inl same) = rw (same, e) (inl refl)
In-grants_of m k g (j ∷ ks) e (inr h) =
    In-prepend (Map.get m j) g (grants_of m ks) (In-grants_of m k g ks e h)

grants_of-In :
    (m : Map MappedAccessGrant) (g : MappedAccessGrant) (ks : List String)
    → In g (grants_of m ks)
    → (k : String) × (Map.get m k ≡ some g)
unfolding grants_of
grants_of-In m g [] h = elim h [ ]
grants_of-In m g (j ∷ ks) h = elim (Option-cases (Map.get m j)) [
  | inl missing ↦ grants_of-In m g ks (rw missing at h)
  | inr (v, e) ↦ head_or_rest v e (grants_of-In m g ks) (rw e at h)
]
  where
    head_or_rest :
        (v : MappedAccessGrant)
        → Map.get m j ≡ some v
        → (In g (grants_of m ks) → (k : String) × (Map.get m k ≡ some g))
        → (v ≡ g) ⊎ In g (grants_of m ks)
        → (k : String) × (Map.get m k ≡ some g)
    head_or_rest v e ih (inl same) = (j, e ∙ ap some same)
    head_or_rest v e ih (inr rest) = ih rest

-- the scopes that internal/config/access.go lets a policy name
abbrev pub IsScope : String → Type 0
IsScope scope = (scope ≡ "platform") ⊎ (scope ≡ "workspace")

not_both : (v w : String) → "platform/" ++ v ≡ "workspace/" ++ w → ⊥
not_both v w e =
    let same : ◌≡◌ {A = String} "platform/" "workspace" =
      sym (slice-append_left "platform/" v)
      ∙ ap (λ (s : String). slice s 0 9) e
      ∙ ap (λ (s : String). slice s 0 9) (append_assoc "workspace" "/" w)
      ∙ slice-append_left "workspace" ("/" ++ w) in
    let bad : ◌≡◌ {A = Bool} true false = ap (λ (s : String). s == "platform/") same in cc bad

key-injective :
    (g h : MappedAccessGrant)
    → IsScope g.scope
    → IsScope h.scope
    → key g ≡ key h
    → (g.scope ≡ h.scope) × (g.workspace ≡ h.workspace)
key-injective g h (inl a) (inl b) e =
    (a ∙ sym b, append_cancel_left "platform/" g.workspace h.workspace (rw (a, b) at e))
key-injective g h (inr a) (inr b) e =
    (a ∙ sym b, append_cancel_left "workspace/" g.workspace h.workspace (rw (a, b) at e))
key-injective g h (inl a) (inr b) e = absurd (not_both g.workspace h.workspace (rw (a, b) at e))
key-injective g h (inr a) (inl b) e =
    absurd (not_both h.workspace g.workspace (sym (rw (a, b) at e)))

module _ (equal_numbers : String → String → Bool) (p : Policy) (claims : Value) where
  by_rule :
      (k : String) (g : MappedAccessGrant)
      → (Map.get {V = MappedAccessGrant} [] k ≡ some g)
        ⊎ ((r : Rule) × In r p.rules
            × (applies equal_numbers claims r ≡ true)
            × (r.grant ≡ g)
            × (key g ≡ k))
      → (r : Rule) × In r p.rules
        × (applies equal_numbers claims r ≡ true)
        × (r.grant ≡ g)
        × (key g ≡ k)
  unfolding Map.get
  by_rule k g (inl e) = cc
  by_rule k g (inr found) = found

  -- Every grant that the policy maps the claims to is the grant of one of its rules, and that rule
  -- applies to the claims.
  pub map_claims_sound :
      (g : MappedAccessGrant)
      → In g (map_claims equal_numbers (some p) claims)
      → (r : Rule) × In r p.rules × (applies equal_numbers claims r ≡ true) × (r.grant ≡ g)
  unfolding map_claims
  map_claims_sound g h =
      let grants = collect equal_numbers claims p.rules [] in
      let (k, e) = grants_of-In grants g (sort_keys (keys grants)) h in
      let (r, m, fits, same, at) =
        by_rule k g (collect_sound equal_numbers claims p.rules [] k g e) in
      (r, m, fits, same)

  -- If the rules grant in the scopes platform and workspace only, the answer has, for every rule that
  -- applies to the claims, a grant with the same scope, the same workspace and a role at least as strong.
  pub map_claims_complete :
      ((q : Rule) → In q p.rules → IsScope q.grant.scope)
      → (r : Rule) → In r p.rules
      → applies equal_numbers claims r ≡ true
      → (g : MappedAccessGrant) × In g (map_claims equal_numbers (some p) claims)
        × (g.scope ≡ r.grant.scope)
        × (g.workspace ≡ r.grant.workspace)
        × (rank r.grant.role ≤ rank g.role)
  unfolding map_claims
  map_claims_complete known r m fits =
      let grants = collect equal_numbers claims p.rules [] in
      let strong = collect_dominates equal_numbers claims p.rules [] r m fits in
      elim (Option-cases (Map.get grants (key r.grant))) [
        | inl missing ↦ absurd (omega (arith, (rw missing at strong)))
        | inr (g, e) ↦
            let found =
              by_rule (key r.grant) g
                (collect_sound equal_numbers claims p.rules [] (key r.grant) g e) in
            let (same_scope, same_workspace) =
              key-injective g r.grant
                (subst (λ (x : MappedAccessGrant). IsScope x.scope) found.3 (known found.0 found.1))
                (known r m) found.4 in
            (
              g,
              In-grants_of grants (key r.grant) g _ e
                  (In-sort_keys _ _ (In-keys grants (key r.grant) g e)),
              same_scope,
              same_workspace,
              omega (arith, (rw e at strong)),
            )
      ]
