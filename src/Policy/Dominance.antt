-- ===== src/Policy/Dominance.antt =====
-- The collected grants are, for each scope and workspace, a strongest grant among the rules that
-- apply to the claims.
use service_backend.Prelude.{
  ℕ, suc, ◌≤◌, ap, String, ◌≡◌, refl, ◌⊎◌, inl, inr, Bool, true, Option, none, some, List, [], ◌∷◌,
  arith, eq_iff, eq_refl, In,
}
use service_backend.Prelude.Map
use service_backend.Prelude.Map.{Map, get-put}
use service_backend.Policy.{MappedAccessGrant, Rule, rank, key, applies, consider, collect}
use service_backend.Policy.Pointer.{Value}

-- 0 for no grant, and otherwise one more than the rank of its role
abbrev pub strength : Option MappedAccessGrant → ℕ
strength none = 0
strength (some g) = suc (rank g.role)

module _ (equal_numbers : String → String → Bool) (claims : Value) where
  consider-strength :
      (r : Rule) (grants : Map MappedAccessGrant) (k : String)
      → strength (Map.get grants k) ≤ strength (Map.get (consider equal_numbers claims r grants) k)
  unfolding consider
  consider-strength r grants k = ground (
    arith,
    get-put grants (key r.grant) k r.grant,
    eq_iff (key r.grant) k,
    ap (λ (x : String). Map.get grants x),
  )

  consider_self :
      (r : Rule) (grants : Map MappedAccessGrant)
      → applies equal_numbers claims r ≡ true
      → suc (rank r.grant.role)
        ≤ strength (Map.get (consider equal_numbers claims r grants) (key r.grant))
  unfolding consider
  consider_self r grants fits =
      ground (arith, get-put grants (key r.grant) (key r.grant) r.grant, eq_refl (key r.grant))

  consider-source :
      (r : Rule) (grants : Map MappedAccessGrant) (k : String) (g : MappedAccessGrant)
      → Map.get (consider equal_numbers claims r grants) k ≡ some g
      → (Map.get grants k ≡ some g)
        ⊎ ((applies equal_numbers claims r ≡ true) × (r.grant ≡ g) × (key g ≡ k))
  unfolding consider
  consider-source r grants k g e =
      ground (arith, get-put grants (key r.grant) k r.grant, eq_iff (key r.grant) k)

  collect-strength :
      (rules : List Rule) (grants : Map MappedAccessGrant) (k : String)
      → strength (Map.get grants k)
        ≤ strength (Map.get (collect equal_numbers claims rules grants) k)
  unfolding collect
  collect-strength [] grants k = omega arith
  collect-strength (r ∷ rules) grants k = omega (
    arith,
    consider-strength r grants k,
    collect-strength rules (consider equal_numbers claims r grants) k,
  )

  -- Every rule that applies to the claims is matched by a grant for its scope and workspace that is
  -- at least as strong as the rule's own.
  pub collect_dominates :
      (rules : List Rule) (grants : Map MappedAccessGrant) (r : Rule)
      → In r rules
      → applies equal_numbers claims r ≡ true
      → suc (rank r.grant.role)
        ≤ strength (Map.get (collect equal_numbers claims rules grants) (key r.grant))
  unfolding collect
  collect_dominates [] grants r m fits = elim m [ ]
  collect_dominates (q ∷ rules) grants r (inl e) fits = rw (← e) (
      omega (
        arith,
        consider_self q grants (rw e fits),
        collect-strength rules (consider equal_numbers claims q grants) (key q.grant),
      ))
  collect_dominates (q ∷ rules) grants r (inr m) fits =
      collect_dominates rules (consider equal_numbers claims q grants) r m fits

  -- Nothing is granted but by a rule that applies: a collected grant that was not there before is
  -- the grant of such a rule, under that grant's own key.
  pub collect_sound :
      (rules : List Rule) (grants : Map MappedAccessGrant) (k : String) (g : MappedAccessGrant)
      → Map.get (collect equal_numbers claims rules grants) k ≡ some g
      → (Map.get grants k ≡ some g)
        ⊎ ((r : Rule) × In r rules
            × (applies equal_numbers claims r ≡ true)
            × (r.grant ≡ g)
            × (key g ≡ k))
  unfolding collect
  collect_sound [] grants k g e = inl e
  collect_sound (q ∷ rules) grants k g e =
      from_rest (collect_sound rules (consider equal_numbers claims q grants) k g e)
    where
      from_head :
          (Map.get grants k ≡ some g)
            ⊎ ((applies equal_numbers claims q ≡ true) × (q.grant ≡ g) × (key g ≡ k))
          → (Map.get grants k ≡ some g)
            ⊎ ((r : Rule) × In r (q ∷ rules)
                × (applies equal_numbers claims r ≡ true)
                × (r.grant ≡ g)
                × (key g ≡ k))
      from_head (inl old) = inl old
      from_head (inr (fits, same, at)) = inr (q, inl refl, fits, same, at)

      from_rest :
          (Map.get (consider equal_numbers claims q grants) k ≡ some g)
            ⊎ ((r : Rule) × In r rules
                × (applies equal_numbers claims r ≡ true)
                × (r.grant ≡ g)
                × (key g ≡ k))
          → (Map.get grants k ≡ some g)
            ⊎ ((r : Rule) × In r (q ∷ rules)
                × (applies equal_numbers claims r ≡ true)
                × (r.grant ≡ g)
                × (key g ≡ k))
      from_rest (inl step') = from_head (consider-source q grants k g step')
      from_rest (inr (r, m, fits, same, at)) = inr (r, inr m, fits, same, at)
