-- ===== src/Policy/Tests.antt =====
-- A policy of two rules for one workspace, and claims that both apply to.
use service_backend.Prelude.{
  ◌≤◌, ◌≡◌, refl, ◌==◌, String, Bool, true, inl, inr, none, some, [], ◌∷◌, In, subst, sym,
}
use service_backend.Policy.{
  MappedAccessGrant, Rule, Policy, rank, matches, applies, collect, sort_keys, map_claims,
}
use service_backend.Prelude.Map
use service_backend.Policy.Pointer.{
  Value, null, text, array, object, nil, cons, end, field, pointer_value,
}
use service_backend.Policy.Answer.{IsScope, map_claims_sound, map_claims_complete}
use service_backend.Policy.Path.{Bytes, parse_pointer}
use service_backend.Policy.RoundTrip.{print_pointer, parse_pointer-print}

abbrev same_digits : String → String → Bool
same_digits a b = a == b

abbrev views : MappedAccessGrant
views = record { scope = "workspace"; workspace = "main"; role = "viewer" }

abbrev edits : MappedAccessGrant
edits = record { scope = "workspace"; workspace = "main"; role = "editor" }

abbrev everyone : Rule
everyone = record { path = "kind" ∷ []; equals = text "staff"; contains = none; grant = views }

abbrev editors : Rule
editors = record { path = "groups" ∷ []; equals = null; contains = some "editors"; grant = edits }

abbrev policy : Policy
policy = record {
  provider = "idp";
  name = "Directory";
  version = "1";
  rules = everyone ∷ editors ∷ [];
}

abbrev claims : Value
claims = object (
    field "kind" (text "staff")
      (field "groups" (array (cons (text "all") (cons (text "editors") nil))) end))

applies_both : applies same_digits claims everyone ≡ true
unfolding applies matches pointer_value
applies_both = refl

-- the stronger of the two grants
answer : map_claims same_digits (some policy) claims ≡ edits ∷ []
unfolding map_claims applies matches pointer_value sort_keys collect Map.get Map.put rank
answer = refl

member : In edits (map_claims same_digits (some policy) claims)
member = subst (In edits) (sym answer) (inl refl)

map_claims_sound_example :
    (r : Rule) × In r (everyone ∷ editors ∷ [])
    × (applies same_digits claims r ≡ true)
    × (r.grant ≡ edits)
map_claims_sound_example = map_claims_sound same_digits policy claims edits member

known_scopes : (q : Rule) → In q (everyone ∷ editors ∷ []) → IsScope q.grant.scope
known_scopes q (inl e) = subst (λ (x : Rule). IsScope x.grant.scope) e (inr refl)
known_scopes q (inr (inl e)) = subst (λ (x : Rule). IsScope x.grant.scope) e (inr refl)
known_scopes q (inr (inr none_left)) = elim none_left [ ]

map_claims_complete_example :
    (g : MappedAccessGrant) × In g (map_claims same_digits (some policy) claims)
    × (g.scope ≡ "workspace")
    × (g.workspace ≡ "main")
    × (rank "viewer" ≤ rank g.role)
map_claims_complete_example =
    map_claims_complete same_digits policy claims known_scopes everyone (inl refl) applies_both

-- /a~1b/~0
abbrev pointer : Bytes
pointer = b'/' ∷ b'a' ∷ b'~' ∷ b'1' ∷ b'b' ∷ b'/' ∷ b'~' ∷ b'0' ∷ []

abbrev slashed : Bytes
slashed = b'a' ∷ b'/' ∷ b'b' ∷ []

is_read : parse_pointer pointer ≡ some (slashed ∷ (b'~' ∷ []) ∷ [])
unfolding parse_pointer
is_read = refl

parse_pointer-print_example :
    (parse_pointer (print_pointer (slashed ∷ [])) ≡ some (slashed ∷ []))
    × (print_pointer (slashed ∷ (b'~' ∷ []) ∷ []) ≡ pointer)
parse_pointer-print_example =
    parse_pointer-print slashed [] pointer (slashed ∷ (b'~' ∷ []) ∷ []) is_read
