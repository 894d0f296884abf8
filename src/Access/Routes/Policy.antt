-- ===== src/Access/Routes/Policy.antt =====
-- The route policy of internal/api/http/middleware/access_token.go: what it refuses and to whom.
use Prim.Native.String.{◌++◌}
use text.Mathlib.TextPositions.{starts_with-append, eq_refl}
use service_backend.Prelude.{
  String, ◌≡◌, true, Option, none, some, List, [], ◌∷◌, arith, ap, contains, Bool-cases, inl, inr,
  eq_iff,
}
use service_backend.Errors.{Error, http_status_of}
use service_backend.Entities.{AccessTokenPrincipal}
use service_backend.Access.Routes.{
  denied_prefixes, under, denied, prefix_error, or_else, flag_error, access_token_route_error,
}

abbrev pub IsForbidden : Option Error → Type 0
IsForbidden none = ⊥
IsForbidden (some e) = http_status_of e ≡ 403

prefix_error-status : (p : String) → http_status_of (prefix_error p) ≡ 403
prefix_error-status p = ground arith

denied-under :
    (ps : List String) (p route : String)
    → contains ps p ≡ true
    → under p route ≡ true
    → IsForbidden (denied ps route)
unfolding denied
denied-under [] p route m u = cc
denied-under (q ∷ ps) p route m u = elim (Bool-cases (under q route)) [
  | inl hit ↦ rw hit (prefix_error-status q)
  | inr miss ↦
      rw miss
        (denied-under ps p route (ground (arith, eq_iff q p, ap (λ (x : String). under x route))) u)
]

under_self : (p : String) → under p p ≡ true
unfolding under
under_self p = rw eq_refl

under-append : (p rest : String) → under p ((p ++ "/") ++ rest) ≡ true
unfolding under
under-append p rest = ground (arith, starts_with-append (p ++ "/") rest)

or_else-IsForbidden : (o q : Option Error) → IsForbidden o → IsForbidden (or_else o q)
or_else-IsForbidden none q h = elim h [ ]
or_else-IsForbidden (some e) q h = h

error-IsForbidden :
    (t : AccessTokenPrincipal) (method p route : String)
    → contains denied_prefixes p ≡ true
    → under p route ≡ true
    → IsForbidden (access_token_route_error t method route)
unfolding access_token_route_error
error-IsForbidden t method p route m u =
    or_else-IsForbidden (denied denied_prefixes route) (flag_error t method route)
      (denied-under denied_prefixes p route m u)

-- A closed section is closed to every token, whatever its flags and the method: the section itself
-- and each path below it answer 403.
pub closed_section :
    (t : AccessTokenPrincipal) (method p rest : String)
    → contains denied_prefixes p ≡ true
    → IsForbidden (access_token_route_error t method p)
      × IsForbidden (access_token_route_error t method ((p ++ "/") ++ rest))
closed_section t method p rest m = (
  error-IsForbidden t method p p m (under_self p),
  error-IsForbidden t method p _ m (under-append p rest),
)
