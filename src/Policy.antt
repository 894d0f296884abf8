-- ===== src/Policy.antt =====
-- internal/domain/access/policy.go: the external access policy, from verified claims to grants.
-- The policy's rules are compiled elsewhere. Comparing two JSON numbers (math/big) is a parameter.
pub mod Pointer
pub mod Path
pub mod RoundTrip
mod Dominance
mod Answer
mod Tests
use Prim.Native.String.{◌++◌, compare}
use package.text.Mathlib.Text.{is_le}
use service_backend.Prelude.{
  ℕ, String, Bool, true, false, ◌||◌, ◌==◌, ltb, Option, none, some, List, [], ◌∷◌, map,
  if◌then◌else◌,
}
use service_backend.Prelude.Map
use service_backend.Prelude.Map.{Map}
use service_backend.Errors.{Result, ok, err, forbidden}
use Pointer.{Value, Items, nil, cons, null, boolean, text, number, array, object, pointer_value}

pub record MappedAccessGrant : Type 0 where
  pub scope : String
  pub workspace : String
  pub role : String

pub record Rule : Type 0 where
  pub path : List String
  pub equals : Value
  pub contains : Option String
  pub grant : MappedAccessGrant

-- A nil policy (`none`) means local management.
pub record Policy : Type 0 where
  pub provider : String
  pub name : String
  pub version : String
  pub rules : List Rule

pub record AccessManagement : Type 0 where
  pub mode : String
  pub source_name : String
  pub last_synchronized_at : Option ℕ

-- External
abbrev pub external : Option Policy → Bool
external none = false
external (some p) = true

abbrev pub provider : Option Policy → String
provider none = ""
provider (some p) = p.provider

abbrev pub version : Option Policy → String
version none = ""
version (some p) = p.version

-- Management
abbrev pub management : Option Policy → AccessManagement
management none = record { mode = "local"; source_name = ""; last_synchronized_at = none }
management (some p) = record {
  mode = "external";
  source_name = p.name;
  last_synchronized_at = none;
}

-- RequireLocal
abbrev pub require_local : Option Policy → Result (Unit {0})
require_local none = ok tt
require_local (some p) = err (forbidden "access_managed_externally")

-- rank
pub rank : String → ℕ
rank role =
    if role == "admin" then 3 else if role == "editor" then 2 else if role == "viewer" then 1 else 0

-- the loop of `matches` under `Contains`: an item that is no text refuses the whole list
pub all_texts_contain : String → Bool → Items → Bool
all_texts_contain wanted found nil = found
all_texts_contain wanted found (cons (text t) items) =
    all_texts_contain wanted (found || t == wanted) items
all_texts_contain wanted found (cons _ items) = false

contains_text : String → Value → Bool
unfolding all_texts_contain
contains_text wanted (array items) = all_texts_contain wanted false items
contains_text wanted _ = false

abbrev pub key : MappedAccessGrant → String
key g = (g.scope ++ "/") ++ g.workspace

-- `!exists || rank(rule.Grant.Role) > rank(previous.Role)`
abbrev stronger : MappedAccessGrant → Option MappedAccessGrant → Bool
stronger g none = true
stronger g (some previous) = ltb (rank previous.role) (rank g.role)

-- sort.Strings
insert_key : String → List String → List String
insert_key k [] = k ∷ []
insert_key k (j ∷ js) =
    let rest = insert_key k js in if is_le (compare k j) then k ∷ j ∷ js else j ∷ rest

pub sort_keys : List String → List String
unfolding insert_key
sort_keys [] = []
sort_keys (k ∷ ks) = insert_key k (sort_keys ks)

abbrev pub keys : Map MappedAccessGrant → List String
keys [] = []
keys ((k, g) ∷ m) = k ∷ keys m

abbrev prepend : Option MappedAccessGrant → List MappedAccessGrant → List MappedAccessGrant
prepend none gs = gs
prepend (some g) gs = g ∷ gs

-- the last loop of Map
grants_of : Map MappedAccessGrant → List String → List MappedAccessGrant
grants_of grants [] = []
grants_of grants (k ∷ ks) = prepend (Map.get grants k) (grants_of grants ks)

module _ (equal_numbers : String → String → Bool) where
  -- the `switch` on `rule.Equals`
  pub equals_value : Value → Value → Bool
  equals_value (boolean e) (boolean a) = if e then a else (if a then false else true)
  equals_value (text e) (text a) = a == e
  equals_value (number e) (number a) = equal_numbers a e
  equals_value _ _ = false

  -- matches
  unfoldable pub matches : Value → Rule → Bool
  unfolding contains_text equals_value
  matches value rule = elim rule.contains [
    | some wanted ↦ contains_text wanted value
    | none ↦ equals_value rule.equals value
  ]

  abbrev some_match : Rule → Option Value → Bool
  some_match rule none = false
  some_match rule (some value) = matches value rule

  -- the rule applies to the claims
  unfoldable pub applies : Value → Rule → Bool
  unfolding matches
  applies claims rule = some_match rule (pointer_value claims rule.path)

  -- one round of the loop of Map
  pub consider : Value → Rule → Map MappedAccessGrant → Map MappedAccessGrant
  consider claims rule grants =
      if applies claims rule
      then (if stronger rule.grant (Map.get grants (key rule.grant))
          then Map.put (key rule.grant) rule.grant grants
          else grants)
      else grants

  unfoldable pub collect : Value → List Rule → Map MappedAccessGrant → Map MappedAccessGrant
  unfolding consider
  collect claims [] grants = grants
  collect claims (r ∷ rules) grants = collect claims rules (consider claims r grants)

  -- Map: the collected grants in the order of their keys
  unfoldable pub map_claims : Option Policy → Value → List MappedAccessGrant
  unfolding grants_of
  map_claims none claims = []
  map_claims (some p) claims =
      let grants = collect claims p.rules [] in grants_of grants (sort_keys (keys grants))
