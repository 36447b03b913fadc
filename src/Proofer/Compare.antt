-- ===== src/Proofer/Compare.antt =====
-- `compareActions` of rollup1/proofer/proofer.ts.
use sync_rollups.Prelude.{
  ℕ, zero, suc, sym, ap, ◌∙◌, ==_iff, Bool, true, false, not, ◌≡◌, refl, ◌↔◌, JsString, codes,
  str_eq, str_eq_iff, to_lower, Option, none, some, List, [], ◌∷◌, ◌++◌, length, ◌==◌,
  if◌then◌else◌, arith,
}
use sync_rollups.Prelude.Int.{ℤ, pos}
use sync_rollups.Types.{
  Action, ActionType, type_eq, type_number, call, result, l2tx, revert, revert_continue,
}
use sync_rollups.Types.BigInt.{int_eq, int_eq_iff, to_string}

unfoldable pub bool_eq : Bool → Bool → Bool
bool_eq true b = b
bool_eq false b = not b

-- The text of a scope's index, as in `scope[3]`.
unfoldable pub scope_field : ℕ → JsString
scope_field i = codes "scope[" ++ to_string 10 (pos i) ++ codes "]"

unfoldable pub compare_scopes : ℕ → List ℤ → List ℤ → Option JsString
compare_scopes i [] ys = none
compare_scopes i (a ∷ xs) [] = some (scope_field i)
compare_scopes i (a ∷ xs) (b ∷ ys) =
    let rest = compare_scopes (suc i) xs ys in if int_eq a b then rest else some (scope_field i)

unfoldable pub compare_actions : Action → Action → Option JsString
compare_actions a b =
    if not (type_eq a.action_type b.action_type)
    then some (codes "actionType")
    else if not (int_eq a.rollup_id b.rollup_id)
    then some (codes "rollupId")
    else if not (str_eq (to_lower a.destination) (to_lower b.destination))
    then some (codes "destination")
    else if not (int_eq a.value b.value)
    then some (codes "value")
    else if not (str_eq (to_lower a.payload) (to_lower b.payload))
    then some (codes "data")
    else if not (bool_eq a.failed b.failed)
    then some (codes "failed")
    else if not (str_eq (to_lower a.source_address) (to_lower b.source_address))
    then some (codes "sourceAddress")
    else if not (int_eq a.source_rollup b.source_rollup)
    then some (codes "sourceRollup")
    else if not (length a.scope == length b.scope)
    then some (codes "scope.length")
    else compare_scopes 0 a.scope b.scope

-- An action whose texts are in lower case.
abbrev pub folded : Action → Action
folded a = record a {
  destination = to_lower a.destination;
  payload = to_lower a.payload;
  source_address = to_lower a.source_address;
}

number_type : ℕ → ActionType
number_type zero = call
number_type (suc zero) = result
number_type (suc (suc zero)) = l2tx
number_type (suc (suc (suc zero))) = revert
number_type (suc (suc (suc (suc n)))) = revert_continue

number_type-type_number : (a : ActionType) → number_type (type_number a) ≡ a
unfolding number_type type_number
number_type-type_number call = refl
number_type-type_number result = refl
number_type-type_number l2tx = refl
number_type-type_number revert = refl
number_type-type_number revert_continue = refl

type_eq_iff : (a b : ActionType) → (type_eq a b ≡ true) ↔ (a ≡ b)
unfolding type_eq
type_eq_iff a b = (
  λ h.
      sym (number_type-type_number a)
      ∙ ap number_type ((==_iff (type_number a) (type_number b)).0 h)
      ∙ number_type-type_number b,
  λ h. (==_iff (type_number a) (type_number b)).1 (ap type_number h),
)

compare_scopes_iff :
    (i : ℕ) (xs ys : List ℤ) → length xs ≡ length ys → (compare_scopes i xs ys ≡ none) ↔ (xs ≡ ys)
unfolding compare_scopes
compare_scopes_iff i [] [] h = (λ _. refl, λ _. refl)
compare_scopes_iff i [] (b ∷ ys) h = absurd (omega arith)
compare_scopes_iff i (a ∷ xs) [] h = absurd (omega arith)
compare_scopes_iff i (a ∷ xs) (b ∷ ys) h =
    ground (arith, int_eq_iff a b, compare_scopes_iff (suc i) xs ys)

pub bool_eq_iff : (a b : Bool) → (bool_eq a b ≡ true) ↔ (a ≡ b)
unfolding bool_eq
bool_eq_iff true b = ground arith
bool_eq_iff false b = ground arith

SameFields : Action → Action → Type 0
SameFields a b =
    (a.action_type ≡ b.action_type)
    × (a.rollup_id ≡ b.rollup_id)
    × (to_lower a.destination ≡ to_lower b.destination)
    × (a.value ≡ b.value)
    × (to_lower a.payload ≡ to_lower b.payload)
    × (a.failed ≡ b.failed)
    × (to_lower a.source_address ≡ to_lower b.source_address)
    × (a.source_rollup ≡ b.source_rollup)
    × (a.scope ≡ b.scope)

folded_iff : (a b : Action) → SameFields a b ↔ (folded a ≡ folded b)
unfolding SameFields
folded_iff a b = (
  λ (t, r, d, v, p, f, s, o, c). cc,
  λ h. (
    ap (λ (x : Action). x.action_type) h,
    ap (λ (x : Action). x.rollup_id) h,
    ap (λ (x : Action). x.destination) h,
    ap (λ (x : Action). x.value) h,
    ap (λ (x : Action). x.payload) h,
    ap (λ (x : Action). x.failed) h,
    ap (λ (x : Action). x.source_address) h,
    ap (λ (x : Action). x.source_rollup) h,
    ap (λ (x : Action). x.scope) h,
  ),
)

same_length : (k l : List ℤ) → k ≡ l → length k ≡ length l
same_length k l h = ap (λ (m : List ℤ). length m) h

compare_fields_iff : (a b : Action) → (compare_actions a b ≡ none) ↔ SameFields a b
unfolding compare_actions SameFields
compare_fields_iff a b = ground (
  arith,
  type_eq_iff a.action_type b.action_type,
  int_eq_iff a.rollup_id b.rollup_id,
  str_eq_iff (to_lower a.destination) (to_lower b.destination),
  int_eq_iff a.value b.value,
  str_eq_iff (to_lower a.payload) (to_lower b.payload),
  bool_eq_iff a.failed b.failed,
  str_eq_iff (to_lower a.source_address) (to_lower b.source_address),
  int_eq_iff a.source_rollup b.source_rollup,
  compare_scopes_iff 0 a.scope b.scope,
  same_length a.scope b.scope,
)

-- `compareActions` reports no field exactly if the two actions are equal up to the case of their
-- texts.
pub compare_actions_iff : (a b : Action) → (compare_actions a b ≡ none) ↔ (folded a ≡ folded b)
compare_actions_iff a b = (
  λ h. (folded_iff a b).0 ((compare_fields_iff a b).0 h),
  λ h. (compare_fields_iff a b).1 ((folded_iff a b).1 h),
)
