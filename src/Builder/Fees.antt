-- ===== src/Builder/Fees.antt =====
-- The fees of rollup1/builder/builder.ts: the closures `basePriority` and `baseMaxFee`, and the
-- base fee that it expects of the next L2 block.
pub mod Payable
use sync_rollups.Prelude.{
  ℕ, zero, ◌+◌, ◌-◌, ◌*◌, ◌/◌, Option, none, some, codes, ltb, ◌==◌, if◌then◌else◌,
}
use sync_rollups.Outcome.{Outcome, ok, throw}
use sync_rollups.Builder.{FeeData, L2Head}

abbrev pub chiado : ℕ
chiado = 10200

-- `x || d`
unfoldable pub or_default : Option ℕ → ℕ → ℕ
or_default none d = d
or_default (some x) d = if x == 0 then d else x

abbrev pub at_least : ℕ → ℕ → ℕ
at_least min x = if ltb min x then x else min

-- Of a bundle, of a preparation, and of broadcast transactions.
unfoldable pub base_priority : ℕ → FeeData → ℕ
unfolding or_default
base_priority chain fee =
    let p = or_default fee.max_priority_fee_per_gas 0 in
    if chain == chiado
    then if ltb 100000000 p then 100000000 else if ltb 0 p then p else 1000000
    else at_least 100000000 p

unfoldable pub usual_max_fee : ℕ → FeeData → ℕ
unfolding or_default
usual_max_fee priority fee = at_least (priority * 8) (or_default fee.max_fee_per_gas 1000000000 * 3)

unfoldable pub bundle_max_fee : ℕ → FeeData → ℕ
unfolding or_default base_priority usual_max_fee
bundle_max_fee chain fee =
    if chain == chiado
    then (let bf = or_default fee.max_fee_per_gas 20000000000 in bf + bf / 2)
    else usual_max_fee (base_priority chain fee) fee

unfoldable pub broadcast_max_fee : ℕ → FeeData → ℕ
unfolding base_priority usual_max_fee
broadcast_max_fee chain fee =
    if chain == chiado then 1000000000 else usual_max_fee (base_priority chain fee) fee

-- Of a batch, with and without a bundle submitter.
unfoldable pub batch_priority : FeeData → ℕ
unfolding or_default
batch_priority fee = at_least 100000000 (or_default fee.max_priority_fee_per_gas 0)

unfoldable pub batch_max_fee : FeeData → ℕ
unfolding batch_priority usual_max_fee
batch_max_fee fee = usual_max_fee (batch_priority fee) fee

unfoldable pub simple_priority : FeeData → ℕ
unfolding or_default
simple_priority fee = at_least 1000000000 (or_default fee.max_priority_fee_per_gas 0)

unfoldable pub simple_max_fee : FeeData → ℕ
unfolding or_default
simple_max_fee fee = at_least 10000000000 (or_default fee.max_fee_per_gas 0)

-- Where the target is 0 the division throws.
unfoldable pub change_of : ℕ → ℕ → ℕ → Outcome ℕ
change_of parent_base_fee distance target =
    if target == 0
    then throw (codes "Division by zero")
    else ok (parent_base_fee * distance / target / 8)

unfoldable pub move_up : ℕ → Outcome ℕ → Outcome ℕ
move_up fee (ok d) = ok (fee + d)
move_up fee (throw e) = throw e

-- The difference does not fall below 0, since the change is an eighth of the fee at most.
unfoldable pub move_down : ℕ → Outcome ℕ → Outcome ℕ
move_down fee (ok d) = ok (fee - d)
move_down fee (throw e) = throw e

unfoldable pub positive_fee : Outcome ℕ → Outcome ℕ
positive_fee (ok f) = ok (if ltb f 1 then 1 else f)
positive_fee (throw e) = throw e

unfoldable pub estimate_base_fee : L2Head → Outcome ℕ
unfolding change_of move_up move_down positive_fee
estimate_base_fee parent =
    let target = parent.gas_limit / 2 in
    positive_fee (
      if ltb target parent.gas_used
      then move_up parent.base_fee_per_gas
          (change_of parent.base_fee_per_gas (parent.gas_used - target) target)
      else if ltb parent.gas_used target
      then move_down parent.base_fee_per_gas
          (change_of parent.base_fee_per_gas (target - parent.gas_used) target)
      else ok parent.base_fee_per_gas)
