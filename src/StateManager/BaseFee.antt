-- ===== src/StateManager/BaseFee.antt =====
-- `computeNextBaseFee` of rollup1/reth-fullnode/state-manager.ts. Its arguments are header fields,
-- so non-negative, and `/` on them rounds down.
pub mod Bounds
use sync_rollups.Prelude.{ℕ, ◌+◌, ◌-◌, ◌*◌, ◌/◌, ◌≤◌, ◌<◌, ◌≡◌, ltb, ◌==◌, if◌then◌else◌, arith}

abbrev fee_delta : ℕ → ℕ → ℕ → ℕ
fee_delta base_fee distance gas_target = base_fee * distance / gas_target / 8

unfoldable pub compute_next_base_fee : ℕ → ℕ → ℕ → ℕ
compute_next_base_fee parent_base_fee parent_gas_used parent_gas_limit =
    let gas_target = parent_gas_limit / 2 in
    if gas_target == 0
    then parent_base_fee
    else if parent_gas_used == gas_target
    then parent_base_fee
    else if ltb gas_target parent_gas_used
    then (let delta = fee_delta parent_base_fee (parent_gas_used - gas_target) gas_target in
        parent_base_fee + (if ltb 0 delta then delta else 1))
    else (let delta = fee_delta parent_base_fee (gas_target - parent_gas_used) gas_target in
        if ltb delta parent_base_fee then parent_base_fee - delta else 0)
