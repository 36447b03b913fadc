-- ===== src/Builder/Fees/Payable.antt =====
-- The fees of rollup1/builder/builder.ts are such that a node takes the transaction: the priority
-- fee does not exceed the whole fee.
use sync_rollups.Prelude.{ℕ, ◌*◌, ◌≤◌, ◌≡◌, ◌↔◌, arith}
use sync_rollups.Outcome.{ok}
use sync_rollups.StateManager.BaseFee.{compute_next_base_fee}
use sync_rollups.Builder.{FeeData, L2Head}
use sync_rollups.Builder.Fees.{
  chiado, base_priority, bundle_max_fee, broadcast_max_fee, estimate_base_fee, or_default,
  usual_max_fee,
}
use sync_rollups.Builder.Bundle.{Fees}
use sync_rollups.Builder.Landing.{bundle_fees, broadcast_fees}

pub record IsPayable (fees : Fees) : Type 0 where
  pub deploy : fees.deploy_priority ≤ fees.max_fee
  pub batch : fees.batch_priority ≤ fees.max_fee
  pub exec : fees.exec_priority ≤ fees.max_fee

usual : (p : ℕ) (fee : FeeData) → p * 8 ≤ usual_max_fee p fee
unfolding usual_max_fee or_default
usual p fee = ground arith

capped : (fee : FeeData) → base_priority chiado fee ≤ 100000000
unfolding base_priority
capped fee = ground arith

broadcast_covers :
    (chain : ℕ) (fee : FeeData) → base_priority chain fee * 8 ≤ broadcast_max_fee chain fee
unfolding broadcast_max_fee
broadcast_covers chain fee = ground (arith, capped fee, usual (base_priority chain fee) fee)

-- The fees of broadcast transactions are payable on every chain and for every answer of the node.
pub broadcast_fees-IsPayable : (chain : ℕ) (fee : FeeData) → IsPayable (broadcast_fees chain fee)
unfolding broadcast_fees
broadcast_fees-IsPayable chain fee = ground (arith, broadcast_covers chain fee)

covered :
    (chain : ℕ) (fee : FeeData)
    → (chain ≡ chiado → base_priority chain fee ≤ bundle_max_fee chain fee)
    → base_priority chain fee ≤ bundle_max_fee chain fee
unfolding bundle_max_fee
covered chain fee h = ground (arith, h, usual (base_priority chain fee) fee)

-- The fees of a bundle are payable exactly if the chain is not Chiado, or the whole fee that the
-- node answers, with a half more, reaches the priority fee.
pub bundle_fees-IsPayable_iff :
    (chain : ℕ) (fee : FeeData)
    → IsPayable (bundle_fees chain fee)
      ↔ (chain ≡ chiado → base_priority chain fee ≤ bundle_max_fee chain fee)
unfolding bundle_fees
bundle_fees-IsPayable_iff chain fee =
    (λ h _. omega (arith, h.batch), λ h. ground (arith, covered chain fee h))

-- The fee that a deployment on L2 is signed with covers the base fee of the next block.
pub estimate_base_fee-covers :
    (parent : L2Head) (e : ℕ)
    → estimate_base_fee parent ≡ ok e
    → compute_next_base_fee parent.base_fee_per_gas parent.gas_used parent.gas_limit ≤ e * 2
unfolding estimate_base_fee compute_next_base_fee
estimate_base_fee-covers parent e h = ground arith
