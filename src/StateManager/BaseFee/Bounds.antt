-- ===== src/StateManager/BaseFee/Bounds.antt =====
-- What `computeNextBaseFee` of rollup1/reth-fullnode/state-manager.ts guarantees.
use native.Mathlib.Nat.{
  div-le_of_le-mul, le-div_iff_mul-le, div-mul-le_self, div-zero, le_trans, le_refl,
}
use native.Mathlib.Decide.{dec_le}
use sync_rollups.Prelude.{ℕ, zero, suc, ◌+◌, ◌-◌, ◌*◌, ◌/◌, ◌≤◌, ◌<◌, ◌≡◌, arith}
use sync_rollups.StateManager.BaseFee.{compute_next_base_fee, fee_delta}

div_mono : (a b k : ℕ) → a ≤ b → a / k ≤ b / k
div_mono a b zero h = omega (arith, div-zero a, div-zero b)
div_mono a b (suc k) h =
    (le-div_iff_mul-le {k = suc k} (omega arith)).1 (omega (arith, div-mul-le_self a (suc k)))

mul_mono : (a b c : ℕ) → b ≤ c → a * b ≤ a * c
mul_mono a b c h = grind arith

fee_delta_mono : (base d e target : ℕ) → d ≤ e → fee_delta base d target ≤ fee_delta base e target
fee_delta_mono base d e target h =
    div_mono (base * d / target) (base * e / target) 8
      (div_mono (base * d) (base * e) target (mul_mono base d e h))

fee_delta-le : (base d target : ℕ) → d ≤ target → fee_delta base d target ≤ base / 8
fee_delta-le base d target h =
    div_mono (base * d / target) base 8 (div-le_of_le-mul target (grind arith))

-- With at most twice the gas target used, the base fee moves by at most an eighth, and by one wei
-- at least where it rises.
pub compute_next_base_fee_bounds :
    (base used limit : ℕ)
    → used ≤ limit / 2 * 2
    → (compute_next_base_fee base used limit ≤ base + base / 8 + 1)
      × (base ≤ compute_next_base_fee base used limit + base / 8)
unfolding compute_next_base_fee
compute_next_base_fee_bounds base used limit h = ground (
  arith,
  fee_delta-le base (used - limit / 2) (limit / 2),
  fee_delta-le base (limit / 2 - used) (limit / 2),
)

-- With a gas target that is not zero: a block above it raises the base fee, one at it keeps it,
-- and one below it does not raise it.
pub compute_next_base_fee_direction :
    (base used limit : ℕ)
    → 0 < limit / 2
    → (limit / 2 < used → base < compute_next_base_fee base used limit)
      × (used ≡ limit / 2 → compute_next_base_fee base used limit ≡ base)
      × (used < limit / 2 → compute_next_base_fee base used limit ≤ base)
unfolding compute_next_base_fee
compute_next_base_fee_direction base used limit h =
    (λ k. ground arith, λ k. ground arith, λ k. ground arith)

mono_above :
    (base used more limit : ℕ)
    → limit / 2 ≤ used
    → used ≤ more
    → compute_next_base_fee base used limit ≤ compute_next_base_fee base more limit
unfolding compute_next_base_fee
mono_above base used more limit low h =
    ground (arith, fee_delta_mono base (used - limit / 2) (more - limit / 2) (limit / 2))

mono_below :
    (base used more limit : ℕ)
    → more ≤ limit / 2
    → used ≤ more
    → compute_next_base_fee base used limit ≤ compute_next_base_fee base more limit
unfolding compute_next_base_fee
mono_below base used more limit high h =
    ground (arith, fee_delta_mono base (limit / 2 - more) (limit / 2 - used) (limit / 2))

-- More gas used never gives a lower base fee.
pub compute_next_base_fee_mono :
    (base used more limit : ℕ)
    → used ≤ more
    → compute_next_base_fee base used limit ≤ compute_next_base_fee base more limit
compute_next_base_fee_mono base used more limit h = elim (dec_le (limit / 2) used) [
  | yes above ↦ mono_above base used more limit above h
  | no below ↦ elim (dec_le more (limit / 2)) [
    | yes under ↦ mono_below base used more limit under h
    | no over ↦
        le_trans (mono_below base used (limit / 2) limit (le_refl (limit / 2)) (omega arith))
          (mono_above base (limit / 2) more limit (le_refl (limit / 2)) (omega arith))
  ]
]
