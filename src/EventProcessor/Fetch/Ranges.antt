-- ===== src/EventProcessor/Fetch/Ranges.antt =====
-- The block ranges that rollup1/reth-fullnode/event-processor.ts fetches one after the other.
use sync_rollups.Prelude.{
  ℕ, zero, suc, ◌+◌, ◌-◌, ◌≤◌, ◌<◌, ◌≡◌, refl, ap, Bool-cases, inl, inr, List, [], ◌∷◌, ◌++◌, leb,
  All, arith,
}
use Prim.Native.Nat.{min}
use sync_rollups.EventProcessor.Fetch.{batch_size, ranges_loop, ranges, numbers_from}

-- The blocks of the ranges, in the order in which they are fetched.
unfoldable pub blocks_of : List (ℕ × ℕ) → List ℕ
blocks_of [] = []
blocks_of (r ∷ rs) = numbers_from r.0 (suc r.1 - r.0) ++ blocks_of rs

numbers_from_none : (first n : ℕ) → n ≡ 0 → [] ≡ numbers_from first n
unfolding numbers_from
numbers_from_none first zero h = refl
numbers_from_none first (suc n) h = absurd (omega arith)

same_numbers :
    (n k first next : ℕ) → n ≡ k → first ≡ next → numbers_from next n ≡ numbers_from first k
same_numbers n k first next f e = cc

numbers_from_split :
    (first m n next k : ℕ)
    → first + m ≡ next
    → m + n ≡ k
    → numbers_from first m ++ numbers_from next n ≡ numbers_from first k
unfolding numbers_from
numbers_from_split first zero n next k e f = same_numbers n k first next (omega arith) (omega arith)
numbers_from_split first (suc m) n next zero e f = absurd (omega arith)
numbers_from_split first (suc m) n next (suc k) e f =
    ap (λ l. first ∷ l) (numbers_from_split (suc first) m n next k (omega arith) (omega arith))

abbrev round_end : ℕ → ℕ → ℕ
round_end from_block current = min (from_block + batch_size - 1) current

ranges_loop-eq-numbers :
    (fuel from_block current : ℕ)
    → suc current - from_block ≤ fuel
    → blocks_of (ranges_loop fuel from_block current)
      ≡ numbers_from from_block (suc current - from_block)
unfolding blocks_of ranges_loop
ranges_loop-eq-numbers zero from_block current h =
    numbers_from_none from_block (suc current - from_block) (omega arith)
ranges_loop-eq-numbers (suc fuel) from_block current h =
    elim (Bool-cases (leb from_block current)) [
      | inl more ↦ rw more (
          rw (ranges_loop-eq-numbers fuel (round_end from_block current + 1) current (ground arith))
            (numbers_from_split from_block (suc (round_end from_block current) - from_block)
              (suc current - (round_end from_block current + 1)) (round_end from_block current + 1)
              (suc current - from_block) (ground arith) (ground arith)))
      | inr done ↦ rw done (numbers_from_none from_block (suc current - from_block) (ground arith))
    ]

ranges_loop_bound :
    (fuel from_block current : ℕ)
    → All
        (λ (r : ℕ × ℕ). (r.0 ≤ r.1) × (r.1 < r.0 + batch_size) × (r.1 ≤ current))
        (ranges_loop fuel from_block current)
unfolding ranges_loop
ranges_loop_bound zero from_block current = tt
ranges_loop_bound (suc fuel) from_block current = elim (Bool-cases (leb from_block current)) [
  | inl more ↦ rw more (
    (ground arith, ground arith, omega arith),
    ranges_loop_bound fuel (round_end from_block current + 1) current,
  )
  | inr done ↦ rw done tt
]

-- What a list of fetched ranges must do for the blocks from one number on to another.
pub record Covers (from_block current : ℕ) (l : List (ℕ × ℕ)) : Type 0 where
  pub in_order : blocks_of l ≡ numbers_from from_block (suc current - from_block)
  pub bounded : All (λ (r : ℕ × ℕ). (r.0 ≤ r.1) × (r.1 < r.0 + batch_size) × (r.1 ≤ current)) l

-- The fetched ranges are not empty, hold at most 10000 blocks and do not pass the current block;
-- one after the other they are the blocks from the first one to the current one, each once.
pub ranges-Covers : (from_block current : ℕ) → Covers from_block current (ranges from_block current)
unfolding ranges
ranges-Covers from_block current = record {
  in_order = ranges_loop-eq-numbers (suc current - from_block) from_block current (omega arith);
  bounded = ranges_loop_bound (suc current - from_block) from_block current;
}
