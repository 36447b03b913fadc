-- ===== src/EventProcessor/ForkPoint/Search.antt =====
-- The search for the fork block of rollup1/reth-fullnode/event-processor.ts ends and is exact.
use sync_rollups.Prelude.{
  ℕ, zero, suc, ◌+◌, ◌-◌, ◌/◌, ◌≤◌, ◌<◌, ◌≡◌, ap, arith, true, false, Bool-cases, inl, inr,
  JsString, Option, some, ltb,
}
use sync_rollups.Outcome.{Outcome}
use sync_rollups.Maps.{JsMap, nat_key}
use sync_rollups.EventProcessor.Services.{L1Block, Services}
use sync_rollups.EventProcessor.ForkPoint.{counts_as_canonical, probe, fork_loop}

module _ {W : Type 0} (s : Services W) (history : JsMap ℕ JsString) where
  -- With more fuel than the distance of its bounds the loop of `findForkPoint` ends by its test,
  -- between its bounds, whatever the provider answers and however its answers change.
  pub fork_loop_total :
      (fuel lo hi : ℕ) (w : W)
      → lo ≤ hi
      → hi - lo < fuel
      → (n : ℕ) × ((fork_loop s history fuel lo hi w).0 ≡ some n) × (lo ≤ n) × (n ≤ hi)
  unfolding fork_loop
  fork_loop_total zero lo hi w le h = elim h [ ]
  fork_loop_total (suc fuel) lo hi w le h = elim (Bool-cases (ltb lo hi)) [
    | inl more ↦ elim (Bool-cases (probe s history ((lo + hi) / 2) w).0) [
      | inl good ↦
          let (n, e, a, b) =
            fork_loop_total fuel ((lo + hi) / 2 + 1) hi (probe s history ((lo + hi) / 2) w).1
              (ground arith) (ground arith) in
          (n, rw (more, good) e, omega arith, b)
      | inr bad ↦
          let (n, e, a, b) =
            fork_loop_total fuel lo ((lo + hi) / 2) (probe s history ((lo + hi) / 2) w).1
              (ground arith) (ground arith) in
          (n, rw (more, bad) e, a, ground arith)
    ]
    | inr done ↦ (lo, rw done, omega arith, le)
  ]

  module _ (answers : ℕ → Outcome (Option L1Block))
      (stable : (n : ℕ) (w : W) → (s.l1_block n w).0 ≡ answers n) where
    probe_lem : (n : ℕ) (w : W) → (probe s history n w).0 ≡ counts_as_canonical history answers n
    unfolding probe counts_as_canonical
    probe_lem n w = ground (arith, stable n w)

    -- If the blocks below `fork` count as canonical and those from it on do not, the loop finds it.
    pub fork_loop-eq-fork :
        (fork fuel lo hi : ℕ) (w : W)
        → lo ≤ fork
        → fork ≤ hi
        → hi - lo < fuel
        → ((n : ℕ) → n < fork → counts_as_canonical history answers n ≡ true)
        → ((n : ℕ) → fork ≤ n → n < hi → counts_as_canonical history answers n ≡ false)
        → (fork_loop s history fuel lo hi w).0 ≡ some fork
    unfolding fork_loop
    fork_loop-eq-fork fork zero lo hi w a b h below above = elim h [ ]
    fork_loop-eq-fork fork (suc fuel) lo hi w a b h below above = elim (Bool-cases (ltb lo hi)) [
      | inl more ↦ elim (Bool-cases (probe s history ((lo + hi) / 2) w).0) [
        | inl good ↦
            rw (more, good)
              (fork_loop-eq-fork fork fuel ((lo + hi) / 2 + 1) hi _
                (ground (arith, above ((lo + hi) / 2), probe_lem ((lo + hi) / 2) w)) b
                (ground arith) below above)
        | inr bad ↦
            rw (more, bad)
              (fork_loop-eq-fork fork fuel lo ((lo + hi) / 2) _ a
                (ground (arith, below ((lo + hi) / 2), probe_lem ((lo + hi) / 2) w)) (ground arith)
                below (λ n p q. above n p (ground arith)))
      ]
      | inr done ↦ rw done (ap some (ground arith))
    ]
