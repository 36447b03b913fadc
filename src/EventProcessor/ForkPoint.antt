-- ===== src/EventProcessor/ForkPoint.antt =====
-- Finding the first reorged block: `detectReorg` and `findForkPoint` of
-- rollup1/reth-fullnode/event-processor.ts.
pub mod Search
pub mod Detect
use Prim.Native.Nat.{min}
use sync_rollups.Prelude.{
  ℕ, zero, suc, ◌+◌, ◌-◌, ◌/◌, ◌≤◌, ◌<◌, Bool, true, false, JsString, Option, none, some, List, [],
  ◌∷◌, ltb, leb, length, if◌then◌else◌, is_truthy, str_eq,
}
use sync_rollups.Outcome.{Outcome, ok, throw}
use sync_rollups.Outcome.Io.{Io, pure, raise, catching, ◌>>=◌}
use sync_rollups.Maps.{JsMap, nat_key, map_get, map_has}
use sync_rollups.EventProcessor.Services.{L1Block, Services}

abbrev pub reorg_check_depth : ℕ
reorg_check_depth = 8

unfoldable pub oldest_from : ℕ → JsMap ℕ JsString → ℕ
oldest_from k [] = k
oldest_from k ((j, h) ∷ m) = oldest_from (min k j) m

-- `Math.min(...keys)`; the callers' history is not empty.
unfoldable pub oldest_tracked : JsMap ℕ JsString → ℕ
oldest_tracked [] = 0
oldest_tracked ((k, h) ∷ m) = oldest_from k m

-- Is the answer for a block the one of a canonical block? A provider's error counts as yes.
unfoldable pub still_canonical : JsString → Outcome (Option L1Block) → Bool
still_canonical stored (ok none) = false
still_canonical stored (ok (some b)) = str_eq b.hash stored
still_canonical stored (throw e) = true

-- Does the block with this number count as canonical, given what the provider answers for it? One
-- without a recorded hash does.
unfoldable pub counts_as_canonical : JsMap ℕ JsString → (ℕ → Outcome (Option L1Block)) → ℕ → Bool
counts_as_canonical history answers n = elim (map_get history n) [
  | none ↦ true
  | some stored ↦ if is_truthy stored then still_canonical stored (answers n) else true
]

-- `lastProcessedBlock - i` for i below the depth, the recorded ones; `next_block` is
-- `lastProcessedBlock + 1`.
unfoldable pub blocks_to_check : JsMap ℕ JsString → ℕ → ℕ → List ℕ
blocks_to_check history zero next_block = []
blocks_to_check history (suc depth) zero = []
blocks_to_check history (suc depth) (suc n) =
    let rest = blocks_to_check history depth n in if map_has history n then n ∷ rest else rest

module _ {W : Type 0} (s : Services W) where
  -- One round of the search: the provider is asked only about a recorded block.
  unfoldable pub probe : JsMap ℕ JsString → ℕ → W → Bool × W
  probe history n w = elim (map_get history n) [
    | none ↦ (true, w)
    | some stored ↦
        if is_truthy stored
        then (let (answer, w') = s.l1_block n w in (still_canonical stored answer, w'))
        else (true, w)
  ]

  -- `none` means that the fuel ran out.
  unfoldable pub fork_loop : JsMap ℕ JsString → ℕ → ℕ → ℕ → W → Option ℕ × W
  fork_loop history zero lo hi w = (none, w)
  fork_loop history (suc fuel) lo hi w =
      let mid = (lo + hi) / 2 in
      let (good, w') = probe history mid w in
      let rest =
        fork_loop history fuel (if good then mid + 1 else lo) (if good then hi else mid) w' in
      if ltb lo hi then rest else (some lo, w)

  -- The fuel is enough by `fork_loop_total`.
  unfoldable pub find_fork_point : JsMap ℕ JsString → ℕ → W → ℕ × W
  find_fork_point history known_bad_block w =
      let (found, w') =
        fork_loop history (suc known_bad_block) (oldest_tracked history) known_bad_block w in
      (elim found [ none ↦ 0 | some n ↦ n ], w')

  -- A block that is gone or has another hash starts the search; an error skips the block.
  unfoldable pub check_blocks : JsMap ℕ JsString → List ℕ → W → Option ℕ × W
  check_blocks history [] w = (none, w)
  check_blocks history (n ∷ rest) w =
      let (answer, w') = s.l1_block n w in
      let later = check_blocks history rest w' in
      if still_canonical (elim (map_get history n) [ none ↦ [] | some h ↦ h ]) answer
      then later
      else (let (fork, w'') = find_fork_point history n w' in (some fork, w''))

  unfoldable pub detect_reorg : JsMap ℕ JsString → ℕ → W → Option ℕ × W
  detect_reorg [] next_block w = (none, w)
  detect_reorg (e ∷ m) next_block w =
      check_blocks (e ∷ m)
        (blocks_to_check (e ∷ m) (min reorg_check_depth (length (e ∷ m))) next_block) w
