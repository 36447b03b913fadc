-- ===== src/EventProcessor/ForkPoint/Detect.antt =====
-- What `detectReorg` of rollup1/reth-fullnode/event-processor.ts answers.
use Prim.Native.Nat.{min}
use sync_rollups.Prelude.{
  ℕ, zero, suc, ◌≤◌, ◌<◌, ◌≡◌, refl, ap, arith, true, false, Bool-cases, inl, inr, JsString, Option,
  none, some, List, [], ◌∷◌, is_truthy, length, ◌==◌, All,
}
use sync_rollups.Outcome.{Outcome}
use sync_rollups.Maps.{JsMap, nat_key, map_get, map_has}
use sync_rollups.EventProcessor.Services.{L1Block, Services}
use sync_rollups.EventProcessor.ForkPoint.{
  reorg_check_depth, oldest_tracked, still_canonical, counts_as_canonical, find_fork_point,
  blocks_to_check, check_blocks, detect_reorg,
}
use sync_rollups.EventProcessor.ForkPoint.Search.{fork_loop-eq-fork}

-- `recordBlockHashes` stores no empty hash.
abbrev pub HasHashes : JsMap ℕ JsString → Type 0
HasHashes history = All (λ (e : ℕ × JsString). is_truthy e.1 ≡ true) history

map_get-HasHashes :
    (m : JsMap ℕ JsString) (n : ℕ) (h : JsString)
    → HasHashes m
    → map_get m n ≡ some h
    → is_truthy h ≡ true
unfolding map_get
map_get-HasHashes [] n h a e = cc
map_get-HasHashes ((k, g) ∷ m) n h (t, a) e = ground (arith, map_get-HasHashes m n h a)

map_has-map_get :
    (m : JsMap ℕ JsString) (n : ℕ) → map_has m n ≡ true → (h : JsString) × (map_get m n ≡ some h)
unfolding map_get map_has
map_has-map_get [] n e = cc
map_has-map_get ((k, g) ∷ m) n e = elim (Bool-cases (k == n)) [
  | inl here ↦ (g, rw here)
  | inr there ↦ let (h, found) = map_has-map_get m n (ground arith) in (h, rw there found)
]

-- Given a recorded hash, the test of `detectReorg` is the one of `findForkPoint`.
still_canonical_lem :
    (answers : ℕ → Outcome (Option L1Block)) (m : JsMap ℕ JsString) (n : ℕ) (h : JsString)
    → HasHashes m
    → map_get m n ≡ some h
    → still_canonical h (answers n) ≡ counts_as_canonical m answers n
unfolding counts_as_canonical
still_canonical_lem answers m n h a e = rw (e, map_get-HasHashes m n h a e, counts_as_canonical)

blocks_to_check-recorded :
    (m : JsMap ℕ JsString) (depth n : ℕ) → All (λ k. map_has m k ≡ true) (blocks_to_check m depth n)
unfolding blocks_to_check
blocks_to_check-recorded m zero n = tt
blocks_to_check-recorded m (suc d) zero = tt
blocks_to_check-recorded m (suc d) (suc n) = ground (arith, blocks_to_check-recorded m d n)

module _ {W : Type 0} (s : Services W) (answers : ℕ → Outcome (Option L1Block))
    (stable : (n : ℕ) (w : W) → (s.l1_block n w).0 ≡ answers n) where
  check_blocks-none :
      (m : JsMap ℕ JsString) (l : List ℕ) (w : W)
      → HasHashes m
      → ((n : ℕ) → counts_as_canonical m answers n ≡ true)
      → All (λ k. map_has m k ≡ true) l
      → (check_blocks s m l w).0 ≡ none
  unfolding check_blocks
  check_blocks-none m [] w a good r = refl
  check_blocks-none m (n ∷ l) w a good (here, r) =
      let (h, e) = map_has-map_get m n here in
      rw (e, stable n w, still_canonical_lem answers m n h a e, good n)
        (check_blocks-none m l _ a good r)

  -- While every recorded block is still canonical, no reorg is reported.
  pub detect_reorg-none :
      (m : JsMap ℕ JsString) (next_block : ℕ) (w : W)
      → HasHashes m
      → ((n : ℕ) → counts_as_canonical m answers n ≡ true)
      → (detect_reorg s m next_block w).0 ≡ none
  unfolding detect_reorg
  detect_reorg-none [] next_block w a good = refl
  detect_reorg-none (e ∷ m) next_block w a good =
      check_blocks-none (e ∷ m) _ w a good (blocks_to_check-recorded (e ∷ m) _ next_block)

  module _ (m : JsMap ℕ JsString) (fork last : ℕ) (hashes : HasHashes m)
      (recorded : map_has m last ≡ true) (old : oldest_tracked m ≤ fork) (le : fork ≤ last)
      (below : (n : ℕ) → n < fork → counts_as_canonical m answers n ≡ true)
      (above : (n : ℕ) → fork ≤ n → n ≤ last → counts_as_canonical m answers n ≡ false) where
    find_fork_point-eq-fork : (w : W) → (find_fork_point s m last w).0 ≡ fork
    unfolding find_fork_point
    find_fork_point-eq-fork w =
        ap (λ (o : Option ℕ). elim o [ none ↦ 0 | some n ↦ n ])
          (fork_loop-eq-fork s m answers stable fork (suc last) (oldest_tracked m) last w old le
            (omega arith) below (λ n p q. above n p (omega arith)))

    check_blocks-eq-fork :
        (rest : List ℕ) (w : W) → (check_blocks s m (last ∷ rest) w).0 ≡ some fork
    unfolding check_blocks
    check_blocks-eq-fork rest w =
        let (h, e) = map_has-map_get m last recorded in
        rw
          (
            e,
            stable last w,
            still_canonical_lem answers m last h hashes e,
            above last le (omega arith),
          )
          (ap some (find_fork_point-eq-fork (s.l1_block last w).1))

    check_window-eq-fork :
        (depth : ℕ) (w : W)
        → 0 < depth
        → (check_blocks s m (blocks_to_check m depth (suc last)) w).0 ≡ some fork
    unfolding blocks_to_check
    check_window-eq-fork zero w h = absurd (omega arith)
    check_window-eq-fork (suc d) w h =
        rw recorded (check_blocks-eq-fork (blocks_to_check m d last) w)

  -- After a reorg at `fork`, whose blocks from `fork` to the last processed one are recorded and no
  -- longer canonical, while those before it are, `detectReorg` reports `fork`.
  pub detect_reorg-eq-fork :
      (m : JsMap ℕ JsString) (fork last : ℕ) (w : W)
      → HasHashes m
      → map_has m last ≡ true
      → oldest_tracked m ≤ fork
      → fork ≤ last
      → ((n : ℕ) → n < fork → counts_as_canonical m answers n ≡ true)
      → ((n : ℕ) → fork ≤ n → n ≤ last → counts_as_canonical m answers n ≡ false)
      → (detect_reorg s m (suc last) w).0 ≡ some fork
  unfolding detect_reorg
  detect_reorg-eq-fork [] fork last w a h o le below above = unfold map_has in cc h
  detect_reorg-eq-fork (e ∷ m) fork last w a h o le below above =
      check_window-eq-fork (e ∷ m) fork last a h o le below above
        (min reorg_check_depth (suc (length m))) w (omega arith)
