-- ===== src/EventProcessor/Reorg/Invariant.antt =====
-- Every round of polling of rollup1/reth-fullnode/event-processor.ts keeps the block hashes and the
-- checkpoints well-formed, through recoveries and failures.
use sync_rollups.EventProcessor.Fetch.InRange.{LogsInRange}
use Prim.Native.Nat.{min}
use sync_rollups.Prelude.{
  ℕ, zero, suc, ◌+◌, ◌-◌, ◌≤◌, ◌<◌, ◌≡◌, Bool, true, Bool-cases, inl, inr, JsString, Option, none,
  some, List, [], ◌∷◌, keep, length-keep-le, All, All-map, ltb, leb, ltb→lt, arith, if◌then◌else◌,
}
use sync_rollups.Outcome.Io.{pure, modify, ◌>>◌}
use sync_rollups.Outcome.Leaves.{
  Leaves, Leaves-bind, Leaves-read, Keeps-bind, Leaves-pure, Leaves-gets, Leaves-modify,
  Leaves-catching, Leaves-if, Leaves-option, Leaves-less, Leaves-weaken,
}
use sync_rollups.Maps.{JsMap}
use sync_rollups.EventProcessor.{Checkpoint}
use sync_rollups.EventProcessor.Services.{Services}
use sync_rollups.EventProcessor.History.{prune_hashes_from, prune_checkpoints_from}
use sync_rollups.EventProcessor.History.Checkpoints.{NotBefore, IsChronological}
use sync_rollups.EventProcessor.ForkPoint.Detect.{HasHashes}
use sync_rollups.EventProcessor.Fetch.{
  batch_size, on_processor, save_sync_state, fetch_and_process_events, fetch_ranges, ranges,
  ranges_loop,
}
use sync_rollups.EventProcessor.Fetch.Untouched.{Books, on_world-Kept}
use sync_rollups.EventProcessor.Fetch.Invariant.{IsFine}
use sync_rollups.EventProcessor.Fetch.Preserved.{WellFormed, ReadyFor, fetch-Leaves}
use sync_rollups.EventProcessor.Reorg.{
  prune_from_block, reset_processor, rewind_to, restore_tracked, wipe, try_unwind, resume_from,
  go_back, catch_up, set_reorg_in_progress, recover_from, handle_reorg, detect, poll_new_blocks,
  check_reorg, poll,
}
use sync_rollups.EventProcessor.Reorg.Recovery.{keep-All}

-- Each range starts where the one before it ends.
abbrev Consecutive : ℕ → List (ℕ × ℕ) → Type 0
Consecutive from_block [] = Unit
Consecutive from_block (r ∷ rs) = (from_block ≤ r.0) × (r.0 ≤ r.1) × Consecutive (suc r.1) rs

ranges_loop-Consecutive :
    (fuel from_block current x : ℕ)
    → x ≤ from_block
    → Consecutive x (ranges_loop fuel from_block current)
unfolding ranges_loop
ranges_loop-Consecutive zero from_block current x h = tt
ranges_loop-Consecutive (suc fuel) from_block current x h =
    elim (Bool-cases (leb from_block current)) [
      | inl more ↦ rw more (
        h,
        ground arith,
        ranges_loop-Consecutive fuel (min (from_block + batch_size - 1) current + 1) current _
            (omega arith),
      )
      | inr done ↦ rw done tt
    ]

keep-All_of : (A : Type 0) (P : A → Type 0) (p : A → Bool) (l : List A) → All P l → All P (keep p l)
keep-All_of A P p [] h = tt
keep-All_of A P p (a ∷ l) (q, h) = elim (Bool-cases (p a)) [
  | inl kept ↦ rw kept (q, keep-All_of A P p l h)
  | inr other ↦ rw other (keep-All_of A P p l h)
]

keep-IsChronological :
    (p : Checkpoint → Bool) (l : List Checkpoint) → IsChronological l → IsChronological (keep p l)
keep-IsChronological p [] h = tt
keep-IsChronological p (c ∷ l) (q, h) = elim (Bool-cases (p c)) [
  | inl kept ↦ rw kept (keep-All_of Checkpoint (NotBefore c) p l q, keep-IsChronological p l h)
  | inr other ↦ rw other (keep-IsChronological p l h)
]

prune_checkpoints_from-IsFine :
    (block : ℕ) (cs : List Checkpoint) (next : ℕ)
    → IsFine cs next
    → IsFine (prune_checkpoints_from block cs) block
unfolding prune_checkpoints_from
prune_checkpoints_from-IsFine block cs next f = record {
  chronological = keep-IsChronological _ cs f.chronological;
  bounded =
      omega (arith, f.bounded, length-keep-le (λ (c : Checkpoint). ltb c.l1_block_number block) cs);
  earlier =
      All-map (λ (c : Checkpoint). ltb c.l1_block_number block ≡ true)
        (λ (c : Checkpoint). c.l1_block_number < block) (λ c q. ltb→lt c.l1_block_number block q) _
        (keep-All Checkpoint (λ (c : Checkpoint). ltb c.l1_block_number block) cs);
}

abbrev Wf : JsMap ℕ JsString → List Checkpoint → ℕ → Type 0
Wf history checkpoints next = HasHashes history × IsFine checkpoints next

module _ {W : Type 0} where
  restore_tracked-Leaves :
      (K : JsMap ℕ JsString → List Checkpoint → ℕ → Type 0) (root balance : JsString)
      → Leaves (Books {W = W} K) (Books K) (restore_tracked root balance)
  unfolding restore_tracked
  restore_tracked-Leaves K root balance = record { leaves = λ n q. q }

  module _ (s : Services W) where
    fetch_ranges-Leaves :
        (from_block : ℕ) (rs : List (ℕ × ℕ))
        → LogsInRange s
        → Consecutive from_block rs
        → Leaves (ReadyFor from_block) WellFormed (fetch_ranges s rs)
    unfolding fetch_ranges
    fetch_ranges-Leaves from_block [] logs h =
        Leaves-less _ _ _ _ (λ n q. (q.0, q.1)) (Leaves-pure _ _)
    fetch_ranges-Leaves from_block (r ∷ rs) logs (h, k, l) =
        Leaves-bind _ _ (ReadyFor (suc r.1)) _ _ (λ n q. (q.0, q.1))
          (Leaves-weaken _ _ (ReadyFor r.0) _ (λ n q. (q.0, q.1, omega arith))
            (fetch-Leaves s r.0 r.1 logs k))
          (λ _. fetch_ranges-Leaves (suc r.1) rs logs l)

    catch_up-Leaves : LogsInRange s → Leaves WellFormed WellFormed (catch_up s)
    unfolding catch_up save_sync_state ranges
    catch_up-Leaves logs = Keeps-bind _ _ _ (on_world-Kept Wf _) (λ current.
        Leaves-read _ _ _ _ (λ n q.
          (catch_up_from (n.processor.next_block) current).leaves n (q.0, q.1, omega arith)))
      where
        catch_up_from :
            (next current : ℕ)
            → Leaves (ReadyFor next) WellFormed (
                fetch_ranges s (ranges next current)
                >> modify (on_processor (λ p. save_sync_state p.next_block p)))
        catch_up_from next current =
            Leaves-bind _ _ WellFormed _ _ (λ n q. q)
              (fetch_ranges-Leaves next (ranges next current) logs
                (ranges_loop-Consecutive (suc current - next) next current next (omega arith)))
              (λ _. Leaves-modify _ _ _ (λ n q. q))

    wipe-Leaves : Leaves WellFormed WellFormed (wipe s)
    unfolding wipe reset_processor
    wipe-Leaves = Keeps-bind _ _ _ (on_world-Kept Wf _) (λ _.
        Keeps-bind _ _ _ (on_world-Kept Wf _) (λ _.
          Leaves-modify _ _ _
            (λ n q. (tt, record { chronological = tt; bounded = omega arith; earlier = tt }))))

    resume_from-Leaves : (c : Checkpoint) → Leaves WellFormed WellFormed (resume_from s c)
    unfolding resume_from rewind_to prune_from_block prune_hashes_from
    resume_from-Leaves c = Keeps-bind _ _ _ (on_world-Kept Wf _) (λ _.
        Keeps-bind _ _ _ (restore_tracked-Leaves Wf _ _) (λ _. Leaves-modify _ _ _ (λ n q. (
          keep-All_of _ _ _ n.processor.block_hash_history q.0,
          prune_checkpoints_from-IsFine c.l1_block_number n.processor.checkpoints
              n.processor.next_block q.1,
        ))))

    go_back-Leaves : (o : Option Checkpoint) → Leaves WellFormed WellFormed (go_back s o)
    unfolding go_back try_unwind
    go_back-Leaves none = Keeps-bind _ _ _ (on_world-Kept Wf _) (λ _. wipe-Leaves)
    go_back-Leaves (some c) = Keeps-bind _ _ _ (on_world-Kept Wf _) (λ _.
        Keeps-bind _ _ _
          (Leaves-catching _ _ _ (Keeps-bind _ _ _ (on_world-Kept Wf _) (λ _. Leaves-pure _ _))
            (λ e. Leaves-pure _ _))
          (λ unwound. Leaves-if _ _ unwound _ _ (resume_from-Leaves c) wipe-Leaves))

    handle_reorg-Leaves :
        (fork_block : ℕ) → LogsInRange s → Leaves WellFormed WellFormed (handle_reorg s fork_block)
    unfolding handle_reorg recover_from set_reorg_in_progress
    handle_reorg-Leaves fork_block logs = Keeps-bind _ _ _ (Leaves-gets _ _) (λ busy.
        Leaves-if _ _ busy _ _ (Leaves-pure _ _) (
          Keeps-bind WellFormed _ _ (Leaves-modify WellFormed WellFormed _ (λ n q. q)) (λ _.
            Keeps-bind WellFormed _ _
              (Leaves-catching _ _ _
                (Keeps-bind _ _ _ (Leaves-gets _ _)
                  (λ o. Keeps-bind _ _ _ (go_back-Leaves o) (λ _. catch_up-Leaves logs)))
                (λ e. Leaves-pure _ _))
              (λ _. Leaves-modify WellFormed WellFormed _ (λ n q. q)))))

    new_blocks-Leaves :
        (current next : ℕ)
        → LogsInRange s
        → Leaves (ReadyFor next) WellFormed (
            if ltb (suc current) next
            then handle_reorg s (suc current)
            else if ltb current next
            then pure tt
            else fetch_and_process_events s next current)
    new_blocks-Leaves current next logs = elim (Bool-cases (ltb (suc current) next)) [
      | inl shrunk ↦ rw shrunk (
          Leaves-weaken _ _ WellFormed _ (λ n q. (q.0, q.1))
            (handle_reorg-Leaves (suc current) logs))
      | inr grown ↦ elim (Bool-cases (ltb current next)) [
        | inl idle ↦ rw (grown, idle) (Leaves-less _ _ _ _ (λ n q. (q.0, q.1)) (Leaves-pure _ _))
        | inr more ↦
            rw (grown, more)
              (Leaves-less _ _ _ _ (λ n q. (q.0, q.1))
                (fetch-Leaves s next current logs (ground arith)))
      ]
    ]

    detect-Leaves : Leaves WellFormed WellFormed (detect s)
    unfolding detect
    detect-Leaves = record { leaves = λ n q. q }

    poll_new_blocks-Leaves : LogsInRange s → Leaves WellFormed WellFormed (poll_new_blocks s)
    unfolding poll_new_blocks
    poll_new_blocks-Leaves logs = Keeps-bind _ _ _ (on_world-Kept Wf _) (λ current.
        Leaves-read _ _ _ _ (λ n q.
          (new_blocks-Leaves current n.processor.next_block logs).leaves n (q.0, q.1, omega arith)))

    -- If the logs that L1 answers for a range of blocks are from these blocks, a round of polling
    -- keeps the hashes and checkpoints well-formed, whatever else L1 and the engine answer and
    -- wherever it fails: every recorded hash is one, and the checkpoints are in chronological
    -- order, at most 128, and from before the next block to fetch.
    pub poll-Leaves : LogsInRange s → Leaves WellFormed WellFormed (poll s)
    unfolding poll check_reorg
    poll-Leaves logs =
        Leaves-catching _ _ _
          (Keeps-bind _ _ _
            (Keeps-bind _ _ _ (Leaves-gets _ _)
              (λ busy. Leaves-if _ _ busy _ _ (Leaves-pure _ _) detect-Leaves))
            (λ fork.
              Leaves-option _ fork _ _ (poll_new_blocks-Leaves logs)
                (λ fork_block. handle_reorg-Leaves fork_block logs)))
          (λ e. Leaves-pure _ _)
