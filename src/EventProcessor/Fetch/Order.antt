-- ===== src/EventProcessor/Fetch/Order.antt =====
-- The order in which rollup1/reth-fullnode/event-processor.ts processes the events of a range, and
-- the root that it tracks after them.
use sync_rollups.Prelude.{
  ℕ, ◌≡◌, refl, Bool, true, false, Bool-cases, not, ◌&&◌, inl, inr, JsString, List, [], ◌∷◌, ◌++◌,
  keep, length, ltb, ◌==◌, Option, none, some, if◌then◌else◌, arith,
}
use sync_rollups.Outcome.Io.{pure, recover, catching, ◌>>◌}
use sync_rollups.Outcome.Rules.{
  Returns, ReturnsAt, Always, Returns-bind, Returns-pure, Returns-modify, Returns-catching,
  Returns-weaken, Ends-bind, Ends-modify,
}
use sync_rollups.Outcome.{Outcome, ok, throw}
use sync_rollups.EventProcessor.{Node, track, on_world}
use sync_rollups.EventProcessor.Services.{Services}
use sync_rollups.EventProcessor.Events.{ProcessedEvent, posted_root, is_execution, changes_state}
use sync_rollups.EventProcessor.Fetch.{checkpoint_once, save_checkpoint, process_runs}
use sync_rollups.EventProcessor.Replay.{process_event}
use sync_rollups.EventProcessor.Replay.Tracking.{
  tracked_root, tracked_root-track, Tracks, process_event-Returns,
}
use sync_rollups.EventProcessor.Batch.{track_all, replay_batch_execution, process_all, process_run}

second_true : (a b : Bool) → (a && b) ≡ true → b ≡ true
second_true true b h = h
second_true false b h = absurd (ground arith)

-- The root posted by the last event of a list, or the given one.
unfoldable pub last_root : JsString → List ProcessedEvent → JsString
last_root root [] = root
last_root root (e ∷ l) = last_root (posted_root e) l

last_root-append :
    (root : JsString) (k l : List ProcessedEvent)
    → last_root root (k ++ l) ≡ last_root (last_root root k) l
unfolding last_root
last_root-append root [] l = refl
last_root-append root (e ∷ k) l = last_root-append (posted_root e) k l

-- The order in which the events of a round are tracked: in a batch those that change the state
-- come first.
unfoldable pub round_order : ProcessedEvent → List ProcessedEvent → List ProcessedEvent
round_order e more =
    if is_execution e && ltb 1 (length (keep changes_state (e ∷ more)))
    then keep changes_state (e ∷ more) ++ keep (λ f. not (changes_state f)) (e ∷ more)
    else e ∷ more

unfoldable pub processing_order : List (ProcessedEvent × List ProcessedEvent) → List ProcessedEvent
processing_order [] = []
processing_order (run ∷ runs) = round_order run.0 run.1 ++ processing_order runs

module _ {W : Type 0} where
  track_all-root :
      (l : List ProcessedEvent) (l2_block : Option ℕ) (n : Node W)
      → tracked_root (track_all l l2_block n) ≡ last_root (tracked_root n) l
  unfolding track_all last_root
  track_all-root [] l2_block n = refl
  track_all-root (e ∷ l) l2_block n =
      rw
        (
          track_all-root l l2_block (track (posted_root e) e.block_number l2_block n),
          tracked_root-track (posted_root e) e.block_number l2_block n,
        )
        refl

  batch_root :
      (e : ProcessedEvent) (l : List ProcessedEvent) (l2_block : Option ℕ) (n : Node W)
      → tracked_root (track_all (e ∷ l) l2_block n) ≡ last_root (posted_root e) l
  unfolding last_root
  batch_root e l l2_block n = track_all-root (e ∷ l) l2_block n

  abbrev RootIs : JsString → Node W → Type 0
  RootIs root n = tracked_root n ≡ root

  module _ (s : Services W) where
    process_all-Returns :
        (l : List ProcessedEvent) (root : JsString)
        → Returns (RootIs root) (Tracks (last_root root l)) (process_all s l)
    unfolding process_all last_root
    process_all-Returns [] root = Returns-pure (Tracks root) (RootIs root) tt (λ n q. q)
    process_all-Returns (e ∷ l) root =
        Returns-bind (Tracks (last_root (posted_root e) l)) (RootIs root) (Tracks (posted_root e))
          (process_event s e) (λ _. process_all s l)
          (Returns-weaken (Tracks (posted_root e)) Always (RootIs root) (process_event s e)
            (λ _ _. tt) (process_event-Returns s e))
          (λ _. process_all-Returns l (posted_root e))

    replay_batch-Returns :
        (block : ℕ) (e : ProcessedEvent) (l : List ProcessedEvent)
        → Returns Always
            (Tracks (last_root (posted_root e) l))
            (replay_batch_execution s block (e ∷ l))
    unfolding replay_batch_execution
    replay_batch-Returns block e l =
        Returns-catching _ _ _
          (Ends-bind _ _ _ λ _. Ends-bind _ _ _ λ _. Ends-bind _ _ _ λ _.
            Ends-bind _ _ _ λ _. Ends-bind _ _ _ λ l2. Ends-modify _ _ (batch_root e l (some l2)))
          (λ _. Returns-modify _ _ _ (λ n _. batch_root e l none n))

    batched-Returns :
        (block : ℕ) (batch rest : List ProcessedEvent) (root : JsString)
        → ltb 1 (length batch) ≡ true
        → Returns Always
            (Tracks (last_root root (batch ++ rest)))
            (replay_batch_execution s block batch >> process_all s rest)
    unfolding last_root
    batched-Returns block [] rest root h = absurd (ground arith)
    batched-Returns block (e ∷ l) rest root h = rw (last_root-append (posted_root e) l rest) (
        Returns-bind (Tracks (last_root (last_root (posted_root e) l) rest)) Always
          (Tracks (last_root (posted_root e) l)) (replay_batch_execution s block (e ∷ l))
          (λ _. process_all s rest) (replay_batch-Returns block e l)
          (λ _. process_all-Returns rest (last_root (posted_root e) l)))

    process_run-Returns :
        (e : ProcessedEvent) (more : List ProcessedEvent) (root : JsString)
        → Returns
            (RootIs root)
            (Tracks (last_root root (round_order e more)))
            (process_run s e more)
    unfolding process_run round_order
    process_run-Returns e more root =
        elim (Bool-cases (is_execution e && ltb 1 (length (keep changes_state (e ∷ more))))) [
          | inl batch ↦ rw batch (
              Returns-weaken _ Always (RootIs root) _ (λ _ _. tt)
                (batched-Returns e.block_number (keep changes_state (e ∷ more))
                  (keep (λ f. not (changes_state f)) (e ∷ more)) root (second_true _ _ batch)))
          | inr single ↦ rw single (process_all-Returns (e ∷ more) root)
        ]

    recover-Returns :
        (r : Outcome ℕ) (root : JsString) (n : Node W)
        → tracked_root n ≡ root
        → ReturnsAt (Tracks root) (recover r (λ _. pure 0) n).0 (recover r (λ _. pure 0) n).1
    unfolding pure
    recover-Returns (ok a) root n h = h
    recover-Returns (throw e) root n h = h

    save-Returns :
        (block : ℕ) (root : JsString)
        → Returns (RootIs root) (Tracks root) (save_checkpoint s block)
    unfolding save_checkpoint catching on_world
    save-Returns block root =
        Returns-bind (Tracks root) (RootIs root) (Tracks root) _ _
          (record {
            returns = λ n q.
                recover-Returns (s.l2_block_number n.world).0 root
                  (record n { world = (s.l2_block_number n.world).1 }) q;
          })
          (λ l2_block. Returns-modify (Tracks root) _ (RootIs root) (λ n q. q))

    checkpoint-Returns :
        (last : Option ℕ) (block : ℕ) (root : JsString)
        → Returns (RootIs root) (Tracks root) (checkpoint_once s last block)
    unfolding checkpoint_once
    checkpoint-Returns none block root = save-Returns block root
    checkpoint-Returns (some k) block root = elim (Bool-cases (block == k)) [
      | inl known ↦ rw known (Returns-pure (Tracks root) (RootIs root) tt (λ n q. q))
      | inr other ↦ rw other (save-Returns block root)
    ]

    -- Whatever L1 and the engine answer, the rounds over the events of a range do not throw, and
    -- the tracked root is then the one that the last event posts, in the order in which the rounds
    -- process the events: a batch first tracks the executions that change the state, then the
    -- others. Without events the root stays.
    pub process_runs-Returns :
        (last : Option ℕ) (runs : List (ProcessedEvent × List ProcessedEvent)) (root : JsString)
        → Returns
            (RootIs root)
            (Tracks (last_root root (processing_order runs)))
            (process_runs s last runs)
    unfolding process_runs processing_order last_root
    process_runs-Returns last [] root = Returns-pure (Tracks root) (RootIs root) tt (λ n q. q)
    process_runs-Returns last (run ∷ runs) root =
        rw (last_root-append root (round_order run.0 run.1) (processing_order runs)) (
          Returns-bind _ (RootIs root) (Tracks root) _ _
            (checkpoint-Returns last run.0.block_number root)
            (λ _.
              Returns-bind _ (RootIs root) (Tracks (last_root root (round_order run.0 run.1))) _ _
                (process_run-Returns run.0 run.1 root)
                (λ _.
                  process_runs-Returns (some run.0.block_number) runs
                    (last_root root (round_order run.0 run.1)))))
