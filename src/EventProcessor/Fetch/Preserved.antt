-- ===== src/EventProcessor/Fetch/Preserved.antt =====
-- A fetch of rollup1/reth-fullnode/event-processor.ts keeps the block hashes and the checkpoints
-- well-formed, whatever fails in it.
use Prim.Native.Nat.{max}
use sync_rollups.Prelude.{
  ℕ, suc, ◌-◌, ◌*◌, ◌≤◌, refl, Bool-cases, inl, inr, JsString, is_truthy, Option, none, some, List,
  [], ◌∷◌, All, All-map, ltb, ◌==◌, arith,
}
use sync_rollups.Outcome.{Outcome, ok, throw}
use sync_rollups.Outcome.Io.{Io, modify, ◌>>◌}
use sync_rollups.Outcome.Rules.{Ends, EndsAt, Returns, ReturnsAt, Always, Anything}
use sync_rollups.Outcome.Leaves.{
  Leaves, Leaves-bind, Leaves-after, Leaves-knowing, Keeps-bind, Leaves-pure, Leaves-gets,
  Leaves-modify, Leaves-catching, Leaves-if, Leaves-option, Leaves-less, Leaves-weaken,
}
use sync_rollups.Maps.{JsMap, nat_key}
use sync_rollups.EventProcessor.{Checkpoint, Node, on_world}
use sync_rollups.EventProcessor.Services.{StateUpdatedLog, ExecutionLog, ConsumedLog, Services}
use sync_rollups.EventProcessor.Events.{ProcessedEvent, join_events, runs_of}
use sync_rollups.EventProcessor.Events.Order.{join_events-IsJoin}
use sync_rollups.EventProcessor.Events.Rounds.{RunsFrom, runs_of-RunsFrom, runs_of-heads}
use sync_rollups.EventProcessor.History.{max_reorg_history}
use sync_rollups.EventProcessor.ForkPoint.Detect.{HasHashes}
use sync_rollups.EventProcessor.Fetch.{
  on_processor, set_hash, record_hash, record_hashes, record_block_hashes, save_checkpoint,
  checkpoint_once, process_runs, advance, save_sync_state, fetch_and_process_events,
}
use sync_rollups.EventProcessor.Fetch.Order.{process_runs-Returns}
use sync_rollups.EventProcessor.Fetch.Untouched.{Books, on_world-Kept, process_run-Kept}
use sync_rollups.EventProcessor.Fetch.Invariant.{
  IsFine, IsFine-later, push_checkpoint-IsFine, HasHashes-map_set, prune-HasHashes,
}
use sync_rollups.EventProcessor.Fetch.InRange.{LogsInRange, InRange, join_events-InRange}

-- Every hash is a hash, and the checkpoints are fine and from before a block.
abbrev pub FineBefore : ℕ → JsMap ℕ JsString → List Checkpoint → ℕ → Type 0
FineBefore bound history checkpoints next = HasHashes history × IsFine checkpoints bound

-- The checkpoints are fine, and the next block is not after the given one.
abbrev pub Ready : ℕ → JsMap ℕ JsString → List Checkpoint → ℕ → Type 0
Ready from_block history checkpoints next =
    HasHashes history × IsFine checkpoints next × (next ≤ from_block)

module _ {W : Type 0} where
  abbrev BooksBefore : ℕ → Node W → Type 0
  BooksBefore bound n = Books (FineBefore bound) n

  -- The hashes and checkpoints of a node are well-formed.
  abbrev pub WellFormed : Node W → Type 0
  WellFormed n =
      HasHashes n.processor.block_hash_history
      × IsFine n.processor.checkpoints n.processor.next_block

  abbrev pub ReadyFor : ℕ → Node W → Type 0
  ReadyFor from_block n = Books (Ready from_block) n

  set_hash-Ready :
      (from_block n : ℕ) (hash : JsString) (x : Node W)
      → ReadyFor from_block x
      → ReadyFor from_block (on_processor (set_hash n hash) x)
  unfolding set_hash
  set_hash-Ready from_block n hash x q = elim (Bool-cases (is_truthy hash)) [
    | inl real ↦
        rw real (HasHashes-map_set x.processor.block_hash_history n hash q.0 real, q.1, q.2)
    | inr empty ↦ rw empty q
  ]

  module _ (s : Services W) where
    record_hash-Leaves :
        (from_block n : ℕ) → Leaves (ReadyFor from_block) (ReadyFor from_block) (record_hash s n)
    unfolding record_hash
    record_hash-Leaves from_block n = Keeps-bind _ _ _ (Leaves-gets _ _) (λ known.
        Leaves-if _ _ known _ _ (Leaves-pure _ _) (
          Keeps-bind _ _ _ (on_world-Kept (Ready from_block) _) (λ found.
            Leaves-option _ found _ _ (Leaves-pure _ _)
              (λ b. Leaves-modify _ _ _ (λ x q. set_hash-Ready from_block n b.hash x q)))))

    record_hashes-Leaves :
        (from_block : ℕ) (ns : List ℕ)
        → Leaves (ReadyFor from_block) (ReadyFor from_block) (record_hashes s ns)
    unfolding record_hashes
    record_hashes-Leaves from_block [] = Leaves-pure _ _
    record_hashes-Leaves from_block (n ∷ ns) =
        Keeps-bind _ _ _ (record_hash-Leaves from_block n) (λ _. record_hashes-Leaves from_block ns)

    record_block_hashes-Leaves :
        (from_block to_block : ℕ)
        → Leaves
            (ReadyFor from_block)
            (ReadyFor from_block)
            (record_block_hashes s from_block to_block)
    unfolding record_block_hashes
    record_block_hashes-Leaves from_block to_block =
        Keeps-bind _ _ _ (on_world-Kept (Ready from_block) _) (λ current.
          Leaves-if _ _ (ltb to_block (max from_block (current - max_reorg_history * 2))) _ _
            (Leaves-pure _ _)
            (Keeps-bind _ _ _ (record_hashes-Leaves from_block _) (λ _.
              Leaves-modify _ _ _
                (λ x q. (prune-HasHashes x.processor.block_hash_history q.0, q.1, q.2)))))

    save_checkpoint-Leaves :
        (bound block : ℕ)
        → bound ≤ suc block
        → Leaves (BooksBefore bound) (BooksBefore (suc block)) (save_checkpoint s block)
    unfolding save_checkpoint
    save_checkpoint-Leaves bound block h =
        Leaves-bind _ _ (BooksBefore bound) _ _
          (λ n q. (q.0, IsFine-later n.processor.checkpoints bound (suc block) h q.1))
          (Leaves-catching _ _ _ (on_world-Kept (FineBefore bound) _) (λ e. Leaves-pure _ _))
          (λ l2.
            Leaves-modify _ _ _
              (λ n q. (q.0, push_checkpoint-IsFine _ n.processor.checkpoints bound h q.1)))

    checkpoint_once-Leaves :
        (last : Option ℕ) (bound block : ℕ)
        → bound ≤ suc block
        → Leaves (BooksBefore bound) (BooksBefore (suc block)) (checkpoint_once s last block)
    unfolding checkpoint_once
    checkpoint_once-Leaves none bound block h = save_checkpoint-Leaves bound block h
    checkpoint_once-Leaves (some k) bound block h =
        Leaves-if _ _ (block == k) _ _
          (Leaves-less _ _ _ _
            (λ n q. (q.0, IsFine-later n.processor.checkpoints bound (suc block) h q.1))
            (Leaves-pure _ _))
          (save_checkpoint-Leaves bound block h)

    process_runs-Leaves :
        (last : Option ℕ) (runs : List (ProcessedEvent × List ProcessedEvent)) (bound x top : ℕ)
        → bound ≤ suc x
        → x ≤ top
        → RunsFrom x runs
        → All (λ (r : ProcessedEvent × List ProcessedEvent). r.0.block_number ≤ top) runs
        → Leaves (BooksBefore bound) (BooksBefore (suc top)) (process_runs s last runs)
    unfolding process_runs
    process_runs-Leaves last [] bound x top h k _ _ =
        Leaves-less _ _ _ _
          (λ n q. (q.0, IsFine-later n.processor.checkpoints bound (suc top) (omega arith) q.1))
          (Leaves-pure _ _)
    process_runs-Leaves last (run ∷ runs) bound x top h k (p, r) (t, u) =
        Leaves-bind _ _ (BooksBefore (suc run.0.block_number)) _ _
          (λ n q. (
            q.0,
            IsFine-later n.processor.checkpoints (suc run.0.block_number) (suc top) (omega arith)
                q.1,
          ))
          (checkpoint_once-Leaves last bound run.0.block_number (omega arith))
          (λ _.
            Leaves-bind _ _ (BooksBefore (suc run.0.block_number)) _ _
              (λ n q. (
                q.0,
                IsFine-later n.processor.checkpoints (suc run.0.block_number) (suc top)
                    (omega arith) q.1,
              ))
              (process_run-Kept (FineBefore (suc run.0.block_number)) s run.0 run.1)
              (λ _.
                process_runs-Leaves (some run.0.block_number) runs (suc run.0.block_number)
                  run.0.block_number top (omega arith) t r u))

    still_total :
        {A S : Type 0} (P : A → S → Type 0) (r : Outcome A) (n : S)
        → ReturnsAt P r n
        → ReturnsAt Anything r n
    still_total P (ok a) n h = tt
    still_total P (throw e) n h = h

    process_runs-total :
        (runs : List (ProcessedEvent × List ProcessedEvent))
        → Returns Always Anything (process_runs s none runs)
    process_runs-total runs = record {
      returns = λ n _.
          still_total _ (process_runs s none runs n).0 (process_runs s none runs n).1 (
            (process_runs-Returns s none runs n.processor.manager.state.state_root).returns n refl);
    }

    still_told :
        {A : Type 0} (X : A → Type 0) (r : Outcome A) (w : W) (n : Node W)
        → EndsAt (λ a (w : W). X a) r w
        → EndsAt (λ a (n : Node W). X a) r n
    still_told X (ok a) w n h = h
    still_told X (throw e) w n h = tt

    on_world-told :
        {A : Type 0} (X : A → Type 0) (m : Io W A)
        → Ends (λ a _. X a) m
        → Ends (λ a (n : Node W). X a) (on_world m)
    unfolding on_world
    on_world-told X m h = record {
      ends = λ n.
          still_told X (m n.world).0 (m n.world).1 (record n { world = (m n.world).1 })
            (h.ends n.world);
    }

    -- The events of a range, once its logs have been read.
    process_joined-Leaves :
        (from_block to_block : ℕ) (states : List StateUpdatedLog) (executions : List ExecutionLog)
        (consumed : List ConsumedLog)
        → from_block ≤ to_block
        → All
            (λ (x : StateUpdatedLog). (from_block ≤ x.block_number) × (x.block_number ≤ to_block))
            states
        → All
            (λ (x : ExecutionLog). (from_block ≤ x.block_number) × (x.block_number ≤ to_block))
            executions
        → Leaves (ReadyFor from_block) (ReadyFor (suc to_block)) (
            process_runs s none (runs_of (join_events states executions consumed))
            >> modify (on_processor (advance s (suc to_block))))
    unfolding advance save_sync_state
    process_joined-Leaves from_block to_block states executions consumed h x y =
        let events = join_events states executions consumed in
        let range = join_events-InRange from_block to_block states executions consumed x y in
        Leaves-after _ _ (BooksBefore (suc to_block)) _ _ (process_runs-total (runs_of events))
          (Leaves-weaken _ _ (BooksBefore from_block) _
            (λ n q.
              (q.0, IsFine-later n.processor.checkpoints n.processor.next_block from_block q.2 q.1))
            (process_runs-Leaves none (runs_of events) from_block from_block to_block (omega arith)
              h
              (runs_of-RunsFrom from_block events
                (join_events-IsJoin states executions consumed).ordered
                (All-map (InRange from_block to_block) (λ e. from_block ≤ e.block_number)
                  (λ e q. q.0) events range))
              (runs_of-heads (λ e. e.block_number ≤ to_block) events
                (All-map (InRange from_block to_block) (λ e. e.block_number ≤ to_block) (λ e q. q.1)
                  events range))))
          (λ _. Leaves-modify _ _ _ (λ n q. (q.0, q.1, omega arith)))

    pub fetch-Leaves :
        (from_block to_block : ℕ)
        → LogsInRange s
        → from_block ≤ to_block
        → Leaves
            (ReadyFor from_block)
            (ReadyFor (suc to_block))
            (fetch_and_process_events s from_block to_block)
    unfolding fetch_and_process_events
    fetch-Leaves from_block to_block logs h =
        Leaves-bind _ _ (ReadyFor from_block) _ _ (λ n q. later n q)
          (record_block_hashes-Leaves from_block to_block)
          (λ _.
            Leaves-knowing _ _ (ReadyFor from_block) _ _ _ (λ n q. later n q)
              (on_world-told _ _ (logs.states from_block to_block))
              (on_world-Kept (Ready from_block) _)
              (λ states x.
                Leaves-knowing _ _ (ReadyFor from_block) _ _ _ (λ n q. later n q)
                  (on_world-told _ _ (logs.executions from_block to_block))
                  (on_world-Kept (Ready from_block) _)
                  (λ executions y.
                    Leaves-bind _ _ (ReadyFor from_block) _ _ (λ n q. later n q)
                      (on_world-Kept (Ready from_block) _)
                      (λ consumed.
                        process_joined-Leaves from_block to_block states executions consumed h x
                          y))))
      where
        later : (n : Node W) → ReadyFor from_block n → ReadyFor (suc to_block) n
        later n q = (q.0, q.1, omega arith)
