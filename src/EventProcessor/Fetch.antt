-- ===== src/EventProcessor/Fetch.antt =====
-- Fetching a range of L1 blocks: `recordBlockHashes`, `saveCheckpoint`, `fetchAndProcessEvents`,
-- `replayHistoricalEvents` and `getReorgData` of rollup1/reth-fullnode/event-processor.ts, and
-- `saveSyncState` of rollup1/reth-fullnode/state-manager.ts. No call throws the error
-- FULL_REPLAY_NEEDED, so the handler of that error is left out.
pub mod Ranges
pub mod Order
pub mod Untouched
pub mod Invariant
pub mod InRange
pub mod Preserved
use Prim.Native.Nat.{max, min}
use sync_rollups.Prelude.{
  ℕ, zero, suc, ◌+◌, ◌-◌, ◌*◌, Bool, true, false, JsString, Option, none, some, List, [], ◌∷◌, ltb,
  leb, ◌==◌, if◌then◌else◌, is_truthy,
}
use sync_rollups.Outcome.Io.{Io, pure, gets, modify, catching, ◌>>=◌, ◌>>◌}
use sync_rollups.Maps.{nat_key, map_get, map_set, map_has}
use sync_rollups.Types.BigInt.{to_string}
use sync_rollups.EventProcessor.{Checkpoint, SyncState, EventProcessor, Node, on_world}
use sync_rollups.EventProcessor.Services.{L1Block, Services}
use sync_rollups.EventProcessor.Events.{ProcessedEvent, join_events, runs_of}
use sync_rollups.EventProcessor.History.{
  max_reorg_history, prune_block_hash_history, push_checkpoint,
}
use sync_rollups.EventProcessor.Batch.{process_run}

abbrev pub batch_size : ℕ
batch_size = 10000

-- The rounds of `while (fromBlock <= currentBlock)`; the fuel is enough by `Ranges.ranges-Covers`.
unfoldable pub ranges_loop : ℕ → ℕ → ℕ → List (ℕ × ℕ)
ranges_loop zero from_block current = []
ranges_loop (suc fuel) from_block current =
    let to_block = min (from_block + batch_size - 1) current in
    let rest = ranges_loop fuel (to_block + 1) current in
    if leb from_block current then (from_block, to_block) ∷ rest else []

unfoldable pub ranges : ℕ → ℕ → List (ℕ × ℕ)
ranges from_block current = ranges_loop (suc current - from_block) from_block current

-- The block numbers from `first` on.
unfoldable pub numbers_from : ℕ → ℕ → List ℕ
numbers_from first zero = []
numbers_from first (suc n) = first ∷ numbers_from (suc first) n

abbrev pub on_processor : {W : Type 0} → (EventProcessor → EventProcessor) → Node W → Node W
on_processor f n = record n { processor = f n.processor }

unfoldable pub sync_state : ℕ → EventProcessor → SyncState
sync_state next_block p = record {
  next_block = next_block;
  state_root = p.manager.state.state_root;
  ether_balance = to_string 10 p.manager.state.ether_balance;
  block_hash_history = p.block_hash_history;
  checkpoints = p.checkpoints;
}

-- `this.stateManager.saveSyncState(nextBlock - 1, this.getReorgData())`
unfoldable pub save_sync_state : ℕ → EventProcessor → EventProcessor
save_sync_state next_block p = record p { persisted = some (sync_state next_block p) }

unfoldable pub set_hash : ℕ → JsString → EventProcessor → EventProcessor
set_hash n hash p =
    if is_truthy hash
    then record p { block_hash_history = map_set p.block_hash_history n hash }
    else p

module _ {W : Type 0} (s : Services W) where
  unfoldable pub record_hash : ℕ → Io (Node W) (Unit {0})
  record_hash n = do
    known ← gets (λ x. map_has x.processor.block_hash_history n)
    if known then pure tt else (do
      found ← on_world (s.l1_block n)
      elim found [ none ↦ pure tt | some b ↦ modify (on_processor (set_hash n b.hash)) ])

  unfoldable pub record_hashes : List ℕ → Io (Node W) (Unit {0})
  record_hashes [] = pure tt
  record_hashes (n ∷ ns) = do record_hash n; record_hashes ns

  -- Only the last 256 blocks are asked for.
  unfoldable pub record_block_hashes : ℕ → ℕ → Io (Node W) (Unit {0})
  record_block_hashes from_block to_block = do
    current ← on_world s.l1_block_number
    let start = max from_block (current - max_reorg_history * 2)
    if ltb to_block start then pure tt else (do
      record_hashes (numbers_from start (suc to_block - start))
      modify (
          on_processor
            (λ p. record p { block_hash_history = prune_block_hash_history p.block_hash_history })))

  abbrev pub add_checkpoint : ℕ → ℕ → EventProcessor → EventProcessor
  add_checkpoint l1_block l2_block p = record p {
    checkpoints =
        push_checkpoint
          (record {
            l1_block_number = l1_block;
            l1_block_hash = elim (map_get p.block_hash_history l1_block) [ none ↦ [] | some h ↦ h ];
            l2_block_number = l2_block;
            tracked_state_root = p.manager.state.state_root;
            tracked_ether_balance = to_string 10 p.manager.state.ether_balance;
          })
          p.checkpoints;
  }

  unfoldable pub save_checkpoint : ℕ → Io (Node W) (Unit {0})
  save_checkpoint l1_block = do
    l2_block ← catching (on_world s.l2_block_number) (λ e. pure 0)
    modify (on_processor (add_checkpoint l1_block l2_block))

  -- `none` for no block yet.
  unfoldable pub checkpoint_once : Option ℕ → ℕ → Io (Node W) (Unit {0})
  checkpoint_once none block = save_checkpoint block
  checkpoint_once (some last) block = if block == last then pure tt else save_checkpoint block

  unfoldable pub process_runs :
      Option ℕ → List (ProcessedEvent × List ProcessedEvent) → Io (Node W) (Unit {0})
  process_runs last [] = pure tt
  process_runs last (run ∷ runs) = do
    checkpoint_once last run.0.block_number
    process_run s run.0 run.1
    process_runs (some run.0.block_number) runs

  unfoldable pub advance : ℕ → EventProcessor → EventProcessor
  advance next_block p = save_sync_state next_block (record p { next_block = next_block })

  unfoldable pub fetch_and_process_events : ℕ → ℕ → Io (Node W) (Unit {0})
  fetch_and_process_events from_block to_block = do
    record_block_hashes from_block to_block
    states ← on_world (s.state_updated_logs from_block to_block)
    executions ← on_world (s.execution_logs from_block to_block)
    consumed ← on_world (s.consumed_logs from_block to_block)
    process_runs none (runs_of (join_events states executions consumed))
    modify (on_processor (advance (suc to_block)))

  unfoldable pub fetch_ranges : List (ℕ × ℕ) → Io (Node W) (Unit {0})
  fetch_ranges [] = pure tt
  fetch_ranges (r ∷ rs) = do fetch_and_process_events r.0 r.1; fetch_ranges rs

  unfoldable pub replay_historical_events : ℕ → Io (Node W) (Unit {0})
  replay_historical_events start_block = do
    current ← on_world s.l1_block_number
    fetch_ranges (ranges start_block current)
