-- ===== src/EventProcessor/Reorg.antt =====
-- Recovery from a reorg of L1 and from a restart: `handleReorg`, `pruneFromBlock`, `setResumeState`
-- and one round of `startPolling` of rollup1/reth-fullnode/event-processor.ts.
pub mod Recovery
pub mod Forgets
pub mod Invariant
use sync_rollups.Prelude.{
  ℕ, zero, suc, ◌+◌, ◌-◌, Bool, true, false, JsString, Option, none, some, List, [], ◌∷◌, ltb,
  if◌then◌else◌,
}
use sync_rollups.Outcome.{Outcome, ok, throw}
use sync_rollups.Outcome.Io.{Io, pure, gets, modify, catching, ◌>>=◌, ◌>>◌}
use sync_rollups.StateManager.{StateManager, restore_state, reset_state, clear_execution_cache}
use sync_rollups.EventProcessor.{Checkpoint, SyncState, EventProcessor, Node, on_world}
use sync_rollups.EventProcessor.Services.{Services}
use sync_rollups.EventProcessor.History.{
  find_checkpoint_before, prune_hashes_from, prune_checkpoints_from,
}
use sync_rollups.EventProcessor.ForkPoint.{detect_reorg}
use sync_rollups.EventProcessor.Fetch.{
  on_processor, save_sync_state, fetch_and_process_events, fetch_ranges, ranges,
}

unfoldable pub prune_from_block : ℕ → EventProcessor → EventProcessor
prune_from_block l1_block p = record p {
  block_hash_history = prune_hashes_from l1_block p.block_hash_history;
  checkpoints = prune_checkpoints_from l1_block p.checkpoints;
}

-- Everything back to the deployment block.
unfoldable pub reset_processor : EventProcessor → EventProcessor
reset_processor p = record p {
  manager = clear_execution_cache (reset_state p.manager);
  block_hash_history = [];
  checkpoints = [];
  next_block = p.deployment_block;
}

-- Steps 5 and 6 of the unwinding.
unfoldable pub rewind_to : ℕ → EventProcessor → EventProcessor
rewind_to l1_block p = record (prune_from_block l1_block p) { next_block = l1_block }

module _ {W : Type 0} where
  unfoldable pub restore_tracked : JsString → JsString → Io (Node W) (Unit {0})
  restore_tracked root balance n =
      let (r, m) = restore_state root balance n.processor.manager in
      (r, on_processor (λ p. record p { manager = m }) n)

  -- The fields of a state that is missing are left alone.
  unfoldable pub set_resume_state : SyncState → Io (Node W) (Unit {0})
  set_resume_state saved = do
    modify (on_processor (λ p. record p { next_block = saved.next_block }))
    restore_tracked saved.state_root saved.ether_balance
    modify (
        on_processor (λ p. record p {
          block_hash_history = saved.block_hash_history;
          checkpoints = saved.checkpoints;
        }))

module _ {W : Type 0} (s : Services W) where
  -- The data of reth is wiped with the engine stopped.
  unfoldable pub wipe : Io (Node W) (Unit {0})
  wipe = do
    on_world s.clear_reth_data
    on_world s.start_engine
    modify (on_processor reset_processor)

  unfoldable pub try_unwind : ℕ → Io (Node W) Bool
  try_unwind l2_block =
      catching (on_world (s.unwind_to_block l2_block) >> pure true) (λ e. pure false)

  unfoldable pub resume_from : Checkpoint → Io (Node W) (Unit {0})
  resume_from c = do
    on_world s.start_engine
    restore_tracked c.tracked_state_root c.tracked_ether_balance
    modify (on_processor (rewind_to c.l1_block_number))

  unfoldable pub go_back : Option Checkpoint → Io (Node W) (Unit {0})
  go_back none = do on_world s.stop_engine; wipe
  go_back (some c) = do
    on_world s.stop_engine
    unwound ← try_unwind c.l2_block_number
    if unwound then resume_from c else wipe

  -- `ranges` is empty if L1 has nothing new.
  unfoldable pub catch_up : Io (Node W) (Unit {0})
  catch_up = do
    current ← on_world s.l1_block_number
    next_block ← gets (λ n. n.processor.next_block)
    fetch_ranges s (ranges next_block current)
    modify (on_processor (λ p. save_sync_state p.next_block p))

  unfoldable pub set_reorg_in_progress : Bool → Node W → Node W
  set_reorg_in_progress b n = on_processor (λ p. record p { reorg_in_progress = b }) n

  unfoldable pub recover_from : ℕ → Io (Node W) (Unit {0})
  recover_from fork_block = do
    modify (set_reorg_in_progress true)
    catching
        (do
          checkpoint ← gets (λ n. find_checkpoint_before fork_block n.processor.checkpoints)
          go_back checkpoint
          catch_up)
        (λ e. pure tt)
    modify (set_reorg_in_progress false)

  unfoldable pub handle_reorg : ℕ → Io (Node W) (Unit {0})
  handle_reorg fork_block = do
    busy ← gets (λ n. n.processor.reorg_in_progress)
    if busy then pure tt else recover_from fork_block

  unfoldable pub detect : Io (Node W) (Option ℕ)
  detect n =
      let (fork, w) =
        detect_reorg s n.processor.block_hash_history n.processor.next_block n.world in
      (ok fork, record n { world = w })

  -- Steps 2 and 3 of a round. `next_block` is `lastProcessedBlock + 1`.
  unfoldable pub poll_new_blocks : Io (Node W) (Unit {0})
  poll_new_blocks = do
    current ← on_world s.l1_block_number
    next_block ← gets (λ n. n.processor.next_block)
    if ltb (suc current) next_block
        then handle_reorg (suc current)
        else if ltb current next_block
        then pure tt
        else fetch_and_process_events s next_block current

  unfoldable pub check_reorg : Io (Node W) (Option ℕ)
  check_reorg = do
    busy ← gets (λ n. n.processor.reorg_in_progress)
    if busy then pure none else detect

  -- One round of `poll`; its errors are printed.
  unfoldable pub poll : Io (Node W) (Unit {0})
  poll =
      catching
        (do
          fork ← check_reorg
          elim fork [ none ↦ poll_new_blocks | some fork_block ↦ handle_reorg fork_block ])
        (λ e. pure tt)
