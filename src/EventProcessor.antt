-- ===== src/EventProcessor.antt =====
-- rollup1/reth-fullnode/event-processor.ts: a fullnode that follows the rollup's events on L1.
-- What is printed, and the reads made only to print a warning, are left out.
pub mod Services
pub mod History
pub mod ForkPoint
pub mod Events
pub mod Replay
pub mod Batch
pub mod Fetch
pub mod Reorg
use sync_rollups.Prelude.{ℕ, Bool, false, JsString, Option, none, List, []}
use sync_rollups.Prelude.Int.{ℤ, pos}
use sync_rollups.Outcome.Io.{Io}
use sync_rollups.Maps.{JsMap}
use sync_rollups.StateManager.{StateManager, update_state}

pub record Checkpoint : Type 0 where
  pub l1_block_number : ℕ
  pub l1_block_hash : JsString
  pub l2_block_number : ℕ
  pub tracked_state_root : JsString
  pub tracked_ether_balance : JsString

-- `next_block` is the source's `lastProcessedL1Block + 1`, a natural number from the start.
pub record SyncState : Type 0 where
  pub next_block : ℕ
  pub state_root : JsString
  pub ether_balance : JsString
  pub block_hash_history : JsMap ℕ JsString
  pub checkpoints : List Checkpoint

-- `next_block` is `lastProcessedBlock + 1`, and `persisted` the content of sync-state.json.
pub record EventProcessor : Type 0 where
  pub rollups_address : JsString
  pub manager : StateManager
  pub deployment_block : ℕ
  pub next_block : ℕ
  pub last_event_was_state_update : Bool
  pub last_fraud_warning_state : JsString
  pub block_hash_history : JsMap ℕ JsString
  pub checkpoints : List Checkpoint
  pub reorg_in_progress : Bool
  pub persisted : Option SyncState

unfoldable pub new_event_processor : JsString → ℕ → StateManager → EventProcessor
new_event_processor rollups_address start_block manager = record {
  rollups_address = rollups_address;
  manager = manager;
  deployment_block = start_block;
  next_block = start_block;
  last_event_was_state_update = false;
  last_fraud_warning_state = [];
  block_hash_history = [];
  checkpoints = [];
  reorg_in_progress = false;
  persisted = none;
}

-- The processor beside everything that it reaches.
pub record Node (W : Type 0) : Type 0 where
  pub processor : EventProcessor
  pub world : W

module _ {W : Type 0} where
  unfoldable pub on_world : {A : Type 0} → Io W A → Io (Node W) A
  on_world m n = let (r, w) = m n.world in (r, record n { world = w })

  abbrev pub on_manager : (StateManager → StateManager) → Node W → Node W
  on_manager f n = record n { processor = record n.processor { manager = f n.processor.manager } }

  -- `this.stateManager.updateState(root, BigInt(block), l2Block)`
  unfoldable pub track : JsString → ℕ → Option ℕ → Node W → Node W
  track new_state block l2_block n = on_manager (update_state new_state (pos block) l2_block) n
