-- ===== src/Dashboard.antt =====
-- The data of the dashboard: visualizator/dashboard/src/types/events.ts and visualization.ts. Its
-- entries and actions have the fields of the ones in Types.
pub mod UnionFind
pub mod Correlation
pub mod Bundles
pub mod Store
pub mod Format
pub mod Tables
pub mod Replay
use sync_rollups.Prelude.{ℕ, JsString, Option, List}
use sync_rollups.Prelude.Int.{ℤ}
use sync_rollups.Types.{Action, ExecutionEntry}

pub data Chain : Type 0 where
  l1 l2 : Chain

-- What the dashboard reads of the arguments of an event; entries may be missing from the logs.
pub data EventArgs : Type 0 where
  rollup_created : ℤ → JsString → JsString → JsString → EventArgs
  state_updated : ℤ → JsString → EventArgs
  verification_key_updated ownership_transferred : EventArgs
  cross_chain_proxy_created : JsString → EventArgs
  l2_execution_performed : ℤ → JsString → EventArgs
  execution_consumed : JsString → Option Action → EventArgs
  cross_chain_call_executed : JsString → JsString → JsString → EventArgs
  l2tx_executed : JsString → ℤ → EventArgs
  batch_posted : Option (List ExecutionEntry) → EventArgs
  execution_table_loaded : Option (List ExecutionEntry) → EventArgs
  incoming_cross_chain_call_executed : JsString → JsString → EventArgs

pub record EventRecord : Type 0 where
  pub id : JsString
  pub chain : Chain
  pub block_number : ℕ
  pub log_index : ℕ
  pub transaction_hash : JsString
  pub args : EventArgs
