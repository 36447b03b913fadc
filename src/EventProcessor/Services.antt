-- ===== src/EventProcessor/Services.antt =====
-- What the event processor of rollup1/reth-fullnode/event-processor.ts reaches outside of itself:
-- the L1 provider, the reth engine behind the state manager, and the codecs of ethers. `W` is the
-- state of all of these.
use sync_rollups.Prelude.{ℕ, JsString, Option, List}
use sync_rollups.Prelude.Int.{ℤ}
use sync_rollups.Outcome.{Outcome}
use sync_rollups.Outcome.Io.{Io}
use sync_rollups.Types.{Action, ExecutionEntry}

-- `hash` is empty where ethers has null.
pub record L1Block : Type 0 where
  pub hash : JsString
  pub timestamp : ℕ

pub record L1Transaction : Type 0 where
  pub target : Option JsString
  pub payload : JsString
  pub value : ℤ

-- A signed L2 transaction, decoded; `target` is none for a contract creation.
pub record RawTransaction : Type 0 where
  pub sender : JsString
  pub target : Option JsString
  pub value : ℤ
  pub payload : JsString

pub record StateUpdatedLog : Type 0 where
  pub block_number : ℕ
  pub log_index : ℕ
  pub transaction_hash : JsString
  pub new_state_root : JsString

pub record ExecutionLog : Type 0 where
  pub block_number : ℕ
  pub log_index : ℕ
  pub transaction_hash : JsString
  pub current_state : JsString
  pub new_state : JsString

pub record ConsumedLog : Type 0 where
  pub transaction_hash : JsString
  pub action_hash : JsString
  pub action : Action

-- The answer to an `eth_call` from the operator's account; the data of an error is empty where it
-- has none.
pub data CallAnswer : Type 0 where
  returned reverted : JsString → CallAnswer

pub record Services (W : Type 0) : Type 0 where
  -- L1
  pub l1_block_number : Io W ℕ
  pub l1_block : ℕ → Io W (Option L1Block)
  pub l1_transaction : JsString → Io W (Option L1Transaction)
  pub state_updated_logs : ℕ → ℕ → Io W (List StateUpdatedLog)
  pub execution_logs : ℕ → ℕ → Io W (List ExecutionLog)
  pub consumed_logs : ℕ → ℕ → Io W (List ConsumedLog)
  pub l1_authorized_proxy : JsString → Io W JsString
  -- reth
  pub l2_block_number : Io W ℕ
  pub actual_state_root : Io W JsString
  pub mine_block : Option ℕ → Io W (Unit {0})
  pub send_system_tx : JsString → JsString → ℤ → Io W (Unit {0})
  pub send_raw_transaction : JsString → Io W (Unit {0})
  pub broadcast_raw_tx : JsString → Option ℕ → Io W (Unit {0})
  pub l2_authorized_proxy : JsString → Io W (JsString × ℤ)
  pub l2_block_timestamp : ℕ → Io W (Option ℕ)
  pub eth_call : JsString → ℤ → JsString → W → CallAnswer × W
  pub compute_proxy_address : JsString → ℤ → Io W JsString
  pub stop_engine : Io W (Unit {0})
  pub start_engine : Io W (Unit {0})
  pub unwind_to_block : ℕ → Io W (Unit {0})
  pub clear_reth_data : Io W (Unit {0})
  -- ethers
  pub decode_execute_l2tx : JsString → Outcome (Option JsString)
  pub parse_raw_transaction : JsString → Outcome RawTransaction
  pub decode_proxy_deploy : JsString → Outcome (JsString × ℤ)
  pub hash_action : Action → JsString
  pub encode_load_execution_table : List ExecutionEntry → JsString
  pub encode_incoming_call : JsString → ℤ → JsString → JsString → ℤ → JsString
