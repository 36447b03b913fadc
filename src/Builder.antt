-- ===== src/Builder.antt =====
-- rollup1/builder/builder.ts: the state of the builder and what it reaches outside of itself. What
-- is printed and timed is left out. An await lets other requests run, so a service may change the
-- builder too: it is an Io over the whole Site.
pub mod Fees
pub mod Chain
pub mod Proof
pub mod Bundle
pub mod Plan
pub mod Landing
pub mod L2
pub mod Batch
pub mod L1
pub mod Submit
pub mod Relays
pub mod Hints
pub mod Monitor
use sync_rollups.Prelude.{ℕ, Bool, JsString, Option, List}
use sync_rollups.Prelude.Int.{ℤ}
use sync_rollups.Maps.{JsMap}
use sync_rollups.Outcome.{Outcome, ok}
use sync_rollups.Outcome.Io.{Io}
use sync_rollups.Types.{Action, ExecutionEntry}
use sync_rollups.Types.Json.{ExecutionEntryJson}
use sync_rollups.Proofer.{ProveRequest}
use sync_rollups.Planner.{PlannerServices, PlannerConfig}

-- `MockBundleSubmitter`, or `BundleSubmitter` with its relays.
pub data Submitter : Type 0 where
  mock_submitter default_relays chiado_relays : Submitter

-- A prepared L1→L2 call.
pub record Preparation : Type 0 where
  pub state_root : JsString
  pub proxy_address : JsString
  pub source_proxy_address : JsString
  pub created_at_ms : ℕ

-- An L1→L2 call that the proofer may have to run first.
pub record StoredHint : Type 0 where
  pub action : Action
  pub timestamp : ℕ
  pub source_proxy : JsString

pub record BuilderConfig : Type 0 where
  pub planner : PlannerConfig
  pub builder_address : JsString
  pub use_ecdsa_verifier : Bool

pub record Builder : Type 0 where
  pub is_anvil_l1 : Bool
  pub l1_chain_id : ℕ
  pub bundle_submitter : Option Submitter
  pub post_batch_gas_limit : ℕ
  pub exec_l2tx_gas_limit : ℕ
  pub operator_address : JsString
  pub operator_key : JsString
  pub prepare_l1_cache : JsMap JsString Preparation
  pub recent_l1_to_l2_hints : List StoredHint
  pub l2_hint_table : JsMap JsString JsString
  pub l2_chain_id : ℕ

-- The methods of the Rollups contract that the builder signs calls of. The entries of `postBatch`
-- are copied field by field; its `blobCount` is 0 and its `callData` empty.
pub data ContractCall : Type 0 where
  create_cross_chain_proxy : JsString → ℤ → ContractCall
  post_batch : List ExecutionEntry → JsString → ContractCall
  execute_l2tx : ℤ → JsString → ContractCall

pub record Overrides : Type 0 where
  pub gas_limit : ℕ
  pub max_fee_per_gas : ℕ
  pub max_priority_fee_per_gas : ℕ
  pub nonce : ℕ

pub record UnsignedTx : Type 0 where
  pub call : ContractCall
  pub overrides : Overrides
  pub chain_id : ℕ

-- What `Transaction.from` reads.
pub record ParsedTx : Type 0 where
  pub from : Option JsString
  pub to : Option JsString
  pub payload : JsString
  pub value : ℤ
  pub hash : Option JsString

pub record FeeData : Type 0 where
  pub max_fee_per_gas : Option ℕ
  pub max_priority_fee_per_gas : Option ℕ

pub record L1Head : Type 0 where
  pub timestamp : ℕ
  pub hash : JsString

pub record L2Head : Type 0 where
  pub base_fee_per_gas : ℕ
  pub gas_used : ℕ
  pub gas_limit : ℕ

-- The transaction that deploys a proxy on L2.
pub record L2Deploy : Type 0 where
  pub to : JsString
  pub payload : JsString
  pub nonce : ℕ
  pub chain_id : ℕ
  pub gas_limit : ℕ
  pub max_fee_per_gas : ℕ

pub record BundleResult : Type 0 where
  pub included : Bool
  pub block_number : ℕ
  pub tx_hashes : List JsString

pub record Receipt : Type 0 where
  pub block_number : ℕ
  pub hash : JsString

pub record ProofReply : Type 0 where
  pub success : Bool
  pub proof : JsString
  pub error : JsString
  pub proofer_state : JsString

-- The block that `syncrollups_revertToSnapshot` is given: a text or a number of JSON.
pub data BlockParam : Type 0 where
  block_text : JsString → BlockParam
  block_number : ℕ → BlockParam

pub data NonceTag : Type 0 where
  pending latest : NonceTag

-- Quantities, which JSON-RPC writes in hexadecimal, are numbers. `l1_block_number` asks the node,
-- `l1_cached_block_number` ethers. `created_proxies` deploys a proxy and gives for each log of its
-- receipt the proxy of a `CrossChainProxyCreated`; `send_post_batch` sends a batch and waits for it;
-- `is_confirmed` waits at most 5000 ms.
pub record BuilderServices (S : Type 0) : Type 0 where
  pub planner : PlannerServices S
  -- the fullnode
  pub tracked_l2_block : Io S ℕ
  pub revert_to_snapshot : BlockParam → Io S (Unit {0})
  pub l2_block_number : Io S ℕ
  pub l2_code : JsString → Io S JsString
  pub l2_transaction_count : JsString → Io S ℕ
  pub l2_latest_block : Io S L2Head
  pub l2_eth_call : JsString → JsString → Io S JsString
  pub load_executions : List ExecutionEntryJson → Io S (Unit {0})
  -- L1
  pub set_automine : Bool → Io S (Unit {0})
  pub l1_network : Io S ℕ
  pub l1_latest_timestamp : Io S (Option ℕ)
  pub l1_block : ℕ → Io S (Option L1Head)
  pub l1_block_number : Io S ℕ
  pub l1_cached_block_number : Io S ℕ
  pub l1_code : JsString → Io S JsString
  pub l1_fee_data : Io S FeeData
  pub wallet_nonce : NonceTag → Io S ℕ
  pub proxy_address : JsString → ℤ → ℕ → Io S JsString
  pub rollup_state_root : Io S JsString
  pub authorized_rollup : JsString → Io S ℤ
  pub created_proxies : JsString → ℤ → Io S (List (Option JsString))
  pub send_post_batch : List ExecutionEntry → JsString → Io S JsString
  pub is_confirmed : JsString → Io S Bool
  pub broadcast : JsString → Io S JsString
  pub wait_receipt : JsString → Io S Receipt
  pub submit_and_wait : Submitter → List JsString → ℕ → ℕ → Io S BundleResult
  -- the proofer
  pub proofer_is_synced : Io S Bool
  pub prove : ProveRequest → Io S ProofReply
  pub proofer_rollback : Io S (Unit {0})
  -- ethers
  pub parse_transaction : JsString → Outcome ParsedTx
  pub populate_transaction : ContractCall → Overrides → Io S UnsignedTx
  pub sign_transaction : UnsignedTx → Io S JsString
  pub sign_l2_deploy : L2Deploy → Io S JsString
  pub encode_create_proxy : JsString → JsString
  pub encode_compute_proxy : JsString → ℕ → JsString
  -- the clock, in milliseconds
  pub now : Io S ℕ
  pub sleep : ℕ → Io S (Unit {0})

-- The builder beside the state of the outside.
pub record Site (W : Type 0) : Type 0 where
  pub builder : Builder
  pub world : W

-- `this.field`, and an assignment to it.
module _ {W : Type 0} where
  unfoldable pub own : {A : Type 0} → (Builder → A) → Io (Site W) A
  own f s = (ok (f s.builder), s)

  unfoldable pub assign : (Builder → Builder) → Io (Site W) (Unit {0})
  assign f s = (ok tt, record s { builder = f s.builder })

pub record SubmitResponse : Type 0 where
  pub success : Bool
  pub l1_tx_hash : Option JsString
  pub l2_tx_hash : Option JsString
  pub executions_loaded : Option ℕ
  pub state_root : Option JsString
  pub error : Option JsString
