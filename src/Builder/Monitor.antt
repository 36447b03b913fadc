-- ===== src/Builder/Monitor.antt =====
-- What the services of rollup1/builder/builder.ts are assumed to leave alone, for statements on what
-- reaches L1.
pub mod Steps
pub mod Plans
pub mod Submission
pub mod Landing
pub mod L2
pub mod Batch
pub mod Calls
pub mod L1
pub mod Submit
use sync_rollups.Prelude.{ℕ, JsString, Option, List}
use sync_rollups.Prelude.Int.{ℤ}
use sync_rollups.Outcome.Io.{Io}
use sync_rollups.Outcome.Leaves.{Leaves}
use sync_rollups.Types.Json.{ActionJson, ExecutionEntryJson}
use sync_rollups.Proofer.{L1Call, ProveRequest}
use sync_rollups.Builder.{
  Builder, BuilderServices, BlockParam, ContractCall, L2Deploy, NonceTag, Overrides, Site,
  UnsignedTx,
}

module _ {W : Type 0} (s : BuilderServices (Site W)) (P : Site W → Type 0) where
  -- A service, and every other request that is handled meanwhile, keeps `P`.
  abbrev pub Quiet : {A : Type 0} → Io (Site W) A → Type 0
  Quiet m = Leaves P P m

  -- All that the processing of transactions calls, but what brings a batch or a user's
  -- transaction to L1.
  pub record IsQuiet : Type 0 where
    pub assigns :
        (f : Builder → Builder) (w : Site W) → P w → P (record w { builder = f w.builder })
    pub get_state_root : Quiet s.planner.get_state_root
    pub get_actual_state_root : Quiet s.planner.get_actual_state_root
    pub l1_state_root : Quiet s.planner.l1_state_root
    pub simulate_action : (a : ActionJson) (t : Option ℕ) → Quiet (s.planner.simulate_action a t)
    pub speculate_action : (a : ActionJson) (t : Option ℕ) → Quiet (s.planner.speculate_action a t)
    pub simulate_batch :
        (txs : List JsString) (t : Option ℕ) → Quiet (s.planner.simulate_batch txs t)
    pub system_call :
        (target payload : JsString) (t : Option ℕ) → Quiet (s.planner.system_call target payload t)
    pub l1_code_at : (address : JsString) → Quiet (s.planner.l1_code address)
    pub l1_call : (p a d : JsString) (v : ℤ) (w : Site W) → P w → P (s.planner.l1_call p a d v w).1
    pub simulate_l1_call : (c : L1Call) (t : Option ℕ) → Quiet (s.planner.simulate_l1_call c t)
    pub tracked_l2_block : Quiet s.tracked_l2_block
    pub revert_to_snapshot : (b : BlockParam) → Quiet (s.revert_to_snapshot b)
    pub l2_block_number : Quiet s.l2_block_number
    pub l2_code : (address : JsString) → Quiet (s.l2_code address)
    pub l2_transaction_count : (address : JsString) → Quiet (s.l2_transaction_count address)
    pub l2_latest_block : Quiet s.l2_latest_block
    pub load_executions : (l : List ExecutionEntryJson) → Quiet (s.load_executions l)
    pub l1_network : Quiet s.l1_network
    pub l1_latest_timestamp : Quiet s.l1_latest_timestamp
    pub l1_block : (n : ℕ) → Quiet (s.l1_block n)
    pub l1_block_number : Quiet s.l1_block_number
    pub l1_cached_block_number : Quiet s.l1_cached_block_number
    pub l1_code : (address : JsString) → Quiet (s.l1_code address)
    pub l1_fee_data : Quiet s.l1_fee_data
    pub wallet_nonce : (tag : NonceTag) → Quiet (s.wallet_nonce tag)
    pub proxy_address :
        (address : JsString) (rollup_id : ℤ) (chain : ℕ)
        → Quiet (s.proxy_address address rollup_id chain)
    pub rollup_state_root : Quiet s.rollup_state_root
    pub authorized_rollup : (proxy : JsString) → Quiet (s.authorized_rollup proxy)
    pub created_proxies :
        (target : JsString) (rollup_id : ℤ) → Quiet (s.created_proxies target rollup_id)
    pub is_confirmed : (hash : JsString) → Quiet (s.is_confirmed hash)
    pub wait_receipt : (hash : JsString) → Quiet (s.wait_receipt hash)
    pub proofer_is_synced : Quiet s.proofer_is_synced
    pub prove : (r : ProveRequest) → Quiet (s.prove r)
    pub proofer_rollback : Quiet s.proofer_rollback
    pub populate_transaction :
        (call : ContractCall) (o : Overrides) → Quiet (s.populate_transaction call o)
    pub sign_transaction : (tx : UnsignedTx) → Quiet (s.sign_transaction tx)
    pub sign_l2_deploy : (d : L2Deploy) → Quiet (s.sign_l2_deploy d)
    pub now : Quiet s.now
    pub sleep : (ms : ℕ) → Quiet (s.sleep ms)
