-- ===== src/Builder/L1.antt =====
-- `processL1Transaction` and `deployProxy` of rollup1/builder/builder.ts: a transaction on L1 that
-- calls into L2.
use sync_rollups.Prelude.{
  ℕ, zero, suc, ◌+◌, Bool, true, false, ◌&&◌, ◌||◌, ◌++◌, map, JsString, codes, str_eq, is_truthy,
  includes, Option, none, some, List, [], ◌∷◌, length, if◌then◌else◌,
}
use sync_rollups.Prelude.Int.{ℤ, pos, ltb_ℤ}
use sync_rollups.Outcome.Io.{Io, pure, raise, lift, catching, ◌>>=◌, ◌>>◌}
use sync_rollups.Types.{ExecutionEntry, ExecutionPlan, type_eq, result}
use sync_rollups.Types.Json.{execution_entry_to_json}
use sync_rollups.Proofer.Entry.{present}
use sync_rollups.Planner.CrossChain.{plan_l1_to_l2_call_with_proxy}
use sync_rollups.Builder.{
  BuilderConfig, BuilderServices, ParsedTx, Site, SubmitResponse, Submitter,
  create_cross_chain_proxy, block_number, own, pending,
}
use sync_rollups.Builder.Chain.{choose_sim_timestamp}
use sync_rollups.Builder.Proof.{request_proof}
use sync_rollups.Builder.Bundle.{Fees, PricedCall, batch_calls, sign_all}
use sync_rollups.Builder.Batch.{batch_fees}
use sync_rollups.Builder.L2.{failure}

-- The parts of a call that stay the same between attempts.
pub record L1Job : Type 0 where
  pub tx : ParsedTx
  pub signed_tx : JsString
  pub l2_target : JsString
  pub proxy : JsString
  pub needs_deploy : Bool
  pub source : JsString
  pub source_proxy : JsString

unfoldable pub l1_response : JsString → Option ℕ → Option JsString → SubmitResponse
l1_response hash loaded root = record {
  success = true;
  l1_tx_hash = some hash;
  l2_tx_hash = none;
  executions_loaded = loaded;
  state_root = root;
  error = none;
}

abbrev pub or_text : JsString → Option JsString → JsString
or_text d none = d
or_text d (some t) = t

-- The first entry is a result that failed.
unfoldable pub root_failed : List ExecutionEntry → Bool
root_failed [] = false
root_failed (e ∷ es) = type_eq e.next_action.action_type result && e.next_action.failed

unfoldable pub revert_data : List ExecutionEntry → JsString
revert_data [] = codes "0x"
revert_data (e ∷ es) = if is_truthy e.next_action.payload then e.next_action.payload else codes "0x"

unfoldable pub simulation_failed : JsString → ℤ → JsString
simulation_failed reason value =
    codes "L1→L2 simulation failed (revert data: "
    ++ (reason
        ++ (codes ")"
            ++ (if str_eq reason (codes "0x") && ltb_ℤ (pos 0) value
                then codes " (target function may not be payable)"
                else [])))

-- The proofer stands at another state, which passes.
unfoldable pub is_mismatch : JsString → Bool
is_mismatch e = includes e (codes "State mismatch") || includes e (codes "state mismatch")

unfoldable pub first_proxy : List (Option JsString) → Option JsString
first_proxy [] = none
first_proxy (none ∷ logs) = first_proxy logs
first_proxy (some proxy ∷ logs) = some proxy

-- The deployment of the proxy, where it is needed, in front of the batch.
unfoldable pub proxy_calls : Bool → Fees → JsString → ℤ → List PricedCall
proxy_calls false fees target rollup_id = []
proxy_calls true fees target rollup_id =
    record {
      call = create_cross_chain_proxy target rollup_id;
      gas_limit = 500000;
      max_fee_per_gas = fees.max_fee;
      max_priority_fee_per_gas = fees.deploy_priority;
    }
    ∷ []

module _ {W : Type 0} (s : BuilderServices (Site W)) (config : BuilderConfig) where
  unfoldable pub created : Option JsString → Io (Site W) JsString
  created none = raise (codes "CrossChainProxyCreated event not found in receipt")
  created (some proxy) = pure proxy

  unfoldable pub deploy_proxy : JsString → ℤ → Io (Site W) JsString
  deploy_proxy target rollup_id = do
    logs ← s.created_proxies target rollup_id
    created (first_proxy logs)

  -- Errors are passed over.
  unfoldable pub revert_to : ℕ → Io (Site W) (Unit {0})
  revert_to block = catching (s.revert_to_snapshot (block_number block)) (λ e. pure tt)

  unfoldable pub root_if : Io (Site W) Bool → Io (Site W) (Option JsString)
  root_if confirmed =
      catching
        (do
          there ← confirmed
          if there then (do root ← s.rollup_state_root; pure (present (some root))) else pure none)
        (λ e. pure none)

  unfoldable pub plan_call : L1Job → ℕ → Io (Site W) ExecutionPlan
  plan_call job sim_timestamp = do
    rollup_id ←
        if job.needs_deploy then pure config.planner.rollup_id else s.authorized_rollup job.proxy
    plan ←
        plan_l1_to_l2_call_with_proxy s.planner config.planner
          (record {
            source = job.source_proxy;
            target = job.l2_target;
            value = job.tx.value;
            payload = job.tx.payload;
            original_sender = job.source;
          })
          (some sim_timestamp) none (some rollup_id)
    if root_failed plan.entries
        then raise (simulation_failed (revert_data plan.entries) job.tx.value)
        else pure plan

  unfoldable pub retry_proof : ℕ → JsString → Io (Site W) (Option JsString)
  retry_proof zero e = raise e
  retry_proof (suc left) e = if is_mismatch e then (do s.sleep 15000; pure none) else raise e

  unfoldable pub retry_bundle : ℕ → Io (Site W) (Option SubmitResponse)
  retry_bundle zero = raise (codes "Bundle not included after 5 attempts.")
  retry_bundle (suc left) = do s.sleep 5000; pure none

  -- `none` asks for another attempt; the rounds that are left say whether there is one.
  unfoldable pub prove_call : ℕ → L1Job → ℕ → ℕ → ExecutionPlan → Io (Site W) (Option JsString)
  prove_call left job block sim_timestamp plan =
      catching
        (do
          proof ← request_proof s plan (record {
            timestamp = sim_timestamp;
            batch_signed_txs = [];
            source_proxies = some job.source_proxy ∷ [];
            hints = [];
            ecdsa_params = none;
          })
          pure (some proof))
        (λ e. do revert_to block; retry_proof left e)

  -- The deployment and the batch are signed; the user has signed the last transaction.
  unfoldable pub sign_l1_bundle : L1Job → ExecutionPlan → JsString → Io (Site W) (List JsString)
  sign_l1_bundle job plan proof = do
    fee ← s.l1_fee_data
    nonce ← s.wallet_nonce pending
    b ← own (λ b. b)
    raws ← sign_all s nonce (
        proxy_calls job.needs_deploy (batch_fees fee) job.l2_target config.planner.rollup_id
        ++ batch_calls b (batch_fees fee) config.planner.rollup_id plan.entries proof [])
    pure (raws ++ (job.signed_tx ∷ []))

  unfoldable pub bundle_call :
      ℕ → Submitter → L1Job → ℕ → ℕ → ExecutionPlan → JsString → Io (Site W) (Option SubmitResponse)
  bundle_call left submitter job block sim_timestamp plan proof = do
    raws ← sign_l1_bundle job plan proof
    current ← s.l1_cached_block_number
    landed ← s.submit_and_wait submitter raws (current + 1) sim_timestamp
    if landed.included
        then (do
          again ← lift (s.parse_transaction job.signed_tx)
          root ← root_if (pure true)
          pure (some (l1_response (or_text [] again.hash) (some (length plan.entries)) root)))
        else (do revert_to block; retry_bundle left)

  unfoldable pub send_call : L1Job → ExecutionPlan → JsString → Io (Site W) SubmitResponse
  send_call job plan proof = do
    if job.needs_deploy
        then (deploy_proxy job.l2_target config.planner.rollup_id >>= λ _. pure tt)
        else pure tt
    s.send_post_batch plan.entries proof
    hash ← s.broadcast job.signed_tx
    root ← root_if (s.is_confirmed hash)
    pure (l1_response hash (some (length plan.entries)) root)

  unfoldable pub land_call :
      ℕ
      → L1Job
      → ℕ
      → ℕ
      → ExecutionPlan
      → JsString
      → Option Submitter
      → Io (Site W) (Option SubmitResponse)
  land_call left job block sim_timestamp plan proof (some submitter) =
      bundle_call left submitter job block sim_timestamp plan proof
  land_call left job block sim_timestamp plan proof none = do
    response ← send_call job plan proof
    pure (some response)

  unfoldable pub with_proof :
      ℕ → L1Job → ℕ → ℕ → ExecutionPlan → Option JsString → Io (Site W) (Option SubmitResponse)
  with_proof left job block sim_timestamp plan none = pure none
  with_proof left job block sim_timestamp plan (some proof) = do
    s.load_executions (map execution_entry_to_json plan.entries)
    submitter ← own (λ b. b.bundle_submitter)
    land_call left job block sim_timestamp plan proof submitter

  unfoldable pub call_once : ℕ → L1Job → Io (Site W) (Option SubmitResponse)
  call_once left job = do
    block ← s.l2_block_number
    sim_timestamp ← choose_sim_timestamp s
    plan ← plan_call job sim_timestamp
    proved ← prove_call left job block sim_timestamp plan
    with_proof left job block sim_timestamp plan proved

  unfoldable pub call_attempts : ℕ → L1Job → Io (Site W) SubmitResponse
  call_attempts zero job = raise (codes "L1→L2 transaction failed after 5 attempts")
  call_attempts (suc left) job = do
    done ← call_once left job
    elim done [ some response ↦ pure response | none ↦ call_attempts left job ]

  unfoldable pub call_into_l2 : ParsedTx → JsString → JsString → Io (Site W) SubmitResponse
  call_into_l2 tx signed_tx l2_target = do
    chain ← s.l1_network
    proxy ← s.proxy_address l2_target config.planner.rollup_id chain
    code ← s.l1_code proxy
    let source = or_text config.builder_address (present tx.from)
    source_proxy ← s.proxy_address source config.planner.rollup_id chain
    call_attempts 5 (record {
      tx = tx;
      signed_tx = signed_tx;
      l2_target = l2_target;
      proxy = proxy;
      needs_deploy = str_eq code (codes "0x");
      source = source;
      source_proxy = source_proxy;
    })

  -- Without a destination on L1 it is refused, without a hint it is only broadcast.
  unfoldable pub by_target :
      ParsedTx → JsString → Option JsString → Option JsString → Io (Site W) SubmitResponse
  by_target tx signed_tx none l2_target = pure (failure (codes "Transaction has no destination"))
  by_target tx signed_tx (some to) none = do
    hash ← s.broadcast signed_tx
    pure (l1_response hash none none)
  by_target tx signed_tx (some to) (some target) = call_into_l2 tx signed_tx target

  unfoldable pub process_l1_transaction : JsString → Option JsString → Io (Site W) SubmitResponse
  process_l1_transaction signed_tx l2_target = do
    tx ← lift (s.parse_transaction signed_tx)
    by_target tx signed_tx (present tx.to) (present l2_target)
