-- ===== src/Builder/Batch.antt =====
-- `processL2Batch` of rollup1/builder/builder.ts.
use sync_rollups.Prelude.{
  ℕ, suc, ◌+◌, ◌*◌, Bool, true, false, map, JsString, codes, ◌++◌, none, some, List, [], ◌∷◌,
  length, if◌then◌else◌,
}
use sync_rollups.Prelude.Int.{pos}
use sync_rollups.Outcome.Io.{◌>>=◌, ◌>>◌, Io, pure, raise, lift}
use sync_rollups.Types.{ExecutionPlan}
use sync_rollups.Types.BigInt.{to_string}
use sync_rollups.Types.Json.{execution_entry_to_json}
use sync_rollups.Planner.L2.{plan_l2_batch}
use sync_rollups.Builder.{
  BuilderConfig, BuilderServices, FeeData, Site, SubmitResponse, Submitter, own, pending,
}
use sync_rollups.Builder.Fees.{batch_priority, batch_max_fee, simple_priority, simple_max_fee}
use sync_rollups.Builder.Chain.{choose_sim_timestamp, wait_for_next_slot, verify_timestamp}
use sync_rollups.Builder.Proof.{request_proof}
use sync_rollups.Builder.Bundle.{
  Fees, PricedCall, with_nonce, batch_calls, sign_contract_tx, sign_all,
}
use sync_rollups.Builder.Plan.{signed_by}
use sync_rollups.Builder.Landing.{last_of, wait_all}
use sync_rollups.Builder.L2.{operator_refusal}

unfoldable pub batch_fees : FeeData → Fees
batch_fees fee = record {
  max_fee = batch_max_fee fee * 2;
  deploy_priority = batch_priority fee * 2;
  batch_priority = batch_priority fee * 2;
  exec_priority = batch_priority fee * 2;
}

unfoldable pub simple_fees : FeeData → Fees
simple_fees fee = record {
  max_fee = simple_max_fee fee * 2;
  deploy_priority = simple_priority fee * 3;
  batch_priority = simple_priority fee * 3;
  exec_priority = simple_priority fee;
}

module _ {W : Type 0} (s : BuilderServices (Site W)) (config : BuilderConfig) where
  unfoldable pub any_signed_by : JsString → List JsString → Io (Site W) Bool
  any_signed_by operator [] = pure false
  any_signed_by operator (raw ∷ raws) = do
    tx ← lift (s.parse_transaction raw)
    elim (signed_by operator tx) [ true ↦ pure true | false ↦ any_signed_by operator raws ]

  unfoldable pub batch_report : ExecutionPlan → JsString → Io (Site W) SubmitResponse
  batch_report plan hash = do
    root ← s.rollup_state_root
    pure (record {
      success = true;
      l1_tx_hash = some hash;
      l2_tx_hash = none;
      executions_loaded = some (length plan.entries);
      state_root = some root;
      error = none;
    })

  unfoldable pub sign_batch :
      Fees → ExecutionPlan → JsString → List JsString → Io (Site W) (List JsString)
  sign_batch fees plan proof signed_txs = do
    nonce ← s.wallet_nonce pending
    b ← own (λ b. b)
    sign_all s nonce (batch_calls b fees config.planner.rollup_id plan.entries proof signed_txs)

  unfoldable pub batch_bundle :
      Submitter → ExecutionPlan → ℕ → JsString → List JsString → Io (Site W) SubmitResponse
  batch_bundle submitter plan sim_timestamp proof signed_txs = do
    fee ← s.l1_fee_data
    raws ← sign_batch (batch_fees fee) plan proof signed_txs
    block ← s.l1_block_number
    result ← s.submit_and_wait submitter raws (block + 1) sim_timestamp
    if result.included
        then pure tt
        else raise (
            codes "Batch bundle not included in block "
            ++ (to_string 10 (pos (block + 1)) ++ codes "."))
    verify_timestamp s result.block_number sim_timestamp
    batch_report plan (last_of [] result.tx_hashes)

  -- A call of the contract signs a transaction and sends it.
  unfoldable pub send_all : ℕ → List PricedCall → Io (Site W) (List JsString)
  send_all nonce [] = pure []
  send_all nonce (c ∷ calls) = do
    raw ← sign_contract_tx s c.call (with_nonce c nonce)
    hash ← s.broadcast raw
    hashes ← send_all (suc nonce) calls
    pure (hash ∷ hashes)

  unfoldable pub batch_broadcast :
      ExecutionPlan → ℕ → JsString → List JsString → Io (Site W) SubmitResponse
  batch_broadcast plan sim_timestamp proof signed_txs = do
    wait_for_next_slot s
    fee ← s.l1_fee_data
    nonce ← s.wallet_nonce pending
    b ← own (λ b. b)
    hashes ←
        send_all nonce
          (batch_calls b (simple_fees fee) config.planner.rollup_id plan.entries proof signed_txs)
    receipts ← wait_all s config hashes
    let last = last_of (record { block_number = 0; hash = [] }) receipts
    verify_timestamp s last.block_number sim_timestamp
    batch_report plan last.hash

  unfoldable pub process_l2_batch : List JsString → Io (Site W) SubmitResponse
  process_l2_batch signed_txs = do
    operator ← own (λ b. b.operator_address)
    refused ← any_signed_by operator signed_txs
    if refused then pure operator_refusal else (do
      sim_timestamp ← choose_sim_timestamp s
      plan ← plan_l2_batch s.planner config.planner signed_txs (some sim_timestamp)
      proof ← request_proof s plan (record {
        timestamp = sim_timestamp;
        batch_signed_txs = signed_txs;
        source_proxies = [];
        hints = [];
        ecdsa_params = none;
      })
      s.load_executions (map execution_entry_to_json plan.entries)
      submitter ← own (λ b. b.bundle_submitter)
      elim submitter [
        | some chosen ↦ batch_bundle chosen plan sim_timestamp proof signed_txs
        | none ↦ batch_broadcast plan sim_timestamp proof signed_txs
      ])
