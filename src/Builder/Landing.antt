-- ===== src/Builder/Landing.antt =====
-- How `processL2Transaction` of rollup1/builder/builder.ts brings its transactions to L1: as a
-- bundle, or broadcast one by one.
use sync_rollups.Prelude.{
  ℕ, zero, suc, ◌+◌, ◌*◌, true, false, not, ◌&&◌, JsString, codes, is_truthy, Option, none, some,
  List, [], ◌∷◌, ◌++◌, ◌==◌, if◌then◌else◌,
}
use sync_rollups.Prelude.Int.{pos}
use sync_rollups.Outcome.Io.{◌>>=◌, ◌>>◌, Io, pure, raise}
use sync_rollups.Types.{ExecutionPlan}
use sync_rollups.Types.BigInt.{to_string}
use sync_rollups.Proofer.{EcdsaParams}
use sync_rollups.Builder.{
  BuilderConfig, BuilderServices, BundleResult, FeeData, L1Head, Receipt, Site, StoredHint,
  Submitter, own, assign, pending, latest,
}
use sync_rollups.Builder.Fees.{base_priority, bundle_max_fee, broadcast_max_fee}
use sync_rollups.Builder.Chain.{wait_for_next_slot, correct_timestamp_if_needed, verify_timestamp}
use sync_rollups.Builder.Proof.{request_proof}
use sync_rollups.Builder.Bundle.{Fees, l2_txs, sign_l2_bundle}

unfoldable pub bundle_fees : ℕ → FeeData → Fees
bundle_fees chain fee = record {
  max_fee = bundle_max_fee chain fee * 2;
  deploy_priority = base_priority chain fee * 2;
  batch_priority = base_priority chain fee * 2;
  exec_priority = base_priority chain fee * 2;
}

unfoldable pub broadcast_fees : ℕ → FeeData → Fees
broadcast_fees chain fee = record {
  max_fee = broadcast_max_fee chain fee * 2;
  deploy_priority = base_priority chain fee * 4;
  batch_priority = base_priority chain fee * 3;
  exec_priority = base_priority chain fee * 2;
}

-- `hashes[hashes.length - 1]`, which is there since something was signed.
unfoldable pub last_of {ℓ} : {A : Type ℓ} → A → List A → A
last_of a [] = a
last_of a (b ∷ l) = last_of b l

-- A planned transaction on its way: what it is about does not change between attempts.
pub record Job : Type 0 where
  pub plan : ExecutionPlan
  pub sim_timestamp : ℕ
  pub chain : ℕ
  pub target : Option JsString
  pub deploy : Option JsString
  pub signed_tx : JsString

module _ {W : Type 0} (s : BuilderServices (Site W)) (config : BuilderConfig) where
  unfoldable pub proof_for : Job → List StoredHint → Option EcdsaParams → Io (Site W) JsString
  proof_for job hints params = request_proof s job.plan (record {
    timestamp = job.sim_timestamp;
    batch_signed_txs = [];
    source_proxies = [];
    hints = hints;
    ecdsa_params = params;
  })

  -- `this.recentL1ToL2Hints = []`, if hints were sent.
  unfoldable pub clear_hints : List StoredHint → Io (Site W) (Unit {0})
  clear_hints [] = pure tt
  clear_hints (h ∷ hs) = assign (λ b. record b { recent_l1_to_l2_hints = [] })

  unfoldable pub found : ℕ → Option L1Head → Io (Site W) L1Head
  found block none = raise (codes "Failed to get block " ++ to_string 10 (pos block))
  found block (some head) = pure head

  -- A proof that is bound to the next block.
  unfoldable pub block_proof : Job → List StoredHint → Io (Site W) JsString
  block_proof job hints = do
    block ← s.l1_block_number
    parent ← s.l1_block block
    head ← found block parent
    proof ←
        proof_for job hints
          (some (record { target_block_number = block + 1; parent_block_hash = head.hash }))
    clear_hints hints
    pure proof

  -- The proof for an attempt, and the hints that are still to be sent.
  unfoldable pub fresh_proof :
      Job → JsString → List StoredHint → Io (Site W) (JsString × List StoredHint)
  fresh_proof job proof hints =
      if config.use_ecdsa_verifier
      then (do proof' ← block_proof job hints; pure (proof', []))
      else pure (proof, hints)

  unfoldable pub max_ecdsa_attempts : ℕ
  max_ecdsa_attempts = if config.use_ecdsa_verifier then 20 else 1

  unfoldable pub attempts_failed : JsString
  unfolding max_ecdsa_attempts
  attempts_failed =
      codes "Bundle not included after "
      ++ (to_string 10 (pos max_ecdsa_attempts)
          ++ codes " attempts. Will retry with new simulation on next attempt.")

  -- One proof, one bundle and one target block for each attempt.
  unfoldable pub bundle_attempts :
      Submitter → Job → Fees → ℕ → JsString → List StoredHint → Io (Site W) BundleResult
  bundle_attempts submitter job fees zero proof hints = raise attempts_failed
  bundle_attempts submitter job fees (suc rounds) proof hints = do
    fresh ← fresh_proof job proof hints
    nonce ← s.wallet_nonce pending
    raws ←
        sign_l2_bundle s fees config.planner.rollup_id job.chain job.target job.plan.entries fresh.0
          (l2_txs job.deploy job.signed_tx) nonce
    block ← s.l1_block_number
    result ← s.submit_and_wait submitter raws (block + 1) job.sim_timestamp
    elim result.included [
      | true ↦ pure result
      | false ↦ bundle_attempts submitter job fees rounds fresh.0 fresh.1
    ]

  unfoldable pub submit_bundle : Submitter → Job → JsString → List StoredHint → Io (Site W) JsString
  submit_bundle submitter job proof hints = do
    fee ← s.l1_fee_data
    chain ← own (λ b. b.l1_chain_id)
    result ← bundle_attempts submitter job (bundle_fees chain fee) max_ecdsa_attempts proof hints
    verify_timestamp s result.block_number job.sim_timestamp
    pure (last_of [] result.tx_hashes)

  unfoldable pub broadcast_all : List JsString → Io (Site W) (List JsString)
  broadcast_all [] = pure []
  broadcast_all (raw ∷ raws) = do
    hash ← s.broadcast raw
    hashes ← broadcast_all raws
    pure (hash ∷ hashes)

  unfoldable pub wait_all : List JsString → Io (Site W) (List Receipt)
  wait_all [] = pure []
  wait_all (hash ∷ hashes) = do
    receipt ← s.wait_receipt hash
    receipts ← wait_all hashes
    pure (receipt ∷ receipts)

  -- The first receipt is compared with the last one.
  unfoldable pub check_receipts : Job → List Receipt → Io (Site W) JsString
  check_receipts job [] = raise (codes "Cannot read properties of undefined")
  check_receipts job (first ∷ more) = do
    let exec = last_of first more
    if first.block_number == exec.block_number
        then verify_timestamp s exec.block_number job.sim_timestamp
        else correct_timestamp_if_needed s exec.block_number
    pure exec.hash

  -- `if (useECDSAVerifier && !proof)`
  unfoldable pub missing_proof : Job → JsString → List StoredHint → Io (Site W) JsString
  missing_proof job proof hints =
      if config.use_ecdsa_verifier && not (is_truthy proof)
      then block_proof job hints
      else pure proof

  -- The promises of the source are awaited in order.
  unfoldable pub broadcast_txs : Job → JsString → List StoredHint → Io (Site W) JsString
  broadcast_txs job proof hints = do
    wait_for_next_slot s
    fee ← s.l1_fee_data
    chain ← own (λ b. b.l1_chain_id)
    proof' ← missing_proof job proof hints
    nonce ← s.wallet_nonce latest
    raws ←
        sign_l2_bundle s (broadcast_fees chain fee) config.planner.rollup_id job.chain job.target
          job.plan.entries proof' (l2_txs job.deploy job.signed_tx) nonce
    hashes ← broadcast_all raws
    receipts ← wait_all hashes
    check_receipts job receipts
