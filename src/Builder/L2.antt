-- ===== src/Builder/L2.antt =====
-- `processL2Transaction` of rollup1/builder/builder.ts. Prints and timings are left out.
use sync_rollups.Prelude.{
  ℕ, zero, suc, Bool, true, false, map, JsString, codes, Option, none, some, List, [], length,
  includes, ◌||◌, if◌then◌else◌,
}
use sync_rollups.Outcome.Io.{◌>>=◌, ◌>>◌, Io, pure, raise, lift, catching}
use sync_rollups.Types.Json.{execution_entry_to_json}
use sync_rollups.Proofer.Entry.{present}
use sync_rollups.Builder.{
  BuilderConfig, BuilderServices, ParsedTx, Site, StoredHint, SubmitResponse, block_number, own,
}
use sync_rollups.Builder.Chain.{choose_sim_timestamp}
use sync_rollups.Builder.Plan.{signed_by, hint_for, target_of, align_evm, take_snapshot, plan_for}
use sync_rollups.Builder.Landing.{Job, clear_hints, proof_for, submit_bundle, broadcast_txs}

unfoldable pub failure : JsString → SubmitResponse
failure e = record {
  success = false;
  l1_tx_hash = none;
  l2_tx_hash = none;
  executions_loaded = none;
  state_root = none;
  error = some e;
}

unfoldable pub operator_refusal : SubmitResponse
unfolding failure
operator_refusal = failure (
    codes
      "Transactions from the operator address are not allowed. The operator is reserved for system calls only.")

-- Whether a rollback is worth another attempt: the node is restarting.
unfoldable pub is_transient : JsString → Bool
is_transient e = includes e (codes "not initialized") || includes e (codes "ECONNREFUSED")

module _ {W : Type 0} (s : BuilderServices (Site W)) (config : BuilderConfig) where
  -- The attempts that are left; an error ends them, unless it is that of a node that restarts.
  unfoldable pub revert_loop : ℕ → ℕ → Io (Site W) (Unit {0})
  revert_loop zero block = pure tt
  revert_loop (suc zero) block = catching (s.revert_to_snapshot (block_number block)) (λ e. pure tt)
  revert_loop (suc (suc more)) block = catching (s.revert_to_snapshot (block_number block)) (λ e.
      elim (is_transient e) [
        | true ↦ do s.sleep 2000; revert_loop (suc more) block
        | false ↦ pure tt
      ])

  unfoldable pub revert_if : Option ℕ → Io (Site W) (Unit {0})
  revert_if none = pure tt
  revert_if (some block) = revert_loop 15 block

  -- The simulation is undone here and at the proofer.
  unfoldable pub undo : Option ℕ → Io (Site W) (Unit {0})
  undo snapshot = do revert_if snapshot; catching s.proofer_rollback (λ e. pure tt)

  -- A proof that is not bound to a block is asked for at once.
  unfoldable pub early_proof : Job → List StoredHint → Io (Site W) JsString
  early_proof job hints =
      if config.use_ecdsa_verifier
      then pure []
      else (do proof ← proof_for s config job hints none; clear_hints s config hints; pure proof)

  unfoldable pub land : Job → Io (Site W) (JsString × ℕ)
  land job = do
    hints ← own (λ b. b.recent_l1_to_l2_hints)
    proof ← early_proof job hints
    s.load_executions (map execution_entry_to_json job.plan.entries)
    submitter ← own (λ b. b.bundle_submitter)
    hash ← elim submitter [
      | some chosen ↦ submit_bundle s config chosen job proof hints
      | none ↦ broadcast_txs s config job proof hints
    ]
    pure (hash, length job.plan.entries)

  unfoldable pub plan_and_land :
      ParsedTx → JsString → ℕ → Option (JsString × JsString) → Io (Site W) (JsString × ℕ)
  plan_and_land tx signed_tx chain hint = do
    sim_timestamp ← choose_sim_timestamp s
    planned ← plan_for s config tx signed_tx chain sim_timestamp hint
    land (record {
      plan = planned.0;
      sim_timestamp = sim_timestamp;
      chain = chain;
      target = target_of hint;
      deploy = present planned.1;
      signed_tx = signed_tx;
    })

  unfoldable pub report : JsString → JsString × ℕ → Io (Site W) SubmitResponse
  report signed_tx (hash, loaded) = do
    root ← s.rollup_state_root
    again ← lift (s.parse_transaction signed_tx)
    pure (record {
      success = true;
      l1_tx_hash = some hash;
      l2_tx_hash = present again.hash;
      executions_loaded = some loaded;
      state_root = some root;
      error = none;
    })

  unfoldable pub process_l2_transaction : JsString → Io (Site W) SubmitResponse
  process_l2_transaction signed_tx = do
    tx ← lift (s.parse_transaction signed_tx)
    operator ← own (λ b. b.operator_address)
    if signed_by operator tx then pure operator_refusal else (do
      chain ← s.l1_network
      table ← own (λ b. b.l2_hint_table)
      align_evm s
      snapshot ← take_snapshot s
      landed ←
          catching (plan_and_land tx signed_tx chain (hint_for table tx))
            (λ e. do undo snapshot; raise e)
      report signed_tx landed)
