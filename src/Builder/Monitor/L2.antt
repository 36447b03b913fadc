-- ===== src/Builder/Monitor/L2.antt =====
-- `processL2Transaction` of rollup1/builder/builder.ts brings nothing to L1 but what was proved.
use sync_rollups.Prelude.{ℕ, zero, suc, refl, JsString, Option, none, some, List, []}
use sync_rollups.Outcome.Rules.{Ends, Ends-bind, Ends-then, Ends-pure, Ends-if, EndsFrom-given}
use sync_rollups.Outcome.Leaves.{
  Leaves, Keeps-bind, Leaves-pure, Leaves-raise, Leaves-lift, Leaves-catching, Leaves-if,
  Leaves-knowing,
}
use sync_rollups.Builder.{BuilderConfig, BuilderServices, ParsedTx, Site, StoredHint, block_number}
use sync_rollups.Builder.Bundle.{l2_txs}
use sync_rollups.Builder.Bundle.Signing.{Carrying, IsSigner}
use sync_rollups.Builder.Plan.{signed_by, hint_for}
use sync_rollups.Builder.Plan.Executions.{Executes, plan_for-Executes}
use sync_rollups.Builder.Landing.{Job, proof_for}
use sync_rollups.Builder.L2.{
  is_transient, operator_refusal, revert_loop, revert_if, undo, early_proof, land, plan_and_land,
  report, process_l2_transaction,
}
use sync_rollups.Builder.Monitor.{IsQuiet, Quiet}
use sync_rollups.Builder.Monitor.Steps.{
  cases-Quiet, own-Quiet, choose_sim_timestamp-Quiet, request_proof-Quiet, align_evm-Quiet,
  take_snapshot-Quiet,
}
use sync_rollups.Builder.Monitor.Plans.{plan_for-Quiet}
use sync_rollups.Builder.Monitor.Landing.{
  MayLand, Ready, proof_for-Ends, clear_hints-Quiet, landing-Quiet,
}

module _ {W : Type 0} (s : BuilderServices (Site W)) (config : BuilderConfig) (carries : Carrying)
    (signer : IsSigner s carries) (P : Site W → Type 0) (q : IsQuiet s P) where
  revert_loop-Quiet : (rounds block : ℕ) → Quiet s P (revert_loop s config rounds block)
  unfolding revert_loop
  revert_loop-Quiet zero block = Leaves-pure P tt
  revert_loop-Quiet (suc zero) block =
      Leaves-catching P _ _ (q.revert_to_snapshot (block_number block)) (λ _. Leaves-pure P tt)
  revert_loop-Quiet (suc (suc more)) block =
      Leaves-catching P _ _ (q.revert_to_snapshot (block_number block)) (λ e.
        cases-Quiet s P q (is_transient e) _ _
          (Keeps-bind P _ _ (q.sleep 2000) (λ _. revert_loop-Quiet (suc more) block))
          (Leaves-pure P tt))

  revert_if-Quiet : (snapshot : Option ℕ) → Quiet s P (revert_if s config snapshot)
  unfolding revert_if
  revert_if-Quiet none = Leaves-pure P tt
  revert_if-Quiet (some block) = revert_loop-Quiet 15 block

  undo-Quiet : (snapshot : Option ℕ) → Quiet s P (undo s config snapshot)
  unfolding undo
  undo-Quiet snapshot =
      Keeps-bind P _ _ (revert_if-Quiet snapshot)
        (λ _. Leaves-catching P _ _ q.proofer_rollback (λ _. Leaves-pure P tt))

  report-Quiet : (signed_tx : JsString) (r : JsString × ℕ) → Quiet s P (report s config signed_tx r)
  unfolding report
  report-Quiet signed_tx (hash, loaded) =
      Keeps-bind P _ _ q.rollup_state_root
        (λ _. Keeps-bind P _ _ (Leaves-lift P _) (λ _. Leaves-pure P _))

  module _ (job : Job) (executes : Executes (l2_txs job.deploy job.signed_tx) job.plan)
      (may : MayLand s config carries signer P q job.signed_tx) where
    early_proof-Quiet : (hints : List StoredHint) → Quiet s P (early_proof s config job hints)
    unfolding early_proof proof_for
    early_proof-Quiet hints = Leaves-if P P config.use_ecdsa_verifier _ _ (Leaves-pure P []) (
        Keeps-bind P _ _ (request_proof-Quiet s P q job.plan _) (λ proof.
          Keeps-bind P _ _ (clear_hints-Quiet s config carries signer P q job executes may hints)
            (λ _. Leaves-pure P proof)))

    early_proof-Ends :
        (hints : List StoredHint)
        → Ends
            (λ p _. Ready s config carries signer P q job executes may p)
            (early_proof s config job hints)
    unfolding early_proof
    early_proof-Ends hints =
        Ends-if _ config.use_ecdsa_verifier _ _ (λ on. Ends-pure _ _ (λ _. (λ off. cc, λ _. refl)))
          (λ off.
            Ends-then _ _ _ _
              (proof_for-Ends s config carries signer P q job executes may hints none)
              (λ proof.
                EndsFrom-given _ _ _
                  (λ k. Ends-bind _ _ _ (λ _. Ends-pure _ _ (λ _. (λ _. k, λ on. cc))))))

    land-Quiet : Quiet s P (land s config job)
    unfolding land
    land-Quiet = Keeps-bind P _ _ (own-Quiet s P q _) (λ hints.
        Leaves-knowing P P P _ _ _ (λ _ p. p) (early_proof-Ends hints) (early_proof-Quiet hints)
          (λ proof ready. Keeps-bind P _ _ (q.load_executions _) (λ _.
            Keeps-bind P _ _ (own-Quiet s P q _) (λ chosen.
              Keeps-bind P _ _
                (landing-Quiet s config carries signer P q job executes may chosen proof hints
                  ready)
                (λ _. Leaves-pure P _)))))

  module _ (signed_tx : JsString) (may : MayLand s config carries signer P q signed_tx) where
    plan_and_land-Quiet :
        (tx : ParsedTx) (chain : ℕ) (hint : Option (JsString × JsString))
        → Quiet s P (plan_and_land s config tx signed_tx chain hint)
    unfolding plan_and_land
    plan_and_land-Quiet tx chain hint = Keeps-bind P _ _ (choose_sim_timestamp-Quiet s P q) (λ t.
        Leaves-knowing P P P _ _ _ (λ _ p. p) (plan_for-Executes s config tx signed_tx chain t hint)
          (plan_for-Quiet s P q config tx signed_tx chain t hint)
          (λ planned executes. land-Quiet _ executes may))

    -- Whatever holds of the outside and of the builder still holds after the processing of an L2
    -- transaction, whether it succeeds or throws, if it survives the submission of what was proved
    -- for this transaction, or the broadcast of a part of it, and everything else that the builder
    -- calls. So nothing else reaches L1: what does is a batch that the proofer has proved, with
    -- consecutive nonces and followed by exactly the executions that its plan accounts for.
    pub process_l2_transaction-Leaves : Leaves P P (process_l2_transaction s config signed_tx)
    unfolding process_l2_transaction
    process_l2_transaction-Leaves = Keeps-bind P _ _ (Leaves-lift P _) (λ tx.
        Keeps-bind P _ _ (own-Quiet s P q _) (λ operator.
          Leaves-if P P (signed_by operator tx) _ _ (Leaves-pure P operator_refusal) (
            Keeps-bind P _ _ q.l1_network (λ chain. Keeps-bind P _ _ (own-Quiet s P q _) (λ table.
              Keeps-bind P _ _ (align_evm-Quiet s P q) (λ _.
                Keeps-bind P _ _ (take_snapshot-Quiet s P q) (λ snapshot.
                  Keeps-bind P _ _
                    (Leaves-catching P _ _ (plan_and_land-Quiet tx chain (hint_for table tx))
                      (λ e. Keeps-bind P _ _ (undo-Quiet snapshot) (λ _. Leaves-raise P e)))
                    (λ landed. report-Quiet signed_tx landed))))))))
