-- ===== src/Builder/Monitor/Batch.antt =====
-- `processL2Batch` of rollup1/builder/builder.ts brings nothing to L1 but what was proved.
use sync_rollups.Prelude.{
  ℕ, suc, ◌+◌, true, false, ◌≡◌, refl, ◌++◌, append_assoc, JsString, Option, none, some, List, [],
  ◌∷◌, length, length-append, arith, if◌then◌else◌,
}
use sync_rollups.Outcome.Io.{pure, raise}
use sync_rollups.Outcome.Rules.{Ends, Ends-bind, Ends-weaken}
use sync_rollups.Outcome.Leaves.{
  Leaves, Keeps-bind, Leaves-pure, Leaves-raise, Leaves-lift, Leaves-if, Leaves-knowing,
}
use sync_rollups.Types.{ExecutionPlan}
use sync_rollups.Builder.{
  Builder, BuilderConfig, BuilderServices, BundleResult, Site, Submitter, pending,
}
use sync_rollups.Builder.Bundle.{Fees, PricedCall, with_nonce, batch_calls}
use sync_rollups.Builder.Bundle.Signing.{
  Carrying, IsSigner, Numbered, sign_contract_tx-Ends, sign_all-Ends,
}
use sync_rollups.Builder.Plan.{signed_by}
use sync_rollups.Builder.Plan.Executions.{Executes, plan_l2_batch-Executes}
use sync_rollups.Builder.Landing.{wait_all}
use sync_rollups.Builder.Batch.{
  batch_fees, simple_fees, any_signed_by, batch_report, sign_batch, batch_bundle, send_all,
  batch_broadcast, process_l2_batch,
}
use sync_rollups.Builder.L2.{operator_refusal}
use sync_rollups.Builder.Monitor.{IsQuiet, Quiet}
use sync_rollups.Builder.Monitor.Steps.{
  cases-Quiet, own-Quiet, choose_sim_timestamp-Quiet, wait_for_next_slot-Quiet,
  verify_timestamp-Quiet, request_proof-Quiet, sign_contract_tx-Quiet, sign_all-Quiet,
}
use sync_rollups.Builder.Monitor.Plans.{plan_l2_batch-Quiet}
use sync_rollups.Builder.Monitor.Submission.{IsProved, request_proof-Ends}

module _ {W : Type 0} (s : BuilderServices (Site W)) (config : BuilderConfig)
    (carries : Carrying) where
  -- The calls for a batch of L2 transactions: the plan has been proved and accounts for exactly
  -- these transactions, in their order.
  pub record IsBatch (txs : List JsString) (calls : List PricedCall) : Type 0 where
    pub plan : ExecutionPlan
    pub executes : Executes txs plan
    pub proof : JsString
    pub proved : IsProved s plan proof
    pub limits : Builder
    pub fees : Fees
    pub calls_of : calls ≡ batch_calls limits fees config.planner.rollup_id plan.entries proof txs

  -- A bundle may hold such calls with consecutive nonces, and each of them may be broadcast with
  -- the nonce of its place.
  pub record MayLandBatch (P : Site W → Type 0) (txs : List JsString) : Type 0 where
    pub submits :
        (submitter : Submitter) (raws : List JsString) (block timestamp nonce : ℕ)
        (calls : List PricedCall)
        → IsBatch txs calls
        → Numbered carries nonce calls raws
        → Quiet s P (s.submit_and_wait submitter raws block timestamp)
    pub broadcasts :
        (raw : JsString) (nonce : ℕ) (before : List PricedCall) (c : PricedCall)
        (more : List PricedCall)
        → IsBatch txs (before ++ c ∷ more)
        → carries raw c.call (with_nonce c (nonce + length before))
        → Quiet s P (s.broadcast raw)

module _ {W : Type 0} (s : BuilderServices (Site W)) (config : BuilderConfig) (carries : Carrying)
    (signer : IsSigner s carries) (P : Site W → Type 0) (q : IsQuiet s P) (txs : List JsString)
    (may : MayLandBatch s config carries P txs) where
  any_signed_by-Quiet :
      (operator : JsString) (raws : List JsString)
      → Quiet s P (any_signed_by s config operator raws)
  unfolding any_signed_by
  any_signed_by-Quiet operator [] = Leaves-pure P false
  any_signed_by-Quiet operator (raw ∷ raws) = Keeps-bind P _ _ (Leaves-lift P _) (λ tx.
      cases-Quiet s P q (signed_by operator tx) _ _ (Leaves-pure P true)
        (any_signed_by-Quiet operator raws))

  batch_report-Quiet :
      (plan : ExecutionPlan) (hash : JsString) → Quiet s P (batch_report s config plan hash)
  unfolding batch_report
  batch_report-Quiet plan hash = Keeps-bind P _ _ q.rollup_state_root (λ _. Leaves-pure P _)

  included-Quiet :
      (r : BundleResult) (e : JsString) → Quiet s P (if r.included then pure tt else raise e)
  included-Quiet r e = Leaves-if P P r.included _ _ (Leaves-pure P tt) (Leaves-raise P e)

  module _ (plan : ExecutionPlan) (executes : Executes txs plan) (proof : JsString)
      (proved : IsProved s plan proof) where
    calls-IsBatch :
        (b : Builder) (fees : Fees)
        → IsBatch s config carries txs
            (batch_calls b fees config.planner.rollup_id plan.entries proof txs)
    calls-IsBatch b fees = record {
      plan = plan;
      executes = executes;
      proof = proof;
      proved = proved;
      limits = b;
      fees = fees;
      calls_of = refl;
    }

    Signed : Fees → List JsString → Type 0
    Signed fees raws =
        (nonce : ℕ) × (b : Builder) × (Numbered carries nonce
          (batch_calls b fees config.planner.rollup_id plan.entries proof txs) raws)

    sign_batch-Ends :
        (fees : Fees) → Ends (λ raws _. Signed fees raws) (sign_batch s config fees plan proof txs)
    unfolding sign_batch Signed
    sign_batch-Ends fees = Ends-bind _ _ _ (λ nonce. Ends-bind _ _ _ (λ b.
        Ends-weaken _ _ _ (λ raws _ d. (nonce, b, d)) (sign_all-Ends s carries signer nonce _)))

    batch_bundle-Quiet :
        (submitter : Submitter) (t : ℕ)
        → Quiet s P (batch_bundle s config submitter plan t proof txs)
    unfolding batch_bundle sign_batch Signed
    batch_bundle-Quiet submitter t = Keeps-bind P _ _ q.l1_fee_data (λ fee.
        Leaves-knowing P P P (Signed (batch_fees fee)) _ _ (λ _ p. p)
          (sign_batch-Ends (batch_fees fee))
          (Keeps-bind P _ _ (q.wallet_nonce pending)
            (λ nonce. Keeps-bind P _ _ (own-Quiet s P q _) (λ b. sign_all-Quiet s P q nonce _)))
          (λ raws (nonce, b, decoded). Keeps-bind P _ _ q.l1_block_number (λ block.
            Keeps-bind P _ _
              (may.submits submitter raws _ t nonce _ (calls-IsBatch b (batch_fees fee)) decoded)
              (λ r. Keeps-bind P _ _ (included-Quiet r _) (λ _.
                Keeps-bind P _ _ (verify_timestamp-Quiet s P q _ t)
                  (λ _. batch_report-Quiet plan _))))))

    send_all-Quiet :
        (start : ℕ) (before calls : List PricedCall) (nonce : ℕ)
        → nonce ≡ start + length before
        → IsBatch s config carries txs (before ++ calls)
        → Quiet s P (send_all s config nonce calls)
    unfolding send_all
    send_all-Quiet start before [] nonce e batch = Leaves-pure P []
    send_all-Quiet start before (c ∷ calls) nonce e batch =
        Leaves-knowing P P P _ _ _ (λ _ p. p)
          (sign_contract_tx-Ends s carries signer c.call (with_nonce c nonce))
          (sign_contract_tx-Quiet s P q c.call (with_nonce c nonce))
          (λ raw d.
            Keeps-bind P _ _ (may.broadcasts raw start before c calls batch (rw (← e) d)) (λ _.
              Keeps-bind P _ _
                (send_all-Quiet start (before ++ (c ∷ [])) calls (suc nonce)
                  (omega (arith, e, length-append before (c ∷ [])))
                  (rw (append_assoc before (c ∷ []) calls) batch))
                (λ _. Leaves-pure P _)))

    wait_all-Quiet : (hashes : List JsString) → Quiet s P (wait_all s config hashes)
    unfolding wait_all
    wait_all-Quiet [] = Leaves-pure P []
    wait_all-Quiet (hash ∷ hashes) =
        Keeps-bind P _ _ (q.wait_receipt hash)
          (λ _. Keeps-bind P _ _ (wait_all-Quiet hashes) (λ _. Leaves-pure P _))

    batch_broadcast-Quiet : (t : ℕ) → Quiet s P (batch_broadcast s config plan t proof txs)
    unfolding batch_broadcast
    batch_broadcast-Quiet t = Keeps-bind P _ _ (wait_for_next_slot-Quiet s P q) (λ _.
        Keeps-bind P _ _ q.l1_fee_data (λ fee. Keeps-bind P _ _ (q.wallet_nonce pending) (λ nonce.
          Keeps-bind P _ _ (own-Quiet s P q _) (λ b.
            Keeps-bind P _ _
              (send_all-Quiet nonce [] _ nonce (omega arith) (calls-IsBatch b (simple_fees fee)))
              (λ hashes. Keeps-bind P _ _ (wait_all-Quiet hashes) (λ receipts.
                Keeps-bind P _ _ (verify_timestamp-Quiet s P q _ t)
                  (λ _. batch_report-Quiet plan _)))))))

    landing-Quiet :
        (t : ℕ) (chosen : Option Submitter)
        → Quiet s P (elim chosen [
          | some submitter ↦ batch_bundle s config submitter plan t proof txs
          | none ↦ batch_broadcast s config plan t proof txs
        ])
    landing-Quiet t none = batch_broadcast-Quiet t
    landing-Quiet t (some submitter) = batch_bundle-Quiet submitter t

  -- Whatever holds of the outside and of the builder still holds after the processing of a batch,
  -- whether it succeeds or throws, if it survives the submissions that are allowed and everything
  -- else that the builder calls. So nothing else reaches L1 than a batch that the proofer has proved
  -- for these transactions, followed by an execution of each of them in their order, with
  -- consecutive nonces.
  pub process_l2_batch-Leaves : Leaves P P (process_l2_batch s config txs)
  unfolding process_l2_batch
  process_l2_batch-Leaves = Keeps-bind P _ _ (own-Quiet s P q _) (λ operator.
      Keeps-bind P _ _ (any_signed_by-Quiet operator txs) (λ refused.
        Leaves-if P P refused _ _ (Leaves-pure P operator_refusal) (
          Keeps-bind P _ _ (choose_sim_timestamp-Quiet s P q) (λ t.
            Leaves-knowing P P P _ _ _ (λ _ p. p)
              (plan_l2_batch-Executes s.planner config.planner txs (some t))
              (plan_l2_batch-Quiet s P q config txs (some t))
              (λ plan executes.
                Leaves-knowing P P P _ _ _ (λ _ p. p) (request_proof-Ends s plan _)
                  (request_proof-Quiet s P q plan _)
                  (λ proof proved. Keeps-bind P _ _ (q.load_executions _) (λ _.
                    Keeps-bind P _ _ (own-Quiet s P q _)
                      (λ chosen. landing-Quiet plan executes proof proved t chosen))))))))
