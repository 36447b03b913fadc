-- ===== src/Builder/Monitor/Landing.antt =====
-- What `processL2Transaction` of rollup1/builder/builder.ts brings to L1.
use sync_rollups.Prelude.{
  ℕ, zero, suc, Bool, true, false, not, ◌&&◌, ◌≡◌, refl, ◌++◌, append_assoc, JsString, is_truthy,
  Option, none, some, List, [], ◌∷◌, ◌==◌, arith,
}
use sync_rollups.Outcome.Rules.{
  Ends, Ends-bind, Ends-then, Ends-pure, Ends-if, Ends-weaken, EndsFrom-pure, EndsFrom-given,
}
use sync_rollups.Outcome.Leaves.{Keeps-bind, Leaves-pure, Leaves-raise, Leaves-if, Leaves-knowing}
use sync_rollups.Proofer.{EcdsaParams}
use sync_rollups.Builder.{
  BuilderConfig, BuilderServices, L1Head, Receipt, Site, StoredHint, Submitter, pending, latest,
}
use sync_rollups.Builder.Bundle.{Fees, l2_txs, sign_l2_bundle}
use sync_rollups.Builder.Bundle.Signing.{Carrying, IsSigner, sign_l2_bundle-Ends}
use sync_rollups.Builder.Plan.Executions.{Executes}
use sync_rollups.Builder.Landing.{
  Job, last_of, proof_for, clear_hints, found, block_proof, fresh_proof, bundle_attempts,
  submit_bundle, broadcast_all, wait_all, check_receipts, missing_proof, broadcast_txs,
}
use sync_rollups.Builder.Monitor.{IsQuiet, Quiet}
use sync_rollups.Builder.Monitor.Submission.{IsProved, IsSubmission, request_proof-Ends}
use sync_rollups.Builder.Monitor.Steps.{
  cases-Quiet, own-Quiet, assign-Quiet, wait_for_next_slot-Quiet, correct_timestamp-Quiet,
  verify_timestamp-Quiet, request_proof-Quiet, sign_l2_bundle-Quiet,
}

switched_off : (b t : Bool) → (b ≡ true → t ≡ false) → (b && not t) ≡ false → b ≡ false
switched_off true true h off = absurd (ground (arith, h))
switched_off true false h off = cc
switched_off false t h off = refl

module _ {W : Type 0} (s : BuilderServices (Site W)) (config : BuilderConfig) (carries : Carrying)
    (signer : IsSigner s carries) (P : Site W → Type 0) (q : IsQuiet s P) where
  -- A submission may do anything that keeps `P`, and so may each part of it that is broadcast.
  pub record MayLand (signed_tx : JsString) : Type 0 where
    pub submits :
        (submitter : Submitter) (raws : List JsString) (block timestamp : ℕ)
        → IsSubmission s config carries signed_tx raws
        → Quiet s P (s.submit_and_wait submitter raws block timestamp)
    pub broadcasts :
        (before : List JsString) (raw : JsString) (more : List JsString)
        → IsSubmission s config carries signed_tx (before ++ raw ∷ more)
        → Quiet s P (s.broadcast raw)

  module _ (job : Job) (executes : Executes (l2_txs job.deploy job.signed_tx) job.plan)
      (may : MayLand job.signed_tx) where
    -- What is known of a proof: without the ECDSA verifier it has been asked for.
    abbrev pub Ready : JsString → Type 0
    Ready proof =
        (config.use_ecdsa_verifier ≡ false → IsProved s job.plan proof)
        × (config.use_ecdsa_verifier ≡ true → is_truthy proof ≡ false)

    pub proof_for-Ends :
        (hints : List StoredHint) (params : Option EcdsaParams)
        → Ends (λ proof _. IsProved s job.plan proof) (proof_for s config job hints params)
    unfolding proof_for
    proof_for-Ends hints params = request_proof-Ends s job.plan _

    pub clear_hints-Quiet : (hints : List StoredHint) → Quiet s P (clear_hints s config hints)
    unfolding clear_hints
    clear_hints-Quiet [] = Leaves-pure P tt
    clear_hints-Quiet (h ∷ hs) = assign-Quiet s P q _

    found-Quiet : (block : ℕ) (parent : Option L1Head) → Quiet s P (found s config block parent)
    unfolding found
    found-Quiet block none = Leaves-raise P _
    found-Quiet block (some head) = Leaves-pure P head

    block_proof-Quiet : (hints : List StoredHint) → Quiet s P (block_proof s config job hints)
    unfolding block_proof proof_for
    block_proof-Quiet hints = Keeps-bind P _ _ q.l1_block_number (λ block.
        Keeps-bind P _ _ (q.l1_block block) (λ parent.
          Keeps-bind P _ _ (found-Quiet _ parent) (λ head.
            Keeps-bind P _ _ (request_proof-Quiet s P q job.plan _)
              (λ proof. Keeps-bind P _ _ (clear_hints-Quiet hints) (λ _. Leaves-pure P proof)))))

    block_proof-Ends :
        (hints : List StoredHint)
        → Ends (λ proof _. IsProved s job.plan proof) (block_proof s config job hints)
    unfolding block_proof
    block_proof-Ends hints = Ends-bind _ _ _ (λ block. Ends-bind _ _ _ (λ parent.
        Ends-bind _ _ _ (λ head.
          Ends-then _ _ _ _ (proof_for-Ends hints _)
            (λ proof. EndsFrom-given _ _ _ (λ k. Ends-bind _ _ _ (λ _. Ends-pure _ _ (λ _. k)))))))

    fresh_proof-Quiet :
        (proof : JsString) (hints : List StoredHint)
        → Quiet s P (fresh_proof s config job proof hints)
    unfolding fresh_proof
    fresh_proof-Quiet proof hints =
        Leaves-if P P config.use_ecdsa_verifier _ _
          (Keeps-bind P _ _ (block_proof-Quiet hints) (λ _. Leaves-pure P _))
          (Leaves-pure P (proof, hints))

    fresh_proof-Ends :
        (proof : JsString) (hints : List StoredHint)
        → (config.use_ecdsa_verifier ≡ false → IsProved s job.plan proof)
        → Ends (λ r _. IsProved s job.plan r.0) (fresh_proof s config job proof hints)
    unfolding fresh_proof
    fresh_proof-Ends proof hints ready =
        Ends-if _ config.use_ecdsa_verifier _ _
          (λ _. Ends-then _ _ _ _ (block_proof-Ends hints) (λ p. EndsFrom-pure _ _ _ (λ _ k. k)))
          (λ off. Ends-pure _ _ (λ _. ready off))

    -- What is signed with a proof may be submitted.
    sign-Ends :
        (fees : Fees) (proof : JsString) (nonce : ℕ)
        → IsProved s job.plan proof
        → Ends
            (λ raws _. IsSubmission s config carries job.signed_tx raws)
            (sign_l2_bundle s fees config.planner.rollup_id job.chain job.target job.plan.entries
              proof
              (l2_txs job.deploy job.signed_tx)
              nonce)
    sign-Ends fees proof nonce proved =
        Ends-weaken _ _ _
          (λ raws _ b. record {
            plan = job.plan;
            deploy = job.deploy;
            executes = executes;
            proof = proof;
            proved = proved;
            fees = fees;
            chain = job.chain;
            target = job.target;
            nonce = nonce;
            bundle = b;
          })
          (sign_l2_bundle-Ends s carries signer fees config.planner.rollup_id job.chain job.target
            job.plan.entries proof (l2_txs job.deploy job.signed_tx) nonce)

    bundle_attempts-Quiet :
        (submitter : Submitter) (fees : Fees) (rounds : ℕ) (proof : JsString)
        (hints : List StoredHint)
        → (config.use_ecdsa_verifier ≡ false → IsProved s job.plan proof)
        → Quiet s P (bundle_attempts s config submitter job fees rounds proof hints)
    unfolding bundle_attempts
    bundle_attempts-Quiet submitter fees zero proof hints ready = Leaves-raise P _
    bundle_attempts-Quiet submitter fees (suc rounds) proof hints ready =
        Leaves-knowing P P P _ _ _ (λ _ p. p) (fresh_proof-Ends proof hints ready)
          (fresh_proof-Quiet proof hints)
          (λ fresh proved. Keeps-bind P _ _ (q.wallet_nonce pending) (λ nonce.
            Leaves-knowing P P P _ _ _ (λ _ p. p) (sign-Ends fees fresh.0 nonce proved)
              (sign_l2_bundle-Quiet s P q fees config.planner.rollup_id job.chain job.target
                job.plan.entries fresh.0 (l2_txs job.deploy job.signed_tx) nonce)
              (λ raws allowed. Keeps-bind P _ _ q.l1_block_number (λ block.
                Keeps-bind P _ _ (may.submits submitter raws _ job.sim_timestamp allowed) (λ landed.
                  cases-Quiet s P q landed.included _ _ (Leaves-pure P landed)
                    (bundle_attempts-Quiet submitter fees rounds fresh.0 fresh.1 (λ _. proved)))))))

    submit_bundle-Quiet :
        (submitter : Submitter) (proof : JsString) (hints : List StoredHint)
        → (config.use_ecdsa_verifier ≡ false → IsProved s job.plan proof)
        → Quiet s P (submit_bundle s config submitter job proof hints)
    unfolding submit_bundle
    submit_bundle-Quiet submitter proof hints ready = Keeps-bind P _ _ q.l1_fee_data (λ fee.
        Keeps-bind P _ _ (own-Quiet s P q _) (λ chain.
          Keeps-bind P _ _ (bundle_attempts-Quiet submitter _ _ proof hints ready)
            (λ landed. Keeps-bind P _ _ (verify_timestamp-Quiet s P q _ _) (λ _. Leaves-pure P _))))

    broadcast_all-Quiet :
        (before raws : List JsString)
        → IsSubmission s config carries job.signed_tx (before ++ raws)
        → Quiet s P (broadcast_all s config raws)
    unfolding broadcast_all
    broadcast_all-Quiet before [] allowed = Leaves-pure P []
    broadcast_all-Quiet before (raw ∷ raws) allowed =
        Keeps-bind P _ _ (may.broadcasts before raw raws allowed) (λ _.
          Keeps-bind P _ _
            (broadcast_all-Quiet (before ++ (raw ∷ [])) raws
              (rw (append_assoc before (raw ∷ []) raws) allowed))
            (λ _. Leaves-pure P _))

    pub wait_all-Quiet : (hashes : List JsString) → Quiet s P (wait_all s config hashes)
    unfolding wait_all
    wait_all-Quiet [] = Leaves-pure P []
    wait_all-Quiet (hash ∷ hashes) =
        Keeps-bind P _ _ (q.wait_receipt hash)
          (λ _. Keeps-bind P _ _ (wait_all-Quiet hashes) (λ _. Leaves-pure P _))

    check_receipts-Quiet : (l : List Receipt) → Quiet s P (check_receipts s config job l)
    unfolding check_receipts
    check_receipts-Quiet [] = Leaves-raise P _
    check_receipts-Quiet (first ∷ more) =
        Keeps-bind P _ _
          (Leaves-if P P (first.block_number == (last_of first more).block_number) _ _
            (verify_timestamp-Quiet s P q _ _) (correct_timestamp-Quiet s P q _))
          (λ _. Leaves-pure P _)

    missing_proof-Quiet :
        (proof : JsString) (hints : List StoredHint)
        → Quiet s P (missing_proof s config job proof hints)
    unfolding missing_proof
    missing_proof-Quiet proof hints =
        Leaves-if P P (config.use_ecdsa_verifier && not (is_truthy proof)) _ _
          (block_proof-Quiet hints) (Leaves-pure P proof)

    missing_proof-Ends :
        (proof : JsString) (hints : List StoredHint)
        → Ready proof
        → Ends (λ p _. IsProved s job.plan p) (missing_proof s config job proof hints)
    unfolding missing_proof
    missing_proof-Ends proof hints ready =
        Ends-if _ (config.use_ecdsa_verifier && not (is_truthy proof)) _ _
          (λ _. block_proof-Ends hints)
          (λ off.
            Ends-pure _ _
              (λ _. ready.0 (switched_off config.use_ecdsa_verifier (is_truthy proof) ready.1 off)))

    broadcast_txs-Quiet :
        (proof : JsString) (hints : List StoredHint)
        → Ready proof
        → Quiet s P (broadcast_txs s config job proof hints)
    unfolding broadcast_txs
    broadcast_txs-Quiet proof hints ready = Keeps-bind P _ _ (wait_for_next_slot-Quiet s P q) (λ _.
        Keeps-bind P _ _ q.l1_fee_data (λ fee. Keeps-bind P _ _ (own-Quiet s P q _) (λ chain.
          Leaves-knowing P P P _ _ _ (λ _ p. p) (missing_proof-Ends proof hints ready)
            (missing_proof-Quiet proof hints)
            (λ p proved. Keeps-bind P _ _ (q.wallet_nonce latest) (λ nonce.
              Leaves-knowing P P P _ _ _ (λ _ r. r) (sign-Ends _ p nonce proved)
                (sign_l2_bundle-Quiet s P q _ config.planner.rollup_id job.chain job.target
                  job.plan.entries p (l2_txs job.deploy job.signed_tx) nonce)
                (λ raws allowed. Keeps-bind P _ _ (broadcast_all-Quiet [] raws allowed) (λ hashes.
                  Keeps-bind P _ _ (wait_all-Quiet hashes)
                    (λ receipts. check_receipts-Quiet receipts))))))))

    pub landing-Quiet :
        (chosen : Option Submitter) (proof : JsString) (hints : List StoredHint)
        → Ready proof
        → Quiet s P (elim chosen [
          | some submitter ↦ submit_bundle s config submitter job proof hints
          | none ↦ broadcast_txs s config job proof hints
        ])
    landing-Quiet none proof hints ready = broadcast_txs-Quiet proof hints ready
    landing-Quiet (some submitter) proof hints ready =
        submit_bundle-Quiet submitter proof hints ready.0
