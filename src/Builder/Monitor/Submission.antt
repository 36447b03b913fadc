-- ===== src/Builder/Monitor/Submission.antt =====
-- What `processL2Transaction` of rollup1/builder/builder.ts may submit to L1: a plan that the
-- proofer has proved, and the signed bundle that carries it.
use sync_rollups.Prelude.{ℕ, true, ◌≡◌, refl, JsString, Option, List}
use sync_rollups.Outcome.Rules.{
  Ends, Ends-bind, Ends-then, Ends-pure, Ends-if, Ends-raise, EndsFrom-given,
}
use sync_rollups.Types.{ExecutionPlan}
use sync_rollups.Proofer.Entry.Soundness.{Answered, Ends-Answered}
use sync_rollups.Builder.{BuilderConfig, BuilderServices, ProofReply, Site}
use sync_rollups.Builder.Proof.{ProofTerms, proof_body, request_proof}
use sync_rollups.Builder.Bundle.{Fees, l2_txs}
use sync_rollups.Builder.Bundle.Signing.{Carrying, IsL2Bundle}
use sync_rollups.Builder.Plan.Executions.{Executes}

module _ {W : Type 0} (s : BuilderServices (Site W)) where
  -- The proofer has answered a proof for exactly this plan.
  pub record IsProved (plan : ExecutionPlan) (proof : JsString) : Type 0 where
    pub terms : ProofTerms
    pub reply : ProofReply
    pub answered : Answered (s.prove (proof_body plan terms)) reply
    pub success : reply.success ≡ true
    pub proof_of : reply.proof ≡ proof

  pub request_proof-Ends :
      (plan : ExecutionPlan) (terms : ProofTerms)
      → Ends (λ proof _. IsProved plan proof) (request_proof s plan terms)
  unfolding request_proof
  request_proof-Ends plan terms = Ends-bind _ _ _ (λ _.
      Ends-then _ _ _ _ (Ends-Answered (s.prove (proof_body plan terms))) (λ reply.
        EndsFrom-given _ _ _ (λ a.
          Ends-if _ reply.success _ _
            (λ good. Ends-pure _ _ (λ _. record {
              terms = terms;
              reply = reply;
              answered = a;
              success = good;
              proof_of = refl;
            }))
            (λ _. Ends-raise _ _))))

  module _ (config : BuilderConfig) (carries : Carrying) where
    -- What may be brought to L1 for an L2 transaction: for a plan that the proofer has proved, the
    -- bundle of its entries, of the proof, and of the executions of exactly those L2 transactions
    -- that the plan accounts for, of which the given one is the last.
    pub record IsSubmission (signed_tx : JsString) (raws : List JsString) : Type 0 where
      pub plan : ExecutionPlan
      pub deploy : Option JsString
      pub executes : Executes (l2_txs deploy signed_tx) plan
      pub proof : JsString
      pub proved : IsProved plan proof
      pub fees : Fees
      pub chain : ℕ
      pub target : Option JsString
      pub nonce : ℕ
      pub bundle :
          IsL2Bundle s carries fees config.planner.rollup_id chain target plan.entries proof
            (l2_txs deploy signed_tx)
            nonce
            raws
