-- ===== src/Builder/Monitor/L1.antt =====
-- `processL1Transaction` of rollup1/builder/builder.ts brings nothing to L1 but the transaction of
-- the user and, before it, a batch that was proved.
use sync_rollups.Prelude.{
  ℕ, zero, suc, Bool, true, ◌≡◌, refl, ap, ◌++◌, JsString, Option, none, some, List, [], ◌∷◌,
}
use sync_rollups.Outcome.Io.{Io, pure}
use sync_rollups.Outcome.Rules.{
  Ends, Ends-bind, Ends-then, Ends-pure, Ends-raise, EndsFrom-given, Ends-if, Ends-catching,
}
use sync_rollups.Outcome.Leaves.{
  Leaves, Keeps-bind, Leaves-pure, Leaves-raise, Leaves-lift, Leaves-catching, Leaves-if,
  Leaves-knowing,
}
use sync_rollups.Types.{ExecutionPlan}
use sync_rollups.Proofer.Entry.{present}
use sync_rollups.Builder.{
  Builder, BuilderConfig, BuilderServices, ParsedTx, Site, SubmitResponse, Submitter, pending,
}
use sync_rollups.Builder.Bundle.{Fees, batch_calls}
use sync_rollups.Builder.Bundle.Signing.{Carrying, IsSigner, Numbered, sign_all-Ends}
use sync_rollups.Builder.Batch.{batch_fees}
use sync_rollups.Builder.L1.{
  L1Job, is_mismatch, proxy_calls, retry_proof, land_call, with_proof, by_target, prove_call,
  sign_l1_bundle, bundle_call, send_call, call_once, call_attempts, call_into_l2,
  process_l1_transaction,
}
use sync_rollups.Builder.Monitor.{IsQuiet, Quiet}
use sync_rollups.Builder.Monitor.Steps.{
  own-Quiet, choose_sim_timestamp-Quiet, request_proof-Quiet, sign_all-Quiet,
}
use sync_rollups.Builder.Monitor.Calls.{
  deploy_proxy-Quiet, retry_proof-Quiet, retry_bundle-Quiet, revert_to-Quiet, root_if-Quiet,
  plan_call-Quiet,
}
use sync_rollups.Builder.Monitor.Submission.{IsProved, request_proof-Ends}

module _ {W : Type 0} (s : BuilderServices (Site W)) (config : BuilderConfig)
    (carries : Carrying) where
  -- Perhaps the deployment of a proxy, then a batch that was proved, with consecutive nonces, and
  -- last the transaction of the user.
  pub record IsCallBundle (signed_tx : JsString) (raws : List JsString) : Type 0 where
    pub plan : ExecutionPlan
    pub proof : JsString
    pub proved : IsProved s plan proof
    pub limits : Builder
    pub fees : Fees
    pub deploys : Bool
    pub l2_target : JsString
    pub nonce : ℕ
    pub own_raws : List JsString
    pub all_raws : raws ≡ own_raws ++ (signed_tx ∷ [])
    pub decoded :
        Numbered carries nonce
          (proxy_calls deploys fees l2_target config.planner.rollup_id
            ++ batch_calls limits fees config.planner.rollup_id plan.entries proof [])
          own_raws

  pub record MayLandCall (P : Site W → Type 0) (signed_tx : JsString) : Type 0 where
    pub submits :
        (submitter : Submitter) (raws : List JsString) (block timestamp : ℕ)
        → IsCallBundle signed_tx raws
        → Quiet s P (s.submit_and_wait submitter raws block timestamp)
    pub posts :
        (plan : ExecutionPlan) (proof : JsString)
        → IsProved s plan proof
        → Quiet s P (s.send_post_batch plan.entries proof)
    pub broadcasts : Quiet s P (s.broadcast signed_tx)

module _ {W : Type 0} (s : BuilderServices (Site W)) (config : BuilderConfig) (carries : Carrying)
    (signer : IsSigner s carries) (P : Site W → Type 0) (q : IsQuiet s P) where
  module _ (signed_tx : JsString) (may : MayLandCall s config carries P signed_tx) where
    sign_l1_bundle-Ends :
        (job : L1Job) (plan : ExecutionPlan) (proof : JsString)
        → job.signed_tx ≡ signed_tx
        → IsProved s plan proof
        → Ends
            (λ raws _. IsCallBundle s config carries signed_tx raws)
            (sign_l1_bundle s config job plan proof)
    unfolding sign_l1_bundle
    sign_l1_bundle-Ends job plan proof e proved = Ends-bind _ _ _ (λ fee. Ends-bind _ _ _ (λ nonce.
        Ends-bind _ _ _ (λ b. Ends-then _ _ _ _ (sign_all-Ends s carries signer nonce _) (λ raws.
          EndsFrom-given _ _ _ (λ d. Ends-pure _ _ (λ _. record {
            plan = plan;
            proof = proof;
            proved = proved;
            limits = b;
            fees = batch_fees fee;
            deploys = job.needs_deploy;
            l2_target = job.l2_target;
            nonce = nonce;
            own_raws = raws;
            all_raws = ap (λ t. raws ++ (t ∷ [])) e;
            decoded = d;
          }))))))

    sign_l1_bundle-Quiet :
        (job : L1Job) (plan : ExecutionPlan) (proof : JsString)
        → Quiet s P (sign_l1_bundle s config job plan proof)
    unfolding sign_l1_bundle
    sign_l1_bundle-Quiet job plan proof = Keeps-bind P _ _ q.l1_fee_data (λ fee.
        Keeps-bind P _ _ (q.wallet_nonce pending) (λ nonce.
          Keeps-bind P _ _ (own-Quiet s P q _)
            (λ b. Keeps-bind P _ _ (sign_all-Quiet s P q nonce _) (λ raws. Leaves-pure P _))))

    prove_call-Quiet :
        (left : ℕ) (job : L1Job) (block t : ℕ) (plan : ExecutionPlan)
        → Quiet s P (prove_call s config left job block t plan)
    unfolding prove_call
    prove_call-Quiet left job block t plan =
        Leaves-catching P _ _
          (Keeps-bind P _ _ (request_proof-Quiet s P q plan _) (λ proof. Leaves-pure P _))
          (λ e.
            Keeps-bind P _ _ (revert_to-Quiet s config P q block)
              (λ _. retry_proof-Quiet s config P q left e))

    -- A proof that is answered is one for the plan.
    abbrev AllProved : ExecutionPlan → Option JsString → Type 0
    AllProved plan none = Unit
    AllProved plan (some proof) = IsProved s plan proof

    retry_proof-Ends :
        (left : ℕ) (e : JsString) (plan : ExecutionPlan)
        → Ends (λ o _. AllProved plan o) (retry_proof s config left e)
    unfolding retry_proof
    retry_proof-Ends zero e plan = Ends-raise _ e
    retry_proof-Ends (suc left) e plan =
        Ends-if _ (is_mismatch e) _ _ (λ _. Ends-bind _ _ _ (λ _. Ends-pure _ _ (λ _. tt)))
          (λ _. Ends-raise _ e)

    prove_call-Ends :
        (left : ℕ) (job : L1Job) (block t : ℕ) (plan : ExecutionPlan)
        → Ends (λ o _. AllProved plan o) (prove_call s config left job block t plan)
    unfolding prove_call
    prove_call-Ends left job block t plan =
        Ends-catching _ _ _
          (Ends-then _ _ _ _ (request_proof-Ends s plan _)
            (λ proof. EndsFrom-given _ _ _ (λ k. Ends-pure _ _ (λ _. k))))
          (λ e. Ends-bind _ _ _ (λ _. retry_proof-Ends left e plan))

    bundle_call-Quiet :
        (left : ℕ) (submitter : Submitter) (job : L1Job) (block t : ℕ) (plan : ExecutionPlan)
        (proof : JsString)
        → job.signed_tx ≡ signed_tx
        → IsProved s plan proof
        → Quiet s P (bundle_call s config left submitter job block t plan proof)
    unfolding bundle_call
    bundle_call-Quiet left submitter job block t plan proof e proved =
        Leaves-knowing P P P _ _ _ (λ _ p. p) (sign_l1_bundle-Ends job plan proof e proved)
          (sign_l1_bundle-Quiet job plan proof)
          (λ raws allowed. Keeps-bind P _ _ q.l1_cached_block_number (λ current.
            Keeps-bind P _ _ (may.submits submitter raws _ t allowed) (λ landed.
              Leaves-if P P landed.included _ _
                (Keeps-bind P _ _ (Leaves-lift P _) (λ again.
                  Keeps-bind P _ _ (root_if-Quiet s config P q _ (Leaves-pure P true))
                    (λ _. Leaves-pure P _)))
                (Keeps-bind P _ _ (revert_to-Quiet s config P q block)
                  (λ _. retry_bundle-Quiet s config P q left)))))

    send_call-Quiet :
        (job : L1Job) (plan : ExecutionPlan) (proof : JsString)
        → Quiet s P (s.broadcast job.signed_tx)
        → IsProved s plan proof
        → Quiet s P (send_call s config job plan proof)
    unfolding send_call
    send_call-Quiet job plan proof send proved =
        Keeps-bind P _ _
          (Leaves-if P P job.needs_deploy _ _
            (Keeps-bind P _ _
              (deploy_proxy-Quiet s config P q job.l2_target config.planner.rollup_id)
              (λ _. Leaves-pure P tt))
            (Leaves-pure P tt))
          (λ _. Keeps-bind P _ _ (may.posts plan proof proved) (λ _. Keeps-bind P _ _ send (λ hash.
            Keeps-bind P _ _ (root_if-Quiet s config P q _ (q.is_confirmed hash))
              (λ _. Leaves-pure P _))))

    module _ (job : L1Job) (same : job.signed_tx ≡ signed_tx) where
      land-Quiet :
          (left block t : ℕ) (plan : ExecutionPlan) (proof : JsString) (chosen : Option Submitter)
          → IsProved s plan proof
          → Quiet s P (land_call s config left job block t plan proof chosen)
      unfolding land_call
      land-Quiet left block t plan proof none proved =
          Keeps-bind P _ _ (send_call-Quiet job plan proof (rw same may.broadcasts) proved)
            (λ _. Leaves-pure P _)
      land-Quiet left block t plan proof (some submitter) proved =
          bundle_call-Quiet left submitter job block t plan proof same proved

      with_proof-Quiet :
          (left block t : ℕ) (plan : ExecutionPlan) (o : Option JsString)
          → AllProved plan o
          → Quiet s P (with_proof s config left job block t plan o)
      unfolding with_proof
      with_proof-Quiet left block t plan none proved = Leaves-pure P none
      with_proof-Quiet left block t plan (some proof) proved =
          Keeps-bind P _ _ (q.load_executions _) (λ _.
            Keeps-bind P _ _ (own-Quiet s P q _)
              (λ chosen. land-Quiet left block t plan proof chosen proved))

      call_once-Quiet : (left : ℕ) → Quiet s P (call_once s config left job)
      unfolding call_once
      call_once-Quiet left = Keeps-bind P _ _ q.l2_block_number (λ block.
          Keeps-bind P _ _ (choose_sim_timestamp-Quiet s P q) (λ t.
            Keeps-bind P _ _ (plan_call-Quiet s config P q job t) (λ plan.
              Leaves-knowing P P P _ _ _ (λ _ p. p) (prove_call-Ends left job block t plan)
                (prove_call-Quiet left job block t plan)
                (λ o proved. with_proof-Quiet left block t plan o proved))))

      answer-Quiet :
          (done : Option SubmitResponse) (m : Io (Site W) SubmitResponse)
          → Quiet s P m
          → Quiet s P (elim done [ some response ↦ pure response | none ↦ m ])
      answer-Quiet (some response) m h = Leaves-pure P response
      answer-Quiet none m h = h

      call_attempts-Quiet : (rounds : ℕ) → Quiet s P (call_attempts s config rounds job)
      unfolding call_attempts
      call_attempts-Quiet zero = Leaves-raise P _
      call_attempts-Quiet (suc left) =
          Keeps-bind P _ _ (call_once-Quiet left)
            (λ done. answer-Quiet done _ (call_attempts-Quiet left))

    call_into_l2-Quiet :
        (tx : ParsedTx) (l2_target : JsString)
        → Quiet s P (call_into_l2 s config tx signed_tx l2_target)
    unfolding call_into_l2
    call_into_l2-Quiet tx l2_target = Keeps-bind P _ _ q.l1_network (λ chain.
        Keeps-bind P _ _ (q.proxy_address l2_target config.planner.rollup_id chain) (λ proxy.
          Keeps-bind P _ _ (q.l1_code proxy) (λ code.
            Keeps-bind P _ _ (q.proxy_address _ config.planner.rollup_id chain)
              (λ source_proxy. call_attempts-Quiet _ refl 5))))

    by_target-Quiet :
        (tx : ParsedTx) (to target : Option JsString)
        → Quiet s P (by_target s config tx signed_tx to target)
    unfolding by_target
    by_target-Quiet tx none target = Leaves-pure P _
    by_target-Quiet tx (some to) none = Keeps-bind P _ _ may.broadcasts (λ _. Leaves-pure P _)
    by_target-Quiet tx (some to) (some target) = call_into_l2-Quiet tx target

    pub process_l1_transaction-Leaves :
        (l2_target : Option JsString)
        → Leaves P P (process_l1_transaction s config signed_tx l2_target)
    unfolding process_l1_transaction
    process_l1_transaction-Leaves l2_target =
        Keeps-bind P _ _ (Leaves-lift P _)
          (λ tx. by_target-Quiet tx (present tx.to) (present l2_target))
