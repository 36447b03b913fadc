-- ===== src/Builder/Monitor/Calls.antt =====
-- The steps of `processL1Transaction` of rollup1/builder/builder.ts that bring nothing to L1.
use sync_rollups.Prelude.{ℕ, zero, suc, Bool, JsString, Option, none, some}
use sync_rollups.Prelude.Int.{ℤ}
use sync_rollups.Outcome.Io.{Io}
use sync_rollups.Outcome.Leaves.{Keeps-bind, Leaves-pure, Leaves-raise, Leaves-catching, Leaves-if}
use sync_rollups.Builder.{BuilderConfig, BuilderServices, Site, block_number}
use sync_rollups.Builder.L1.{
  L1Job, root_failed, is_mismatch, first_proxy, deploy_proxy, revert_to, root_if, created,
  retry_proof, retry_bundle, plan_call,
}
use sync_rollups.Builder.Monitor.{IsQuiet, Quiet}
use sync_rollups.Builder.Monitor.Plans.{call_plan-Quiet}

module _ {W : Type 0} (s : BuilderServices (Site W)) (config : BuilderConfig) (P : Site W → Type 0)
    (q : IsQuiet s P) where
  created-Quiet : (o : Option JsString) → Quiet s P (created s config o)
  unfolding created
  created-Quiet none = Leaves-raise P _
  created-Quiet (some proxy) = Leaves-pure P proxy

  pub deploy_proxy-Quiet :
      (target : JsString) (rollup_id : ℤ) → Quiet s P (deploy_proxy s config target rollup_id)
  unfolding deploy_proxy
  deploy_proxy-Quiet target rollup_id =
      Keeps-bind P _ _ (q.created_proxies target rollup_id)
        (λ logs. created-Quiet (first_proxy logs))

  pub retry_proof-Quiet : (left : ℕ) (e : JsString) → Quiet s P (retry_proof s config left e)
  unfolding retry_proof
  retry_proof-Quiet zero e = Leaves-raise P e
  retry_proof-Quiet (suc left) e =
      Leaves-if P P (is_mismatch e) _ _ (Keeps-bind P _ _ (q.sleep 15000) (λ _. Leaves-pure P none))
        (Leaves-raise P e)

  pub retry_bundle-Quiet : (left : ℕ) → Quiet s P (retry_bundle s config left)
  unfolding retry_bundle
  retry_bundle-Quiet zero = Leaves-raise P _
  retry_bundle-Quiet (suc left) = Keeps-bind P _ _ (q.sleep 5000) (λ _. Leaves-pure P none)

  pub revert_to-Quiet : (block : ℕ) → Quiet s P (revert_to s config block)
  unfolding revert_to
  revert_to-Quiet block =
      Leaves-catching P _ _ (q.revert_to_snapshot (block_number block)) (λ _. Leaves-pure P tt)

  pub root_if-Quiet : (m : Io (Site W) Bool) → Quiet s P m → Quiet s P (root_if s config m)
  unfolding root_if
  root_if-Quiet m h =
      Leaves-catching P _ _
        (Keeps-bind P _ _ h (λ there.
          Leaves-if P P there _ _ (Keeps-bind P _ _ q.rollup_state_root (λ _. Leaves-pure P _))
            (Leaves-pure P none)))
        (λ _. Leaves-pure P none)

  pub plan_call-Quiet : (job : L1Job) (t : ℕ) → Quiet s P (plan_call s config job t)
  unfolding plan_call
  plan_call-Quiet job t =
      Keeps-bind P _ _
        (Leaves-if P P job.needs_deploy _ _ (Leaves-pure P _) (q.authorized_rollup job.proxy))
        (λ rollup_id.
          Keeps-bind P _ _ (call_plan-Quiet s P q config _ (some t) none (some rollup_id)) (λ plan.
            Leaves-if P P (root_failed plan.entries) _ _ (Leaves-raise P _) (Leaves-pure P plan)))
