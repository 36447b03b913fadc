-- ===== src/Builder/Monitor/Submit.antt =====
-- `handleSubmit` of rollup1/builder/builder.ts: what it brings to L1, and that it answers.
use sync_rollups.Prelude.{ℕ, zero, suc, ◌-◌, ltb, true, false}
use sync_rollups.Outcome.Leaves.{Leaves, Keeps-bind, Leaves-pure, Leaves-catching, Leaves-if}
use sync_rollups.Builder.{BuilderConfig, BuilderServices, Site}
use sync_rollups.Builder.Bundle.Signing.{Carrying, IsSigner}
use sync_rollups.Builder.Submit.{
  SourceChain, on_l1, on_l2, SubmitRequest, is_tracked_state_synced, sync_loop, wait_until_synced,
  dispatch, handle_submit,
}
use sync_rollups.Builder.Monitor.{IsQuiet, Quiet}
use sync_rollups.Builder.Monitor.Steps.{cases-Quiet}
use sync_rollups.Builder.Monitor.Landing.{MayLand}
use sync_rollups.Builder.Monitor.L2.{process_l2_transaction-Leaves}
use sync_rollups.Builder.Monitor.L1.{MayLandCall, process_l1_transaction-Leaves}

module _ {W : Type 0} (s : BuilderServices (Site W)) (config : BuilderConfig) (carries : Carrying)
    (signer : IsSigner s carries) (P : Site W → Type 0) (q : IsQuiet s P) where
  synced-Quiet : Quiet s P (is_tracked_state_synced s)
  unfolding is_tracked_state_synced
  synced-Quiet =
      Keeps-bind P _ _ q.get_state_root
        (λ _. Keeps-bind P _ _ q.l1_state_root (λ _. Leaves-pure P _))

  sync_loop-Quiet : (rounds start : ℕ) → Quiet s P (sync_loop s rounds start)
  unfolding sync_loop
  sync_loop-Quiet zero start = Leaves-pure P false
  sync_loop-Quiet (suc rounds) start = Keeps-bind P _ _ q.now (λ time.
      cases-Quiet s P q (ltb (time - start) 10000) _ _
        (Keeps-bind P _ _ (q.sleep 200) (λ _. Keeps-bind P _ _ synced-Quiet (λ synced.
          cases-Quiet s P q synced _ _ (Leaves-pure P true) (sync_loop-Quiet rounds start))))
        (Leaves-pure P false))

  wait-Quiet : Quiet s P (wait_until_synced s)
  unfolding wait_until_synced
  wait-Quiet = Keeps-bind P _ _ synced-Quiet (λ synced.
      Leaves-if P P synced _ _ (Leaves-pure P true)
        (Keeps-bind P _ _ q.now (λ start. sync_loop-Quiet 50 start)))

  module _ (request : SubmitRequest) (may : MayLand s config carries signer P q request.signed_tx)
      (may_call : MayLandCall s config carries P request.signed_tx) where
    dispatch-Quiet : (chain : SourceChain) → Quiet s P (dispatch s config chain request)
    unfolding dispatch
    dispatch-Quiet on_l2 =
        process_l2_transaction-Leaves s config carries signer P q request.signed_tx may
    dispatch-Quiet on_l1 =
        process_l1_transaction-Leaves s config carries signer P q request.signed_tx may_call
          request.l2_target_address

    -- What a request to submit a transaction brings to L1 is what the processing of this transaction
    -- may bring there, on either chain: a property of the outside and the builder that survives this
    -- and everything else that is called still holds, whether the request succeeds, fails or throws.
    pub handle_submit-Leaves : Leaves P P (handle_submit s config request)
    unfolding handle_submit
    handle_submit-Leaves = Keeps-bind P _ _ wait-Quiet (λ synced.
        Leaves-if P P synced _ _
          (Leaves-catching P _ _ (dispatch-Quiet request.source_chain) (λ e. Leaves-pure P _))
          (Leaves-pure P _))
