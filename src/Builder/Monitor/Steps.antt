-- ===== src/Builder/Monitor/Steps.antt =====
-- The parts of rollup1/builder/builder.ts that bring nothing to L1.
use sync_rollups.Prelude.{
  ℕ, zero, suc, ◌-◌, ltb, Bool, true, false, ◌||◌, JsString, codes, str_eq, Option, none, some,
  List, [], ◌∷◌, ◌==◌,
}
use sync_rollups.Prelude.Int.{ℤ, pos}
use sync_rollups.Outcome.Io.{Io, pure}
use sync_rollups.Outcome.Leaves.{
  Keeps-bind, Leaves-pure, Leaves-raise, Leaves-lift, Leaves-catching, Leaves-if,
}
use sync_rollups.Types.{ExecutionEntry, ExecutionPlan}
use sync_rollups.Builder.{
  Builder, BuilderConfig, BuilderServices, ContractCall, Overrides, Site, own, assign,
}
use sync_rollups.Builder.Chain.{
  slot_duration, slot_wait, or_zero, choose_sim_timestamp, wait_for_next_slot,
  correct_timestamp_if_needed, verify_timestamp,
}
use sync_rollups.Builder.Proof.{ProofTerms, proofer_loop, wait_for_proofer_sync, request_proof}
use sync_rollups.Builder.Bundle.{
  Fees, PricedCall, with_nonce, sign_contract_tx, sign_all, alias_calls, sign_l2_bundle,
}
use sync_rollups.Builder.Plan.{
  match_loop, align_evm, take_snapshot, sign_proxy_deploy, proxy_deploy,
}
use sync_rollups.Builder.Monitor.{IsQuiet, Quiet}

module _ {W : Type 0} (s : BuilderServices (Site W)) (P : Site W → Type 0) (q : IsQuiet s P) where
  pub cases-Quiet :
      {A : Type 0} (b : Bool) (m n : Io (Site W) A)
      → Quiet s P m
      → Quiet s P n
      → Quiet s P (elim b as (λ _. Io (Site W) A) [ true ↦ m | false ↦ n ])
  cases-Quiet true m n h k = h
  cases-Quiet false m n h k = k

  pub own-Quiet : {A : Type 0} (f : Builder → A) → Quiet s P (own f)
  unfolding own
  own-Quiet f = record { leaves = λ w p. p }

  pub assign-Quiet : (f : Builder → Builder) → Quiet s P (assign f)
  unfolding assign
  assign-Quiet f = record { leaves = λ w p. q.assigns f w p }

  nothing : Quiet s P (pure tt)
  nothing = Leaves-pure P tt

  pub choose_sim_timestamp-Quiet : Quiet s P (choose_sim_timestamp s)
  unfolding choose_sim_timestamp
  choose_sim_timestamp-Quiet = Keeps-bind P _ _ q.l1_latest_timestamp (λ _.
      Keeps-bind P _ _ (own-Quiet _) (λ anvil.
        Leaves-if P P anvil _ _ (Keeps-bind P _ _ q.now (λ _. Leaves-pure P _))
          (Keeps-bind P _ _ (own-Quiet _) (λ _. Leaves-pure P _))))

  pub wait_for_next_slot-Quiet : Quiet s P (wait_for_next_slot s)
  unfolding wait_for_next_slot
  wait_for_next_slot-Quiet = Keeps-bind P _ _ q.l1_latest_timestamp (λ latest.
      Keeps-bind P _ _ q.now (λ now. Keeps-bind P _ _ (own-Quiet _) (λ chain.
        Keeps-bind P _ _
          (Leaves-if P P (slot_wait (or_zero latest) (slot_duration chain) now == 0) _ _ nothing
            (q.sleep _))
          (λ _. Keeps-bind P _ _ q.l1_latest_timestamp (λ _. Leaves-pure P _)))))

  pub correct_timestamp-Quiet : (n : ℕ) → Quiet s P (correct_timestamp_if_needed s n)
  unfolding correct_timestamp_if_needed
  correct_timestamp-Quiet n =
      Keeps-bind P _ _ (own-Quiet _)
        (λ anvil. Leaves-if P P anvil _ _ nothing (Keeps-bind P _ _ (q.l1_block n) (λ _. nothing)))

  pub verify_timestamp-Quiet : (n t : ℕ) → Quiet s P (verify_timestamp s n t)
  unfolding verify_timestamp
  verify_timestamp-Quiet n t =
      Keeps-bind P _ _ (q.l1_block n)
        (λ head. Leaves-if P P _ _ _ nothing (correct_timestamp-Quiet n))

  proofer_loop-Quiet : (rounds start : ℕ) → Quiet s P (proofer_loop s rounds start)
  unfolding proofer_loop
  proofer_loop-Quiet zero start = nothing
  proofer_loop-Quiet (suc rounds) start = Keeps-bind P _ _ q.now (λ time.
      cases-Quiet (ltb (time - start) 120000) _ _
        (Keeps-bind P _ _ (Leaves-catching P _ _ q.proofer_is_synced (λ _. Leaves-pure P false))
          (λ synced.
            cases-Quiet synced _ _ nothing
              (Keeps-bind P _ _ (q.sleep 3000) (λ _. proofer_loop-Quiet rounds start))))
        nothing)

  pub request_proof-Quiet :
      (plan : ExecutionPlan) (terms : ProofTerms) → Quiet s P (request_proof s plan terms)
  unfolding request_proof wait_for_proofer_sync
  request_proof-Quiet plan terms =
      Keeps-bind P _ _
        (Keeps-bind P _ _ (own-Quiet _) (λ anvil.
          Leaves-if P P anvil _ _ nothing
            (Keeps-bind P _ _ q.now (λ start. proofer_loop-Quiet 40 start))))
        (λ _.
          Keeps-bind P _ _ (q.prove _)
            (λ reply. Leaves-if P P reply.success _ _ (Leaves-pure P _) (Leaves-raise P _)))

  pub sign_contract_tx-Quiet :
      (call : ContractCall) (o : Overrides) → Quiet s P (sign_contract_tx s call o)
  unfolding sign_contract_tx
  sign_contract_tx-Quiet call o =
      Keeps-bind P _ _ (q.populate_transaction call o)
        (λ _. Keeps-bind P _ _ (own-Quiet _) (λ _. q.sign_transaction _))

  pub sign_all-Quiet : (nonce : ℕ) (calls : List PricedCall) → Quiet s P (sign_all s nonce calls)
  unfolding sign_all
  sign_all-Quiet nonce [] = Leaves-pure P []
  sign_all-Quiet nonce (c ∷ calls) =
      Keeps-bind P _ _ (sign_contract_tx-Quiet c.call (with_nonce c nonce))
        (λ _. Keeps-bind P _ _ (sign_all-Quiet (suc nonce) calls) (λ _. Leaves-pure P _))

  alias_calls-Quiet :
      (fees : Fees) (chain : ℕ) (target : Option JsString)
      → Quiet s P (alias_calls s fees chain target)
  unfolding alias_calls
  alias_calls-Quiet fees chain none = Leaves-pure P []
  alias_calls-Quiet fees chain (some t) =
      Keeps-bind P _ _ (q.proxy_address t (pos chain) chain)
        (λ alias. Keeps-bind P _ _ (q.l1_code alias) (λ _. Leaves-pure P _))

  pub sign_l2_bundle-Quiet :
      (fees : Fees) (rollup_id : ℤ) (chain : ℕ) (target : Option JsString)
      (entries : List ExecutionEntry) (proof : JsString) (txs : List JsString) (nonce : ℕ)
      → Quiet s P (sign_l2_bundle s fees rollup_id chain target entries proof txs nonce)
  unfolding sign_l2_bundle
  sign_l2_bundle-Quiet fees rollup_id chain target entries proof txs nonce =
      Keeps-bind P _ _ (alias_calls-Quiet fees chain target)
        (λ alias. Keeps-bind P _ _ (own-Quiet _) (λ b. sign_all-Quiet nonce _))

  match_loop-Quiet : (rounds : ℕ) (tracked : JsString) → Quiet s P (match_loop s rounds tracked)
  unfolding match_loop
  match_loop-Quiet zero tracked = nothing
  match_loop-Quiet (suc rounds) tracked = Keeps-bind P _ _ (q.sleep 2000) (λ _.
      Keeps-bind P _ _
        (Leaves-catching P _ _
          (Keeps-bind P _ _ q.get_actual_state_root (λ evm.
            cases-Quiet (str_eq evm tracked) _ _ (Leaves-pure P true)
              (Keeps-bind P _ _ q.get_state_root (λ _. Leaves-pure P _))))
          (λ _. Leaves-pure P false))
        (λ matches. cases-Quiet matches _ _ nothing (match_loop-Quiet rounds tracked)))

  pub align_evm-Quiet : Quiet s P (align_evm s)
  unfolding align_evm
  align_evm-Quiet = Keeps-bind P _ _ (own-Quiet _) (λ anvil. Leaves-if P P anvil _ _ nothing (
      Keeps-bind P _ _ q.get_actual_state_root (λ evm. Keeps-bind P _ _ q.get_state_root (λ tracked.
        Leaves-if P P (str_eq evm tracked) _ _ nothing (
          Keeps-bind P _ _ q.tracked_l2_block (λ block.
            Keeps-bind P _ _ (Leaves-catching P _ _ (q.revert_to_snapshot _) (λ _. nothing))
              (λ _. match_loop-Quiet 60 tracked)))))))

  pub take_snapshot-Quiet : Quiet s P (take_snapshot s)
  unfolding take_snapshot
  take_snapshot-Quiet = Keeps-bind P _ _ (own-Quiet _) (λ anvil.
      Leaves-if P P anvil _ _ (Leaves-pure P none)
        (Keeps-bind P _ _ q.l2_block_number (λ _. Leaves-pure P _)))

  module _ (config : BuilderConfig) where
    sign_proxy_deploy-Quiet : (target : JsString) → Quiet s P (sign_proxy_deploy s config target)
    unfolding sign_proxy_deploy
    sign_proxy_deploy-Quiet target =
        Keeps-bind P _ _ (q.l2_transaction_count config.builder_address) (λ nonce.
          Keeps-bind P _ _ q.l2_latest_block (λ parent.
            Keeps-bind P _ _ (Leaves-lift P _)
              (λ fee. Keeps-bind P _ _ (own-Quiet _) (λ chain. q.sign_l2_deploy _))))

    pub proxy_deploy-Quiet :
        (proxy target : JsString) → Quiet s P (proxy_deploy s config proxy target)
    unfolding proxy_deploy
    proxy_deploy-Quiet proxy target = Keeps-bind P _ _ (q.l2_code proxy) (λ code.
        Leaves-if P P (str_eq code (codes "0x") || str_eq code (codes "0x0")) _ _
          (Keeps-bind P _ _ (sign_proxy_deploy-Quiet target) (λ _. Leaves-pure P _))
          (Leaves-pure P none))
