-- ===== src/Builder/Monitor/Plans.antt =====
-- The plans of rollup1/builder/execution-planner.ts bring nothing to L1.
use sync_rollups.Prelude.{
  ℕ, str_eq, Bool, false, not, ◌&&◌, JsString, codes, Option, none, some, Option-cases, inl, inr,
  List, [], ◌∷◌,
}
use sync_rollups.Prelude.Int.{ℤ}
use sync_rollups.Outcome.{ok}
use sync_rollups.EventProcessor.Replay.{call_result}
use sync_rollups.Outcome.Io.{Io, pure}
use sync_rollups.Outcome.Leaves.{
  Keeps-bind, Leaves-pure, Leaves-raise, Leaves-lift, Leaves-if, Leaves-catching,
}
use sync_rollups.Types.{Action, StateDelta}
use sync_rollups.Proofer.{L1Call, SimulationJson}
use sync_rollups.Proofer.Entry.{present}
use sync_rollups.Planner.{
  SimulationResult, first_new_state, read_simulation, succeed, simulate_action, speculate_action,
  l1_state,
}
use sync_rollups.Planner.L2.{
  plan_simulated, plan_l2_transaction, speculate_plan_l2_transaction, plan_l2_batch,
}
use sync_rollups.Planner.CrossChain.{
  L2ToL1Call, is_plain_transfer, plan_deploy, simulate_l1_call, plan_l2_to_l1_call,
  simulate_l1_to_l2_call, plan_l1_to_l2_call_with_proxy,
}
use sync_rollups.Builder.{BuilderConfig, BuilderServices, ParsedTx, Site}
use sync_rollups.Builder.Plan.{plan_withdrawal, plan_for}
use sync_rollups.Builder.Monitor.{IsQuiet, Quiet}
use sync_rollups.Builder.Monitor.Steps.{own-Quiet, proxy_deploy-Quiet}

module _ {W : Type 0} (s : BuilderServices (Site W)) (P : Site W → Type 0) (q : IsQuiet s P) where
  first_new_state-Quiet : (l : List StateDelta) → Quiet s P (first_new_state l)
  unfolding first_new_state
  first_new_state-Quiet [] = Leaves-raise P _
  first_new_state-Quiet (d ∷ ds) = Leaves-pure P _

  read_simulation-Quiet : (r : SimulationJson) → Quiet s P (read_simulation r)
  unfolding read_simulation
  read_simulation-Quiet r =
      Keeps-bind P _ _ (Leaves-lift P _)
        (λ _. Keeps-bind P _ _ (Leaves-lift P _) (λ _. Leaves-pure P _))

  succeed-Quiet : (r : SimulationResult) → Quiet s P (succeed r)
  unfolding succeed
  succeed-Quiet r = Leaves-if P P r.success _ _ (Leaves-pure P tt) (Leaves-raise P _)

  simulate_action-Quiet : (a : Action) (t : Option ℕ) → Quiet s P (simulate_action s.planner a t)
  unfolding simulate_action
  simulate_action-Quiet a t = Keeps-bind P _ _ (q.simulate_action _ t) read_simulation-Quiet

  speculate_action-Quiet : (a : Action) (t : Option ℕ) → Quiet s P (speculate_action s.planner a t)
  unfolding speculate_action
  speculate_action-Quiet a t = Keeps-bind P _ _ (q.speculate_action _ t) read_simulation-Quiet

  l1_state-Quiet : Quiet s P (l1_state s.planner)
  unfolding l1_state
  l1_state-Quiet = Keeps-bind P _ _ q.get_actual_state_root (λ _. q.l1_state_root)

  module _ (config : BuilderConfig) where
    plan_simulated-Quiet :
        (a : Action) (current : JsString) (r : SimulationResult)
        → Quiet s P (plan_simulated s.planner config.planner a current r)
    unfolding plan_simulated
    plan_simulated-Quiet a current r =
        Keeps-bind P _ _ (succeed-Quiet r)
          (λ _. Keeps-bind P _ _ (first_new_state-Quiet r.state_deltas) (λ _. Leaves-pure P _))

    plan_l2_transaction-Quiet :
        (rlp : JsString) (t : Option ℕ) (override : Option JsString)
        → Quiet s P (plan_l2_transaction s.planner config.planner rlp t override)
    unfolding plan_l2_transaction
    plan_l2_transaction-Quiet rlp t override =
        Keeps-bind P _ _ l1_state-Quiet
          (λ state. Keeps-bind P _ _ (simulate_action-Quiet _ t) (λ r. plan_simulated-Quiet _ _ r))

    speculate-Quiet :
        (rlp : JsString) (t : Option ℕ)
        → Quiet s P (speculate_plan_l2_transaction s.planner config.planner rlp t)
    unfolding speculate_plan_l2_transaction
    speculate-Quiet rlp t = Keeps-bind P _ _ l1_state-Quiet (λ state.
        Keeps-bind P _ _ (speculate_action-Quiet _ t) (λ r. plan_simulated-Quiet _ state r))

    pub plan_l2_batch-Quiet :
        (txs : List JsString) (t : Option ℕ)
        → Quiet s P (plan_l2_batch s.planner config.planner txs t)
    unfolding plan_l2_batch
    plan_l2_batch-Quiet txs t = Keeps-bind P _ _ l1_state-Quiet (λ state.
        Keeps-bind P _ _ (q.simulate_batch txs t)
          (λ r. Leaves-if P P r.success _ _ (Leaves-pure P _) (Leaves-raise P _)))

    plan_deploy-Quiet :
        (deploy : Option JsString) (t : Option ℕ) (state : JsString)
        → Quiet s P (plan_deploy s.planner config.planner deploy t state)
    unfolding plan_deploy
    plan_deploy-Quiet none t state = Leaves-pure P _
    plan_deploy-Quiet (some tx) t state = Keeps-bind P _ _ (simulate_action-Quiet _ t) (λ r.
        Keeps-bind P _ _ (succeed-Quiet r)
          (λ _. Keeps-bind P _ _ (first_new_state-Quiet r.state_deltas) (λ _. Leaves-pure P _)))

    answer_of : L2ToL1Call → Io (Site W) (JsString × Bool)
    answer_of c w =
        let (answer, w') =
          s.planner.l1_call c.source_proxy_on_l1 c.l1_target c.call_data c.call_value w in
        (ok (call_result answer), w')

    simulate_l1_call-Quiet :
        (c : L2ToL1Call) → Quiet s P (simulate_l1_call s.planner config.planner c)
    unfolding simulate_l1_call answer_of
    simulate_l1_call-Quiet c = Keeps-bind P _ _ (q.l1_code_at c.l1_target) (λ code.
        Leaves-if P P (is_plain_transfer c.call_data && str_eq code (codes "0x"))
          (pure (codes "0x", false)) (answer_of c) (Leaves-pure P _)
          (record {
            leaves = λ w p. q.l1_call c.source_proxy_on_l1 c.l1_target c.call_data c.call_value w p;
          }))

    plan_l2_to_l1_call-Quiet :
        (c : L2ToL1Call) (t : Option ℕ) (override deploy : Option JsString)
        → Quiet s P (plan_l2_to_l1_call s.planner config.planner c t override deploy)
    unfolding plan_l2_to_l1_call
    plan_l2_to_l1_call-Quiet c t override deploy = Keeps-bind P _ _ l1_state-Quiet (λ state.
        Keeps-bind P _ _ (plan_deploy-Quiet (present deploy) t _) (λ before.
          Keeps-bind P _ _ (simulate_l1_call-Quiet c) (λ answer.
            Keeps-bind P _ _ (q.system_call _ _ t) (λ _.
              Keeps-bind P _ _ (simulate_action-Quiet _ _)
                (λ r. Keeps-bind P _ _ (succeed-Quiet r) (λ _. Leaves-pure P _))))))

    plan_withdrawal-Quiet :
        (tx : ParsedTx) (signed_tx : JsString) (chain t : ℕ) (hint : JsString × JsString)
        (from : JsString)
        → Quiet s P (plan_withdrawal s config tx signed_tx chain t hint from)
    unfolding plan_withdrawal
    plan_withdrawal-Quiet tx signed_tx chain t (proxy, target) from =
        Keeps-bind P _ _ (proxy_deploy-Quiet s P q config proxy target) (λ deploy.
          Keeps-bind P _ _ (q.proxy_address from config.planner.rollup_id chain) (λ source.
            Keeps-bind P _ _ (plan_l2_to_l1_call-Quiet _ (some t) none deploy)
              (λ _. Leaves-pure P _)))

    pub plan_for-Quiet :
        (tx : ParsedTx) (signed_tx : JsString) (chain t : ℕ) (hint : Option (JsString × JsString))
        → Quiet s P (plan_for s config tx signed_tx chain t hint)
    unfolding plan_for
    plan_for-Quiet tx signed_tx chain t none = Keeps-bind P _ _ (own-Quiet s P q _) (λ anvil.
        Keeps-bind P _ _
          (Leaves-if P P (config.use_ecdsa_verifier && not anvil) _ _
            (speculate-Quiet signed_tx (some t))
            (plan_l2_transaction-Quiet signed_tx (some t) none))
          (λ _. Leaves-pure P _))
    plan_for-Quiet tx signed_tx chain t (some hint) = elim (Option-cases (present tx.from)) [
      | inl e ↦ rw (e, plan_for) (Leaves-raise P _)
      | inr (from, e) ↦ rw (e, plan_for) (plan_withdrawal-Quiet tx signed_tx chain t hint from)
    ]

    pub call_plan-Quiet :
        (c : L1Call) (t : Option ℕ) (override : Option JsString) (rollup_id : Option ℤ)
        → Quiet s P (plan_l1_to_l2_call_with_proxy s.planner config.planner c t override rollup_id)
    unfolding plan_l1_to_l2_call_with_proxy simulate_l1_to_l2_call
    call_plan-Quiet c t override rollup_id = Keeps-bind P _ _ l1_state-Quiet (λ state.
        Keeps-bind P _ _
          (Leaves-catching P _ _
            (Keeps-bind P _ _ (q.simulate_l1_call c t)
              (λ r. Keeps-bind P _ _ (Leaves-lift P _) (λ deltas. Leaves-pure P _)))
            (λ _. Leaves-pure P _))
          (λ reply. Leaves-pure P _))
