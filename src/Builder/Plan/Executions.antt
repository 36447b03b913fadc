-- ===== src/Builder/Plan/Executions.antt =====
-- The plans of rollup1/builder/builder.ts account for the L2 transactions that its bundles execute.
use sync_rollups.Prelude.{
  Bool, not, ◌&&◌, ◌≡◌, refl, ap, JsString, ◌++◌, map, Option, none, some, List, [], ◌∷◌, ℕ, inl,
  inr, Option-cases, ◌∙◌,
}
use sync_rollups.Outcome.Rules.{
  Ends, Ends-bind, Ends-if, Ends-then, Ends-pure, Ends-raise, EndsFrom-pure, EndsFrom-given,
}
use sync_rollups.Types.{
  Action, l2tx, call, result, revert, revert_continue, ExecutionPlan, create_l2tx_action,
  create_result_action,
}
use sync_rollups.Proofer.Entry.{present}
use sync_rollups.Planner.{PlannerServices, PlannerConfig, SimulationResult}
use sync_rollups.Planner.L2.{
  transaction_plan, plan_simulated, plan_l2_transaction, speculate_plan_l2_transaction, batch_plan,
  plan_l2_batch,
}
use sync_rollups.Planner.CrossChain.{L2ToL1Call, plan_deploy, call_actions, plan_l2_to_l1_call}
use sync_rollups.Builder.{BuilderConfig, BuilderServices, ParsedTx, Site}
use sync_rollups.Builder.Bundle.{l2_txs}
use sync_rollups.Builder.Plan.{plan_withdrawal, plan_for}

-- The L2 transactions among the actions of a plan.
unfoldable pub executions_of : List Action → List JsString
executions_of [] = []
executions_of (a ∷ actions) =
    let rest = executions_of actions in
    elim a.action_type [
      | l2tx ↦ a.payload ∷ rest
      | call ↦ rest
      | result ↦ rest
      | revert ↦ rest
      | revert_continue ↦ rest
    ]

abbrev pub Executes : List JsString → ExecutionPlan → Type 0
Executes txs plan = executions_of plan.root_actions ≡ txs

module _ {W : Type 0} (s : PlannerServices W) (config : PlannerConfig) where
  plan_simulated-Executes :
      (rlp : JsString) (state : JsString) (simulation : SimulationResult)
      → Ends
          (λ plan _. Executes (rlp ∷ []) plan)
          (plan_simulated s config (create_l2tx_action config.rollup_id rlp) state simulation)
  unfolding plan_simulated transaction_plan executions_of create_l2tx_action
  plan_simulated-Executes rlp state simulation =
      Ends-bind _ _ _ (λ _. Ends-bind _ _ _ (λ new. Ends-pure _ _ (λ _. refl)))

  plan_l2_transaction-Executes :
      (rlp : JsString) (timestamp : Option ℕ) (override : Option JsString)
      → Ends
          (λ plan _. Executes (rlp ∷ []) plan)
          (plan_l2_transaction s config rlp timestamp override)
  unfolding plan_l2_transaction
  plan_l2_transaction-Executes rlp timestamp override =
      Ends-bind _ _ _
        (λ state. Ends-bind _ _ _ (λ simulation. plan_simulated-Executes rlp _ simulation))

  speculate-Executes :
      (rlp : JsString) (timestamp : Option ℕ)
      → Ends
          (λ plan _. Executes (rlp ∷ []) plan)
          (speculate_plan_l2_transaction s config rlp timestamp)
  unfolding speculate_plan_l2_transaction
  speculate-Executes rlp timestamp =
      Ends-bind _ _ _
        (λ state. Ends-bind _ _ _ (λ simulation. plan_simulated-Executes rlp state simulation))

  executions_of-batch :
      (txs : List JsString) → executions_of (map (create_l2tx_action config.rollup_id) txs) ≡ txs
  unfolding executions_of create_l2tx_action
  executions_of-batch [] = refl
  executions_of-batch (tx ∷ txs) = ap (λ l. tx ∷ l) (executions_of-batch txs)

  -- A plan for a batch accounts for exactly the given transactions, in their order.
  pub plan_l2_batch-Executes :
      (txs : List JsString) (timestamp : Option ℕ)
      → Ends (λ plan _. Executes txs plan) (plan_l2_batch s config txs timestamp)
  unfolding plan_l2_batch batch_plan
  plan_l2_batch-Executes txs timestamp = Ends-bind _ _ _ (λ state. Ends-bind _ _ _ (λ r.
      Ends-if _ r.success _ _ (λ _. Ends-pure _ _ (λ _. executions_of-batch txs))
        (λ _. Ends-raise _ _)))

  deploys : Option JsString → List JsString → List JsString
  deploys none txs = txs
  deploys (some tx) txs = tx ∷ txs

  deploys_user :
      (deploy : Option JsString) (c : L2ToL1Call) (answer : JsString × Bool)
      → deploys deploy (executions_of (call_actions s config c answer)) ≡ l2_txs deploy c.rlp
  unfolding deploys executions_of call_actions l2_txs create_l2tx_action create_result_action
  deploys_user none c answer = refl
  deploys_user (some tx) c answer = refl

  plan_deploy-Executes :
      (deploy : Option JsString) (timestamp : Option ℕ) (state : JsString)
      → Ends
          (λ r _.
            (more : List Action)
            → executions_of (r.1 ++ more) ≡ deploys deploy (executions_of more))
          (plan_deploy s config deploy timestamp state)
  unfolding plan_deploy executions_of deploys create_l2tx_action
  plan_deploy-Executes none timestamp state = Ends-pure _ _ (λ _ more. refl)
  plan_deploy-Executes (some tx) timestamp state =
      Ends-bind _ _ _
        (λ _. Ends-bind _ _ _ (λ _. Ends-bind _ _ _ (λ _. Ends-pure _ _ (λ _ more. refl))))

  plan_l2_to_l1_call-Executes :
      (c : L2ToL1Call) (timestamp : Option ℕ) (override deploy : Option JsString)
      → Ends
          (λ plan _. Executes (l2_txs (present deploy) c.rlp) plan)
          (plan_l2_to_l1_call s config c timestamp override deploy)
  unfolding plan_l2_to_l1_call
  plan_l2_to_l1_call-Executes c timestamp override deploy = Ends-bind _ _ _ (λ state.
      Ends-then _ _ _ _ (plan_deploy-Executes (present deploy) timestamp _) (λ before.
        EndsFrom-given _ _ _ (λ q. Ends-bind _ _ _ (λ answer. Ends-bind _ _ _ (λ _.
          Ends-bind _ _ _ (λ simulation. Ends-bind _ _ _ (λ _. Ends-pure _ _ (λ _.
            q (call_actions s config c answer) ∙ deploys_user (present deploy) c answer))))))))

module _ {W : Type 0} (s : BuilderServices (Site W)) (config : BuilderConfig) where
  plan_without-Executes :
      (tx : ParsedTx) (signed_tx : JsString) (chain sim_timestamp : ℕ)
      → Ends
          (λ planned _. Executes (l2_txs (present planned.1) signed_tx) planned.0)
          (plan_for s config tx signed_tx chain sim_timestamp none)
  unfolding plan_for present l2_txs
  plan_without-Executes tx signed_tx chain sim_timestamp = Ends-bind _ _ _ (λ anvil.
      Ends-then _ _ _ _
        (Ends-if _ (config.use_ecdsa_verifier && not anvil) _ _
          (λ _. speculate-Executes s.planner config.planner signed_tx (some sim_timestamp))
          (λ _.
            plan_l2_transaction-Executes s.planner config.planner signed_tx (some sim_timestamp)
              none))
        (λ plan. EndsFrom-pure _ _ _ (λ _ q. q)))

  plan_withdrawal-Executes :
      (tx : ParsedTx) (signed_tx : JsString) (chain sim_timestamp : ℕ) (hint : JsString × JsString)
      (from : JsString)
      → Ends
          (λ planned _. Executes (l2_txs (present planned.1) signed_tx) planned.0)
          (plan_withdrawal s config tx signed_tx chain sim_timestamp hint from)
  unfolding plan_withdrawal
  plan_withdrawal-Executes tx signed_tx chain sim_timestamp (proxy, target) from =
      Ends-bind _ _ _ (λ deploy. Ends-bind _ _ _ (λ source.
        Ends-then _ _ _ _
          (plan_l2_to_l1_call-Executes s.planner config.planner _ (some sim_timestamp) none deploy)
          (λ plan. EndsFrom-pure _ _ _ (λ _ q. q))))

  -- The plan for an L2 transaction accounts for the deployment that is signed with it, if there is
  -- one, and then for the transaction, and for no other L2 transaction.
  pub plan_for-Executes :
      (tx : ParsedTx) (signed_tx : JsString) (chain sim_timestamp : ℕ)
      (hint : Option (JsString × JsString))
      → Ends
          (λ planned _. Executes (l2_txs (present planned.1) signed_tx) planned.0)
          (plan_for s config tx signed_tx chain sim_timestamp hint)
  unfolding plan_for
  plan_for-Executes tx signed_tx chain sim_timestamp none =
      plan_without-Executes tx signed_tx chain sim_timestamp
  plan_for-Executes tx signed_tx chain sim_timestamp (some hint) =
      elim (Option-cases (present tx.from)) [
        | inl e ↦ rw (e, plan_for) (Ends-raise _ _)
        | inr (from, e) ↦
            rw (e, plan_for) (plan_withdrawal-Executes tx signed_tx chain sim_timestamp hint from)
      ]
