-- ===== src/Planner/Provable.antt =====
-- The plans of rollup1/builder/execution-planner.ts have the form that the proofer asks for.
pub mod Calls
pub mod Batch
use sync_rollups.Prelude.{
  ℕ, suc, Bool, ◌≡◌, refl, ap, Bool-cases, inl, inr, JsString, Option, none, some, List, [], ◌∷◌,
  ◌++◌, map, length,
}
use sync_rollups.Prelude.Int.{ℤ, pos, ltb_ℤ}
use sync_rollups.Outcome.Rules.{
  Ends, Ends-bind, Ends-then, Ends-pure, Ends-raise, Ends-if, EndsFrom-given,
}
use sync_rollups.Types.{Action, StateDelta, ExecutionEntry, ExecutionPlan, create_l2tx_action}
use sync_rollups.Proofer.{L1Call}
use sync_rollups.Proofer.Entry.{present}
use sync_rollups.Proofer.Entry.Soundness.{Answered, Ends-Answered}
use sync_rollups.Proofer.Prove.Checks.{HashesMatch}
use sync_rollups.Planner.{
  PlannerServices, PlannerConfig, SimulationResult, override_or, moves, l1_state,
}
use sync_rollups.Planner.L2.{
  transaction_plan, plan_simulated, plan_l2_transaction, speculate_plan_l2_transaction, batch_entry,
  batch_entries, batch_plan, plan_l2_batch, first_hash,
}
use sync_rollups.Planner.CrossChain.{
  preload_data, L2ToL1Call, plan_deploy, call_entries, call_actions, continuation_deltas,
  hash_of_first, plan_l2_to_l1_call, call_plan, plan_l1_to_l2_call_with_proxy, post_l2_state,
}

abbrev pub StartsAt : JsString → List StateDelta → Type 0
StartsAt state [] = Unit
StartsAt state (d ∷ ds) = d.current_state ≡ state

abbrev pub after : JsString → List StateDelta → JsString
after state [] = state
after state (d ∷ ds) = d.new_state

-- Each entry starts from the state that the one before it ends at.
abbrev pub Chained : JsString → List ExecutionEntry → Type 0
Chained state [] = Unit
Chained state (e ∷ es) = StartsAt state e.state_deltas × Chained (after state e.state_deltas) es

abbrev pub IsHashOfFirst : (Action → JsString) → List Action → JsString → Type 0
IsHashOfFirst hash [] h = Unit
IsHashOfFirst hash (a ∷ actions) h = h ≡ hash a

-- The proofer's checks of the shape and the hashes of a request.
pub record IsProvable (hash : Action → JsString) (plan : ExecutionPlan) : Type 0 where
  pub same_length : length plan.entries ≡ length plan.root_actions
  pub hashes : HashesMatch hash plan.entries plan.root_actions
  pub root : IsHashOfFirst hash plan.root_actions plan.root_action_hash

module _ {W : Type 0} (s : PlannerServices W) (config : PlannerConfig) where
  -- A plan that also starts from the state that L1 answers, or from the given one, and whose
  -- entries follow each other.
  abbrev pub IsL2Plan : Option JsString → ExecutionPlan → Type 0
  IsL2Plan override plan =
      IsProvable s.hash_action plan
      × (state : JsString) × Answered (l1_state s) state
      × Chained (override_or override state) plan.entries

  plan_simulated-Ends :
      (a : Action) (override : Option JsString) (state : JsString) (simulation : SimulationResult)
      → Answered (l1_state s) state
      → Ends
          (λ plan _. IsL2Plan override plan)
          (plan_simulated s config a (override_or override state) simulation)
  unfolding plan_simulated transaction_plan moves
  plan_simulated-Ends a override state simulation q = Ends-bind _ _ _ (λ _. Ends-bind _ _ _ (λ new.
      Ends-pure _ _ (λ _.
        (record { same_length = refl; hashes = (refl, tt); root = refl }, state, q, (refl, tt)))))

  -- A plan for an L2 transaction passes the proofer's checks of shape and hashes, and its entry
  -- starts from the state on L1, or from the state given in its place.
  pub plan_l2_transaction-Ends :
      (rlp : JsString) (timestamp : Option ℕ) (override : Option JsString)
      → Ends
          (λ plan _. IsL2Plan override plan)
          (plan_l2_transaction s config rlp timestamp override)
  unfolding plan_l2_transaction
  plan_l2_transaction-Ends rlp timestamp override =
      Ends-then _ _ _ _ (Ends-Answered (l1_state s)) (λ state. EndsFrom-given _ _ _ (λ q.
        Ends-bind _ _ _ (λ simulation.
          plan_simulated-Ends (create_l2tx_action config.rollup_id rlp) override state simulation
            q)))

  -- A speculative plan for an L2 transaction passes the proofer's checks of shape and hashes too, and
  -- its entry starts from the state on L1.
  pub speculate_plan_l2_transaction-Ends :
      (rlp : JsString) (timestamp : Option ℕ)
      → Ends (λ plan _. IsL2Plan none plan) (speculate_plan_l2_transaction s config rlp timestamp)
  unfolding speculate_plan_l2_transaction override_or
  speculate_plan_l2_transaction-Ends rlp timestamp =
      Ends-then _ _ _ _ (Ends-Answered (l1_state s)) (λ state. EndsFrom-given _ _ _ (λ q.
        Ends-bind _ _ _ (λ simulation.
          plan_simulated-Ends (create_l2tx_action config.rollup_id rlp) none state simulation q)))

  pub batch_hashes :
      (old new : JsString) (txs : List JsString)
      → HashesMatch s.hash_action
          (map (batch_entry s config old new) txs)
          (map (create_l2tx_action config.rollup_id) txs)
  unfolding batch_entry
  batch_hashes old new [] = tt
  batch_hashes old new (tx ∷ txs) = (refl, batch_hashes old new txs)

  pub batch-Chained :
      (new : JsString) (txs : List JsString) → Chained new (map (batch_entry s config new new) txs)
  unfolding batch_entry moves
  batch-Chained new [] = tt
  batch-Chained new (tx ∷ txs) = (refl, batch-Chained new txs)

  pub length-map :
      (f : JsString → ExecutionEntry) (g : JsString → Action) (txs : List JsString)
      → length (map f txs) ≡ length (map g txs)
  length-map f g [] = refl
  length-map f g (tx ∷ txs) = ap suc (length-map f g txs)
