-- ===== src/Planner/L2.antt =====
-- Plans for L2 transactions: `planL2Transaction`, `speculatePlanL2Transaction` and `planL2Batch` of
-- rollup1/builder/execution-planner.ts.
use sync_rollups.Prelude.{
  ℕ, false, JsString, codes, Option, none, List, [], ◌∷◌, map, if◌then◌else◌,
}
use sync_rollups.Outcome.Io.{Io, pure, raise, ◌>>=◌, ◌>>◌}
use sync_rollups.Types.{
  Action, ExecutionEntry, ExecutionPlan, create_l2tx_action, create_result_action,
}
use sync_rollups.Planner.{
  PlannerServices, PlannerConfig, SimulationResult, override_or, moves, first_new_state, succeed,
  simulate_action, speculate_action, l1_state,
}

module _ {W : Type 0} (s : PlannerServices W) (config : PlannerConfig) where
  -- The entry and the plan for one simulated transaction.
  unfoldable pub transaction_plan : Action → SimulationResult → JsString → JsString → ExecutionPlan
  transaction_plan a simulation old new = record {
    entries =
        record {
          state_deltas = moves config.rollup_id old new ∷ [];
          action_hash = s.hash_action a;
          next_action =
              create_result_action config.rollup_id simulation.next_action.payload
                simulation.next_action.failed;
        }
        ∷ [];
    root_action_hash = s.hash_action a;
    root_actions = a ∷ [];
    proof = [];
    preload_system_calls = none;
  }

  unfoldable pub plan_simulated : Action → JsString → SimulationResult → Io W ExecutionPlan
  plan_simulated a current simulation = do
    succeed simulation
    new ← first_new_state simulation.state_deltas
    pure (transaction_plan a simulation current new)

  unfoldable pub plan_l2_transaction : JsString → Option ℕ → Option JsString → Io W ExecutionPlan
  plan_l2_transaction rlp timestamp override = do
    state ← l1_state s
    simulation ← simulate_action s (create_l2tx_action config.rollup_id rlp) timestamp
    plan_simulated (create_l2tx_action config.rollup_id rlp) (override_or override state) simulation

  unfoldable pub speculate_plan_l2_transaction : JsString → Option ℕ → Io W ExecutionPlan
  speculate_plan_l2_transaction rlp timestamp = do
    state ← l1_state s
    simulation ← speculate_action s (create_l2tx_action config.rollup_id rlp) timestamp
    plan_simulated (create_l2tx_action config.rollup_id rlp) state simulation

  unfoldable pub batch_entry : JsString → JsString → JsString → ExecutionEntry
  batch_entry old new tx = record {
    state_deltas = moves config.rollup_id old new ∷ [];
    action_hash = s.hash_action (create_l2tx_action config.rollup_id tx);
    next_action = create_result_action config.rollup_id (codes "0x") false;
  }

  -- The first entry carries the transition, the others change nothing.
  unfoldable pub batch_entries : JsString → JsString → List JsString → List ExecutionEntry
  batch_entries old new [] = []
  batch_entries old new (tx ∷ txs) = batch_entry old new tx ∷ map (batch_entry new new) txs

  unfoldable pub first_hash : List ExecutionEntry → JsString
  first_hash [] = codes "0x0000000000000000000000000000000000000000000000000000000000000000"
  first_hash (e ∷ es) = e.action_hash

  unfoldable pub batch_plan : JsString → JsString → List JsString → ExecutionPlan
  batch_plan old new txs = record {
    entries = batch_entries old new txs;
    root_action_hash = first_hash (batch_entries old new txs);
    root_actions = map (create_l2tx_action config.rollup_id) txs;
    proof = [];
    preload_system_calls = none;
  }

  unfoldable pub plan_l2_batch : List JsString → Option ℕ → Io W ExecutionPlan
  plan_l2_batch signed_txs timestamp = do
    state ← l1_state s
    r ← s.simulate_batch signed_txs timestamp
    if r.success
        then pure (batch_plan state r.new_state signed_txs)
        else raise (codes "L2TX batch simulation failed")
