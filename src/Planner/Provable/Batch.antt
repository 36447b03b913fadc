-- ===== src/Planner/Provable/Batch.antt =====
-- A batch that rollup1/builder/execution-planner.ts plans passes all checks of the proofer that do
-- not depend on how its node runs the transactions.
use sync_rollups.Prelude.{
  ℕ, suc, ◌≡◌, refl, ap, true, JsString, str_eq_refl, is_truthy, Option, none, some, List, [], ◌∷◌,
  map,
}
use sync_rollups.Outcome.{ok}
use sync_rollups.Outcome.Rules.{Ends, Ends-then, Ends-pure, Ends-raise, Ends-if, EndsFrom-given}
use sync_rollups.Types.{ExecutionEntry, ExecutionPlan, create_l2tx_action}
use sync_rollups.Proofer.{BatchResult}
use sync_rollups.Proofer.Entry.{present, claims, check_batch}
use sync_rollups.Proofer.Entry.Soundness.{Answered, Ends-Answered}
use sync_rollups.Proofer.Prove.{first_state, required_state}
use sync_rollups.Planner.{PlannerServices, PlannerConfig, moves, l1_state}
use sync_rollups.Planner.L2.{batch_entry, batch_entries, batch_plan, plan_l2_batch, first_hash}
use sync_rollups.Planner.Provable.{
  Chained, IsProvable, after, batch_hashes, batch-Chained, length-map,
}

-- The state after entries that are executed from a state.
abbrev pub state_after : JsString → List ExecutionEntry → JsString
state_after state [] = state
state_after state (e ∷ es) = state_after (after state e.state_deltas) es

module _ {W : Type 0} (s : PlannerServices W) (config : PlannerConfig) where
  -- A plan for these transactions, in this order: one root action and one entry for each. It starts
  -- from the state that L1 answers and ends at the state that the fullnode answers for the batch,
  -- and the proofer finds nothing wrong with it if its own node answers the same.
  pub record IsBatchPlan (txs : List JsString) (timestamp : Option ℕ) (plan : ExecutionPlan)
      : Type 0 where
    pub provable : IsProvable s.hash_action plan
    pub actions : plan.root_actions ≡ map (create_l2tx_action config.rollup_id) txs
    pub state : JsString
    pub on_l1 : Answered (l1_state s) state
    pub required : is_truthy state ≡ true → required_state plan.entries ≡ some state
    pub chained : Chained state plan.entries
    pub result : BatchResult
    pub simulated : Answered (s.simulate_batch txs timestamp) result
    pub success : result.success ≡ true
    pub reached : state_after state plan.entries ≡ result.new_state
    pub checked : check_batch plan.entries result ≡ ok none

  batch-state_after :
      (new : JsString) (txs : List JsString)
      → state_after new (map (batch_entry s config new new) txs) ≡ new
  unfolding batch_entry moves
  batch-state_after new [] = refl
  batch-state_after new (tx ∷ txs) = batch-state_after new txs

  batch_plan-IsBatchPlan :
      (state tx : JsString) (txs : List JsString) (timestamp : Option ℕ) (r : BatchResult)
      → Answered (l1_state s) state
      → Answered (s.simulate_batch (tx ∷ txs) timestamp) r
      → r.success ≡ true
      → IsBatchPlan (tx ∷ txs) timestamp (batch_plan s config state r.new_state (tx ∷ txs))
  unfolding batch_plan batch_entries batch_entry first_hash moves required_state first_state
      check_batch claims present
  batch_plan-IsBatchPlan state tx txs timestamp r q a good = record {
    provable = record {
      same_length = ap suc (
          length-map s config (batch_entry s config r.new_state r.new_state)
            (create_l2tx_action config.rollup_id) txs);
      hashes = (refl, batch_hashes s config r.new_state r.new_state txs);
      root = refl;
    };
    actions = refl;
    state = state;
    on_l1 = q;
    required = λ t. rw t refl;
    chained = (refl, batch-Chained s config r.new_state txs);
    result = r;
    simulated = a;
    success = good;
    reached = batch-state_after r.new_state txs;
    checked = rw (good, str_eq_refl r.new_state) refl;
  }

  -- If planning a batch of at least one transaction does not throw, the plan has one entry and one
  -- root action for each transaction, in order, with the hash of the action in the entry. Its
  -- entries lead from the state that L1 answers, which the proofer is asked to start from unless it
  -- is the empty text, to the
  -- state that the fullnode answers for the whole batch; and the batch check of the proofer passes
  -- if its own node answers the same.
  pub plan_l2_batch-Ends :
      (tx : JsString) (txs : List JsString) (timestamp : Option ℕ)
      → Ends
          (λ plan _. IsBatchPlan (tx ∷ txs) timestamp plan)
          (plan_l2_batch s config (tx ∷ txs) timestamp)
  unfolding plan_l2_batch
  plan_l2_batch-Ends tx txs timestamp = Ends-then _ _ _ _ (Ends-Answered (l1_state s)) (λ state.
      EndsFrom-given _ _ _ (λ q.
        Ends-then _ _ _ _ (Ends-Answered (s.simulate_batch (tx ∷ txs) timestamp)) (λ r.
          EndsFrom-given _ _ _ (λ a.
            Ends-if _ r.success _ _
              (λ good.
                Ends-pure _ _ (λ _. batch_plan-IsBatchPlan state tx txs timestamp r q a good))
              (λ _. Ends-raise _ _)))))
