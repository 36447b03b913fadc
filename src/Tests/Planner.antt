-- ===== src/Tests/Planner.antt =====
-- rollup1/builder/execution-planner.ts at concrete inputs.
use sync_rollups.Prelude.{ℕ, suc, true, false, codes, some, [], ◌∷◌}
use sync_rollups.Prelude.Int.{pos}
use sync_rollups.Outcome.{ok}
use sync_rollups.Outcome.Rules.{Ends}
use sync_rollups.Types.{Action, create_l2tx_action}
use sync_rollups.EventProcessor.Services.{returned}
use sync_rollups.Planner.{PlannerServices, PlannerConfig}
use sync_rollups.Planner.L2.{plan_l2_batch}
use sync_rollups.Planner.CrossChain.{L2ToL1Call}
use sync_rollups.Planner.Provable.Batch.{IsBatchPlan, plan_l2_batch-Ends}
use sync_rollups.Tests.Proofer.{simulated}

abbrev toy_planner : PlannerServices ℕ
toy_planner = record {
  get_state_root = λ w. (ok (codes "a"), w);
  get_actual_state_root = λ w. (ok (codes "a"), w);
  l1_state_root = λ w. (ok (codes "a"), w);
  simulate_action = λ a t w. (ok (simulated true), suc w);
  speculate_action = λ a t w. (ok (simulated true), w);
  simulate_batch = λ l t w. (ok (record { success = true; new_state = codes "b" }), suc w);
  simulate_l1_call = λ c t w. (
    ok (record {
      return_data = codes "0x01";
      failed = false;
      state_deltas = [];
      new_state = codes "b";
    }),
    suc w,
  );
  system_call = λ a d t w. (ok tt, suc w);
  l1_code = λ a w. (ok (codes "0x"), w);
  l1_call = λ p a d v w. (returned (codes "0x"), w);
  hash_action = λ a. a.payload;
  hash_states = λ a h. a;
  encode_load_execution_table = λ l. codes "load";
}

abbrev config : PlannerConfig
config = record { rollup_id = pos 1; rollups_address = codes "0xc" }

plan_l2_batch-Ends_example :
    Ends
      (λ plan _. IsBatchPlan toy_planner config (codes "0x02" ∷ codes "0x03" ∷ []) (some 9) plan)
      (plan_l2_batch toy_planner config (codes "0x02" ∷ codes "0x03" ∷ []) (some 9))
plan_l2_batch-Ends_example =
    plan_l2_batch-Ends toy_planner config (codes "0x02") (codes "0x03" ∷ []) (some 9)

abbrev withdrawal : L2ToL1Call
withdrawal = record {
  rlp = codes "0x02";
  l1_target = codes "0xd";
  call_data = codes "0x";
  call_value = pos 5;
  l2_sender = codes "0xe";
  source_proxy_on_l1 = codes "0xf";
}

abbrev a_tx : Action
a_tx = create_l2tx_action (pos 1) (codes "0x02")
