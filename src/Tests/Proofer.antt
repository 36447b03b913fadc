-- ===== src/Tests/Proofer.antt =====
-- rollup1/proofer/proofer.ts at concrete inputs.
use sync_rollups.Prelude.{
  ◌+◌, arith, ℕ, suc, Bool, true, false, ◌≡◌, refl, ◌↔◌, JsString, codes, none, some, [], ◌∷◌,
}
use sync_rollups.Prelude.Int.{pos}
use sync_rollups.Outcome.{ok}
use sync_rollups.Outcome.Rules.{Ends}
use sync_rollups.Types.{Action, create_l2tx_action, create_result_action}
use sync_rollups.Types.Json.{action_to_json, execution_entry_to_json}
use sync_rollups.Proofer.{ProveRequest, proved, SimulationJson, ProoferServices}
use sync_rollups.Proofer.Compare.{compare_actions, folded, compare_actions_iff}
use sync_rollups.Proofer.Entry.{present, verify_entry}
use sync_rollups.Proofer.Entry.Soundness.{Verified, verify_entry-Ends}
use sync_rollups.Proofer.Prove.{wait_loop, handle_prove}
use sync_rollups.Proofer.Prove.Waiting.{HasClock, wait_loop_ends}
use sync_rollups.Proofer.Prove.Soundness.{IsSigned, handle_prove-Ends}
use sync_rollups.Proofer.Prove.Rollback.{RollsBack, handle_prove-RollsBack}
use sync_rollups.Tests.Toy.{entry}

abbrev pub simulated : Bool → SimulationJson
simulated success = record {
  success = success;
  state_deltas = [];
  next_action = action_to_json (create_result_action (pos 1) (codes "0x") false);
}

-- The node counts its blocks; every simulation succeeds.
abbrev pub toy_node : ProoferServices ℕ
toy_node = record {
  get_state_root = λ w. (ok (codes "a"), w);
  get_actual_state_root = λ w. (ok (codes "a"), w);
  get_tracked_l2_block = λ w. (ok w, w);
  take_snapshot = λ w. (ok w, w);
  revert_to_snapshot = λ n w. (ok tt, n);
  simulate_l1_call = λ c t w. (ok (record { new_state = codes "b"; failed = false }), suc w);
  speculate_action = λ a t w. (ok (simulated true), w);
  simulate_action = λ a t w. (ok (simulated true), suc w);
  simulate_batch = λ l t w. (ok (record { success = true; new_state = codes "b" }), suc w);
  system_call = λ a d t w. (ok tt, suc w);
  sleep = λ n w. (ok tt, w);
  now = λ w. (ok 0, w);
  sign_post_batch_proof = λ l p w. (ok (codes "proof"), w);
  hash_action = λ a. a.payload;
}

abbrev tx : Action
tx = create_l2tx_action (pos 1) (codes "0x02")

abbrev request : ProveRequest
request = record {
  entries = execution_entry_to_json (entry (codes "0x02") (codes "a") (codes "b")) ∷ [];
  root_actions = action_to_json tx ∷ [];
  timestamp = some 9;
  hints = [];
  batch_signed_txs = [];
  source_proxies = [];
  preload_system_calls = [];
  ecdsa_params = none;
}

handle_prove-Ends_example :
    Ends
      (λ a _. (proof : JsString) → a ≡ proved proof → IsSigned toy_node request)
      (handle_prove toy_node request)
handle_prove-Ends_example = handle_prove-Ends toy_node request

handle_prove-RollsBack_example : Ends (RollsBack toy_node) (handle_prove toy_node request)
handle_prove-RollsBack_example = handle_prove-RollsBack toy_node request

verify_entry-Ends_example :
    Ends
      (λ o _.
        o ≡ none
        → Verified toy_node (entry (codes "k") (codes "a") (codes "b")) tx (some 9) (present none))
      (verify_entry toy_node (entry (codes "k") (codes "a") (codes "b")) tx (some 9) 0 none)
verify_entry-Ends_example =
    verify_entry-Ends toy_node (entry (codes "k") (codes "a") (codes "b")) tx (some 9) 0 none

compare_actions_iff_example : (compare_actions tx tx ≡ none) ↔ (folded tx ≡ folded tx)
compare_actions_iff_example = compare_actions_iff tx tx

-- A node whose state is its clock.
abbrev clock_node : ProoferServices ℕ
clock_node = record toy_node { now = λ w. (ok w, w); sleep = λ ms w. (ok tt, w + ms) }

abbrev the_clock : HasClock clock_node
the_clock = record {
  time = λ w. w;
  reads = λ w. refl;
  sleeps = λ ms w. omega arith;
  goes_on = λ w. omega arith;
}

wait_loop_ends_example :
    wait_loop clock_node 40 7 (codes "z") (codes "a") 9
    ≡ wait_loop clock_node 25 7 (codes "z") (codes "a") 9
wait_loop_ends_example =
    wait_loop_ends clock_node the_clock 7 (codes "z") 40 (codes "a") 9 (omega arith) (omega arith)
