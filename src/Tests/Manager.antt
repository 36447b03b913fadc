-- ===== src/Tests/Manager.antt =====
-- rollup1/reth-fullnode/types.ts and state-manager.ts at concrete inputs.
use sync_rollups.Prelude.{◌≡◌, codes, List, [], ◌∷◌}
use sync_rollups.Prelude.Int.{pos}
use sync_rollups.Outcome.{ok}
use sync_rollups.Types.{Action, create_call_action, create_result_action, StateDelta}
use sync_rollups.Types.Json.{execution_entry_to_json, execution_entry_from_json}
use sync_rollups.Types.RoundTrip.{execution_entry_from_json-execution_entry_to_json}
use sync_rollups.StateManager.{StateManager, cache_executions, find_and_consume_execution}
use sync_rollups.StateManager.Cache.{Consumes, find_and_consume_execution-Consumes}
use sync_rollups.Tests.Toy.{genesis, entry}

abbrev some_call : Action
some_call =
    create_call_action (pos 1) (codes "0xab") (pos 300) (codes "0x1234") (codes "0xcd") (pos 0)
      (pos 2 ∷ [])

execution_entry_from_json-execution_entry_to_json_example :
    execution_entry_from_json (execution_entry_to_json (entry (codes "k") (codes "a") (codes "b")))
    ≡ ok (entry (codes "k") (codes "a") (codes "b"))
unfolding create_result_action
execution_entry_from_json-execution_entry_to_json_example =
    execution_entry_from_json-execution_entry_to_json (entry (codes "k") (codes "a") (codes "b"))
      (record {
        state_deltas = (tt, tt);
        next_action = record { rollup_id = tt; value = tt; source_rollup = tt; scope = tt };
      })

abbrev two_entries : StateManager
two_entries =
    cache_executions
      (entry (codes "k") (codes "a") (codes "b") ∷ entry (codes "k") (codes "s0") (codes "c") ∷ [])
      genesis

find_and_consume_execution-Consumes_example :
    Consumes
      (codes "k")
      (codes "s0")
      two_entries
      (find_and_consume_execution (codes "k") (codes "s0") two_entries).0
      (find_and_consume_execution (codes "k") (codes "s0") two_entries).1
find_and_consume_execution-Consumes_example =
    find_and_consume_execution-Consumes (codes "k") (codes "s0") two_entries

abbrev some_deltas : List StateDelta
some_deltas = (entry (codes "k") (codes "a") (codes "b")).state_deltas
