-- ===== src/Proofer/Entry.antt =====
-- `verifyEntry`, `verifyBatch` and `applyHint` of rollup1/proofer/proofer.ts. `none` stands for the
-- response of success.
pub mod Claims
pub mod Soundness
use sync_rollups.Prelude.{
  ℕ, Bool, true, false, not, JsString, codes, str_eq, is_truthy, Option, none, some, List, [], ◌∷◌,
  if◌then◌else◌,
}
use sync_rollups.Outcome.{Outcome, ok, throw}
use sync_rollups.Outcome.Io.{Io, pure, raise, lift, ◌>>=◌, ◌>>◌}
use sync_rollups.Types.{ActionType, call, l2tx, type_eq, Action, StateDelta, ExecutionEntry}
use sync_rollups.Types.Json.{StateDeltaJson, action_to_json, action_from_json}
use sync_rollups.Proofer.{
  Hint, Refusal, no_source_proxy, state_mismatch, failed_mismatch, simulation_failed,
  next_action_mismatch, batch_failed, batch_mismatch, L1Call, L1CallResult, SimulationJson,
  BatchResult, ProoferServices,
}
use sync_rollups.Proofer.Compare.{bool_eq, compare_actions}

-- `newState === entry.stateDeltas[0]?.newState`
unfoldable pub claims : ExecutionEntry → JsString → Bool
claims entry new_state = elim entry.state_deltas [
  | [] ↦ false
  | ◌∷◌ d ds ↦ str_eq new_state d.new_state
]

unfoldable pub check_l1_call : ℕ → ExecutionEntry → L1CallResult → Option Refusal
check_l1_call index entry r =
    if not (claims entry r.new_state)
    then some (state_mismatch index)
    else if not (bool_eq r.failed entry.next_action.failed)
    then some (failed_mismatch index)
    else none

-- The first delta of a simulation, if there is one.
unfoldable pub agrees : ExecutionEntry → List StateDeltaJson → Bool
agrees entry [] = true
agrees entry (d ∷ ds) = claims entry d.new_state

unfoldable pub check_next_action : ℕ → ExecutionEntry → Action → Option Refusal
check_next_action index entry a = elim (compare_actions a entry.next_action) [
  | none ↦ none
  | some field ↦ some (next_action_mismatch index field)
]

unfoldable pub check_decoded : ℕ → ExecutionEntry → Outcome Action → Outcome (Option Refusal)
check_decoded index entry (ok a) = ok (check_next_action index entry a)
check_decoded index entry (throw e) = throw e

-- A simulation that fails confirms an entry that claims a failure.
unfoldable pub check_simulation : ℕ → ExecutionEntry → SimulationJson → Outcome (Option Refusal)
check_simulation index entry r =
    if not r.success
    then ok (if entry.next_action.failed then none else some (simulation_failed index))
    else if not (agrees entry r.state_deltas)
    then ok (some (state_mismatch index))
    else if type_eq entry.next_action.action_type call
    then ok none
    else check_decoded index entry (action_from_json r.next_action)

unfoldable pub call_of : JsString → Action → L1Call
call_of proxy a = record {
  source = proxy;
  target = a.destination;
  value = a.value;
  payload = a.payload;
  original_sender = a.source_address;
}

-- `sourceProxy` where it is neither null nor empty.
unfoldable pub present : Option JsString → Option JsString
present none = none
present (some proxy) = if is_truthy proxy then some proxy else none

-- The entries of a request are not empty.
unfoldable pub check_batch : List ExecutionEntry → BatchResult → Outcome (Option Refusal)
check_batch entries r = if not r.success then ok (some batch_failed) else elim entries [
  | [] ↦ throw (codes "no first entry")
  | ◌∷◌ e es ↦ ok (if claims e r.new_state then none else some batch_mismatch)
]

module _ {W : Type 0} (s : ProoferServices W) where
  unfoldable pub verify_call :
      ExecutionEntry → Action → Option ℕ → ℕ → Option JsString → Io W (Option Refusal)
  verify_call entry root_action timestamp index none = pure (some (no_source_proxy index))
  verify_call entry root_action timestamp index (some proxy) = do
    r ← s.simulate_l1_call (call_of proxy root_action) timestamp
    pure (check_l1_call index entry r)

  -- An L2TX is simulated without a change of the state.
  unfoldable pub simulate : Action → Option ℕ → Io W SimulationJson
  simulate root_action timestamp =
      if type_eq root_action.action_type l2tx
      then s.speculate_action (action_to_json root_action) timestamp
      else s.simulate_action (action_to_json root_action) timestamp

  unfoldable pub verify_entry :
      ExecutionEntry → Action → Option ℕ → ℕ → Option JsString → Io W (Option Refusal)
  verify_entry entry root_action timestamp index source_proxy =
      if type_eq root_action.action_type call
      then verify_call entry root_action timestamp index (present source_proxy)
      else (do r ← simulate root_action timestamp; lift (check_simulation index entry r))

  unfoldable pub verify_batch :
      List ExecutionEntry → List JsString → Option ℕ → Io W (Option Refusal)
  verify_batch entries signed_txs timestamp = do
    r ← s.simulate_batch signed_txs timestamp
    lift (check_batch entries r)

  unfoldable pub apply_call_hint : Hint → Action → Option JsString → Io W (Unit {0})
  apply_call_hint hint a none = raise (codes "CALL hint requires sourceProxy")
  apply_call_hint hint a (some proxy) = do
    s.simulate_l1_call (call_of proxy a) (some hint.timestamp)
    pure tt

  unfoldable pub apply_hint : Hint → Io W (Unit {0})
  apply_hint hint = do
    a ← lift (action_from_json hint.action)
    if type_eq a.action_type l2tx
        then (do s.simulate_action hint.action (some hint.timestamp); pure tt)
        else if type_eq a.action_type call
        then apply_call_hint hint a (present hint.source_proxy)
        else raise (codes "unsupported action type")
