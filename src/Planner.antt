-- ===== src/Planner.antt =====
-- rollup1/builder/execution-planner.ts: the plans that the builder asks the proofer to sign. What
-- is printed is left out; the calls that only pass an answer of the fullnode on are in
-- `PlannerServices`.
pub mod L2
pub mod CrossChain
pub mod Provable
use sync_rollups.Prelude.{
  ℕ, Bool, true, false, not, JsString, codes, is_truthy, Option, none, some, List, [], ◌∷◌,
  if◌then◌else◌,
}
use sync_rollups.Prelude.Int.{ℤ, pos}
use sync_rollups.Outcome.{Outcome, ok, throw}
use sync_rollups.Outcome.Io.{Io, pure, raise, lift, ◌>>=◌, ◌>>◌}
use sync_rollups.Types.{Action, StateDelta, ExecutionEntry, create_l2tx_action}
use sync_rollups.Types.Json.{
  ActionJson, StateDeltaJson, map_outcome, action_to_json, action_from_json, state_delta_from_json,
}
use sync_rollups.EventProcessor.Services.{CallAnswer}
use sync_rollups.Proofer.{L1Call, SimulationJson, BatchResult}

-- The answer of `syncrollups_simulateL1Call`; a field that is missing is empty.
pub record L1CallReply : Type 0 where
  pub return_data : JsString
  pub failed : Bool
  pub state_deltas : List StateDeltaJson
  pub new_state : JsString

-- The methods of the fullnode and of L1, and the encoders of ethers. `l1_state_root` and
-- `l1_code` read L1; `hash_states` is the hash of two words.
pub record PlannerServices (W : Type 0) : Type 0 where
  pub get_state_root : Io W JsString
  pub get_actual_state_root : Io W JsString
  pub l1_state_root : Io W JsString
  pub simulate_action : ActionJson → Option ℕ → Io W SimulationJson
  pub speculate_action : ActionJson → Option ℕ → Io W SimulationJson
  pub simulate_batch : List JsString → Option ℕ → Io W BatchResult
  pub simulate_l1_call : L1Call → Option ℕ → Io W L1CallReply
  pub system_call : JsString → JsString → Option ℕ → Io W (Unit {0})
  pub l1_code : JsString → Io W JsString
  pub l1_call : JsString → JsString → JsString → ℤ → W → CallAnswer × W
  pub hash_action : Action → JsString
  pub hash_states : JsString → JsString → JsString
  pub encode_load_execution_table : List ExecutionEntry → JsString

-- The fields of the configuration that plans depend on.
pub record PlannerConfig : Type 0 where
  pub rollup_id : ℤ
  pub rollups_address : JsString

pub record SimulationResult : Type 0 where
  pub next_action : Action
  pub state_deltas : List StateDelta
  pub success : Bool

-- `override || state`
unfoldable pub override_or : Option JsString → JsString → JsString
override_or none state = state
override_or (some o) state = if is_truthy o then o else state

-- One delta of our rollup without ether.
unfoldable pub moves : ℤ → JsString → JsString → StateDelta
moves rollup_id old new = record {
  rollup_id = rollup_id;
  current_state = old;
  new_state = new;
  ether_delta = pos 0;
}

module _ {W : Type 0} where
  -- `deltas[0].newState`
  unfoldable pub first_new_state : List StateDelta → Io W JsString
  first_new_state [] = raise (codes "Cannot read properties of undefined")
  first_new_state (d ∷ ds) = pure d.new_state

  unfoldable pub read_simulation : SimulationJson → Io W SimulationResult
  read_simulation r = do
    next_action ← lift (action_from_json r.next_action)
    state_deltas ← lift (map_outcome state_delta_from_json r.state_deltas)
    pure (record { next_action = next_action; state_deltas = state_deltas; success = r.success })

  -- A simulation that fails ends the plan.
  unfoldable pub succeed : SimulationResult → Io W (Unit {0})
  succeed r = if r.success then pure tt else raise (codes "simulation failed")

module _ {W : Type 0} (s : PlannerServices W) where
  unfoldable pub simulate_action : Action → Option ℕ → Io W SimulationResult
  simulate_action a timestamp = do
    r ← s.simulate_action (action_to_json a) timestamp
    read_simulation r

  unfoldable pub speculate_action : Action → Option ℕ → Io W SimulationResult
  speculate_action a timestamp = do
    r ← s.speculate_action (action_to_json a) timestamp
    read_simulation r

  -- `(await this.getStates()).l1State.stateRoot`
  unfoldable pub l1_state : Io W JsString
  l1_state = do s.get_actual_state_root; s.l1_state_root
