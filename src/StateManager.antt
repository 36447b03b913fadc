-- ===== src/StateManager.antt =====
-- rollup1/reth-fullnode/state-manager.ts: the state that a fullnode tracks in memory. The calls of
-- reth are in `StateManager.Engine`; writing files and starting processes are not modelled.
pub mod Tracking
pub mod Cache
pub mod BaseFee
use sync_rollups.Prelude.{
  ℕ, Bool, true, false, ◌&&◌, JsString, codes, str_eq, Option, none, some, List, [], ◌∷◌, ◌++◌,
  if◌then◌else◌,
}
use sync_rollups.Prelude.Int.{ℤ, pos, ◌+ℤ◌, ltb_ℤ}
use sync_rollups.Outcome.{Outcome, ok, throw}
use sync_rollups.Maps.{JsMap, map_get, map_set, map_delete, text_key}
use sync_rollups.Types.{RollupState, StateDelta, ExecutionEntry}
use sync_rollups.Types.BigInt.{big_int, int_eq}

pub record StateManager : Type 0 where
  pub rollup_id : ℤ
  pub initial_state_root : JsString
  pub state : RollupState
  pub execution_cache : JsMap JsString (List ExecutionEntry)
  pub operator_nonce : ℕ
  pub tracked_l2_block : ℕ

-- The constructor, from the two fields of the configuration that the state depends on.
unfoldable pub new_state_manager : ℤ → JsString → StateManager
new_state_manager rollup_id initial_state_root = record {
  rollup_id = rollup_id;
  initial_state_root = initial_state_root;
  state = record {
    rollup_id = rollup_id;
    state_root = initial_state_root;
    ether_balance = pos 0;
    block_number = pos 0;
  };
  execution_cache = [];
  operator_nonce = 0;
  tracked_l2_block = 0;
}

-- The state root is written before `BigInt` can throw.
unfoldable pub set_balance : Outcome ℤ → StateManager → Outcome (Unit {0}) × StateManager
set_balance (ok b) m = (ok tt, record m { state = record m.state { ether_balance = b } })
set_balance (throw e) m = (throw e, m)

unfoldable pub restore_state :
    JsString → JsString → StateManager → Outcome (Unit {0}) × StateManager
restore_state state_root ether_balance m =
    set_balance (big_int ether_balance)
      (record m { state = record m.state { state_root = state_root } })

-- `trackedL2Block` keeps its value.
unfoldable pub reset_state : StateManager → StateManager
reset_state m = record m {
  state = record m.state {
    state_root = m.initial_state_root;
    ether_balance = pos 0;
    block_number = pos 0;
  };
}

unfoldable pub update_state : JsString → ℤ → Option ℕ → StateManager → StateManager
update_state new_state_root block_number l2_block_number m =
    let m' = record m {
      state = record m.state { state_root = new_state_root; block_number = block_number };
    } in
    elim l2_block_number [ none ↦ m' | some n ↦ record m' { tracked_l2_block = n } ]

unfoldable pub update_ether_balance : ℤ → StateManager → Outcome (Unit {0}) × StateManager
update_ether_balance delta m =
    let new_balance = m.state.ether_balance +ℤ delta in
    if ltb_ℤ new_balance (pos 0)
    then (throw (codes "Ether balance would be negative"), m)
    else (ok tt, record m { state = record m.state { ether_balance = new_balance } })

-- `this.executionCache.get(hash) || []`
unfoldable pub get_executions : JsString → StateManager → List ExecutionEntry
get_executions action_hash m = elim (map_get m.execution_cache action_hash) [
  | none ↦ []
  | some l ↦ l
]

unfoldable pub cache_one : StateManager → ExecutionEntry → StateManager
cache_one m exec = record m {
  execution_cache =
      map_set m.execution_cache exec.action_hash (get_executions exec.action_hash m ++ exec ∷ []);
}

unfoldable pub cache_executions : List ExecutionEntry → StateManager → StateManager
cache_executions [] m = m
cache_executions (exec ∷ rest) m = cache_executions rest (cache_one m exec)

-- The inner loop: does no delta of our rollup start from another state?
unfoldable pub deltas_match : ℤ → JsString → List StateDelta → Bool
deltas_match rollup_id current_state [] = true
deltas_match rollup_id current_state (d ∷ rest) =
    if int_eq d.rollup_id rollup_id
    then str_eq d.current_state current_state && deltas_match rollup_id current_state rest
    else deltas_match rollup_id current_state rest

-- The outer loop: the first entry that matches, and the others (`splice(i, 1)`).
unfoldable pub take_match :
    ℤ → JsString → List ExecutionEntry → Option (ExecutionEntry × List ExecutionEntry)
take_match rollup_id current_state [] = none
take_match rollup_id current_state (exec ∷ rest) =
    let later = take_match rollup_id current_state rest in
    if deltas_match rollup_id current_state exec.state_deltas
    then some (exec, rest)
    else elim later [ none ↦ none | some (found, others) ↦ some (found, exec ∷ others) ]

unfoldable pub put_back : JsString → List ExecutionEntry → StateManager → StateManager
put_back action_hash [] m = record m { execution_cache = map_delete m.execution_cache action_hash }
put_back action_hash (e ∷ rest) m = record m {
  execution_cache = map_set m.execution_cache action_hash (e ∷ rest);
}

unfoldable pub consumed :
    JsString
    → StateManager
    → Option (ExecutionEntry × List ExecutionEntry)
    → Option ExecutionEntry × StateManager
consumed action_hash m none = (none, m)
consumed action_hash m (some (found, others)) = (some found, put_back action_hash others m)

unfoldable pub find_and_consume_execution :
    JsString → JsString → StateManager → Option ExecutionEntry × StateManager
find_and_consume_execution action_hash current_state m =
    consumed action_hash m (take_match m.rollup_id current_state (get_executions action_hash m))

unfoldable pub clear_execution_cache : StateManager → StateManager
clear_execution_cache m = record m { execution_cache = [] }

unfoldable pub restore_operator_nonce : ℕ → StateManager → StateManager
restore_operator_nonce nonce m = record m { operator_nonce = nonce }

pub record BridgeReport : Type 0 where
  pub l1_ether_balance : ℤ
  pub operator_l2_balance : ℤ
  pub genesis_balance : ℤ
  pub holds : Bool

-- 10 ^ 30 wei.
unfoldable pub operator_genesis_balance : ℤ
operator_genesis_balance = pos 0xc9f2c9cd04674edea40000000

-- The balance of the operator is what the L2 provider answers.
unfoldable pub check_bridge_invariant : ℤ → ℤ → BridgeReport
check_bridge_invariant l1_ether_balance operator_l2_balance = record {
  l1_ether_balance = l1_ether_balance;
  operator_l2_balance = operator_l2_balance;
  genesis_balance = operator_genesis_balance;
  holds = int_eq (l1_ether_balance +ℤ operator_l2_balance) operator_genesis_balance;
}
