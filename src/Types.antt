-- ===== src/Types.antt =====
-- rollup1/reth-fullnode/types.ts: the data that fullnode, builder and proofer exchange. A `bigint`
-- is an integer; the fields that are `uint256` on the chain are non-negative in values of `IsUint`.
pub mod BigInt
pub mod Json
pub mod RoundTrip
use sync_rollups.Prelude.{ℕ, Bool, true, false, JsString, codes, List, [], ◌≡◌, All, ◌&&◌, str_eq}
use sync_rollups.Prelude.Int.{ℤ, pos, negsuc}
use sync_rollups.Prelude.{◌==◌, Option}

pub data ActionType : Type 0 where
  call result l2tx revert revert_continue : ActionType

-- The numbers that Solidity gives to the enum.
unfoldable pub type_number : ActionType → ℕ
type_number call = 0
type_number result = 1
type_number l2tx = 2
type_number revert = 3
type_number revert_continue = 4

unfoldable pub type_eq : ActionType → ActionType → Bool
unfolding type_number
type_eq a b = type_number a == type_number b

pub record Action : Type 0 where
  pub action_type : ActionType
  pub rollup_id : ℤ
  pub destination : JsString
  pub value : ℤ
  pub payload : JsString
  pub failed : Bool
  pub source_address : JsString
  pub source_rollup : ℤ
  pub scope : List ℤ

pub record StateDelta : Type 0 where
  pub rollup_id : ℤ
  pub current_state : JsString
  pub new_state : JsString
  pub ether_delta : ℤ

pub record ExecutionEntry : Type 0 where
  pub state_deltas : List StateDelta
  pub action_hash : JsString
  pub next_action : Action

pub record RollupState : Type 0 where
  pub rollup_id : ℤ
  pub state_root : JsString
  pub ether_balance : ℤ
  pub block_number : ℤ

-- A system call that has to run before entry `entry_index` is verified.
pub record Preload : Type 0 where
  pub entry_index : ℕ
  pub target : JsString
  pub payload : JsString

pub record ExecutionPlan : Type 0 where
  pub entries : List ExecutionEntry
  pub root_action_hash : JsString
  pub root_actions : List Action
  pub proof : JsString
  pub preload_system_calls : Option (List Preload)

unfoldable pub zero_address : JsString
zero_address = codes "0x0000000000000000000000000000000000000000"

unfoldable pub empty_action : Action
empty_action = record {
  action_type = result;
  rollup_id = pos 0;
  destination = zero_address;
  value = pos 0;
  payload = codes "0x";
  failed = false;
  source_address = zero_address;
  source_rollup = pos 0;
  scope = [];
}

unfoldable pub create_l2tx_action : ℤ → JsString → Action
create_l2tx_action rollup_id rlp_encoded_tx = record {
  action_type = l2tx;
  rollup_id = rollup_id;
  destination = zero_address;
  value = pos 0;
  payload = rlp_encoded_tx;
  failed = false;
  source_address = zero_address;
  source_rollup = pos 0;
  scope = [];
}

unfoldable pub create_call_action : ℤ → JsString → ℤ → JsString → JsString → ℤ → List ℤ → Action
create_call_action rollup_id destination value payload source_address source_rollup scope = record {
  action_type = call;
  rollup_id = rollup_id;
  destination = destination;
  value = value;
  payload = payload;
  failed = false;
  source_address = source_address;
  source_rollup = source_rollup;
  scope = scope;
}

unfoldable pub create_result_action : ℤ → JsString → Bool → Action
create_result_action rollup_id payload failed = record {
  action_type = result;
  rollup_id = rollup_id;
  destination = zero_address;
  value = pos 0;
  payload = payload;
  failed = failed;
  source_address = zero_address;
  source_rollup = pos 0;
  scope = [];
}

abbrev pub IsUint : ℤ → Type 0
IsUint (pos n) = Unit
IsUint (negsuc n) = ⊥

-- The integers that the chain stores in unsigned fields are non-negative.
pub record IsChainAction (a : Action) : Type 0 where
  pub rollup_id : IsUint a.rollup_id
  pub value : IsUint a.value
  pub source_rollup : IsUint a.source_rollup
  pub scope : All IsUint a.scope

abbrev pub IsChainDelta : StateDelta → Type 0
IsChainDelta d = IsUint d.rollup_id

pub record IsChainEntry (e : ExecutionEntry) : Type 0 where
  pub state_deltas : All IsChainDelta e.state_deltas
  pub next_action : IsChainAction e.next_action
