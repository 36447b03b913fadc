-- ===== src/Types/Json.antt =====
-- The JSON forms of rollup1/reth-fullnode/types.ts, in which a `bigint` is a hexadecimal text.
use sync_rollups.Prelude.{
  suc, Bool, JsString, codes, List, [], ◌∷◌, map, starts_with, drop, if◌then◌else◌,
}
use sync_rollups.Prelude.Int.{ℤ, pos, negsuc, sub_ℕ}
use sync_rollups.Outcome.{Outcome, ok, ◌>>=◌}
use sync_rollups.Types.{ActionType, Action, StateDelta, ExecutionEntry}
use sync_rollups.Types.BigInt.{to_hex, big_int}

pub record ActionJson : Type 0 where
  pub action_type : ActionType
  pub rollup_id : JsString
  pub destination : JsString
  pub value : JsString
  pub payload : JsString
  pub failed : Bool
  pub source_address : JsString
  pub source_rollup : JsString
  pub scope : List JsString

pub record StateDeltaJson : Type 0 where
  pub rollup_id : JsString
  pub current_state : JsString
  pub new_state : JsString
  pub ether_delta : JsString

pub record ExecutionEntryJson : Type 0 where
  pub state_deltas : List StateDeltaJson
  pub action_hash : JsString
  pub next_action : ActionJson

-- `xs.map(f)` with an `f` that may throw
unfoldable pub map_outcome {ℓ κ} :
    {A : Type ℓ} {B : Type κ} → (A → Outcome B) → List A → Outcome (List B)
map_outcome f [] = ok []
map_outcome f (x ∷ xs) = do ok ((← f x) ∷ (← map_outcome f xs))

unfoldable pub action_to_json : Action → ActionJson
action_to_json a = record {
  action_type = a.action_type;
  rollup_id = to_hex a.rollup_id;
  destination = a.destination;
  value = to_hex a.value;
  payload = a.payload;
  failed = a.failed;
  source_address = a.source_address;
  source_rollup = to_hex a.source_rollup;
  scope = map to_hex a.scope;
}

unfoldable pub action_from_json : ActionJson → Outcome Action
unfolding map_outcome
action_from_json j = do
  rollup_id ← big_int j.rollup_id
  value ← big_int j.value
  source_rollup ← big_int j.source_rollup
  scope ← map_outcome big_int j.scope
  ok (record {
    action_type = j.action_type;
    rollup_id = rollup_id;
    destination = j.destination;
    value = value;
    payload = j.payload;
    failed = j.failed;
    source_address = j.source_address;
    source_rollup = source_rollup;
    scope = scope;
  })

unfoldable pub signed_hex : ℤ → JsString
signed_hex (pos n) = to_hex (pos n)
signed_hex (negsuc n) = b'-' ∷ to_hex (pos (suc n))

unfoldable pub state_delta_to_json : StateDelta → StateDeltaJson
unfolding signed_hex
state_delta_to_json d = record {
  rollup_id = to_hex d.rollup_id;
  current_state = d.current_state;
  new_state = d.new_state;
  ether_delta = signed_hex d.ether_delta;
}

opposite : ℤ → ℤ
opposite (pos n) = sub_ℕ 0 n
opposite (negsuc n) = pos (suc n)

unfoldable pub read_signed : JsString → Outcome ℤ
unfolding opposite starts_with
read_signed s =
    if starts_with s (codes "-") then (do n ← big_int (drop 1 s); ok (opposite n)) else big_int s

unfoldable pub state_delta_from_json : StateDeltaJson → Outcome StateDelta
unfolding read_signed
state_delta_from_json j = do
  ether_delta ← read_signed j.ether_delta
  rollup_id ← big_int j.rollup_id
  ok (record {
    rollup_id = rollup_id;
    current_state = j.current_state;
    new_state = j.new_state;
    ether_delta = ether_delta;
  })

unfoldable pub execution_entry_to_json : ExecutionEntry → ExecutionEntryJson
unfolding action_to_json state_delta_to_json
execution_entry_to_json e = record {
  state_deltas = map state_delta_to_json e.state_deltas;
  action_hash = e.action_hash;
  next_action = action_to_json e.next_action;
}

unfoldable pub execution_entry_from_json : ExecutionEntryJson → Outcome ExecutionEntry
unfolding action_from_json state_delta_from_json
execution_entry_from_json j = do
  state_deltas ← map_outcome state_delta_from_json j.state_deltas
  next_action ← action_from_json j.next_action
  ok (record {
    state_deltas = state_deltas;
    action_hash = j.action_hash;
    next_action = next_action;
  })
