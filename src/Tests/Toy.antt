-- ===== src/Tests/Toy.antt =====
-- A small chain for the tests: the state of the engine is its block number, and every L1 block has
-- the hash that its number writes.
use sync_rollups.Prelude.{
  List, leb, if◌then◌else◌, ℕ, suc, false, JsString, codes, none, some, [], ◌∷◌,
}
use sync_rollups.Prelude.Int.{pos}
use sync_rollups.Outcome.{ok, throw}
use sync_rollups.Types.{ExecutionEntry, create_result_action}
use sync_rollups.Types.BigInt.{to_string}
use sync_rollups.StateManager.{StateManager, new_state_manager}
use sync_rollups.EventProcessor.{Checkpoint, EventProcessor, new_event_processor}
use sync_rollups.EventProcessor.Services.{StateUpdatedLog, Services, returned}
use sync_rollups.EventProcessor.Events.{ProcessedEvent, state_updated, l2_execution_performed}

abbrev pub l1_hash : ℕ → JsString
l1_hash n = b'h' ∷ to_string 10 (pos n)

-- One log, in the last block of a range.
abbrev pub toy_logs : ℕ → ℕ → List StateUpdatedLog
toy_logs a b =
    if leb a b
    then record {
      block_number = b;
      log_index = 0;
      transaction_hash = codes "t";
      new_state_root = codes "r";
    }
      ∷ []
    else []

abbrev pub toy : Services ℕ
toy = record {
  l1_block_number = λ w. (ok 7, w);
  l1_block = λ n w. (ok (some (record { hash = l1_hash n; timestamp = n })), w);
  l1_transaction = λ h w. (ok none, w);
  state_updated_logs = λ a b w. (ok (toy_logs a b), w);
  execution_logs = λ a b w. (ok [], w);
  consumed_logs = λ a b w. (ok [], w);
  l1_authorized_proxy = λ p w. (ok p, w);
  l2_block_number = λ w. (ok w, w);
  actual_state_root = λ w. (ok (codes "s"), w);
  mine_block = λ t w. (ok tt, suc w);
  send_system_tx = λ t d v w. (ok tt, w);
  send_raw_transaction = λ d w. (ok tt, w);
  broadcast_raw_tx = λ d t w. (ok tt, suc w);
  l2_authorized_proxy = λ p w. (ok (p, pos 0), w);
  l2_block_timestamp = λ n w. (ok (some n), w);
  eth_call = λ t v d w. (returned (codes "0x"), w);
  compute_proxy_address = λ a r w. (ok a, w);
  stop_engine = λ w. (ok tt, w);
  start_engine = λ w. (ok tt, w);
  unwind_to_block = λ n w. (ok tt, n);
  clear_reth_data = λ w. (ok tt, 0);
  decode_execute_l2tx = λ d. ok (some d);
  parse_raw_transaction = λ d.
      ok (record { sender = codes "0xa"; target = some (codes "0xb"); value = pos 0; payload = d });
  decode_proxy_deploy = λ d. throw (codes "not a deployment");
  hash_action = λ a. a.payload;
  encode_load_execution_table = λ l. codes "load";
  encode_incoming_call = λ d v p a r. codes "call";
}

abbrev pub genesis : StateManager
genesis = new_state_manager (pos 1) (codes "s0")

abbrev pub fresh : EventProcessor
fresh = new_event_processor (codes "0xc") 2 genesis

abbrev pub checkpoint : ℕ → JsString → Checkpoint
checkpoint block root = record {
  l1_block_number = block;
  l1_block_hash = l1_hash block;
  l2_block_number = 3;
  tracked_state_root = root;
  tracked_ether_balance = codes "5";
}

abbrev pub posted : ℕ → ℕ → JsString → ProcessedEvent
posted block index root = record {
  block_number = block;
  log_index = index;
  transaction_hash = codes "t";
  args = state_updated root;
}

abbrev pub executed : ℕ → ℕ → JsString → JsString → ProcessedEvent
executed block index old new = record {
  block_number = block;
  log_index = index;
  transaction_hash = codes "t";
  args = l2_execution_performed (record {
    current_state = old;
    new_state = new;
    consumed_action_hash = none;
    consumed_action = none;
    l2_to_l1_result = none;
  });
}

abbrev pub entry : JsString → JsString → JsString → ExecutionEntry
entry action_hash old new = record {
  state_deltas =
      record { rollup_id = pos 1; current_state = old; new_state = new; ether_delta = pos 0 } ∷ [];
  action_hash = action_hash;
  next_action = create_result_action (pos 1) (codes "0x") false;
}
