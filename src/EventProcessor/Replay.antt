-- ===== src/EventProcessor/Replay.antt =====
-- `processEvent`, `replayExecution` and `preloadL2ToL1Entry` of
-- rollup1/reth-fullnode/event-processor.ts.
pub mod Tracking
use sync_rollups.Prelude.{
  ℕ, zero, suc, ◌+◌, Bool, true, false, not, ◌&&◌, JsString, codes, str_eq, is_truthy, Option, none,
  some, List, [], ◌∷◌, if◌then◌else◌,
}
use sync_rollups.Prelude.Int.{ℤ, pos}
use sync_rollups.Outcome.{Outcome, ok, throw}
use sync_rollups.Outcome.Io.{Io, pure, raise, lift, gets, modify, catching, ◌>>=◌, ◌>>◌}
use sync_rollups.Types.{
  Action, call, type_eq, create_call_action, create_result_action, empty_action, ExecutionEntry,
}
use sync_rollups.EventProcessor.{EventProcessor, Node, on_world, track}
use sync_rollups.EventProcessor.Services.{
  L1Block, L1Transaction, RawTransaction, CallAnswer, returned, reverted, Services,
}
use sync_rollups.EventProcessor.Events.{
  Execution, EventArgs, state_updated, l2_execution_performed, ProcessedEvent,
}

-- `t ? t + n : undefined`
unfoldable pub later_timestamp : ℕ → Option ℕ → Option ℕ
later_timestamp n none = none
later_timestamp n (some zero) = none
later_timestamp n (some (suc t)) = some (suc t + n)

unfoldable pub timestamp_of : Option L1Block → Option ℕ
timestamp_of none = none
timestamp_of (some b) = some b.timestamp

unfoldable pub call_result : CallAnswer → JsString × Bool
call_result (returned payload) = (payload, false)
call_result (reverted payload) = (if is_truthy payload then payload else codes "0x", true)

-- One entry without state deltas.
unfoldable pub entry_for : JsString → Action → ExecutionEntry
entry_for action_hash next_action = record {
  state_deltas = [];
  action_hash = action_hash;
  next_action = next_action;
}

module _ {W : Type 0} (s : Services W) where
  abbrev rollups_address : Io (Node W) JsString
  rollups_address = gets (λ n. n.processor.rollups_address)

  abbrev rollup_id : Io (Node W) ℤ
  rollup_id = gets (λ n. n.processor.manager.rollup_id)

  unfoldable pub preload_l2_to_l1_entry :
      RawTransaction → JsString → ℤ → Action → Io (Node W) (Unit {0})
  preload_l2_to_l1_entry tx original_address original_rollup_id l2_to_l1_result = do
    source_rollup ← rollup_id
    let call_action =
        create_call_action original_rollup_id original_address tx.value tx.payload tx.sender
          source_rollup []
    let result = create_result_action (pos 0) l2_to_l1_result.payload l2_to_l1_result.failed
    target ← rollups_address
    on_world (
        s.send_system_tx target
          (s.encode_load_execution_table (entry_for (s.hash_action call_action) result ∷ []))
          (pos 0))

  -- Two blocks: the preloaded entry, then the user's transaction.
  unfoldable pub replay_l2_to_l1 :
      JsString → RawTransaction → JsString → Action → Option ℕ → Io (Node W) (Unit {0})
  replay_l2_to_l1 rlp tx target result timestamp = do
    proxy ← on_world (s.l2_authorized_proxy target)
    preload_l2_to_l1_entry tx proxy.0 proxy.1 result
    on_world (s.mine_block timestamp)
    on_world (s.send_raw_transaction rlp)
    on_world (s.mine_block (later_timestamp 1 timestamp))

  unfoldable pub replay_l2tx : JsString → Option Action → Option ℕ → Io (Node W) (Unit {0})
  replay_l2tx rlp l2_to_l1_result timestamp = do
    tx ← lift (s.parse_raw_transaction rlp)
    elim l2_to_l1_result [
      | none ↦ on_world (s.broadcast_raw_tx rlp timestamp)
      | some result ↦ elim tx.target [
        | none ↦ on_world (s.broadcast_raw_tx rlp timestamp)
        | some target ↦ replay_l2_to_l1 rlp tx target result timestamp
      ]
    ]

  -- An L1→L2 call: the entry for the predicted result, then the call, in one block.
  unfoldable pub replay_incoming_call : Action → Option ℕ → Io (Node W) (Unit {0})
  replay_incoming_call a timestamp = do
    id ← rollup_id
    answer ←
        on_world (λ w. let (r, w') = s.eth_call a.destination a.value a.payload w in (ok r, w'))
    let result = create_result_action id (call_result answer).0 (call_result answer).1
    target ← rollups_address
    on_world (
        s.send_system_tx target
          (s.encode_load_execution_table (entry_for (s.hash_action result) empty_action ∷ []))
          (pos 0))
    on_world (
        s.send_system_tx target
          (s.encode_incoming_call a.destination a.value a.payload a.source_address a.source_rollup)
          a.value)
    on_world (s.mine_block timestamp)

  unfoldable pub replay_legacy_call : L1Transaction → Option ℕ → Io (Node W) (Unit {0})
  replay_legacy_call tx timestamp = elim tx.target [
    | none ↦ raise (codes "L1 transaction has no 'to' address and no ExecutionConsumed event")
    | some proxy ↦ do
      l2_target ← on_world (s.l1_authorized_proxy proxy)
      on_world (s.send_system_tx l2_target tx.payload tx.value)
      on_world (s.mine_block timestamp)
  ]

  abbrev pub replay_other : Option Action → L1Transaction → Option ℕ → Io (Node W) (Unit {0})
  replay_other none tx timestamp = replay_legacy_call tx timestamp
  replay_other (some a) tx timestamp =
      if type_eq a.action_type call
      then replay_incoming_call a timestamp
      else replay_legacy_call tx timestamp

  unfoldable pub replay_transaction : Execution → ℕ → JsString → Io (Node W) (Unit {0})
  replay_transaction x block transaction_hash = do
    found ← on_world (s.l1_transaction transaction_hash)
    elim found [
      | none ↦ raise (codes "L1 transaction not found")
      | some tx ↦ do
        l1_block ← on_world (s.l1_block block)
        decoded ← lift (s.decode_execute_l2tx tx.payload)
        elim decoded [
          | some rlp ↦ replay_l2tx rlp x.l2_to_l1_result (timestamp_of l1_block)
          | none ↦ replay_other x.consumed_action tx (timestamp_of l1_block)
        ]
    ]

  unfoldable pub confirm_pre_executed : Execution → ℕ → Io (Node W) Bool
  confirm_pre_executed x block = do
    on_world (s.l1_block block)
    l2_block ← on_world s.l2_block_number
    on_world (s.l2_block_timestamp l2_block)
    modify (track x.new_state block (some l2_block))
    pure true

  -- Does the engine stand at the new state already? Then the state is tracked and `true` returned.
  unfoldable pub accept_pre_executed : Execution → ℕ → Io (Node W) Bool
  accept_pre_executed x block = do
    actual ← on_world s.actual_state_root
    if str_eq actual x.new_state then confirm_pre_executed x block else pure false

  unfoldable pub check_fraud : JsString → JsString → Node W → Node W
  check_fraud actual new_state n =
      if str_eq actual new_state
      then n
      else record n { processor = record n.processor { last_fraud_warning_state = new_state } }

  unfoldable pub replay_and_track : Execution → ℕ → JsString → Io (Node W) (Unit {0})
  replay_and_track x block transaction_hash =
      catching
        (do
          replay_transaction x block transaction_hash
          actual ← on_world s.actual_state_root
          modify (check_fraud actual x.new_state)
          l2_block ← on_world s.l2_block_number
          modify (track x.new_state block (some l2_block)))
        (λ e. do
          l2_block ← catching (on_world s.l2_block_number) (λ e'. pure 0)
          modify (track x.new_state block (some l2_block)))

  unfoldable pub replay_execution : Execution → ℕ → JsString → Io (Node W) (Unit {0})
  replay_execution x block transaction_hash =
      if str_eq x.current_state x.new_state then modify (track x.new_state block none) else (do
        accepted ← catching (accept_pre_executed x block) (λ e. pure false)
        if accepted then pure tt else replay_and_track x block transaction_hash)

  unfoldable pub set_last_event : Bool → Node W → Node W
  set_last_event b n = record n {
    processor = record n.processor { last_event_was_state_update = b };
  }

  unfoldable pub process_event : ProcessedEvent → Io (Node W) (Unit {0})
  process_event e = elim e.args [
    | state_updated root ↦ modify (λ n. set_last_event true (track root e.block_number none n))
    | l2_execution_performed x ↦ do
      replay_execution x e.block_number e.transaction_hash
      modify (set_last_event false)
  ]
