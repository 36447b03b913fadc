-- ===== src/EventProcessor/Events.antt =====
-- The events of rollup1/reth-fullnode/event-processor.ts, joined from the logs of a block range.
pub mod Order
pub mod Rounds
use sync_rollups.Prelude.{
  ℕ, zero, suc, length, Bool, true, false, ◌&&◌, JsString, str_eq, Option, none, some, List, [],
  ◌∷◌, ◌++◌, map, keep, get_elem?, ltb, leb, ◌==◌, if◌then◌else◌,
}
use sync_rollups.Types.{Action}
use sync_rollups.EventProcessor.Services.{StateUpdatedLog, ExecutionLog, ConsumedLog}

pub record Execution : Type 0 where
  pub current_state : JsString
  pub new_state : JsString
  pub consumed_action_hash : Option JsString
  pub consumed_action : Option Action
  pub l2_to_l1_result : Option Action

pub data EventArgs : Type 0 where
  state_updated : JsString → EventArgs
  l2_execution_performed : Execution → EventArgs

pub record ProcessedEvent : Type 0 where
  pub block_number : ℕ
  pub log_index : ℕ
  pub transaction_hash : JsString
  pub args : EventArgs

-- The copy of a consumed action has no scope.
unfoldable pub without_scope : Action → Action
without_scope a = record a { scope = [] }

unfoldable pub consumed_in : JsString → List ConsumedLog → List ConsumedLog
consumed_in transaction_hash l = keep (λ c. str_eq c.transaction_hash transaction_hash) l

unfoldable pub state_event : StateUpdatedLog → ProcessedEvent
state_event l = record {
  block_number = l.block_number;
  log_index = l.log_index;
  transaction_hash = l.transaction_hash;
  args = state_updated l.new_state_root;
}

unfoldable pub execution_event : List ConsumedLog → ExecutionLog → ProcessedEvent
execution_event consumed l =
    let mine = consumed_in l.transaction_hash consumed in
    record {
      block_number = l.block_number;
      log_index = l.log_index;
      transaction_hash = l.transaction_hash;
      args = l2_execution_performed (record {
        current_state = l.current_state;
        new_state = l.new_state;
        consumed_action_hash = elim (get_elem? mine 0) [
          | none ↦ none
          | some c ↦ some c.action_hash
        ];
        consumed_action = elim (get_elem? mine 0) [
          | none ↦ none
          | some c ↦ some (without_scope c.action)
        ];
        l2_to_l1_result = elim (get_elem? mine 1) [
          | none ↦ none
          | some c ↦ some (without_scope c.action)
        ];
      });
    }

-- The order of the sort: block number, then log index.
unfoldable pub event_le : ProcessedEvent → ProcessedEvent → Bool
event_le a b =
    if a.block_number == b.block_number
    then leb a.log_index b.log_index
    else ltb a.block_number b.block_number

unfoldable pub insert_event : ProcessedEvent → List ProcessedEvent → List ProcessedEvent
insert_event e [] = e ∷ []
insert_event e (f ∷ l) = if event_le e f then e ∷ f ∷ l else f ∷ insert_event e l

-- `allEvents.sort`, which is stable.
unfoldable pub sort_events : List ProcessedEvent → List ProcessedEvent
sort_events [] = []
sort_events (e ∷ l) = insert_event e (sort_events l)

unfoldable pub join_events :
    List StateUpdatedLog → List ExecutionLog → List ConsumedLog → List ProcessedEvent
join_events states executions consumed =
    sort_events (map state_event states ++ map (execution_event consumed) executions)

unfoldable pub is_execution : ProcessedEvent → Bool
is_execution e = elim e.args [ state_updated _ ↦ false | l2_execution_performed _ ↦ true ]

-- The root that an event posts.
unfoldable pub posted_root : ProcessedEvent → JsString
posted_root e = elim e.args [ state_updated root ↦ root | l2_execution_performed x ↦ x.new_state ]

-- An execution whose state does not change is accounting on L1 only.
unfoldable pub changes_state : ProcessedEvent → Bool
changes_state e = elim e.args [
  | state_updated _ ↦ true
  | l2_execution_performed x ↦ if str_eq x.current_state x.new_state then false else true
]

-- Whether the inner loop takes this event into a round that begins in this block.
unfoldable pub joins : ℕ → ProcessedEvent → Bool
joins block f = is_execution f && (f.block_number == block)

-- The events that the inner loop takes, and those that it leaves.
unfoldable pub take_run : ℕ → List ProcessedEvent → List ProcessedEvent × List ProcessedEvent
take_run block [] = ([], [])
take_run block (f ∷ l) =
    let rest = take_run block l in if joins block f then (f ∷ rest.0, rest.1) else ([], f ∷ l)

unfoldable pub more_events :
    ProcessedEvent → List ProcessedEvent → List ProcessedEvent × List ProcessedEvent
more_events e l = if is_execution e then take_run e.block_number l else ([], l)

-- The rounds of the loop over the events, with the events from `i` on as the list: each takes one
-- event, and what the inner loop takes if it is an execution.
unfoldable pub runs_loop : ℕ → List ProcessedEvent → List (ProcessedEvent × List ProcessedEvent)
runs_loop zero l = []
runs_loop (suc fuel) [] = []
runs_loop (suc fuel) (e ∷ l) = let taken = more_events e l in (e, taken.0) ∷ runs_loop fuel taken.1

-- `i` grows in each round, so that there are at most as many rounds as events.
unfoldable pub runs_of : List ProcessedEvent → List (ProcessedEvent × List ProcessedEvent)
runs_of l = runs_loop (length l) l
