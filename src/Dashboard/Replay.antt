-- ===== src/Dashboard/Replay.antt =====
-- visualizator/dashboard/src/hooks/useDerivedState.ts: the tables and the state as of a selected
-- event, made anew from the events up to it.
pub mod Highlights
use sync_rollups.Prelude.{
  Bool, true, false, JsString, codes, str_eq, to_lower, is_truthy, List, [], ◌∷◌, ◌++◌, map,
  if◌then◌else◌,
}
use sync_rollups.Outcome.{◌>>=◌, Outcome, ok}
use sync_rollups.Types.{Action}
use sync_rollups.Maps.{JsMap, text_key, map_set}
use sync_rollups.Dashboard.{
  l1, l2, EventRecord, cross_chain_proxy_created, cross_chain_call_executed, batch_posted,
  execution_table_loaded, incoming_cross_chain_call_executed,
}
use sync_rollups.Dashboard.Store.{
  EntryStatus, ja, jc, consumed, TableEntry, status_ok, age, with_status, with_detail,
}
use sync_rollups.Dashboard.Format.{truncate_hex}
use sync_rollups.Dashboard.Tables.{
  ConsumeInfo, Cache, process_event_for_tables, extract_rollup_state,
}

pub record Replay : Type 0 where
  pub l1_table : List TableEntry
  pub l2_table : List TableEntry
  pub contract_state : JsMap JsString JsString
  pub cache : Cache

-- Only what the selected event does is shown as new.
unfoldable pub added_status : Bool → EntryStatus
added_status true = ja
added_status false = status_ok

unfoldable pub consumed_status : Bool → EntryStatus
consumed_status true = jc
consumed_status false = consumed

-- The first entry with the shortened hash is consumed.
unfoldable pub consume_first : Bool → ConsumeInfo → List TableEntry → List TableEntry
unfolding consumed_status with_status with_detail truncate_hex
consume_first current info [] = []
consume_first current info (e ∷ es) =
    if str_eq e.action_hash (truncate_hex 8 info.action_hash)
    then with_detail info.action_detail (with_status (consumed_status current) e) ∷ es
    else e ∷ consume_first current info es

unfoldable pub consume_all : Bool → List ConsumeInfo → List TableEntry → List TableEntry
unfolding consume_first
consume_all current [] table = table
consume_all current (info ∷ infos) table =
    consume_all current infos (consume_first current info table)

unfoldable pub replay_table :
    Bool → List TableEntry → List ConsumeInfo → List TableEntry → List TableEntry
unfolding added_status with_status consume_all age
replay_table current adds consumes table =
    consume_all current consumes (map age table ++ map (with_status (added_status current)) adds)

unfoldable pub set_all :
    List (JsString × JsString) → JsMap JsString JsString → JsMap JsString JsString
set_all [] m = m
set_all ((key, value) ∷ updates) m = set_all updates (map_set m key value)

module _ (known : JsMap JsString JsString) (action_hash : Action → Outcome JsString) where
  unfoldable pub replay_event : Bool → EventRecord → Replay → Outcome Replay
  unfolding replay_table set_all
  replay_event current event st = do
    done ← process_event_for_tables known action_hash st.cache event
    ok (record {
      l1_table = replay_table current done.0.l1_adds done.0.l1_consumes st.l1_table;
      l2_table = replay_table current done.0.l2_adds done.0.l2_consumes st.l2_table;
      contract_state = set_all (extract_rollup_state event) st.contract_state;
      cache = done.1;
    })

  -- The events before the selected one.
  unfoldable pub replay_events : List EventRecord → Replay → Outcome Replay
  unfolding replay_event
  replay_events [] st = ok st
  replay_events (event ∷ events) st = do
    next ← replay_event false event st
    replay_events events next

  unfoldable pub replay_up_to : List EventRecord → EventRecord → Cache → Outcome Replay
  unfolding replay_events
  replay_up_to before selected cache = do
    st ←
        replay_events before
          (record { l1_table = []; l2_table = []; contract_state = []; cache = cache })
    replay_event true selected st

unfoldable pub given : JsString → List JsString
given t = if is_truthy t then t ∷ [] else []

unfoldable pub edge : JsString → JsString → JsString
edge from to = from ++ (codes "->" ++ to)

unfoldable pub edge_between : JsString → JsString → List JsString
unfolding edge
edge_between from to =
    if is_truthy from then (if is_truthy to then edge from to ∷ [] else []) else []

-- The nodes and the edges that an event is about, from the addresses of the managers.
unfoldable pub active_for : EventRecord → JsString → List JsString × List JsString
unfolding given edge_between
active_for event manager = elim event.args [
  | batch_posted _ ↦
      (given manager ++ (codes "__prover__" ∷ []), edge (codes "__prover__") manager ∷ [])
  | execution_table_loaded _ ↦
      (given manager ++ (codes "__system__" ∷ []), edge (codes "__system__") manager ∷ [])
  | cross_chain_call_executed _ proxy source ↦ (
    given (to_lower source) ++ (given (to_lower proxy) ++ given manager),
    edge_between (to_lower source) (to_lower proxy) ++ edge_between (to_lower proxy) manager,
  )
  | incoming_cross_chain_call_executed _ destination ↦
      (given manager ++ given (to_lower destination), edge_between manager (to_lower destination))
  | cross_chain_proxy_created proxy ↦
      (given (to_lower proxy) ++ given manager, edge_between (to_lower proxy) manager)
  | _ ↦ (given manager, [])
]

unfoldable pub compute_active_for_event :
    EventRecord → JsString → JsString → List JsString × List JsString
unfolding active_for
compute_active_for_event event l1_manager l2_manager = elim event.chain [
  | l1 ↦ active_for event (to_lower l1_manager)
  | l2 ↦ active_for event (to_lower l2_manager)
]
