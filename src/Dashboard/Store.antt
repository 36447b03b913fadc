-- ===== src/Dashboard/Store.antt =====
-- The stores of the dashboard: eventsSlice.ts, executionTableSlice.ts and architectureSlice.ts in
-- visualizator/dashboard/src/store.
pub mod Timeline
use sync_rollups.Prelude.{
  ℕ, Bool, not, ◌&&◌, ◌||◌, JsString, codes, str_eq, is_truthy, Option, none, some, List, [], ◌∷◌,
  ◌++◌, map, any, keep, ltb, ◌==◌, if◌then◌else◌,
}
use sync_rollups.Prelude.Int.{ℤ}
use sync_rollups.Maps.{JsMap, text_key}
use sync_rollups.Dashboard.{Chain, l1, l2, EventRecord}

-- `a` comes after `b`.
unfoldable pub is_after : EventRecord → EventRecord → Bool
is_after a b =
    ltb b.block_number a.block_number
    || ((a.block_number == b.block_number) && ltb b.log_index a.log_index)

-- The loop of `addEvent` starts at the end and stops behind the last event that is not after the
-- new one; there the new one is put.
unfoldable pub place : EventRecord → List EventRecord → List EventRecord
unfolding is_after
place event [] = event ∷ []
place event (e ∷ es) =
    if any (λ x. not (is_after x event)) (e ∷ es) then e ∷ place event es else event ∷ e ∷ es

-- An event whose id is known is dropped.
unfoldable pub add_event : List EventRecord → EventRecord → List EventRecord
unfolding place
add_event events event =
    if any (λ e. str_eq e.id event.id) events then events else place event events

pub data EntryStatus : Type 0 where
  ja jc ok consumed : EntryStatus

-- The status of an entry that is there and not new.
abbrev pub status_ok : EntryStatus
status_ok = ok

-- A record of texts, in the order of its keys.
abbrev pub Detail : Type 0
Detail = JsMap JsString JsString

pub record TableEntry : Type 0 where
  pub id : JsString
  pub action_hash : JsString
  pub next_action_hash : JsString
  pub delta : Option JsString
  pub status : EntryStatus
  pub state_deltas : List JsString
  pub rollup_ids : List ℤ
  pub action_detail : Option Detail
  pub next_action_detail : Option Detail
  pub full_action_hash : Option JsString
  pub full_next_action_hash : Option JsString

-- An entry that was just added is so no longer.
unfoldable pub aged : EntryStatus → EntryStatus
aged ja = ok
aged jc = jc
aged ok = ok
aged consumed = consumed

unfoldable pub with_status : EntryStatus → TableEntry → TableEntry
with_status status e = record e { status = status }

unfoldable pub age : TableEntry → TableEntry
unfolding aged with_status
age e = with_status (aged e.status) e

unfoldable pub add_entries : List TableEntry → List TableEntry → List TableEntry
unfolding age
add_entries table entries = map age table ++ entries

-- A detail replaces the one of the entry only if it has fields.
unfoldable pub with_detail : Detail → TableEntry → TableEntry
with_detail [] e = e
with_detail (f ∷ fs) e = record e { action_detail = some (f ∷ fs) }

unfoldable pub consume_entry : JsString → Detail → List TableEntry → List TableEntry
unfolding with_detail with_status
consume_entry hash detail table =
    map (λ e. if str_eq e.action_hash hash then with_detail detail (with_status jc e) else e) table

pub data NodeType : Type 0 where
  user contract proxy system ghost : NodeType

pub record ArchNode : Type 0 where
  pub id : JsString
  pub label : JsString
  pub sub : JsString
  pub node_type : NodeType
  pub col : ℕ

pub record ArchEdge : Type 0 where
  pub from : JsString
  pub to : JsString
  pub label : JsString
  pub back : Bool
  pub alt : Bool
  pub id : Option JsString

unfoldable pub add_node : ArchNode → List ArchNode → List ArchNode
add_node node nodes = if any (λ n. str_eq n.id node.id) nodes then nodes else nodes ++ (node ∷ [])

-- The nodes of L1 and of L2.
unfoldable pub add_nodes :
    List (Chain × ArchNode) → List ArchNode × List ArchNode → List ArchNode × List ArchNode
unfolding add_node
add_nodes [] (on_l1, on_l2) = (on_l1, on_l2)
add_nodes ((l1, node) ∷ nodes) (on_l1, on_l2) = add_nodes nodes (add_node node on_l1, on_l2)
add_nodes ((l2, node) ∷ nodes) (on_l1, on_l2) = add_nodes nodes (on_l1, add_node node on_l2)

-- `e.id || `${e.from}->${e.to}``
unfoldable pub edge_key : ArchEdge → JsString
edge_key e = elim e.id [
  | none ↦ e.from ++ (codes "->" ++ e.to)
  | some id ↦ if is_truthy id then id else e.from ++ (codes "->" ++ e.to)
]

-- Only the edges that were there before count as existing.
unfoldable pub add_edges : List ArchEdge → List ArchEdge → List ArchEdge
unfolding edge_key
add_edges edges more =
    edges ++ keep (λ e. not (any (λ old. str_eq (edge_key old) (edge_key e)) edges)) more
