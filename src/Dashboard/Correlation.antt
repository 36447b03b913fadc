-- ===== src/Dashboard/Correlation.antt =====
-- visualizator/dashboard/src/lib/crossChainCorrelation.ts: which events belong to one transaction
-- across the chains. The hash of an action is `computeActionHash`, which viem computes.
pub mod Classes
use sync_rollups.Prelude.{
  not, ◌&&◌, JsString, codes, str_eq, is_truthy, to_lower, Option, none, some, List, [], ◌∷◌, ◌++◌,
  map, if◌then◌else◌,
}
use sync_rollups.Outcome.{Outcome, ok, throw}
use sync_rollups.Types.{Action, ExecutionEntry}
use sync_rollups.Maps.{JsMap, text_key, map_get, map_set}
use sync_rollups.Dashboard.{
  l1, l2, EventRecord, execution_consumed, cross_chain_call_executed, l2tx_executed, batch_posted,
  execution_table_loaded, incoming_cross_chain_call_executed,
}
use sync_rollups.Dashboard.UnionFind.{add_at, group_ids}

abbrev pub zero_hash : JsString
zero_hash = codes "0x0000000000000000000000000000000000000000000000000000000000000000"

pub record CorrelatedPair : Type 0 where
  pub action_hash : JsString
  pub l1_event : EventRecord
  pub l2_event : EventRecord

-- What is consumed on each chain so far, and the pairs.
pub record Consumed : Type 0 where
  pub l1_consumed : JsMap JsString EventRecord
  pub l2_consumed : JsMap JsString EventRecord
  pub pairs : List CorrelatedPair

unfoldable pub add_pair : Option CorrelatedPair → List CorrelatedPair → List CorrelatedPair
add_pair none l = l
add_pair (some p) l = l ++ (p ∷ [])

unfoldable pub pair_with : EventRecord → JsString → Consumed → Consumed
unfolding add_pair
pair_with event hash c = elim event.chain [
  | l1 ↦ record {
    l1_consumed = map_set c.l1_consumed hash event;
    l2_consumed = c.l2_consumed;
    pairs =
        add_pair
          (elim (map_get c.l2_consumed hash) [
            | none ↦ none
            | some m ↦ some (record { action_hash = hash; l1_event = event; l2_event = m })
          ])
          c.pairs;
  }
  | l2 ↦ record {
    l1_consumed = c.l1_consumed;
    l2_consumed = map_set c.l2_consumed hash event;
    pairs =
        add_pair
          (elim (map_get c.l1_consumed hash) [
            | none ↦ none
            | some m ↦ some (record { action_hash = hash; l1_event = m; l2_event = event })
          ])
          c.pairs;
  }
]

-- The hash that an `ExecutionConsumed` with one has.
unfoldable pub consumed_hash : EventRecord → Option JsString
consumed_hash event = elim event.args [
  | execution_consumed hash action ↦ if is_truthy hash then some hash else none
  | _ ↦ none
]

unfoldable pub pair_events : List EventRecord → Consumed → Consumed
unfolding pair_with consumed_hash
pair_events [] c = c
pair_events (event ∷ events) c =
    pair_events events
      (elim (consumed_hash event) [ none ↦ c | some hash ↦ pair_with event hash c ])

unfoldable pub find_correlated_pairs : List EventRecord → List CorrelatedPair
unfolding pair_events
find_correlated_pairs events =
    (pair_events events (record { l1_consumed = []; l2_consumed = []; pairs = [] })).pairs

module _ (action_hash : Action → Outcome JsString) where
  -- The hash of an entry and the one of its next action, unless it cannot be computed.
  unfoldable pub entry_hashes : ExecutionEntry → List JsString
  entry_hashes e = elim (action_hash e.next_action) [
    | ok next ↦ e.action_hash ∷ next ∷ []
    | throw _ ↦ e.action_hash ∷ []
  ]

  unfoldable pub all_entry_hashes : List ExecutionEntry → List JsString
  unfolding entry_hashes
  all_entry_hashes [] = []
  all_entry_hashes (e ∷ es) = entry_hashes e ++ all_entry_hashes es

  unfoldable pub hashes_of : EventRecord → List JsString
  unfolding all_entry_hashes
  hashes_of event = elim event.args [
    | batch_posted (some entries) ↦ all_entry_hashes entries
    | execution_table_loaded (some entries) ↦ all_entry_hashes entries
    | execution_consumed hash _ ↦ hash ∷ []
    | cross_chain_call_executed hash _ _ ↦ hash ∷ []
    | l2tx_executed hash _ ↦ hash ∷ []
    | incoming_cross_chain_call_executed hash _ ↦ hash ∷ []
    | _ ↦ []
  ]

  -- What `link` is called with and does not skip: an event and a hash in lower case.
  unfoldable pub links_with : JsString → List JsString → List (JsString × JsString)
  links_with id [] = []
  links_with id (hash ∷ hashes) =
      let rest = links_with id hashes in
      if is_truthy hash && not (str_eq hash zero_hash) then (id, to_lower hash) ∷ rest else rest

  unfoldable pub links_of : List EventRecord → List (JsString × JsString)
  unfolding links_with hashes_of
  links_of [] = []
  links_of (event ∷ events) = links_with event.id (hashes_of event) ++ links_of events

-- The two maps that `link` fills.
unfoldable pub hash_to_events :
    List (JsString × JsString) → JsMap JsString (List JsString) → JsMap JsString (List JsString)
hash_to_events [] m = m
hash_to_events ((id, hash) ∷ links) m = hash_to_events links (add_at m hash id)

unfoldable pub event_to_hashes :
    List (JsString × JsString) → JsMap JsString (List JsString) → JsMap JsString (List JsString)
event_to_hashes [] m = m
event_to_hashes ((id, hash) ∷ links) m = event_to_hashes links (add_at m id hash)

abbrev pub key : JsString × List JsString → JsString
key (k, v) = k

abbrev pub value : JsString × List JsString → List JsString
value (k, v) = v

-- The ids of the events that carry a hash, in groups.
unfoldable pub event_groups : List (JsString × JsString) → JsMap JsString (List JsString)
unfolding hash_to_events event_to_hashes
event_groups links =
    group_ids (map value (hash_to_events links [])) (map key (event_to_hashes links []))
