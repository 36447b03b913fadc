-- ===== src/Dashboard/Bundles/Build.antt =====
-- The assembly of bundles in visualizator/dashboard/src/lib/crossChainCorrelation.ts.
pub mod Lossless
use sync_rollups.Prelude.{
  ℕ, suc, ◌++◌, Bool, true, false, not, ◌&&◌, JsString, codes, str_eq, to_lower, Option, none, some,
  List, [], ◌∷◌, map, keep, any, all, length, sort_by, ltb, leb, ◌==◌, if◌then◌else◌,
}
use sync_rollups.Prelude.Int.{pos}
use sync_rollups.Outcome.{Outcome}
use sync_rollups.Types.{Action}
use sync_rollups.Types.BigInt.{to_string}
use sync_rollups.Maps.{JsMap, text_key, map_get, map_set, map_has}
use sync_rollups.Dashboard.{
  EventRecord, EventArgs, rollup_created, state_updated, verification_key_updated,
  ownership_transferred, cross_chain_proxy_created, l2_execution_performed, execution_consumed,
  cross_chain_call_executed, l2tx_executed, batch_posted, execution_table_loaded,
  incoming_cross_chain_call_executed,
}
use sync_rollups.Dashboard.UnionFind.{set_add, set_at}
use sync_rollups.Dashboard.Correlation.{zero_hash, links_of, event_to_hashes, event_groups, value}
use sync_rollups.Dashboard.Bundles.{
  BundleStatus, complete, in_progress, TransactionBundle, single, chains_of, infer_direction,
  generate_bundle_title,
}

-- A later event of an id takes the place of an earlier one.
unfoldable pub index_events :
    List EventRecord → JsMap JsString EventRecord → JsMap JsString EventRecord
index_events [] m = m
index_events (e ∷ es) m = index_events es (map_set m e.id e)

unfoldable pub found_events : JsMap JsString EventRecord → List JsString → List EventRecord
found_events index [] = []
found_events index (id ∷ ids) = elim (map_get index id) [
  | none ↦ found_events index ids
  | some e ↦ e ∷ found_events index ids
]

unfoldable pub not_after : EventRecord → EventRecord → Bool
not_after a b =
    if a.block_number == b.block_number
    then leb a.log_index b.log_index
    else ltb a.block_number b.block_number

unfoldable pub lowest : ℕ → List EventRecord → ℕ
lowest n [] = n
lowest n (e ∷ es) = lowest (if ltb e.block_number n then e.block_number else n) es

unfoldable pub highest : ℕ → List EventRecord → ℕ
highest n [] = n
highest n (e ∷ es) = highest (if ltb n e.block_number then e.block_number else n) es

unfoldable pub add_all : List JsString → List JsString → List JsString
unfolding set_add
add_all l [] = l
add_all l (x ∷ xs) = add_all (set_add l x) xs

unfoldable pub all_hashes :
    JsMap JsString (List JsString) → List JsString → List JsString → List JsString
unfolding add_all set_at
all_hashes hashes [] l = l
all_hashes hashes (id ∷ ids) l = all_hashes hashes ids (add_all l (set_at hashes id))

unfoldable pub consumed_hashes : List EventRecord → List JsString
consumed_hashes [] = []
consumed_hashes (e ∷ es) = elim e.args [
  | execution_consumed hash _ ↦ to_lower hash ∷ consumed_hashes es
  | _ ↦ consumed_hashes es
]

-- An entry of a batch without a hash is not loaded.
unfoldable pub loaded_hashes : List EventRecord → List JsString
loaded_hashes [] = []
loaded_hashes (e ∷ es) = elim e.args [
  | batch_posted (some entries) ↦
      map (λ en. to_lower en.action_hash)
        (keep (λ en. not (str_eq en.action_hash zero_hash)) entries)
      ++ loaded_hashes es
  | execution_table_loaded (some entries) ↦
      map (λ en. to_lower en.action_hash) entries ++ loaded_hashes es
  | _ ↦ loaded_hashes es
]

unfoldable pub is_in : List JsString → JsString → Bool
is_in l x = any (λ y. str_eq y x) l

-- Complete if something is loaded and all that is loaded has been consumed.
unfoldable pub status_of : List EventRecord → BundleStatus
unfolding loaded_hashes consumed_hashes is_in
status_of events =
    if not (length (loaded_hashes events) == 0)
      && all (is_in (consumed_hashes events)) (loaded_hashes events)
    then complete
    else in_progress

-- `event.eventName`
unfoldable pub event_name : EventArgs → JsString
event_name (rollup_created _ _ _ _) = codes "RollupCreated"
event_name (state_updated _ _) = codes "StateUpdated"
event_name verification_key_updated = codes "VerificationKeyUpdated"
event_name ownership_transferred = codes "OwnershipTransferred"
event_name (cross_chain_proxy_created _) = codes "CrossChainProxyCreated"
event_name (l2_execution_performed _ _) = codes "L2ExecutionPerformed"
event_name (execution_consumed _ _) = codes "ExecutionConsumed"
event_name (cross_chain_call_executed _ _ _) = codes "CrossChainCallExecuted"
event_name (l2tx_executed _ _) = codes "L2TXExecuted"
event_name (batch_posted _) = codes "BatchPosted"
event_name (execution_table_loaded _) = codes "ExecutionTableLoaded"
event_name (incoming_cross_chain_call_executed _ _) = codes "IncomingCrossChainCallExecuted"

unfoldable pub bundle_id : ℕ → JsString
bundle_id n = codes "bundle-" ++ to_string 10 (pos n)

unfoldable pub bundle_with :
    JsMap JsString (List JsString)
    → ℕ
    → List JsString
    → EventRecord
    → List EventRecord
    → TransactionBundle
bundle_with hashes n ids e es = record {
  id = bundle_id n;
  direction = infer_direction (e ∷ es);
  title = generate_bundle_title (e ∷ es) (infer_direction (e ∷ es));
  action_hashes = all_hashes hashes ids [];
  events = map (λ e. e.id) (e ∷ es);
  chains = chains_of (e ∷ es) [];
  from_block = lowest e.block_number (e ∷ es);
  to_block = highest e.block_number (e ∷ es);
  tx_hashes = add_all [] (map (λ e. e.transaction_hash) (e ∷ es));
  status = status_of (e ∷ es);
}

unfoldable pub bundle_of :
    JsMap JsString EventRecord
    → JsMap JsString (List JsString)
    → ℕ
    → List JsString
    → Option TransactionBundle
unfolding bundle_with
bundle_of index hashes n ids = elim (sort_by not_after (found_events index ids)) [
  | [] ↦ none
  | e ∷ es ↦ some (bundle_with hashes n ids e es)
]

-- The bundles of the groups, numbered, and the next number.
unfoldable pub group_bundles :
    JsMap JsString EventRecord
    → JsMap JsString (List JsString)
    → ℕ
    → List (List JsString)
    → List TransactionBundle × ℕ
unfolding bundle_of
group_bundles index hashes n [] = ([], n)
group_bundles index hashes n (ids ∷ groups) = elim (bundle_of index hashes n ids) [
  | none ↦ group_bundles index hashes n groups
  | some b ↦ let rest = group_bundles index hashes (suc n) groups in (b ∷ rest.0, rest.1)
]

unfoldable pub standalone_bundle : ℕ → EventRecord → TransactionBundle
standalone_bundle n e = record {
  id = bundle_id n;
  direction = single e.chain;
  title = event_name e.args;
  action_hashes = [];
  events = e.id ∷ [];
  chains = e.chain ∷ [];
  from_block = e.block_number;
  to_block = e.block_number;
  tx_hashes = e.transaction_hash ∷ [];
  status = complete;
}

-- One for each event that carries no hash.
unfoldable pub standalone_bundles :
    JsMap JsString (List JsString) → ℕ → List EventRecord → List TransactionBundle
unfolding standalone_bundle
standalone_bundles hashes n [] = []
standalone_bundles hashes n (e ∷ es) = elim (map_has hashes e.id) [
  | true ↦ standalone_bundles hashes n es
  | false ↦ standalone_bundle n e ∷ standalone_bundles hashes (suc n) es
]

abbrev pub starts_first : TransactionBundle → TransactionBundle → Bool
starts_first a b = leb a.from_block b.from_block

unfoldable pub build_transaction_bundles :
    (Action → Outcome JsString) → List EventRecord → List TransactionBundle
build_transaction_bundles action_hash events =
    let links = links_of action_hash events in
    let hashes = event_to_hashes links [] in
    let grouped =
      group_bundles (index_events events []) hashes 0 (map value (event_groups links)) in
    sort_by starts_first (grouped.0 ++ standalone_bundles hashes grouped.1 events)
