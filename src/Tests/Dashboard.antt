-- ===== src/Tests/Dashboard.antt =====
-- visualizator/dashboard at concrete inputs: a batch on L1 and the consumption of its entry on L2.
use mathlib.Core.List.{Memᴰ}
use sync_rollups.Prelude.{
  false, str_eq_iff, arith, ◌≡◌, refl, true, JsString, str_eq, to_lower, codes, none, some, List,
  [], ◌∷◌, map,
}
use sync_rollups.Prelude.Int.{pos}
use sync_rollups.Outcome.{Outcome, ok, throw}
use sync_rollups.Types.{Action}
use sync_rollups.Dashboard.{EventRecord, l1, l2, batch_posted, execution_consumed, state_updated}
use sync_rollups.Dashboard.Correlation.{
  links_of, event_groups, hashes_of, all_entry_hashes, entry_hashes, links_with, hash_to_events,
  event_to_hashes, value,
}
use sync_rollups.Dashboard.UnionFind.{
  group_ids, union_all, union_ids, union_rest, union, find, follow, with_id, parent_of, collect,
  add_at, set_at, set_add, total,
}
use sync_rollups.Maps.{map_get, map_set, map_has}
use sync_rollups.Dashboard.Correlation.Classes.{IsCorrelation, event_groups-IsCorrelation}
use sync_rollups.Dashboard.Bundles.{TransactionBundle}
use sync_rollups.Dashboard.Bundles.Build.{build_transaction_bundles}
use sync_rollups.Dashboard.Bundles.Build.Lossless.{build_transaction_bundles-HasEvent}
use sync_rollups.Dashboard.Store.{add_event, is_after}
use sync_rollups.Dashboard.Store.Timeline.{IsTimeline, add_event-IsTimeline}
use sync_rollups.Dashboard.Format.{known_selectors}
use sync_rollups.Dashboard.Tables.{
  Mutations, Cache, process_event_for_tables, entries_to_table, entry_to_table_entry,
}
use sync_rollups.Dashboard.Replay.{Replay, replay_event}
use sync_rollups.Dashboard.Replay.Highlights.{ShowsOnly, replay_event-ShowsOnly}
use sync_rollups.Tests.Toy.{entry}

abbrev batch : EventRecord
batch = record {
  id = codes "b";
  chain = l1;
  block_number = 5;
  log_index = 0;
  transaction_hash = codes "t1";
  args = batch_posted (some (entry (codes "0xK") (codes "a") (codes "b") ∷ []));
}

abbrev consumption : EventRecord
consumption = record {
  id = codes "c";
  chain = l2;
  block_number = 7;
  log_index = 1;
  transaction_hash = codes "t2";
  args = execution_consumed (codes "0xk") none;
}

abbrev update : EventRecord
update = record {
  id = codes "u";
  chain = l1;
  block_number = 5;
  log_index = 2;
  transaction_hash = codes "t1";
  args = state_updated (pos 1) (codes "b");
}

abbrev all_events : List EventRecord
all_events = batch ∷ update ∷ consumption ∷ []

abbrev hash_action : Action → Outcome JsString
hash_action a = ok (codes "0xnext")

-- The batch and the consumption are in one group, the update in none.
grouped :
    map value (event_groups (links_of hash_action all_events)) ≡ (codes "b" ∷ codes "c" ∷ []) ∷ []
unfolding event_groups links_of hashes_of all_entry_hashes entry_hashes links_with hash_to_events
    event_to_hashes group_ids union_all union_ids union_rest union find follow with_id parent_of
    collect add_at set_at set_add total map_get map_set map_has str_eq to_lower
grouped = refl

event_groups-IsCorrelation_example :
    IsCorrelation (links_of hash_action all_events) (event_groups (links_of hash_action all_events))
event_groups-IsCorrelation_example = event_groups-IsCorrelation hash_action all_events

build_transaction_bundles-HasEvent_example :
    (b : TransactionBundle) × Memᴰ b (build_transaction_bundles hash_action all_events)
    × Memᴰ (codes "u") b.events
build_transaction_bundles-HasEvent_example =
    build_transaction_bundles-HasEvent hash_action all_events update (Memᴰ.tail (Memᴰ.head refl))

apart : ¬ (false ≡ true)
apart h = cc

-- The update arrives last and is put between the others.
add_event-IsTimeline_example : IsTimeline (add_event (batch ∷ consumption ∷ []) update)
unfolding is_after str_eq
add_event-IsTimeline_example = add_event-IsTimeline (batch ∷ consumption ∷ []) update (
  (
    ((omega arith, λ q. omega (arith, q)), λ q. apart ((str_eq_iff consumption.id batch.id).1 q)),
    tt,
  ),
  (tt, tt),
)

abbrev start : Replay
start = record { l1_table = []; l2_table = []; contract_state = []; cache = [] }

abbrev after_batch : Replay
after_batch = elim (replay_event known_selectors hash_action true batch start) [
  | ok r ↦ r
  | throw _ ↦ start
]

replay_event-ShowsOnly_example :
    (m : Mutations × Cache) × (process_event_for_tables known_selectors hash_action [] batch ≡ ok m)
    × ShowsOnly m.0 after_batch
unfolding replay_event process_event_for_tables entries_to_table entry_to_table_entry str_eq
replay_event-ShowsOnly_example =
    replay_event-ShowsOnly known_selectors hash_action batch start after_batch refl
