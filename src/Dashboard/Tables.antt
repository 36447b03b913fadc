-- ===== src/Dashboard/Tables.antt =====
-- visualizator/dashboard/src/lib/eventProcessor.ts: what an event changes in the tables and in the
-- state that is shown. `computeActionHash` is the hash that viem computes, which may throw; the cache
-- of decoded actions is passed on.
use sync_rollups.Prelude.{
  Bool, not, JsString, codes, str_eq, to_lower, Option, none, some, List, [], ◌∷◌, ◌++◌, map, keep,
  length, ◌==◌, if◌then◌else◌,
}
use sync_rollups.Prelude.Int.{ℤ}
use sync_rollups.Outcome.{◌>>=◌, Outcome, ok}
use sync_rollups.Types.{Action, StateDelta, ExecutionEntry}
use sync_rollups.Types.BigInt.{to_string}
use sync_rollups.Maps.{JsMap, text_key, map_get, map_set}
use sync_rollups.Dashboard.{
  l1, l2, EventRecord, rollup_created, state_updated, l2_execution_performed, execution_consumed,
  batch_posted, execution_table_loaded,
}
use sync_rollups.Dashboard.Correlation.{zero_hash}
use sync_rollups.Dashboard.Store.{ja, TableEntry, Detail}
use sync_rollups.Dashboard.Format.{truncate_hex, join, format_action_fields, action_summary}

pub record ConsumeInfo : Type 0 where
  pub action_hash : JsString
  pub action_detail : Detail

pub record Mutations : Type 0 where
  pub l1_adds : List TableEntry
  pub l2_adds : List TableEntry
  pub l1_consumes : List ConsumeInfo
  pub l2_consumes : List ConsumeInfo

abbrev pub no_mutations : Mutations
no_mutations = record { l1_adds = []; l2_adds = []; l1_consumes = []; l2_consumes = [] }

abbrev pub Cache : Type 0
Cache = JsMap JsString Detail

unfoldable pub delta_text : StateDelta → JsString
unfolding truncate_hex
delta_text d =
    codes "r"
    ++ (to_string 10 d.rollup_id
        ++ (codes ": "
            ++ (truncate_hex 8 d.current_state ++ (codes " -> " ++ truncate_hex 8 d.new_state))))

-- An entry of a batch without a hash is executed at once.
unfoldable pub is_immediate : ExecutionEntry → Bool
is_immediate e = str_eq e.action_hash zero_hash

module _ (known : JsMap JsString JsString) (action_hash : Action → Outcome JsString) where
  unfoldable pub cached_detail : Cache → JsString → Detail
  cached_detail cache hash = elim (map_get cache (to_lower hash)) [
    | some detail ↦ detail
    | none ↦ (codes "actionHash", hash) ∷ []
  ]

  unfoldable pub entry_to_table_entry : Cache → JsString → ExecutionEntry → Outcome TableEntry
  unfolding cached_detail delta_text
  entry_to_table_entry cache event_id e = do
    next ← action_hash e.next_action
    let deltas = map delta_text e.state_deltas
    ok (record {
      id = event_id ++ (codes "-" ++ e.action_hash);
      action_hash = truncate_hex 8 e.action_hash;
      next_action_hash = action_summary known e.next_action;
      delta = if length deltas == 0 then none else some (join (codes "; ") deltas);
      status = ja;
      state_deltas = deltas;
      rollup_ids = map (λ d. d.rollup_id) e.state_deltas;
      action_detail = some (cached_detail cache e.action_hash);
      next_action_detail =
          some ((codes "computedHash", next) ∷ format_action_fields known e.next_action);
      full_action_hash = some e.action_hash;
      full_next_action_hash = some next;
    })

  unfoldable pub entries_to_table :
      Cache → JsString → List ExecutionEntry → Outcome (List TableEntry)
  unfolding entry_to_table_entry
  entries_to_table cache event_id [] = ok []
  entries_to_table cache event_id (e ∷ es) = do
    first ← entry_to_table_entry cache event_id e
    rest ← entries_to_table cache event_id es
    ok (first ∷ rest)

  unfoldable pub detail_of : Option Action → Outcome Detail
  detail_of none = ok []
  detail_of (some a) = do
    hash ← action_hash a
    ok ((codes "computedHash", hash) ∷ format_action_fields known a)

  unfoldable pub remember : Cache → JsString → Detail → Cache
  remember cache hash [] = cache
  remember cache hash (f ∷ fs) = map_set cache (to_lower hash) (f ∷ fs)

  unfoldable pub process_event_for_tables : Cache → EventRecord → Outcome (Mutations × Cache)
  unfolding entries_to_table detail_of remember is_immediate
  process_event_for_tables cache event = elim event.args [
    | batch_posted (some entries) ↦ do
      adds ← entries_to_table cache event.id (keep (λ e. not (is_immediate e)) entries)
      ok (record no_mutations { l1_adds = adds }, cache)
    | execution_table_loaded (some entries) ↦ do
      adds ← entries_to_table cache event.id entries
      ok (record no_mutations { l2_adds = adds }, cache)
    | execution_consumed hash action ↦ do
      detail ← detail_of action
      let info = record { action_hash = hash; action_detail = detail } ∷ []
      ok (
        elim event.chain [
          | l1 ↦ record no_mutations { l1_consumes = info }
          | l2 ↦ record no_mutations { l2_consumes = info }
        ],
        remember cache hash detail,
      )
    | _ ↦ ok (no_mutations, cache)
  ]

-- A key of the state that is shown, and its value.
unfoldable pub state_key : ℤ → JsString → JsString
state_key rollup what = codes "Rollup " ++ (to_string 10 rollup ++ (codes " " ++ what))

unfoldable pub root_update : ℤ → JsString → JsString × JsString
unfolding state_key truncate_hex
root_update rollup root = (state_key rollup (codes "state"), truncate_hex 8 root)

unfoldable pub batch_updates : List ExecutionEntry → List (JsString × JsString)
unfolding root_update is_immediate
batch_updates [] = []
batch_updates (e ∷ es) =
    let rest = batch_updates es in
    if is_immediate e
    then map (λ d. root_update d.rollup_id d.new_state) e.state_deltas ++ rest
    else rest

unfoldable pub extract_rollup_state : EventRecord → List (JsString × JsString)
unfolding root_update batch_updates
extract_rollup_state event = elim event.args [
  | rollup_created rollup owner key initial ↦
      root_update rollup initial
      ∷ (state_key rollup (codes "owner"), owner)
      ∷ (state_key rollup (codes "vk"), truncate_hex 8 key)
      ∷ []
  | state_updated rollup root ↦ root_update rollup root ∷ []
  | l2_execution_performed rollup root ↦ root_update rollup root ∷ []
  | batch_posted (some entries) ↦ batch_updates entries
  | _ ↦ []
]
