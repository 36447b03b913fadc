-- ===== src/Dashboard/Bundles.antt =====
-- The bundles of `buildTransactionBundles` in
-- visualizator/dashboard/src/lib/crossChainCorrelation.ts, made of the groups of events.
pub mod Build
use sync_rollups.Prelude.{
  ℕ, ◌++◌, Bool, true, false, ◌&&◌, JsString, codes, Option, none, some, List, [], ◌∷◌, keep, any,
  take, length, ◌==◌, if◌then◌else◌,
}
use sync_rollups.Types.BigInt.{to_string}
use sync_rollups.Maps.{text_key}
use sync_rollups.Dashboard.{
  Chain, l1, l2, EventRecord, execution_consumed, cross_chain_call_executed, l2tx_executed,
  batch_posted, execution_table_loaded, incoming_cross_chain_call_executed,
}

pub data BundleDirection : Type 0 where
  l1_to_l2 l2_to_l1 l1_to_l2_to_l1 l2_to_l1_to_l2 only_l1 only_l2 mixed : BundleDirection

pub data BundleStatus : Type 0 where
  complete in_progress : BundleStatus

pub record TransactionBundle : Type 0 where
  pub id : JsString
  pub direction : BundleDirection
  pub title : JsString
  pub action_hashes : List JsString
  pub events : List JsString
  pub chains : List Chain
  pub from_block : ℕ
  pub to_block : ℕ
  pub tx_hashes : List JsString
  pub status : BundleStatus

unfoldable pub same_chain : Chain → Chain → Bool
same_chain l1 l1 = true
same_chain l2 l2 = true
same_chain _ _ = false

unfoldable pub add_chain : List Chain → Chain → List Chain
unfolding same_chain
add_chain l c = if any (λ d. same_chain d c) l then l else l ++ (c ∷ [])

unfoldable pub chains_of : List EventRecord → List Chain → List Chain
unfolding add_chain
chains_of [] l = l
chains_of (e ∷ es) l = chains_of es (add_chain l e.chain)

unfoldable pub single : Chain → BundleDirection
single l1 = only_l1
single l2 = only_l2

unfoldable pub is_action : EventRecord → Bool
is_action e = elim e.args [
  | execution_consumed _ _ ↦ true
  | cross_chain_call_executed _ _ _ ↦ true
  | l2tx_executed _ _ ↦ true
  | incoming_cross_chain_call_executed _ _ ↦ true
  | _ ↦ false
]

-- The chains of the actions, where equal neighbours count once.
unfoldable pub chain_sequence : List EventRecord → Option Chain → List Chain
unfolding same_chain
chain_sequence [] before = []
chain_sequence (e ∷ es) none = e.chain ∷ chain_sequence es (some e.chain)
chain_sequence (e ∷ es) (some c) =
    let rest = chain_sequence es (some e.chain) in
    if same_chain c e.chain then rest else e.chain ∷ rest

unfoldable pub setup_direction : List Chain → BundleDirection
unfolding single
setup_direction (c ∷ []) = single c
setup_direction _ = mixed

unfoldable pub sequence_direction : List Chain → BundleDirection
unfolding single
sequence_direction (c ∷ []) = single c
sequence_direction (l1 ∷ l2 ∷ []) = l1_to_l2
sequence_direction (l2 ∷ l1 ∷ []) = l2_to_l1
sequence_direction (l1 ∷ l2 ∷ l1 ∷ []) = l1_to_l2_to_l1
sequence_direction (l2 ∷ l1 ∷ l2 ∷ []) = l2_to_l1_to_l2
sequence_direction _ = mixed

unfoldable pub infer_direction : List EventRecord → BundleDirection
unfolding is_action chain_sequence chains_of setup_direction sequence_direction
infer_direction events =
    let actions = keep is_action events in
    if length actions == 0
    then setup_direction (chains_of events [])
    else sequence_direction (chain_sequence actions none)

unfoldable pub direction_text : BundleDirection → JsString
direction_text l1_to_l2 = codes "L1->L2"
direction_text l2_to_l1 = codes "L2->L1"
direction_text l1_to_l2_to_l1 = codes "L1->L2->L1"
direction_text l2_to_l1_to_l2 = codes "L2->L1->L2"
direction_text only_l1 = codes "L1"
direction_text only_l2 = codes "L2"
direction_text mixed = codes "mixed"

-- The titles of the most descriptive events come first; the number is the rank.
unfoldable pub title_of : EventRecord → Option (ℕ × JsString)
title_of e = elim e.args [
  | cross_chain_call_executed _ proxy source ↦ some (
    0,
    codes "Cross-chain call "
        ++ (take 8 source ++ (codes "... via proxy " ++ (take 8 proxy ++ codes "..."))),
  )
  | l2tx_executed _ rollup ↦
      some (1, codes "L2TX execution (rollup " ++ (to_string 10 rollup ++ codes ")"))
  | incoming_cross_chain_call_executed _ destination ↦
      some (2, codes "Incoming cross-chain call to " ++ (take 8 destination ++ codes "..."))
  | _ ↦ none
]

-- `events.find(...)` of the kind with the rank.
unfoldable pub first_title : ℕ → List EventRecord → Option JsString
first_title rank [] = none
first_title rank (e ∷ es) = elim (title_of e) [
  | none ↦ first_title rank es
  | some title ↦ if title.0 == rank then some title.1 else first_title rank es
]

unfoldable pub is_batch : EventRecord → Bool
is_batch e = elim e.args [ batch_posted _ ↦ true | _ ↦ false ]

unfoldable pub is_load : EventRecord → Bool
is_load e = elim e.args [ execution_table_loaded _ ↦ true | _ ↦ false ]

unfoldable pub setup_title : List EventRecord → BundleDirection → JsString
unfolding is_batch is_load
setup_title events direction =
    if any is_batch events && any is_load events
    then direction_text direction ++ codes " cross-chain batch"
    else if any is_batch events
    then codes "Batch posted"
    else if any is_load events
    then codes "Execution table loaded"
    else direction_text direction ++ codes " transaction"

unfoldable pub generate_bundle_title : List EventRecord → BundleDirection → JsString
unfolding first_title setup_title
generate_bundle_title events direction = elim (first_title 0 events) [
  | some title ↦ title
  | none ↦ elim (first_title 1 events) [
    | some title ↦ title
    | none ↦ elim (first_title 2 events) [
      | some title ↦ title
      | none ↦ setup_title events direction
    ]
  ]
]
