-- ===== src/Proofer.antt =====
-- rollup1/proofer/proofer.ts: the service that executes claimed transitions again and signs them.
-- HTTP, and what is printed, are left out; an error's message is a `Refusal`.
pub mod Compare
pub mod Entry
pub mod Prove
use sync_rollups.Prelude.{ℕ, Bool, JsString, Option, List}
use sync_rollups.Prelude.Int.{ℤ}
use sync_rollups.Outcome.Io.{Io}
use sync_rollups.Types.{Action, ExecutionEntry, Preload}
use sync_rollups.Types.Json.{ActionJson, StateDeltaJson, ExecutionEntryJson}

pub record Hint : Type 0 where
  pub action : ActionJson
  pub timestamp : ℕ
  pub source_proxy : Option JsString

pub record EcdsaParams : Type 0 where
  pub target_block_number : ℕ
  pub parent_block_hash : JsString

pub record ProveRequest : Type 0 where
  pub entries : List ExecutionEntryJson
  pub root_actions : List ActionJson
  pub timestamp : Option ℕ
  pub hints : List Hint
  pub batch_signed_txs : List JsString
  pub source_proxies : List (Option JsString)
  pub preload_system_calls : List Preload
  pub ecdsa_params : Option EcdsaParams

-- The `error` of a response, with the index of the entry or hint that it names.
pub data Refusal : Type 0 where
  unequal_lengths no_entries no_state_delta needs_hints hints_missed : Refusal
  hash_mismatch hint_failed no_source_proxy state_mismatch failed_mismatch : ℕ → Refusal
  simulation_failed : ℕ → Refusal
  next_action_mismatch : ℕ → JsString → Refusal
  batch_failed batch_mismatch : Refusal
  unexpected : JsString → Refusal

pub data ProveResponse : Type 0 where
  proved : JsString → ProveResponse
  refused : Refusal → ProveResponse

-- A call of `syncrollups_simulateL1Call`.
pub record L1Call : Type 0 where
  pub source : JsString
  pub target : JsString
  pub value : ℤ
  pub payload : JsString
  pub original_sender : JsString

pub record L1CallResult : Type 0 where
  pub new_state : JsString
  pub failed : Bool

pub record SimulationJson : Type 0 where
  pub success : Bool
  pub state_deltas : List StateDeltaJson
  pub next_action : ActionJson

pub record BatchResult : Type 0 where
  pub success : Bool
  pub new_state : JsString

-- The JSON-RPC methods of the proofer's own fullnode, the clock, and the proof generator.
pub record ProoferServices (W : Type 0) : Type 0 where
  pub get_state_root : Io W JsString
  pub get_actual_state_root : Io W JsString
  pub get_tracked_l2_block : Io W ℕ
  pub take_snapshot : Io W ℕ
  pub revert_to_snapshot : ℕ → Io W (Unit {0})
  pub simulate_l1_call : L1Call → Option ℕ → Io W L1CallResult
  pub speculate_action : ActionJson → Option ℕ → Io W SimulationJson
  pub simulate_action : ActionJson → Option ℕ → Io W SimulationJson
  pub simulate_batch : List JsString → Option ℕ → Io W BatchResult
  pub system_call : JsString → JsString → Option ℕ → Io W (Unit {0})
  pub sleep : ℕ → Io W (Unit {0})
  pub now : Io W ℕ
  pub sign_post_batch_proof : List ExecutionEntry → Option EcdsaParams → Io W JsString
  -- The keccak hash of the ABI encoding.
  pub hash_action : Action → JsString
