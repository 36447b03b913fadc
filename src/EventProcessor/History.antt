-- ===== src/EventProcessor/History.antt =====
-- Block hashes and checkpoints of rollup1/reth-fullnode/event-processor.ts.
pub mod Checkpoints
use sync_rollups.Prelude.{
  ℕ, zero, suc, ◌+◌, ◌-◌, ◌*◌, ◌≤◌, ◌<◌, Bool, true, false, JsString, Option, none, some, List, [],
  ◌∷◌, ◌++◌, ltb, leb, length, keep, take, if◌then◌else◌, is_truthy, ◌≡◌, arith,
}
use Prim.Native.Nat.{max}
use sync_rollups.Maps.{JsMap, nat_key, map_get, map_set, map_has, map_delete}
use sync_rollups.EventProcessor.{Checkpoint}

abbrev pub max_reorg_history : ℕ
max_reorg_history = 128

unfoldable pub insert_key : ℕ → List ℕ → List ℕ
insert_key k [] = k ∷ []
insert_key k (j ∷ ks) = if leb k j then k ∷ j ∷ ks else j ∷ insert_key k ks

-- `Array.from(map.keys()).sort((a, b) => a - b)`
unfoldable pub sorted_keys : JsMap ℕ JsString → List ℕ
sorted_keys [] = []
sorted_keys ((k, h) ∷ m) = insert_key k (sorted_keys m)

unfoldable pub delete_keys : List ℕ → JsMap ℕ JsString → JsMap ℕ JsString
delete_keys [] m = m
delete_keys (k ∷ ks) m = delete_keys ks (map_delete m k)

unfoldable pub prune_block_hash_history : JsMap ℕ JsString → JsMap ℕ JsString
prune_block_hash_history m =
    let keys = sorted_keys m in
    if leb (length m) max_reorg_history
    then m
    else delete_keys (take (length keys - max_reorg_history) keys) m

-- `while (checkpoints.length > MAX) checkpoints.shift()`
unfoldable pub bound_checkpoints : List Checkpoint → List Checkpoint
bound_checkpoints [] = []
bound_checkpoints (c ∷ cs) =
    let rest = bound_checkpoints cs in
    if ltb max_reorg_history (length (c ∷ cs)) then rest else c ∷ cs

unfoldable pub push_checkpoint : Checkpoint → List Checkpoint → List Checkpoint
push_checkpoint c cs = bound_checkpoints (cs ++ c ∷ [])

unfoldable pub best_before : ℕ → Option Checkpoint → List Checkpoint → Option Checkpoint
best_before l1_block best [] = best
best_before l1_block best (c ∷ cs) =
    best_before l1_block (if ltb c.l1_block_number l1_block then some c else best) cs

unfoldable pub find_checkpoint_before : ℕ → List Checkpoint → Option Checkpoint
find_checkpoint_before l1_block cs = best_before l1_block none cs

unfoldable pub prune_hashes_from : ℕ → JsMap ℕ JsString → JsMap ℕ JsString
prune_hashes_from l1_block m = keep (λ (e : ℕ × JsString). ltb e.0 l1_block) m

unfoldable pub prune_checkpoints_from : ℕ → List Checkpoint → List Checkpoint
prune_checkpoints_from l1_block cs = keep (λ c. ltb c.l1_block_number l1_block) cs
