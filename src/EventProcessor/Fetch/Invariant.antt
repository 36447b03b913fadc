-- ===== src/EventProcessor/Fetch/Invariant.antt =====
-- The invariant of the block hashes and the checkpoints of
-- rollup1/reth-fullnode/event-processor.ts, and that a fetch keeps it.
use sync_rollups.Prelude.{
  ℕ, suc, ◌≤◌, ◌<◌, ◌≡◌, true, Bool-cases, inl, inr, JsString, is_truthy, List, [], ◌∷◌, ◌++◌,
  length, All, All-append, All-drop, All-map, leb, ◌==◌, arith,
}
use sync_rollups.Maps.{JsMap, nat_key, map_set, map_delete}
use sync_rollups.EventProcessor.{Checkpoint}
use sync_rollups.EventProcessor.History.{
  max_reorg_history, delete_keys, prune_block_hash_history, push_checkpoint,
}
use sync_rollups.EventProcessor.History.Checkpoints.{
  NotBefore, IsChronological, push_checkpoint-IsSaved,
}
use sync_rollups.EventProcessor.ForkPoint.Detect.{HasHashes}

-- The checkpoints are in chronological order, at most 128, and from before the given block.
pub record IsFine (checkpoints : List Checkpoint) (block : ℕ) : Type 0 where
  pub chronological : IsChronological checkpoints
  pub bounded : length checkpoints ≤ max_reorg_history
  pub earlier : All (λ (c : Checkpoint). c.l1_block_number < block) checkpoints

pub IsFine-later : (cs : List Checkpoint) (a b : ℕ) → a ≤ b → IsFine cs a → IsFine cs b
IsFine-later cs a b h f = record {
  chronological = f.chronological;
  bounded = f.bounded;
  earlier =
      All-map (λ (c : Checkpoint). c.l1_block_number < a)
        (λ (c : Checkpoint). c.l1_block_number < b) (λ c q. omega arith) cs f.earlier;
}

pub push_checkpoint-IsFine :
    (c : Checkpoint) (cs : List Checkpoint) (bound : ℕ)
    → bound ≤ suc c.l1_block_number
    → IsFine cs bound
    → IsFine (push_checkpoint c cs) (suc c.l1_block_number)
push_checkpoint-IsFine c cs bound h f =
    let saved = push_checkpoint-IsSaved c cs f.chronological (
      All-map (λ (d : Checkpoint). d.l1_block_number < bound) (λ d. NotBefore d c)
        (λ d q. omega arith) cs f.earlier) in
    record {
      chronological = saved.chronological;
      bounded = saved.bounded;
      earlier = rw saved.suffix (
          All-drop (λ (d : Checkpoint). d.l1_block_number < suc c.l1_block_number) _ (cs ++ c ∷ [])
            (All-append (λ (d : Checkpoint). d.l1_block_number < suc c.l1_block_number) cs (c ∷ [])
              (All-map (λ (d : Checkpoint). d.l1_block_number < bound)
                (λ (d : Checkpoint). d.l1_block_number < suc c.l1_block_number) (λ d q. omega arith)
                cs f.earlier)
              (omega arith, tt)));
    }

pub HasHashes-map_set :
    (m : JsMap ℕ JsString) (k : ℕ) (h : JsString)
    → HasHashes m
    → is_truthy h ≡ true
    → HasHashes (map_set m k h)
unfolding map_set
HasHashes-map_set [] k h a t = (t, tt)
HasHashes-map_set ((j, g) ∷ m) k h (p, a) t = elim (Bool-cases (j == k)) [
  | inl same ↦ rw same (t, a)
  | inr other ↦ rw other (p, HasHashes-map_set m k h a t)
]

HasHashes-map_delete : (m : JsMap ℕ JsString) (k : ℕ) → HasHashes m → HasHashes (map_delete m k)
unfolding map_delete
HasHashes-map_delete [] k a = tt
HasHashes-map_delete ((j, g) ∷ m) k (p, a) = elim (Bool-cases (j == k)) [
  | inl same ↦ rw same (HasHashes-map_delete m k a)
  | inr other ↦ rw other (p, HasHashes-map_delete m k a)
]

HasHashes-delete_keys :
    (ks : List ℕ) (m : JsMap ℕ JsString) → HasHashes m → HasHashes (delete_keys ks m)
unfolding delete_keys
HasHashes-delete_keys [] m a = a
HasHashes-delete_keys (k ∷ ks) m a =
    HasHashes-delete_keys ks (map_delete m k) (HasHashes-map_delete m k a)

pub prune-HasHashes : (m : JsMap ℕ JsString) → HasHashes m → HasHashes (prune_block_hash_history m)
unfolding prune_block_hash_history
prune-HasHashes m a = elim (Bool-cases (leb (length m) max_reorg_history)) [
  | inl few ↦ rw few a
  | inr many ↦ rw many (HasHashes-delete_keys _ m a)
]
