-- ===== src/EventProcessor/History/Checkpoints.antt =====
-- The checkpoints of rollup1/reth-fullnode/event-processor.ts: how many are kept, which is found.
use mathlib.Core.List.{Memᴰ}
use mathlib.Core.Path.{subst}
use sync_rollups.Prelude.{
  ℕ, zero, suc, ◌-◌, ◌≤◌, ◌<◌, ◌≡◌, refl, ap, sym, ◌∙◌, arith, Bool-cases, inl, inr, Option, none,
  some, List, [], ◌∷◌, ◌++◌, length, length-append, length-drop, All, All-append, ltb, drop,
}
use sync_rollups.EventProcessor.{Checkpoint}
use sync_rollups.EventProcessor.History.{
  max_reorg_history, bound_checkpoints, push_checkpoint, best_before, find_checkpoint_before,
}

abbrev pub NotBefore : Checkpoint → Checkpoint → Type 0
NotBefore c d = c.l1_block_number ≤ d.l1_block_number

abbrev pub IsChronological : List Checkpoint → Type 0
IsChronological [] = Unit
IsChronological (c ∷ cs) = All (NotBefore c) cs × IsChronological cs

suc-sub : (n : ℕ) → max_reorg_history ≤ n → suc (n - max_reorg_history) ≡ suc n - max_reorg_history
suc-sub n h = omega arith

sub-eq-zero : (n : ℕ) → n ≤ max_reorg_history → 0 ≡ n - max_reorg_history
sub-eq-zero n h = omega arith

bound_checkpoints-eq-drop :
    (cs : List Checkpoint) → bound_checkpoints cs ≡ drop (length cs - max_reorg_history) cs
unfolding bound_checkpoints
bound_checkpoints-eq-drop [] = refl
bound_checkpoints-eq-drop (c ∷ cs) = elim (Bool-cases (ltb max_reorg_history (length (c ∷ cs)))) [
  | inl over ↦ rw over (
      bound_checkpoints-eq-drop cs ∙ ap (λ n. drop n (c ∷ cs)) (suc-sub (length cs) (ground arith)))
  | inr fits ↦ rw fits (ap (λ n. drop n (c ∷ cs)) (sub-eq-zero (suc (length cs)) (ground arith)))
]

IsChronological-drop :
    (n : ℕ) (cs : List Checkpoint) → IsChronological cs → IsChronological (drop n cs)
IsChronological-drop zero cs h = h
IsChronological-drop (suc n) [] h = h
IsChronological-drop (suc n) (c ∷ cs) (_, h) = IsChronological-drop n cs h

IsChronological-append :
    (cs : List Checkpoint) (c : Checkpoint)
    → IsChronological cs
    → All (λ d. NotBefore d c) cs
    → IsChronological (cs ++ c ∷ [])
IsChronological-append [] c h k = (tt, tt)
IsChronological-append (d ∷ cs) c (a, h) (p, k) =
    (All-append (NotBefore d) cs (c ∷ []) a (p, tt), IsChronological-append cs c h k)

-- What a save leaves: the latest 128 checkpoints, the new one last, in chronological order.
pub record IsSaved (c : Checkpoint) (cs result : List Checkpoint) : Type 0 where
  pub suffix : result ≡ drop (suc (length cs) - max_reorg_history) (cs ++ c ∷ [])
  pub bounded : length result ≤ max_reorg_history
  pub chronological : IsChronological result

-- Saving a checkpoint that is not before those of a chronological list leaves the latest 128 of
-- them all, in chronological order, the new one last.
pub push_checkpoint-IsSaved :
    (c : Checkpoint) (cs : List Checkpoint)
    → IsChronological cs
    → All (λ d. NotBefore d c) cs
    → IsSaved c cs (push_checkpoint c cs)
unfolding push_checkpoint
push_checkpoint-IsSaved c cs h k =
    rw (bound_checkpoints-eq-drop (cs ++ c ∷ []), length-append cs (c ∷ []))
      (record {
        suffix = ap (λ n. drop n (cs ++ c ∷ [])) (omega arith);
        bounded = omega (arith, length-drop {0}, length-append {0});
        chronological = IsChronological-drop _ (cs ++ c ∷ []) (IsChronological-append cs c h k);
      })

-- The answer to `findCheckpointBefore(block)`: a checkpoint below the block with none between, or
-- null where no checkpoint is below.
abbrev pub IsLatestBefore : ℕ → List Checkpoint → Option Checkpoint → Type 0
IsLatestBefore block cs none = All (λ d. block ≤ d.l1_block_number) cs
IsLatestBefore block cs (some c) =
    Memᴰ c cs
    × (c.l1_block_number < block)
    × All (λ d. d.l1_block_number < block → NotBefore d c) cs

All-at :
    (P : Checkpoint → Type 0) (c : Checkpoint) (cs : List Checkpoint) → Memᴰ c cs → All P cs → P c
All-at P c [] m h = elim m [ ]
All-at P c (d ∷ cs) (Memᴰ.head e) (p, h) = subst P (sym e) p
All-at P c (d ∷ cs) (Memᴰ.tail m) (p, h) = All-at P c cs m h

module _ (block : ℕ) where
  -- A checkpoint at or after the block changes nothing.
  later_first :
      (d : Checkpoint) (cs : List Checkpoint) (r : Option Checkpoint)
      → block ≤ d.l1_block_number
      → IsLatestBefore block cs r
      → IsLatestBefore block (d ∷ cs) r
  later_first d cs none le h = (le, h)
  later_first d cs (some c) le (m, lt, h) = (Memᴰ.tail m, lt, (λ p. absurd (omega arith), h))

  later_second :
      (a d : Checkpoint) (cs : List Checkpoint) (r : Option Checkpoint)
      → block ≤ d.l1_block_number
      → IsLatestBefore block (a ∷ cs) r
      → IsLatestBefore block (a ∷ d ∷ cs) r
  later_second a d cs none le (p, h) = (p, (le, h))
  later_second a d cs (some c) le (m, lt, (p, h)) =
      (swap_mem m, lt, (p, (λ q. absurd (omega arith), h)))
    where
      swap_mem : Memᴰ c (a ∷ cs) → Memᴰ c (a ∷ d ∷ cs)
      swap_mem (Memᴰ.head e) = Memᴰ.head e
      swap_mem (Memᴰ.tail t) = Memᴰ.tail (Memᴰ.tail t)

  earlier_first :
      (a d : Checkpoint) (cs : List Checkpoint) (r : Option Checkpoint)
      → d.l1_block_number < block
      → All (NotBefore a) (d ∷ cs)
      → IsLatestBefore block (d ∷ cs) r
      → IsLatestBefore block (a ∷ d ∷ cs) r
  earlier_first a d cs none lt n (p, h) = absurd (omega arith)
  earlier_first a d cs (some c) lt n (m, p, h) =
      (Memᴰ.tail m, p, (λ _. All-at (NotBefore a) c (d ∷ cs) m n, h))

  best_before-some :
      (a : Checkpoint) (cs : List Checkpoint)
      → a.l1_block_number < block
      → IsChronological (a ∷ cs)
      → IsLatestBefore block (a ∷ cs) (best_before block (some a) cs)
  unfolding best_before
  best_before-some a [] lt h = (Memᴰ.head refl, lt, ((λ _. omega arith), tt))
  best_before-some a (d ∷ cs) lt ((n, ns), (ds, h)) =
      elim (Bool-cases (ltb d.l1_block_number block)) [
        | inl early ↦ rw early (
            earlier_first a d cs _ (ground arith) (n, ns)
              (best_before-some d cs (ground arith) (ds, h)))
        | inr late ↦
            rw late (later_second a d cs _ (ground arith) (best_before-some a cs lt (ns, h)))
      ]

  best_before-none :
      (cs : List Checkpoint)
      → IsChronological cs
      → IsLatestBefore block cs (best_before block none cs)
  unfolding best_before
  best_before-none [] h = tt
  best_before-none (d ∷ cs) (ds, h) = elim (Bool-cases (ltb d.l1_block_number block)) [
    | inl early ↦ rw early (best_before-some d cs (ground arith) (ds, h))
    | inr late ↦ rw late (later_first d cs _ (ground arith) (best_before-none cs h))
  ]

-- In a chronological list of checkpoints `findCheckpointBefore` finds the latest one below the
-- block, and none only if none is below it.
pub find_checkpoint_before-IsLatestBefore :
    (block : ℕ) (cs : List Checkpoint)
    → IsChronological cs
    → IsLatestBefore block cs (find_checkpoint_before block cs)
unfolding find_checkpoint_before
find_checkpoint_before-IsLatestBefore block cs h = best_before-none block cs h
