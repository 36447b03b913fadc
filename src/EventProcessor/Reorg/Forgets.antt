-- ===== src/EventProcessor/Reorg/Forgets.antt =====
-- After a reorg, rollup1/reth-fullnode/event-processor.ts trusts nothing from the fork on.
use sync_rollups.Prelude.{
  ℕ, ◌<◌, ◌≡◌, true, inl, inr, ◌⊎◌, JsString, Option, none, some, List, All, All-map, ltb, ltb→lt,
  arith,
}
use sync_rollups.Outcome.{Outcome, ok, throw}
use sync_rollups.Outcome.Rules.{Ends, ends_weaken}
use sync_rollups.EventProcessor.{Checkpoint, EventProcessor, Node}
use sync_rollups.EventProcessor.Services.{Services}
use sync_rollups.EventProcessor.History.{find_checkpoint_before}
use sync_rollups.EventProcessor.History.Checkpoints.{
  IsChronological, IsLatestBefore, find_checkpoint_before-IsLatestBefore,
}
use sync_rollups.EventProcessor.Reorg.{go_back}
use sync_rollups.EventProcessor.Reorg.Recovery.{
  IsReset, IsRewound, IsAnswered, IsRestored, unwinding, go_back-Ends,
}

-- What is known is from before the fork, and the block of the fork will be fetched.
pub record Forgets (fork_block : ℕ) (p : EventProcessor) : Type 0 where
  pub next_block : p.next_block < fork_block
  pub block_hash_history : All (λ (e : ℕ × JsString). e.0 < fork_block) p.block_hash_history
  pub checkpoints : All (λ (c : Checkpoint). c.l1_block_number < fork_block) p.checkpoints

IsRewound-Forgets :
    (fork_block : ℕ) (c : Checkpoint) (p : EventProcessor)
    → c.l1_block_number < fork_block
    → IsRewound c p
    → Forgets fork_block p
IsRewound-Forgets fork_block c p h r = record {
  next_block = omega (arith, r.next_block);
  block_hash_history =
      All-map (λ (e : ℕ × JsString). ltb e.0 c.l1_block_number ≡ true)
        (λ (e : ℕ × JsString). e.0 < fork_block)
        (λ e q. omega (arith, ltb→lt e.0 c.l1_block_number q)) p.block_hash_history
        r.block_hash_history;
  checkpoints =
      All-map (λ (d : Checkpoint). ltb d.l1_block_number c.l1_block_number ≡ true)
        (λ (d : Checkpoint). d.l1_block_number < fork_block)
        (λ d q. omega (arith, ltb→lt d.l1_block_number c.l1_block_number q)) p.checkpoints
        r.checkpoints;
}

module _ {W : Type 0} (s : Services W) where
  answered-Forgets :
      (fork_block : ℕ) (c : Checkpoint) (p : EventProcessor) (r : Outcome (Unit {0}))
      → c.l1_block_number < fork_block
      → IsAnswered s c r p
      → IsReset p ⊎ Forgets fork_block p
  answered-Forgets fork_block c p (ok x) h r = inr (IsRewound-Forgets fork_block c p h r)
  answered-Forgets fork_block c p (throw e) h r = inl r

  IsRestored-Forgets :
      (fork_block : ℕ) (cs : List Checkpoint) (o : Option Checkpoint) (w : W) (p : EventProcessor)
      → IsLatestBefore fork_block cs o
      → IsRestored s o w p
      → IsReset p ⊎ Forgets fork_block p
  IsRestored-Forgets fork_block cs none w p h r = inl r
  IsRestored-Forgets fork_block cs (some c) w p (m, lt, h) r =
      answered-Forgets fork_block c p (unwinding s c w) lt r

-- If going back to the checkpoint that is found before a fork does not throw, the processor is as
-- new, or all hashes and checkpoints that it still has are from before the fork and it will fetch
-- from a block before it; the checkpoints must have been in chronological order.
pub go_back-Forgets :
    {W : Type 0} (s : Services W) (fork_block : ℕ) (cs : List Checkpoint)
    → IsChronological cs
    → Ends
        (λ _ (n : Node W). IsReset n.processor ⊎ Forgets fork_block n.processor)
        (go_back s (find_checkpoint_before fork_block cs))
go_back-Forgets s fork_block cs h = record {
  ends = λ n.
      ends_weaken _ _ (go_back s (find_checkpoint_before fork_block cs) n).0 _
        (λ _ m r.
          IsRestored-Forgets s fork_block cs (find_checkpoint_before fork_block cs) n.world
            m.processor (find_checkpoint_before-IsLatestBefore fork_block cs h) r)
        (go_back-Ends s (find_checkpoint_before fork_block cs) n);
}
