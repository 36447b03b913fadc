-- ===== src/EventProcessor/Reorg/Recovery.antt =====
-- What is left of a reorg of L1 and of a restart in rollup1/reth-fullnode/event-processor.ts.
use sync_rollups.Prelude.{
  ℕ, ◌≡◌, refl, Bool, true, false, Bool-cases, inl, inr, JsString, Option, none, some, List, [],
  ◌∷◌, keep, ltb, All, if◌then◌else◌,
}
use sync_rollups.Prelude.Int.{ℤ, pos}
use sync_rollups.Outcome.{Outcome, ok, throw}
use sync_rollups.Outcome.Io.{Io, pure, gets, modify, lift, catching, continue, ◌>>=◌, ◌>>◌}
use sync_rollups.Outcome.Rules.{
  Ends-then, EndsFrom-modify, Ends, EndsAt, Returns, Always, Returns-bind, Returns-pure,
  Returns-modify, Returns-catching, Returns-weaken, Ends-bind, Ends-modify, Anything, Ends-Anything,
}
use sync_rollups.Types.BigInt.{big_int, big_int-to_string10}
use sync_rollups.StateManager.{
  StateManager, restore_state, set_balance, reset_state, clear_execution_cache,
}
use sync_rollups.EventProcessor.{Checkpoint, EventProcessor, Node, on_world}
use sync_rollups.EventProcessor.Services.{Services}
use sync_rollups.EventProcessor.History.{prune_hashes_from, prune_checkpoints_from}
use sync_rollups.EventProcessor.Fetch.{on_processor, sync_state}
use sync_rollups.EventProcessor.Reorg.{
  set_resume_state, restore_tracked, recover_from, handle_reorg, try_unwind, set_reorg_in_progress,
  go_back, resume_from, wipe, rewind_to, reset_processor, prune_from_block,
}

pub keep-All : (A : Type 0) (p : A → Bool) (l : List A) → All (λ a. p a ≡ true) (keep p l)
keep-All A p [] = tt
keep-All A p (a ∷ l) = elim (Bool-cases (p a)) [
  | inl kept ↦ rw kept (kept, keep-All A p l)
  | inr other ↦ rw other (keep-All A p l)
]

-- As new, apart from the engine and the mark of a recovery.
pub record IsReset (p : EventProcessor) : Type 0 where
  pub next_block : p.next_block ≡ p.deployment_block
  pub state_root : p.manager.state.state_root ≡ p.manager.initial_state_root
  pub ether_balance : p.manager.state.ether_balance ≡ pos 0
  pub cache : p.manager.execution_cache ≡ []
  pub block_hash_history : p.block_hash_history ≡ []
  pub checkpoints : p.checkpoints ≡ []

-- At the state of a checkpoint, with nothing known from its block on.
pub record IsRewound (c : Checkpoint) (p : EventProcessor) : Type 0 where
  pub next_block : p.next_block ≡ c.l1_block_number
  pub state_root : p.manager.state.state_root ≡ c.tracked_state_root
  pub ether_balance : big_int c.tracked_ether_balance ≡ ok p.manager.state.ether_balance
  pub block_hash_history :
      All (λ (e : ℕ × JsString). ltb e.0 c.l1_block_number ≡ true) p.block_hash_history
  pub checkpoints :
      All (λ (d : Checkpoint). ltb d.l1_block_number c.l1_block_number ≡ true) p.checkpoints

-- The fields that a restart brings back.
pub record Resumed (p q : EventProcessor) : Type 0 where
  pub next_block : q.next_block ≡ p.next_block
  pub state_root : q.manager.state.state_root ≡ p.manager.state.state_root
  pub ether_balance : q.manager.state.ether_balance ≡ p.manager.state.ether_balance
  pub block_hash_history : q.block_hash_history ≡ p.block_hash_history
  pub checkpoints : q.checkpoints ≡ p.checkpoints

module _ {W : Type 0} where
  abbrev NotBusy : Node W → Type 0
  NotBusy n = n.processor.reorg_in_progress ≡ false

  module _ (s : Services W) where
    recover_from-Returns :
        (fork_block : ℕ) → Returns Always (λ _ (n : Node W). NotBusy n) (recover_from s fork_block)
    unfolding recover_from set_reorg_in_progress
    recover_from-Returns fork_block =
        Returns-bind _ Always Anything _ _ (Returns-modify _ _ Always (λ _ _. tt)) (λ _.
          Returns-bind _ _ Anything _ _
            (Returns-catching _ _ _ (Ends-Anything _) (λ _. Returns-pure _ _ tt (λ _ _. tt)))
            (λ _. Returns-modify _ _ _ (λ _ _. refl)))

    -- A recovery does not throw, whatever fails in it, and the mark of a recovery in progress is
    -- then gone: the next round of polling looks for reorgs again.
    pub handle_reorg-Returns :
        (fork_block : ℕ)
        → Returns (λ (n : Node W). NotBusy n) (λ _ n. NotBusy n) (handle_reorg s fork_block)
    unfolding handle_reorg gets
    handle_reorg-Returns fork_block =
        Returns-bind _ _ (λ _ n. NotBusy n) _ _ (record { returns = λ n q. q })
          (λ busy. unless_busy busy)
      where
        unless_busy :
            (busy : Bool)
            → Returns
                (λ (n : Node W). NotBusy n)
                (λ _ n. NotBusy n)
                (if busy then pure tt else recover_from s fork_block)
        unless_busy true = Returns-pure _ _ tt (λ n q. q)
        unless_busy false = Returns-weaken _ _ _ _ (λ _ _. tt) (recover_from-Returns fork_block)

    wipe-Ends : Ends (λ _ (n : Node W). IsReset n.processor) (wipe s)
    unfolding wipe reset_processor reset_state clear_execution_cache
    wipe-Ends = Ends-bind _ _ _ λ _. Ends-bind _ _ _ λ _. Ends-modify _ _ (λ n. record {
      next_block = refl;
      state_root = refl;
      ether_balance = refl;
      cache = refl;
      block_hash_history = refl;
      checkpoints = refl;
    })

    -- What `restoreState` leaves.
    abbrev Restored : JsString → JsString → Node W → Type 0
    Restored root balance n =
        (n.processor.manager.state.state_root ≡ root)
        × (big_int balance ≡ ok n.processor.manager.state.ether_balance)

    set_balance-Restored :
        (root balance : JsString) (n : Node W) (m : StateManager) (r : Outcome ℤ)
        → m.state.state_root ≡ root
        → big_int balance ≡ r
        → EndsAt
            (λ _ (n : Node W). Restored root balance n)
            (set_balance r m).0
            (on_processor (λ p. record p { manager = (set_balance r m).1 }) n)
    unfolding set_balance
    set_balance-Restored root balance n m (ok b) h e = (h, e)
    set_balance-Restored root balance n m (throw e) h f = tt

    restore_tracked-Ends :
        (root balance : JsString)
        → Ends (λ _ (n : Node W). Restored root balance n) (restore_tracked root balance)
    unfolding restore_tracked restore_state
    restore_tracked-Ends root balance = record {
      ends = λ n. set_balance-Restored root balance n _ (big_int balance) refl refl;
    }

    resume_from-Ends :
        (c : Checkpoint) → Ends (λ _ (n : Node W). IsRewound c n.processor) (resume_from s c)
    unfolding resume_from rewind_to prune_from_block prune_hashes_from prune_checkpoints_from
    resume_from-Ends c = Ends-bind _ _ _ λ _.
        Ends-then _ (λ _ n. Restored c.tracked_state_root c.tracked_ether_balance n) _ _
          (restore_tracked-Ends c.tracked_state_root c.tracked_ether_balance)
          (λ _. EndsFrom-modify _ _ _ (λ n q. record {
            next_block = refl;
            state_root = q.0;
            ether_balance = q.1;
            block_hash_history =
                keep-All _ (λ (e : ℕ × JsString). ltb e.0 c.l1_block_number)
                  n.processor.block_hash_history;
            checkpoints =
                keep-All _ (λ (d : Checkpoint). ltb d.l1_block_number c.l1_block_number)
                  n.processor.checkpoints;
          }))

    -- The answer of reth when it is asked, with the engine stopped, to unwind to a checkpoint.
    abbrev pub unwinding : Checkpoint → W → Outcome (Unit {0})
    unwinding c w = (s.unwind_to_block c.l2_block_number (s.stop_engine w).1).0

    -- What going back to a checkpoint must leave, after this answer.
    abbrev pub IsAnswered : Checkpoint → Outcome (Unit {0}) → EventProcessor → Type 0
    IsAnswered c r p = elim r [ ok _ ↦ IsRewound c p | throw _ ↦ IsReset p ]

    -- What going back must leave, from a given state of the outside.
    abbrev pub IsRestored : Option Checkpoint → W → EventProcessor → Type 0
    IsRestored none w p = IsReset p
    IsRestored (some c) w p = IsAnswered c (unwinding c w) p

    -- Going back once reth has answered `r`.
    abbrev answered : Checkpoint → Outcome (Unit {0}) → Io (Node W) (Unit {0})
    answered c r =
        catching (lift r >> pure true) (λ e. pure false)
        >>= (λ unwound. if unwound then resume_from s c else wipe s)

    answered-Ends :
        (c : Checkpoint) (r : Outcome (Unit {0}))
        → Ends (λ _ (m : Node W). IsAnswered c r m.processor) (answered c r)
    unfolding ◌>>=◌ catching pure lift
    answered-Ends c (ok x) = record { ends = λ n. (resume_from-Ends c).ends n }
    answered-Ends c (throw e) = record { ends = λ n. wipe-Ends.ends n }

    stopped :
        (P : Unit {0} → Node W → Type 0) (q : Outcome (Unit {0})) (m : Io (Node W) (Unit {0}))
        (n : Node W)
        → EndsAt P (m n).0 (m n).1
        → EndsAt P (continue q (λ _. m) n).0 (continue q (λ _. m) n).1
    stopped P (ok x) m n h = h
    stopped P (throw e) m n h = tt

    -- If going back does not throw, then without a checkpoint the tracked state and the history are
    -- those of a new processor. With a checkpoint it depends on whether reth, once its engine has
    -- been stopped, unwinds to the block of the checkpoint: if it does, the node has the root and
    -- the balance of the checkpoint, will fetch from its block on, and has forgotten every hash and
    -- checkpoint from that block on; if it does not, all is as for a new processor.
    pub go_back-Ends :
        (checkpoint : Option Checkpoint) (n : Node W)
        → EndsAt
            (λ _ (m : Node W). IsRestored checkpoint n.world m.processor)
            (go_back s checkpoint n).0
            (go_back s checkpoint n).1
    unfolding go_back ◌>>=◌ try_unwind catching on_world pure lift
    go_back-Ends none n =
        stopped _ (s.stop_engine n.world).0 (wipe s) _
          (wipe-Ends.ends (record n { world = (s.stop_engine n.world).1 }))
    go_back-Ends (some c) n =
        let stop = s.stop_engine n.world in
        let unwind = s.unwind_to_block c.l2_block_number stop.1 in
        stopped _ stop.0
          (try_unwind s c.l2_block_number
            >>= (λ unwound. if unwound then resume_from s c else wipe s))
          (record n { world = stop.1 })
          ((answered-Ends c unwind.0).ends (record n { world = unwind.1 }))

  -- Resuming, in any node, from what was saved of a processor whose balance is not negative does
  -- not throw, and brings back its next block, root, balance, block hashes and checkpoints.
  pub set_resume_state-Returns :
      (p : EventProcessor) (balance : ℕ)
      → p.manager.state.ether_balance ≡ pos balance
      → Returns Always
          (λ _ (n : Node W). Resumed p n.processor)
          (set_resume_state (sync_state p.next_block p))
  unfolding set_resume_state restore_tracked restore_state set_balance sync_state ◌>>=◌ modify
  set_resume_state-Returns p balance h = record {
    returns = λ n _.
        rw (h, big_int-to_string10 balance)
          (record {
            next_block = refl;
            state_root = refl;
            ether_balance = refl;
            block_hash_history = refl;
            checkpoints = refl;
          });
  }
