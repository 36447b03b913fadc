-- ===== src/Tests/Polling.antt =====
-- The invariant of polling and the order of events, at concrete inputs.
use sync_rollups.EventProcessor.Fetch.InRange.{LogsInRange}
use sync_rollups.Outcome.Rules.{Ends}
use sync_rollups.Prelude.{◌⊎◌, ℕ, ◌≤◌, Bool-cases, inl, inr, leb, List, [], ◌∷◌, All, arith, codes}
use sync_rollups.Outcome.Leaves.{Leaves}
use sync_rollups.EventProcessor.Services.{StateUpdatedLog, ExecutionLog, ConsumedLog}
use sync_rollups.Prelude.Int.{pos}
use sync_rollups.Types.{create_l2tx_action}
use sync_rollups.EventProcessor.Events.{ProcessedEvent}
use sync_rollups.EventProcessor.Fetch.Preserved.{WellFormed}
use sync_rollups.EventProcessor.History.{find_checkpoint_before}
use sync_rollups.EventProcessor.Reorg.{poll, go_back}
use sync_rollups.EventProcessor.Reorg.Recovery.{IsReset}
use sync_rollups.EventProcessor.Reorg.Forgets.{Forgets, go_back-Forgets}
use sync_rollups.EventProcessor.Reorg.Invariant.{poll-Leaves}
use sync_rollups.EventProcessor.{Node, new_event_processor}
use sync_rollups.Tests.Toy.{executed, posted, checkpoint, toy, toy_logs, fresh}

toy_logs-InRange :
    (a b : ℕ)
    → All (λ (x : StateUpdatedLog). (a ≤ x.block_number) × (x.block_number ≤ b)) (toy_logs a b)
toy_logs-InRange a b = elim (Bool-cases (leb a b)) [
  | inl fits ↦ rw fits ((ground arith, omega arith), tt)
  | inr empty ↦ rw empty tt
]

toy-LogsInRange : LogsInRange toy
toy-LogsInRange = record {
  states = λ a b. record { ends = λ w. toy_logs-InRange a b };
  executions = λ a b. record { ends = λ w. tt };
}

-- A new processor is well-formed.
fresh-WellFormed : WellFormed {W = ℕ} (record { processor = fresh; world = 0 })
unfolding new_event_processor
fresh-WellFormed = (tt, record { chronological = tt; bounded = omega arith; earlier = tt })

poll-Leaves_example : Leaves (WellFormed {W = ℕ}) WellFormed (poll toy)
poll-Leaves_example = poll-Leaves toy toy-LogsInRange

abbrev some_executions : List ExecutionLog
some_executions =
    record {
      block_number = 3;
      log_index = 0;
      transaction_hash = codes "t";
      current_state = codes "a";
      new_state = codes "b";
    }
    ∷ []

abbrev some_actions : List ConsumedLog
some_actions =
    record {
      transaction_hash = codes "t";
      action_hash = codes "k";
      action = create_l2tx_action (pos 1) (codes "0x02");
    }
    ∷ []

abbrev three_events : List ProcessedEvent
three_events =
    executed 5 0 (codes "a") (codes "b")
    ∷ executed 5 1 (codes "b") (codes "c")
    ∷ posted 6 0 (codes "d")
    ∷ []

go_back-Forgets_example :
    Ends
      (λ _ (n : Node ℕ). IsReset n.processor ⊎ Forgets 4 n.processor)
      (go_back toy
        (find_checkpoint_before 4 (checkpoint 3 (codes "a") ∷ checkpoint 5 (codes "b") ∷ [])))
go_back-Forgets_example =
    go_back-Forgets toy 4 (checkpoint 3 (codes "a") ∷ checkpoint 5 (codes "b") ∷ [])
      ((omega arith, tt), (tt, tt))
