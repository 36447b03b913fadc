-- ===== src/EventProcessor/Fetch/InRange.antt =====
-- The events that rollup1/reth-fullnode/event-processor.ts joins from the logs of a block range are
-- from that range.
use sync_rollups.Prelude.{ℕ, ◌≤◌, List, [], ◌∷◌, map, All, All-append}
use sync_rollups.Outcome.Rules.{Ends}
use sync_rollups.Maps.{nat_key}
use sync_rollups.EventProcessor.Services.{StateUpdatedLog, ExecutionLog, ConsumedLog, Services}
use sync_rollups.EventProcessor.Events.{ProcessedEvent, state_event, execution_event, join_events}
use sync_rollups.EventProcessor.Events.Order.{sort_events-All}

-- The logs that L1 answers for a range of blocks are from these blocks.
pub record LogsInRange {W : Type 0} (s : Services W) : Type 0 where
  pub states :
      (a b : ℕ)
      → Ends
          (λ l _. All (λ (x : StateUpdatedLog). (a ≤ x.block_number) × (x.block_number ≤ b)) l)
          (s.state_updated_logs a b)
  pub executions :
      (a b : ℕ)
      → Ends
          (λ l _. All (λ (x : ExecutionLog). (a ≤ x.block_number) × (x.block_number ≤ b)) l)
          (s.execution_logs a b)

abbrev pub InRange : ℕ → ℕ → ProcessedEvent → Type 0
InRange a b e = (a ≤ e.block_number) × (e.block_number ≤ b)

state_event-InRange :
    (a b : ℕ) (l : List StateUpdatedLog)
    → All (λ (x : StateUpdatedLog). (a ≤ x.block_number) × (x.block_number ≤ b)) l
    → All (InRange a b) (map state_event l)
unfolding state_event
state_event-InRange a b [] h = tt
state_event-InRange a b (x ∷ l) (p, h) = (p, state_event-InRange a b l h)

execution_event-InRange :
    (a b : ℕ) (consumed : List ConsumedLog) (l : List ExecutionLog)
    → All (λ (x : ExecutionLog). (a ≤ x.block_number) × (x.block_number ≤ b)) l
    → All (InRange a b) (map (execution_event consumed) l)
unfolding execution_event
execution_event-InRange a b consumed [] h = tt
execution_event-InRange a b consumed (x ∷ l) (p, h) = (p, execution_event-InRange a b consumed l h)

pub join_events-InRange :
    (a b : ℕ) (states : List StateUpdatedLog) (executions : List ExecutionLog)
    (consumed : List ConsumedLog)
    → All (λ (x : StateUpdatedLog). (a ≤ x.block_number) × (x.block_number ≤ b)) states
    → All (λ (x : ExecutionLog). (a ≤ x.block_number) × (x.block_number ≤ b)) executions
    → All (InRange a b) (join_events states executions consumed)
unfolding join_events
join_events-InRange a b states executions consumed h k = sort_events-All (InRange a b) _ (
    All-append (InRange a b) (map state_event states) (map (execution_event consumed) executions)
      (state_event-InRange a b states h) (execution_event-InRange a b consumed executions k))
