-- ===== src/Tests/Fullnode.antt =====
-- rollup1/reth-fullnode/event-processor.ts at concrete inputs.
use sync_rollups.Prelude.{
  ℕ, zero, suc, ◌≤◌, ◌<◌, ◌≡◌, refl, true, false, Bool-cases, inl, inr, JsString, codes, str_eq,
  to_lower, starts_with, ◌==◌, Option, none, some, List, [], ◌∷◌, keep, arith,
}
use sync_rollups.Prelude.Int.{pos}
use sync_rollups.Outcome.{Outcome, ok}
use sync_rollups.Outcome.Rules.{EndsAt, Returns, Always}
use sync_rollups.StateManager.{new_state_manager}
use sync_rollups.Types.BigInt.{to_string, digits, digit_loop}
use sync_rollups.Types.{Action, create_result_action}
use sync_rollups.Maps.{JsMap, map_has, map_get}
use sync_rollups.EventProcessor.{new_event_processor, Checkpoint, Node}
use sync_rollups.EventProcessor.Services.{L1Block}
use sync_rollups.EventProcessor.Events.{is_execution, changes_state, ProcessedEvent, posted_root}
use sync_rollups.EventProcessor.History.{find_checkpoint_before}
use sync_rollups.EventProcessor.History.Checkpoints.{
  IsLatestBefore, find_checkpoint_before-IsLatestBefore,
}
use sync_rollups.EventProcessor.ForkPoint.{
  oldest_from, counts_as_canonical, still_canonical, fork_loop, detect_reorg, oldest_tracked,
}
use sync_rollups.EventProcessor.ForkPoint.Search.{fork_loop_total}
use sync_rollups.EventProcessor.ForkPoint.Detect.{detect_reorg-eq-fork}
use sync_rollups.EventProcessor.Replay.{process_event}
use sync_rollups.EventProcessor.Replay.Tracking.{tracked_root, process_event-Returns}
use sync_rollups.EventProcessor.Batch.{DecodedTx, is_proxy_deploy, has_result, send_with_calls}
use sync_rollups.EventProcessor.Batch.Dropped.{send_with_calls-without_deploys}
use sync_rollups.EventProcessor.Fetch.{ranges, process_runs, sync_state}
use sync_rollups.EventProcessor.Fetch.Ranges.{Covers, ranges-Covers}
use sync_rollups.EventProcessor.Fetch.Order.{
  round_order, last_root, processing_order, process_runs-Returns,
}
use sync_rollups.EventProcessor.Reorg.{go_back, handle_reorg, set_resume_state}
use sync_rollups.EventProcessor.Reorg.Recovery.{
  IsRestored, go_back-Ends, handle_reorg-Returns, Resumed, set_resume_state-Returns,
}
use sync_rollups.Tests.Toy.{l1_hash, toy, fresh, checkpoint, executed}

abbrev a_batch : List (ProcessedEvent × List ProcessedEvent)
a_batch =
    (
      executed 5 0 (codes "a") (codes "b"),
      executed 5 1 (codes "b") (codes "b") ∷ executed 5 2 (codes "b") (codes "c") ∷ [],
    )
    ∷ []

-- The last event of the block posts c; the root that is tracked is b.
batch_root_test : last_root (codes "s") (processing_order a_batch) ≡ codes "b"
unfolding last_root processing_order round_order is_execution changes_state posted_root str_eq
batch_root_test = refl

process_runs-Returns_example :
    Returns
      (λ (n : Node ℕ). tracked_root n ≡ codes "a")
      (λ _ n. tracked_root n ≡ last_root (codes "a") (processing_order a_batch))
      (process_runs toy none a_batch)
process_runs-Returns_example = process_runs-Returns toy none a_batch (codes "a")

process_event-Returns_example :
    Returns Always
      (λ _ (n : Node ℕ). tracked_root n ≡ posted_root (executed 5 0 (codes "a") (codes "b")))
      (process_event toy (executed 5 0 (codes "a") (codes "b")))
process_event-Returns_example = process_event-Returns toy (executed 5 0 (codes "a") (codes "b"))

abbrev two_checkpoints : List Checkpoint
two_checkpoints = checkpoint 3 (codes "a") ∷ checkpoint 5 (codes "b") ∷ []

go_back-Ends_example :
    EndsAt
      (λ _ (n : Node ℕ). IsRestored toy (some (checkpoint 3 (codes "a"))) 0 n.processor)
      (go_back toy (some (checkpoint 3 (codes "a"))) (record { processor = fresh; world = 0 })).0
      (go_back toy (some (checkpoint 3 (codes "a"))) (record { processor = fresh; world = 0 })).1
go_back-Ends_example =
    go_back-Ends toy (some (checkpoint 3 (codes "a"))) (record { processor = fresh; world = 0 })

handle_reorg-Returns_example :
    Returns
      (λ (n : Node ℕ). n.processor.reorg_in_progress ≡ false)
      (λ _ n. n.processor.reorg_in_progress ≡ false)
      (handle_reorg toy 4)
handle_reorg-Returns_example = handle_reorg-Returns toy 4

set_resume_state-Returns_example :
    Returns Always
      (λ _ (n : Node ℕ). Resumed fresh n.processor)
      (set_resume_state (sync_state fresh.next_block fresh))
unfolding new_event_processor new_state_manager
set_resume_state-Returns_example = set_resume_state-Returns fresh 0 refl

find_checkpoint_before-IsLatestBefore_example :
    IsLatestBefore 5 two_checkpoints (find_checkpoint_before 5 two_checkpoints)
find_checkpoint_before-IsLatestBefore_example =
    find_checkpoint_before-IsLatestBefore 5 two_checkpoints ((omega arith, tt), (tt, tt))

fork_loop_total_example :
    (n : ℕ) × ((fork_loop toy ((4, codes "x") ∷ []) 9 0 8 1).0 ≡ some n) × (0 ≤ n) × (n ≤ 8)
fork_loop_total_example =
    fork_loop_total toy ((4, codes "x") ∷ []) 9 0 8 1 (omega arith) (omega arith)

ranges-Covers_example : Covers 5 25000 (ranges 5 25000)
ranges-Covers_example = ranges-Covers 5 25000

abbrev answers : ℕ → Outcome (Option L1Block)
answers n = ok (some (record { hash = l1_hash n; timestamp = n }))

abbrev reorged_history : JsMap ℕ JsString
reorged_history = (4, codes "h4") ∷ (5, codes "x") ∷ []

good_below : (n : ℕ) → n < 5 → counts_as_canonical reorged_history answers n ≡ true
unfolding counts_as_canonical still_canonical map_get str_eq to_string digits digit_loop
good_below zero h = refl
good_below (suc zero) h = refl
good_below (suc (suc zero)) h = refl
good_below (suc (suc (suc zero))) h = refl
good_below (suc (suc (suc (suc zero)))) h = refl
good_below (suc (suc (suc (suc (suc n))))) h = absurd (omega arith)

bad_at_5 : counts_as_canonical reorged_history answers 5 ≡ false
unfolding counts_as_canonical still_canonical map_get str_eq to_string digits digit_loop
bad_at_5 = refl

bad_above : (n : ℕ) → 5 ≤ n → n ≤ 5 → counts_as_canonical reorged_history answers n ≡ false
bad_above n a b = let e : n ≡ 5 = omega arith in rw e bad_at_5

detect_reorg-eq-fork_example : (detect_reorg toy reorged_history 6 0).0 ≡ some 5
unfolding map_has oldest_tracked oldest_from
detect_reorg-eq-fork_example =
    detect_reorg-eq-fork toy answers (λ n w. refl) reorged_history 5 5 0 (refl, (refl, tt)) refl
      (omega arith) (omega arith) good_below bad_above

all_good_at_4 : counts_as_canonical ((4, codes "h4") ∷ []) answers 4 ≡ true
unfolding counts_as_canonical still_canonical map_get str_eq to_string digits digit_loop
all_good_at_4 = refl

all_good : (n : ℕ) → counts_as_canonical ((4, codes "h4") ∷ []) answers n ≡ true
unfolding counts_as_canonical map_get
all_good n = elim (Bool-cases (4 == n)) [
  | inl here ↦ let e : n ≡ 4 = ground arith in rw e all_good_at_4
  | inr other ↦ rw (counts_as_canonical, other) refl
]

abbrev decoded : Option Action → DecodedTx
decoded r = record {
  result = r;
  rlp = codes "0x01";
  tx = record {
    sender = codes "0xa";
    target = some (codes "0xd");
    value = pos 0;
    payload = codes "0x";
  };
}

-- A plain transaction, and one with an L2→L1 call.
abbrev no_deploys : List DecodedTx
no_deploys = decoded none ∷ decoded (some (create_result_action (pos 0) (codes "0x") false)) ∷ []

send_with_calls-without_deploys_example :
    send_with_calls toy (codes "0xc") no_deploys [] (some 9)
    ≡ send_with_calls toy (codes "0xc") (keep has_result no_deploys) [] (some 9)
unfolding is_proxy_deploy str_eq to_lower starts_with
send_with_calls-without_deploys_example =
    send_with_calls-without_deploys toy (codes "0xc") no_deploys [] (some 9) refl
