-- ===== src/EventProcessor/Events/Rounds.antt =====
-- The rounds that the loop over the events of rollup1/reth-fullnode/event-processor.ts makes.
use sync_rollups.Prelude.{
  ap, refl, sym, ◌∙◌, ◌↔◌, length-append, ℕ, zero, suc, ◌≤◌, ◌≡◌, true, false, Bool-cases, inl, inr,
  List, [], ◌∷◌, ◌++◌, length, All, All-map, arith,
}
use sync_rollups.EventProcessor.Events.{
  ProcessedEvent, EventArgs, Execution, l2_execution_performed, state_updated, is_execution, joins,
  take_run, more_events, runs_loop, runs_of,
}
use sync_rollups.EventProcessor.Events.Order.{Precedes, IsOrdered}

abbrev pub concat : List (ProcessedEvent × List ProcessedEvent) → List ProcessedEvent
concat [] = []
concat ((e, l) ∷ runs) = e ∷ l ++ concat runs

abbrev pub IsExecution : ProcessedEvent → Type 0
IsExecution e = (x : Execution) × (e.args ≡ l2_execution_performed x)

-- Both are executions, and in the same block.
abbrev pub SameBatch : ProcessedEvent → ProcessedEvent → Type 0
SameBatch e f = IsExecution e × IsExecution f × (e.block_number ≡ f.block_number)

-- The next event, if there is one, does not belong to the round of this event.
abbrev pub Stops : ProcessedEvent → List ProcessedEvent → Type 0
Stops e [] = Unit
Stops e (f ∷ l) = SameBatch e f → ⊥

abbrev pub Maximal : List (ProcessedEvent × List ProcessedEvent) → Type 0
Maximal [] = Unit
Maximal (run ∷ runs) = Stops run.0 (concat runs) × Maximal runs

-- What rounds over the events of a list must be.
pub record IsGrouping (l : List ProcessedEvent) (runs : List (ProcessedEvent × List ProcessedEvent))
    : Type 0 where
  pub in_order : concat runs ≡ l
  pub alike : All (λ (run : ProcessedEvent × List ProcessedEvent). All (SameBatch run.0) run.1) runs
  pub maximal : Maximal runs

is_l2 :
    (a : EventArgs)
    → ((elim a [ state_updated _ ↦ false | l2_execution_performed _ ↦ true ]) ≡ true)
      ↔ ((x : Execution) × (a ≡ l2_execution_performed x))
is_l2 (state_updated root) = (λ h. cc, λ h. let (x, q) = h in cc)
is_l2 (l2_execution_performed x) = (λ h. (x, refl), λ h. refl)

is_execution_iff : (e : ProcessedEvent) → (is_execution e ≡ true) ↔ IsExecution e
unfolding is_execution
is_execution_iff e = is_l2 e.args

joins_iff :
    (e f : ProcessedEvent) → is_execution e ≡ true → (joins e.block_number f ≡ true) ↔ SameBatch e f
unfolding joins
joins_iff e f h = (
  λ j. ((is_execution_iff e).0 h, (is_execution_iff f).0 (ground (arith, j)), ground (arith, j)),
  λ s. let (x, y, q) = s in ground (arith, (is_execution_iff f).1 y, q),
)

-- What the inner loop takes and leaves.
record IsTaken (e : ProcessedEvent) (l : List ProcessedEvent)
    (taken : List ProcessedEvent × List ProcessedEvent) : Type 0 where
  in_order : taken.0 ++ taken.1 ≡ l
  alike : All (SameBatch e) taken.0
  stops : Stops e taken.1

take_run-IsTaken :
    (e : ProcessedEvent) (l : List ProcessedEvent)
    → is_execution e ≡ true
    → IsTaken e l (take_run e.block_number l)
unfolding take_run
take_run-IsTaken e [] h = record { in_order = refl; alike = tt; stops = tt }
take_run-IsTaken e (f ∷ l) h =
    let rest = take_run-IsTaken e l h in
    elim (Bool-cases (joins e.block_number f)) [
      | inl same ↦ rw same (record {
        in_order = ap (λ k. f ∷ k) rest.in_order;
        alike = ((joins_iff e f h).0 same, rest.alike);
        stops = rest.stops;
      })
      | inr other ↦ rw other (record {
        in_order = refl;
        alike = tt;
        stops = λ s. absurd (ground (arith, (joins_iff e f h).1 s));
      })
    ]

no_batch-Stops : (e : ProcessedEvent) (l : List ProcessedEvent) → is_execution e ≡ false → Stops e l
no_batch-Stops e [] h = tt
no_batch-Stops e (f ∷ l) h = λ s. absurd (ground (arith, (is_execution_iff e).1 s.0))

more_events-IsTaken : (e : ProcessedEvent) (l : List ProcessedEvent) → IsTaken e l (more_events e l)
unfolding more_events
more_events-IsTaken e l = elim (Bool-cases (is_execution e)) [
  | inl execution ↦ rw execution (take_run-IsTaken e l execution)
  | inr update ↦
      rw update (record { in_order = refl; alike = tt; stops = no_batch-Stops e l update })
]

left_over : (k l m : List ProcessedEvent) → k ++ l ≡ m → length l ≤ length m
left_over k l m h = rw (sym h, length-append k l) (omega arith)

runs_loop-IsGrouping :
    (fuel : ℕ) (l : List ProcessedEvent) → length l ≤ fuel → IsGrouping l (runs_loop fuel l)
unfolding runs_loop
runs_loop-IsGrouping zero [] h = record { in_order = refl; alike = tt; maximal = tt }
runs_loop-IsGrouping zero (e ∷ l) h = absurd (omega (arith, h))
runs_loop-IsGrouping (suc fuel) [] h = record { in_order = refl; alike = tt; maximal = tt }
runs_loop-IsGrouping (suc fuel) (e ∷ l) h =
    let taken = more_events-IsTaken e l in
    let rest =
      runs_loop-IsGrouping fuel (more_events e l).1
        (omega (arith, h, left_over (more_events e l).0 (more_events e l).1 l taken.in_order)) in
    record {
      in_order =
          ap (λ k. e ∷ k) (ap (λ k. (more_events e l).0 ++ k) rest.in_order ∙ taken.in_order);
      alike = (taken.alike, rest.alike);
      maximal = (rw rest.in_order taken.stops, rest.maximal);
    }

pub runs_of-IsGrouping : (l : List ProcessedEvent) → IsGrouping l (runs_of l)
unfolding runs_of
runs_of-IsGrouping l = runs_loop-IsGrouping (length l) l (omega arith)

-- The first events of the rounds do not go back to an earlier block, nor before the given one.
abbrev pub RunsFrom : ℕ → List (ProcessedEvent × List ProcessedEvent) → Type 0
RunsFrom block [] = Unit
RunsFrom block (run ∷ runs) = (block ≤ run.0.block_number) × RunsFrom run.0.block_number runs

IsOrdered-after : (k l : List ProcessedEvent) → IsOrdered (k ++ l) → IsOrdered l
IsOrdered-after [] l h = h
IsOrdered-after (e ∷ k) l h = IsOrdered-after k l h.1

All-after : (P : ProcessedEvent → Type 0) (k l : List ProcessedEvent) → All P (k ++ l) → All P l
All-after P [] l h = h
All-after P (e ∷ k) l h = All-after P k l h.1

concat-RunsFrom :
    (block : ℕ) (runs : List (ProcessedEvent × List ProcessedEvent))
    → IsOrdered (concat runs)
    → All (λ f. block ≤ f.block_number) (concat runs)
    → RunsFrom block runs
concat-RunsFrom block [] h k = tt
concat-RunsFrom block ((e, l) ∷ runs) (h, o) (p, k) = (
  p,
  concat-RunsFrom e.block_number runs (IsOrdered-after l (concat runs) o) (
      All-after (λ f. e.block_number ≤ f.block_number) l (concat runs)
        (All-map (Precedes e) (λ f. e.block_number ≤ f.block_number) (λ f q. q.0) (l ++ concat runs)
          h)),
)

pub runs_of-RunsFrom :
    (block : ℕ) (l : List ProcessedEvent)
    → IsOrdered l
    → All (λ f. block ≤ f.block_number) l
    → RunsFrom block (runs_of l)
runs_of-RunsFrom block l h k =
    let same = (runs_of-IsGrouping l).in_order in
    concat-RunsFrom block (runs_of l) (rw same h) (rw same k)

concat-heads :
    (P : ProcessedEvent → Type 0) (runs : List (ProcessedEvent × List ProcessedEvent))
    → All P (concat runs)
    → All (λ (run : ProcessedEvent × List ProcessedEvent). P run.0) runs
concat-heads P [] h = tt
concat-heads P ((e, l) ∷ runs) (p, h) = (p, concat-heads P runs (All-after P l (concat runs) h))

pub runs_of-heads :
    (P : ProcessedEvent → Type 0) (l : List ProcessedEvent)
    → All P l
    → All (λ (run : ProcessedEvent × List ProcessedEvent). P run.0) (runs_of l)
runs_of-heads P l h = concat-heads P (runs_of l) (rw (runs_of-IsGrouping l).in_order h)
