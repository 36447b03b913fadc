-- ===== src/EventProcessor/Events/Order.antt =====
-- The order of the joined events of rollup1/reth-fullnode/event-processor.ts, and what they tell.
use sync_rollups.Prelude.{
  sym, map-append, ap, refl, ℕ, ◌≤◌, ◌≡◌, true, false, Bool-cases, inl, inr, JsString, str_eq_iff,
  str_eq, Option, none, some, List, [], ◌∷◌, ◌++◌, map, get_elem?, All, All-map, All-append, arith,
}
use mathlib.Core.List.{Perm}
use mathlib.Core.List.Perm
use sync_rollups.EventProcessor.Services.{StateUpdatedLog, ExecutionLog, ConsumedLog}
use sync_rollups.EventProcessor.Events.{
  ProcessedEvent, state_updated, l2_execution_performed, event_le, insert_event, sort_events,
  state_event, execution_event, join_events, consumed_in,
}

-- By block number, then by log index.
abbrev pub Precedes : ProcessedEvent → ProcessedEvent → Type 0
Precedes e f =
    (e.block_number ≤ f.block_number)
    × (e.block_number ≡ f.block_number → e.log_index ≤ f.log_index)

event_le-Precedes : (a b : ProcessedEvent) → event_le a b ≡ true → Precedes a b
unfolding event_le
event_le-Precedes a b h = (ground arith, λ q. ground arith)

not_event_le-Precedes : (a b : ProcessedEvent) → event_le a b ≡ false → Precedes b a
unfolding event_le
not_event_le-Precedes a b h = (ground arith, λ q. ground arith)

Precedes-trans : (a b c : ProcessedEvent) → Precedes a b → Precedes b c → Precedes a c
Precedes-trans a b c (h, h') (k, k') =
    (omega arith, λ q. omega (arith, h' (omega arith), k' (omega arith)))

abbrev pub IsOrdered : List ProcessedEvent → Type 0
IsOrdered [] = Unit
IsOrdered (e ∷ l) = All (Precedes e) l × IsOrdered l

pub insert_event-All :
    (P : ProcessedEvent → Type 0) (e : ProcessedEvent) (l : List ProcessedEvent)
    → P e
    → All P l
    → All P (insert_event e l)
unfolding insert_event
insert_event-All P e [] p h = (p, tt)
insert_event-All P e (f ∷ l) p (q, h) = elim (Bool-cases (event_le e f)) [
  | inl first ↦ rw first (p, (q, h))
  | inr later ↦ rw later (q, insert_event-All P e l p h)
]

insert_event-IsOrdered :
    (e : ProcessedEvent) (l : List ProcessedEvent) → IsOrdered l → IsOrdered (insert_event e l)
unfolding insert_event
insert_event-IsOrdered e [] h = (tt, tt)
insert_event-IsOrdered e (f ∷ l) (h, k) = elim (Bool-cases (event_le e f)) [
  | inl first ↦
      let p = event_le-Precedes e f first in
      rw first
        ((p, All-map (Precedes f) (Precedes e) (λ g q. Precedes-trans e f g p q) l h), (h, k))
  | inr later ↦ rw later (
    insert_event-All (Precedes f) e l (not_event_le-Precedes e f later) h,
    insert_event-IsOrdered e l k,
  )
]

sort_events-IsOrdered : (l : List ProcessedEvent) → IsOrdered (sort_events l)
unfolding sort_events
sort_events-IsOrdered [] = tt
sort_events-IsOrdered (e ∷ l) = insert_event-IsOrdered e (sort_events l) (sort_events-IsOrdered l)

pub sort_events-All :
    (P : ProcessedEvent → Type 0) (l : List ProcessedEvent) → All P l → All P (sort_events l)
unfolding sort_events
sort_events-All P [] h = tt
sort_events-All P (e ∷ l) (p, h) = insert_event-All P e (sort_events l) p (sort_events-All P l h)

insert_event-Perm : (e : ProcessedEvent) (l : List ProcessedEvent) → Perm (insert_event e l) (e ∷ l)
unfolding insert_event
insert_event-Perm e [] = Perm.refl (e ∷ [])
insert_event-Perm e (f ∷ l) = elim (Bool-cases (event_le e f)) [
  | inl first ↦ rw first (Perm.refl (e ∷ f ∷ l))
  | inr later ↦ rw later (Perm.trans (Perm.cons f (insert_event-Perm e l)) (Perm.swap e f l))
]

sort_events-Perm : (l : List ProcessedEvent) → Perm (sort_events l) l
unfolding sort_events
sort_events-Perm [] = Perm.refl []
sort_events-Perm (e ∷ l) =
    Perm.trans (insert_event-Perm e (sort_events l)) (Perm.cons e (sort_events-Perm l))

-- What a log says: its block, index and transaction, the state before it if it gives one, and the
-- state after it.
pub record Told : Type 0 where
  pub block_number : ℕ
  pub log_index : ℕ
  pub transaction_hash : JsString
  pub before : Option JsString
  pub after : JsString

abbrev pub told_update : StateUpdatedLog → Told
told_update l = record {
  block_number = l.block_number;
  log_index = l.log_index;
  transaction_hash = l.transaction_hash;
  before = none;
  after = l.new_state_root;
}

abbrev pub told_execution : ExecutionLog → Told
told_execution l = record {
  block_number = l.block_number;
  log_index = l.log_index;
  transaction_hash = l.transaction_hash;
  before = some l.current_state;
  after = l.new_state;
}

abbrev pub told : ProcessedEvent → Told
told e = record {
  block_number = e.block_number;
  log_index = e.log_index;
  transaction_hash = e.transaction_hash;
  before = elim e.args [ state_updated _ ↦ none | l2_execution_performed x ↦ some x.current_state ];
  after = elim e.args [ state_updated root ↦ root | l2_execution_performed x ↦ x.new_state ];
}

-- The hash of the first action that a transaction consumes.
abbrev pub IsFirstOf : JsString → List ConsumedLog → Option JsString → Type 0
IsFirstOf transaction_hash [] o = o ≡ none
IsFirstOf transaction_hash (c ∷ l) o =
    (c.transaction_hash ≡ transaction_hash → o ≡ some c.action_hash)
    × ((c.transaction_hash ≡ transaction_hash → ⊥) → IsFirstOf transaction_hash l o)

-- An execution comes with the first action that its transaction consumes.
abbrev pub HasAction : List ConsumedLog → ProcessedEvent → Type 0
HasAction consumed e = elim e.args [
  | state_updated _ ↦ Unit
  | l2_execution_performed x ↦ IsFirstOf e.transaction_hash consumed x.consumed_action_hash
]

first_consumed :
    (transaction_hash : JsString) (l : List ConsumedLog)
    → IsFirstOf transaction_hash l (elim (get_elem? (consumed_in transaction_hash l) 0) [
      | none ↦ none
      | some c ↦ some c.action_hash
    ])
unfolding consumed_in
first_consumed transaction_hash [] = refl
first_consumed transaction_hash (c ∷ l) =
    elim (Bool-cases (str_eq c.transaction_hash transaction_hash)) [
      | inl mine ↦ rw mine (
        λ _. refl,
        λ differs. absurd (differs ((str_eq_iff c.transaction_hash transaction_hash).0 mine)),
      )
      | inr other ↦ rw other (
        λ same. absurd (ground (arith, (str_eq_iff c.transaction_hash transaction_hash).1 same)),
        λ _. first_consumed transaction_hash l,
      )
    ]

states-HasAction :
    (consumed : List ConsumedLog) (states : List StateUpdatedLog)
    → All (HasAction consumed) (map state_event states)
unfolding state_event
states-HasAction consumed [] = tt
states-HasAction consumed (l ∷ ls) = (tt, states-HasAction consumed ls)

executions-HasAction :
    (consumed : List ConsumedLog) (executions : List ExecutionLog)
    → All (HasAction consumed) (map (execution_event consumed) executions)
unfolding execution_event
executions-HasAction consumed [] = tt
executions-HasAction consumed (l ∷ ls) =
    (first_consumed l.transaction_hash consumed, executions-HasAction consumed ls)

map-told-states :
    (states : List StateUpdatedLog) → map told (map state_event states) ≡ map told_update states
unfolding state_event
map-told-states [] = refl
map-told-states (l ∷ ls) = ap (λ k. told_update l ∷ k) (map-told-states ls)

map-told-executions :
    (consumed : List ConsumedLog) (executions : List ExecutionLog)
    → map told (map (execution_event consumed) executions) ≡ map told_execution executions
unfolding execution_event
map-told-executions consumed [] = refl
map-told-executions consumed (l ∷ ls) =
    ap (λ k. told_execution l ∷ k) (map-told-executions consumed ls)

-- What the joined events of a range must be.
pub record IsJoin (states : List StateUpdatedLog) (executions : List ExecutionLog)
    (consumed : List ConsumedLog) (joined : List ProcessedEvent) : Type 0 where
  pub same_logs : Perm (map told joined) (map told_update states ++ map told_execution executions)
  pub actions : All (HasAction consumed) joined
  pub ordered : IsOrdered joined

pub join_events-IsJoin :
    (states : List StateUpdatedLog) (executions : List ExecutionLog) (consumed : List ConsumedLog)
    → IsJoin states executions consumed (join_events states executions consumed)
unfolding join_events
join_events-IsJoin states executions consumed =
    let updates = map state_event states in
    let runs = map (execution_event consumed) executions in
    record {
      same_logs =
          rw
            (
              sym (map-told-states states),
              sym (map-told-executions consumed executions),
              sym (map-append told updates runs),
            )
            (Perm.map told (sort_events-Perm (updates ++ runs)));
      actions = sort_events-All (HasAction consumed) (updates ++ runs) (
          All-append (HasAction consumed) updates runs (states-HasAction consumed states)
            (executions-HasAction consumed executions));
      ordered = sort_events-IsOrdered (updates ++ runs);
    }
