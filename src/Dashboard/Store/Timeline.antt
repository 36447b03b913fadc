-- ===== src/Dashboard/Store/Timeline.antt =====
-- The events of the store of the dashboard are in order, and each id is there once.
use sync_rollups.Prelude.{
  ◌≤◌, ◌≡◌, ◌≢◌, sym, true, false, not, Bool-cases, inl, inr, str_eq, str_eq_iff, List, [], ◌∷◌,
  All, any, arith,
}
use sync_rollups.Dashboard.{EventRecord}
use sync_rollups.Dashboard.Store.{is_after, place, add_event}

-- By block number, then by log index.
abbrev pub Precedes : EventRecord → EventRecord → Type 0
Precedes e f =
    (e.block_number ≤ f.block_number)
    × (e.block_number ≡ f.block_number → e.log_index ≤ f.log_index)

abbrev Follows : EventRecord → EventRecord → Type 0
Follows e f = Precedes e f × (f.id ≢ e.id)

-- In order, and no id twice.
abbrev pub IsTimeline : List EventRecord → Type 0
IsTimeline [] = Unit
IsTimeline (e ∷ es) = All (Follows e) es × IsTimeline es

not_after-Precedes : (a b : EventRecord) → is_after a b ≡ false → Precedes a b
unfolding is_after
not_after-Precedes a b h = (ground arith, λ q. ground arith)

after-Precedes : (a b : EventRecord) → is_after a b ≡ true → Precedes b a
unfolding is_after
after-Precedes a b h = (ground arith, λ q. ground arith)

Precedes-trans : (a b c : EventRecord) → Precedes a b → Precedes b c → Precedes a c
Precedes-trans a b c (h, h') (k, k') =
    (omega arith, λ q. omega (arith, h' (omega arith), k' (omega arith)))

abbrev New : EventRecord → EventRecord → Type 0
New event f = f.id ≢ event.id

place-All :
    (P : EventRecord → Type 0) (event : EventRecord) (l : List EventRecord)
    → P event
    → All P l
    → All P (place event l)
unfolding place
place-All P event [] p h = (p, tt)
place-All P event (e ∷ es) p (q, h) =
    elim (Bool-cases (any (λ x. not (is_after x event)) (e ∷ es))) [
      | inl before ↦ rw (place, before) (q, place-All P event es p h)
      | inr first ↦ rw (place, first) (p, (q, h))
    ]

later_before :
    (event e : EventRecord) (l : List EventRecord)
    → All (Follows e) l
    → any (λ x. not (is_after x event)) l ≡ true
    → Precedes e event
later_before event e [] _ b = absurd (ground (arith, b))
later_before event e (f ∷ l) ((h, _), hs) b = elim (Bool-cases (is_after f event)) [
  | inl a ↦ later_before event e l hs (rw a at b)
  | inr d ↦ Precedes-trans e f event h (not_after-Precedes f event d)
]

some_before :
    (event e : EventRecord) (l : List EventRecord)
    → All (Follows e) l
    → any (λ x. not (is_after x event)) (e ∷ l) ≡ true
    → Precedes e event
some_before event e l h b = elim (Bool-cases (is_after e event)) [
  | inl a ↦ later_before event e l h (rw a at b)
  | inr d ↦ not_after-Precedes e event d
]

after-Follows :
    (event : EventRecord) (es : List EventRecord)
    → All (New event) es
    → any (λ x. not (is_after x event)) es ≡ false
    → All (Follows event) es
after-Follows event [] _ b = tt
after-Follows event (f ∷ es) (n, ns) b = elim (Bool-cases (is_after f event)) [
  | inl a ↦ ((after-Precedes f event a, n), after-Follows event es ns (rw a at b))
  | inr d ↦ absurd (ground (arith, rw d at b))
]

place-IsTimeline :
    (event : EventRecord) (l : List EventRecord)
    → All (New event) l
    → IsTimeline l
    → IsTimeline (place event l)
unfolding place
place-IsTimeline event [] n h = (tt, tt)
place-IsTimeline event (e ∷ es) (n, ns) (h, hs) =
    elim (Bool-cases (any (λ x. not (is_after x event)) (e ∷ es))) [
      | inl before ↦
          rw (place, before)
            (
              place-All (Follows e) event es (some_before event e es h before, λ q. n (sym q)) h,
              place-IsTimeline event es ns hs,
            )
      | inr first ↦ rw (place, first) (after-Follows event (e ∷ es) (n, ns) first, (h, hs))
    ]

none-New :
    (event : EventRecord) (l : List EventRecord)
    → any (λ e. str_eq e.id event.id) l ≡ false
    → All (New event) l
none-New event [] h = tt
none-New event (e ∷ es) h = elim (Bool-cases (str_eq e.id event.id)) [
  | inl s ↦ absurd (ground (arith, rw s at h))
  | inr d ↦
      (λ q. absurd (ground (arith, (str_eq_iff e.id event.id).1 q)), none-New event es (rw d at h))
]

-- The store stays a timeline, in whatever order the events arrive: they are ordered by block number
-- and log index, and each id is there once.
pub add_event-IsTimeline :
    (events : List EventRecord) (event : EventRecord)
    → IsTimeline events
    → IsTimeline (add_event events event)
unfolding add_event
add_event-IsTimeline events event h = elim (Bool-cases (any (λ e. str_eq e.id event.id) events)) [
  | inl known ↦ rw (add_event, known) h
  | inr fresh ↦
      rw (add_event, fresh) (place-IsTimeline event events (none-New event events fresh) h)
]
