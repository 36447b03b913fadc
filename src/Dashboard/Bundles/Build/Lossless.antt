-- ===== src/Dashboard/Bundles/Build/Lossless.antt =====
-- No event is lost in the bundles of visualizator/dashboard/src/lib/crossChainCorrelation.ts.
use mathlib.Core.List.{Memᴰ}
use mathlib.Core.List.Memᴰ
use mathlib.Core.Logic.{⊎_elim}
use mathlib.Core.Path.{subst}
use sync_rollups.Prelude.{
  ℕ, suc, ◌≡◌, ◌∙◌, ◌⊎◌, refl, sym, ap, ◌≢◌, Bool, true, false, Bool-cases, Option-cases, inl, inr,
  JsString, str_eq, str_eq_iff, Option, none, some, List, [], ◌∷◌, map, insert_by, sort_by, arith,
}
use sync_rollups.Outcome.{Outcome}
use sync_rollups.Types.{Action}
use sync_rollups.Maps.{JsMap, text_key, map_get, map_set, map_has, map_get-map_set}
use sync_rollups.Dashboard.{EventRecord}
use sync_rollups.Dashboard.UnionFind.{set_at}
use sync_rollups.Dashboard.Correlation.{links_of, event_to_hashes, event_groups, key, value}
use sync_rollups.Dashboard.Correlation.Classes.{
  set_at-value, event_to_hashes-keys, event_groups-IsCorrelation,
}
use sync_rollups.Dashboard.Bundles.{TransactionBundle}
use sync_rollups.Dashboard.Bundles.Build.{
  index_events, found_events, not_after, bundle_with, bundle_of, group_bundles, standalone_bundle,
  standalone_bundles, starts_first, build_transaction_bundles,
}

module _ {A : Type 0} (le : A → A → Bool) where
  insert_by-Memᴰ : (x y : A) (l : List A) → Memᴰ y (x ∷ l) → Memᴰ y (insert_by le x l)
  unfolding insert_by
  insert_by-Memᴰ x y [] m = m
  insert_by-Memᴰ x y (z ∷ l) m = elim (Bool-cases (le x z)) [
    | inl e ↦ rw e m
    | inr d ↦ rw d (
        ⊎_elim (λ h. Memᴰ.tail (insert_by-Memᴰ x y l (Memᴰ.head h)))
          (λ k.
            ⊎_elim Memᴰ.head (λ t. Memᴰ.tail (insert_by-Memᴰ x y l (Memᴰ.tail t)))
              (Memᴰ.cases_cons k))
          (Memᴰ.cases_cons m))
  ]

  pub sort_by-Memᴰ : (y : A) (l : List A) → Memᴰ y l → Memᴰ y (sort_by le l)
  unfolding sort_by
  sort_by-Memᴰ y [] m = m
  sort_by-Memᴰ y (x ∷ l) m =
      insert_by-Memᴰ x y (sort_by le l)
        (⊎_elim Memᴰ.head (λ t. Memᴰ.tail (sort_by-Memᴰ y l t)) (Memᴰ.cases_cons m))

Memᴰ-map : {A B : Type 0} (f : A → B) (a : A) (l : List A) → Memᴰ a l → Memᴰ (f a) (map f l)
Memᴰ-map f a [] m = absurd (Memᴰ.not-nil m)
Memᴰ-map f a (x ∷ l) m =
    ⊎_elim (λ e. Memᴰ.head (ap f e)) (λ t. Memᴰ.tail (Memᴰ-map f a l t)) (Memᴰ.cases_cons m)

-- The index has an event under the id.
abbrev IsIndexed : JsMap JsString EventRecord → JsString → Type 0
IsIndexed index id = (e : EventRecord) × (map_get index id ≡ some e) × (e.id ≡ id)

map_set-IsIndexed :
    (m : JsMap JsString EventRecord) (e : EventRecord) (id : JsString)
    → (id ≡ e.id) ⊎ IsIndexed m id
    → IsIndexed (map_set m e.id e) id
map_set-IsIndexed m e id h = elim (Bool-cases (str_eq e.id id)) [
  | inl s ↦ (e, rw (map_get-map_set m e.id id e, s) refl, (str_eq_iff e.id id).0 s)
  | inr d ↦
      ⊎_elim (λ q. absurd (ground (arith, q, d, str_eq_iff e.id id)))
        (λ (e', found, same). (e', rw (map_get-map_set m e.id id e, d) found, same)) h
]

index_events-IsIndexed :
    (events : List EventRecord) (m : JsMap JsString EventRecord) (id : JsString)
    → IsIndexed m id ⊎ ((e : EventRecord) × Memᴰ e events × (e.id ≡ id))
    → IsIndexed (index_events events m) id
unfolding index_events
index_events-IsIndexed [] m id h = ⊎_elim (λ q. q) (λ (e, q, s). absurd (Memᴰ.not-nil q)) h
index_events-IsIndexed (x ∷ events) m id h =
    ⊎_elim
      (λ q.
        index_events-IsIndexed events (map_set m x.id x) id
          (inl (map_set-IsIndexed m x id (inr q))))
      (λ (e, q, s).
        ⊎_elim
          (λ k.
            index_events-IsIndexed events (map_set m x.id x) id
              (inl (map_set-IsIndexed m x id (inl (sym s ∙ ap (λ e. e.id) k)))))
          (λ k. index_events-IsIndexed events (map_set m x.id x) id (inr (e, k, s)))
          (Memᴰ.cases_cons q))
      h

module _ (index : JsMap JsString EventRecord) (id : JsString) (indexed : IsIndexed index id) where
  found_events-Memᴰ : (ids : List JsString) → Memᴰ id ids → Memᴰ indexed.0 (found_events index ids)
  unfolding found_events
  found_events-Memᴰ [] m = absurd (Memᴰ.not-nil m)
  found_events-Memᴰ (x ∷ ids) m =
      ⊎_elim (λ e. rw (found_events, ← e, indexed.1) (Memᴰ.head refl))
        (λ k. later x ids (map_get index x) (found_events-Memᴰ ids k)) (Memᴰ.cases_cons m)
    where
      later :
          (x : JsString) (ids : List JsString) (o : Option EventRecord)
          → Memᴰ indexed.0 (found_events index ids)
          → Memᴰ indexed.0
              (elim o [ none ↦ found_events index ids | some e ↦ e ∷ found_events index ids ])
      later x ids none k = k
      later x ids (some e) k = Memᴰ.tail k

  -- A bundle of the list has the event.
  abbrev HasEvent : List TransactionBundle → Type 0
  HasEvent bundles = (b : TransactionBundle) × Memᴰ b bundles × Memᴰ id b.events

  bundle_with-Memᴰ :
      (hashes : JsMap JsString (List JsString)) (n : ℕ) (ids : List JsString) (l : List EventRecord)
      → Memᴰ indexed.0 l
      → (b : TransactionBundle) × ((elim l [
        | [] ↦ none
        | e ∷ es ↦ some (bundle_with hashes n ids e es)
      ])
          ≡ some b)
        × Memᴰ id b.events
  unfolding bundle_with
  bundle_with-Memᴰ hashes n ids [] m = absurd (Memᴰ.not-nil m)
  bundle_with-Memᴰ hashes n ids (e ∷ es) m = (
    bundle_with hashes n ids e es,
    refl,
    Memᴰ.cast (sym indexed.2) (Memᴰ-map (λ e. e.id) indexed.0 (e ∷ es) m),
  )

  bundle_of-Memᴰ :
      (hashes : JsMap JsString (List JsString)) (n : ℕ) (ids : List JsString)
      → Memᴰ id ids
      → (b : TransactionBundle) × (bundle_of index hashes n ids ≡ some b) × Memᴰ id b.events
  unfolding bundle_of
  bundle_of-Memᴰ hashes n ids m =
      bundle_with-Memᴰ hashes n ids (sort_by not_after (found_events index ids))
        (sort_by-Memᴰ not_after indexed.0 (found_events index ids) (found_events-Memᴰ ids m))

  group_bundles-HasEvent :
      (hashes : JsMap JsString (List JsString)) (n : ℕ) (groups : List (List JsString))
      (ids : List JsString)
      → Memᴰ ids groups
      → Memᴰ id ids
      → HasEvent (group_bundles index hashes n groups).0
  unfolding group_bundles
  group_bundles-HasEvent hashes n [] ids m k = absurd (Memᴰ.not-nil m)
  group_bundles-HasEvent hashes n (first ∷ groups) ids m k =
      ⊎_elim
        (λ e.
          let (b, is_b, q) = bundle_of-Memᴰ hashes n first (subst (Memᴰ id) e k) in
          rw (group_bundles, is_b) (b, Memᴰ.head refl, q))
        (λ later. elim (Option-cases (bundle_of index hashes n first)) [
          | inl skipped ↦
              rw (group_bundles, skipped) (group_bundles-HasEvent hashes n groups ids later k)
          | inr (b, is_b) ↦
              let (c, is_c, q) = group_bundles-HasEvent hashes (suc n) groups ids later k in
              rw (group_bundles, is_b) (c, Memᴰ.tail is_c, q)
        ])
        (Memᴰ.cases_cons m)

standalone_bundles-Memᴰ :
    (hashes : JsMap JsString (List JsString)) (n : ℕ) (events : List EventRecord) (e : EventRecord)
    → Memᴰ e events
    → map_has hashes e.id ≡ false
    → (b : TransactionBundle) × Memᴰ b (standalone_bundles hashes n events) × Memᴰ e.id b.events
unfolding standalone_bundles standalone_bundle
standalone_bundles-Memᴰ hashes n [] e m h = absurd (Memᴰ.not-nil m)
standalone_bundles-Memᴰ hashes n (x ∷ events) e m h = elim (Bool-cases (map_has hashes x.id)) [
  | inl linked ↦
      rw (standalone_bundles, linked)
        (⊎_elim
          (λ same. absurd (true_false (sym linked ∙ ap (λ e. map_has hashes e.id) (sym same) ∙ h)))
          (λ k. standalone_bundles-Memᴰ hashes n events e k h) (Memᴰ.cases_cons m))
  | inr free ↦
      rw (standalone_bundles, free)
        (⊎_elim (λ same. (standalone_bundle n x, Memᴰ.head refl, Memᴰ.head (ap (λ e. e.id) same)))
          (λ k.
            let (b, is_b, q) = standalone_bundles-Memᴰ hashes (suc n) events e k h in
            (b, Memᴰ.tail is_b, q))
          (Memᴰ.cases_cons m))
]
  where
    true_false : true ≢ false
    true_false e = ground (arith, e)

map_has-key :
    (m : JsMap JsString (List JsString)) (k : JsString) → map_has m k ≡ true → Memᴰ k (map key m)
unfolding map_has
map_has-key [] k h = ground (arith, h)
map_has-key ((j, v) ∷ m) k h = elim (Bool-cases (str_eq j k)) [
  | inl e ↦ Memᴰ.head (sym ((str_eq_iff j k).0 e))
  | inr d ↦ Memᴰ.tail (map_has-key m k (rw d at h))
]

module _ (action_hash : Action → Outcome JsString) (events : List EventRecord) (e : EventRecord)
    (m : Memᴰ e events) where
  grouped-HasEvent :
      map_has (event_to_hashes (links_of action_hash events) []) e.id ≡ true
      → (b : TransactionBundle) × Memᴰ b
          (group_bundles
            (index_events events [])
            (event_to_hashes (links_of action_hash events) [])
            0
            (map value (event_groups (links_of action_hash events)))).0
        × Memᴰ e.id b.events
  grouped-HasEvent h =
      let links = links_of action_hash events in
      let (hash, linked) =
        ⊎_elim (λ n. absurd (Memᴰ.not-nil n)) (λ w. w)
          ((event_to_hashes-keys links [] e.id).0
            (map_has-key (event_to_hashes links []) e.id h)) in
      let (r, k) = (event_groups-IsCorrelation action_hash events).placed e.id hash linked in
      group_bundles-HasEvent (index_events events []) e.id
        (index_events-IsIndexed events [] e.id (inr (e, m, refl))) _ 0 _
        (set_at (event_groups links) r) (set_at-value (event_groups links) r e.id k) k

  -- No event is lost: each is in one of the bundles, by its id.
  pub build_transaction_bundles-HasEvent :
      (b : TransactionBundle) × Memᴰ b (build_transaction_bundles action_hash events)
      × Memᴰ e.id b.events
  unfolding build_transaction_bundles
  build_transaction_bundles-HasEvent =
      elim (Bool-cases (map_has (event_to_hashes (links_of action_hash events) []) e.id)) [
        | inl linked ↦
            let (b, is_b, q) = grouped-HasEvent linked in
            (b, sort_by-Memᴰ starts_first b _ (Memᴰ.append_left _ is_b), q)
        | inr free ↦
            let (b, is_b, q) =
              standalone_bundles-Memᴰ (event_to_hashes (links_of action_hash events) []) _ events e
                m free in
            (b, sort_by-Memᴰ starts_first b _ (Memᴰ.append_right _ is_b), q)
      ]
