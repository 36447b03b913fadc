-- ===== src/Dashboard/Correlation/Classes.antt =====
-- The groups of events are the classes of the events that share hashes.
use mathlib.Core.List.{Memᴰ}
use mathlib.Core.List.Memᴰ
use mathlib.Core.Logic.{⊎_elim}
use mathlib.Core.Path.{subst}
use sync_rollups.Prelude.{
  ◌≡◌, ◌∙◌, ◌↔◌, ◌⊎◌, refl, sym, ap, Bool-cases, inl, inr, JsString, str_eq, str_eq_iff, List, [],
  ◌∷◌, map, All, arith, if◌then◌else◌,
}
use sync_rollups.Outcome.{Outcome}
use sync_rollups.Types.{Action}
use sync_rollups.Maps.{JsMap, text_key, map_get, map_set}
use sync_rollups.Dashboard.{EventRecord}
use sync_rollups.Dashboard.UnionFind.{set_add, set_at, add_at}
use sync_rollups.Dashboard.UnionFind.Classes.Groups.{
  Linked, itself, share, back, chain, group_ids-IsGrouping,
}
use sync_rollups.Dashboard.UnionFind.Classes.Members.{add_at-Memᴰ, set_add-Memᴰ}
use sync_rollups.Dashboard.Correlation.{
  links_of, hash_to_events, event_to_hashes, key, value, event_groups,
}

-- Two events are correlated if a chain of events leads from one to the other in which neighbours
-- carry a common hash.
pub data Correlated (links : List (JsString × JsString)) : JsString → JsString → Type 0 where
  same_event : {x : JsString} → Correlated links x x
  same_hash : {x y h : JsString} → Memᴰ (x, h) links → Memᴰ (y, h) links → Correlated links x y
  reverse : {x y : JsString} → Correlated links x y → Correlated links y x
  through : {x y z : JsString} → Correlated links x y → Correlated links y z → Correlated links x z

hash_to_events-Memᴰ :
    (links : List (JsString × JsString)) (m : JsMap JsString (List JsString)) (y h : JsString)
    → Memᴰ (y, h) links ⊎ Memᴰ y (set_at m h)
    → Memᴰ y (set_at (hash_to_events links m) h)
unfolding hash_to_events
hash_to_events-Memᴰ [] m y h = ⊎_elim (λ q. absurd (Memᴰ.not-nil q)) (λ q. q)
hash_to_events-Memᴰ ((id, hash) ∷ links) m y h =
    ⊎_elim
      (λ q.
        ⊎_elim
          (λ e.
            hash_to_events-Memᴰ links (add_at m hash id) y h
              (inr ((add_at-Memᴰ m hash id h y).1 (inr (ap (λ p. p.0) e, sym (ap (λ p. p.1) e))))))
          (λ k. hash_to_events-Memᴰ links (add_at m hash id) y h (inl k)) (Memᴰ.cases_cons q))
      (λ q.
        hash_to_events-Memᴰ links (add_at m hash id) y h
          (inr ((add_at-Memᴰ m hash id h y).1 (inl q))))

module _ (P : JsString → List JsString → Type 0) where
  abbrev Entries : JsMap JsString (List JsString) → Type 0
  Entries m = All (λ e. P (key e) (value e)) m

  map_set-Entries :
      (m : JsMap JsString (List JsString)) (k : JsString) (v : List JsString)
      → P k v
      → Entries m
      → Entries (map_set m k v)
  unfolding map_set
  map_set-Entries [] k v p h = (p, tt)
  map_set-Entries ((j, w) ∷ m) k v p (q, h) = elim (Bool-cases (str_eq j k)) [
    | inl e ↦ rw e (subst (λ i. P i v) (sym ((str_eq_iff j k).0 e)) p, h)
    | inr d ↦ rw d (q, map_set-Entries m k v p h)
  ]

-- Every event of a set of the map carries the hash of the set.
abbrev Carries : List (JsString × JsString) → JsString → List JsString → Type 0
Carries all h ids = (y : JsString) → Memᴰ y ids → Memᴰ (y, h) all

set_at_first :
    (j : JsString) (ids : List JsString) (m : JsMap JsString (List JsString)) (h : JsString)
    → set_at ((j, ids) ∷ m) h ≡ (if str_eq j h then ids else set_at m h)
unfolding set_at map_get
set_at_first j ids m h = ground arith

set_at-Carries :
    (all : List (JsString × JsString)) (m : JsMap JsString (List JsString)) (h : JsString)
    → Entries (Carries all) m
    → Carries all h (set_at m h)
unfolding set_at map_get
set_at-Carries all [] h c = λ y q. absurd (Memᴰ.not-nil q)
set_at-Carries all ((j, ids) ∷ m) h (c, cs) = elim (Bool-cases (str_eq j h)) [
  | inl e ↦
      rw (set_at_first j ids m h, e)
        (λ y q. subst (λ i. Memᴰ (y, i) all) ((str_eq_iff j h).0 e) (c y q))
  | inr d ↦ rw (set_at_first j ids m h, d) (set_at-Carries all m h cs)
]

hash_to_events-Carries :
    (all links : List (JsString × JsString)) (m : JsMap JsString (List JsString))
    → ((p : JsString × JsString) → Memᴰ p links → Memᴰ p all)
    → Entries (Carries all) m
    → Entries (Carries all) (hash_to_events links m)
unfolding hash_to_events add_at
hash_to_events-Carries all [] m sub c = c
hash_to_events-Carries all ((id, hash) ∷ links) m sub c =
    hash_to_events-Carries all links (add_at m hash id) (λ p q. sub p (Memᴰ.tail q))
      (map_set-Entries (Carries all) m hash (set_add (set_at m hash) id)
        (λ y q.
          ⊎_elim (set_at-Carries all m hash c y)
            (λ e. subst (λ i. Memᴰ (i, hash) all) (sym e) (sub _ (Memᴰ.head refl)))
            ((set_add-Memᴰ (set_at m hash) id y).0 q))
        c)

pub set_at-value :
    (m : JsMap JsString (List JsString)) (h y : JsString)
    → Memᴰ y (set_at m h)
    → Memᴰ (set_at m h) (map value m)
unfolding set_at map_get
set_at-value [] h y = λ q. absurd (Memᴰ.not-nil q)
set_at-value ((j, ids) ∷ m) h y = elim (Bool-cases (str_eq j h)) [
  | inl e ↦ rw (set_at_first j ids m h, e) (λ q. Memᴰ.head refl)
  | inr d ↦ rw (set_at_first j ids m h, d) (λ q. Memᴰ.tail (set_at-value m h y q))
]

value-Carries :
    (all : List (JsString × JsString)) (m : JsMap JsString (List JsString)) (ids : List JsString)
    → Entries (Carries all) m
    → Memᴰ ids (map value m)
    → (h : JsString) × Carries all h ids
value-Carries all [] ids c q = absurd (Memᴰ.not-nil q)
value-Carries all ((j, w) ∷ m) ids (c, cs) q =
    ⊎_elim (λ e. (j, λ y k. c y (subst (Memᴰ y) e k))) (λ k. value-Carries all m ids cs k)
      (Memᴰ.cases_cons q)

map_set-keys :
    (m : JsMap JsString (List JsString)) (k x : JsString) (v : List JsString)
    → Memᴰ x (map key (map_set m k v)) ↔ (Memᴰ x (map key m) ⊎ (x ≡ k))
unfolding map_set
map_set-keys [] k x v =
    (λ q. inr (Memᴰ.eq_of_singleton q), ⊎_elim (λ q. absurd (Memᴰ.not-nil q)) Memᴰ.head)
map_set-keys ((j, w) ∷ m) k x v = elim (Bool-cases (str_eq j k)) [
  | inl e ↦ rw e (inl, ⊎_elim (λ q. q) (λ q. Memᴰ.head (q ∙ sym ((str_eq_iff j k).0 e))))
  | inr d ↦ rw d (
    λ q.
        ⊎_elim (λ h. inl (Memᴰ.head h))
          (λ h. ⊎_elim (λ o. inl (Memᴰ.tail o)) inr ((map_set-keys m k x v).0 h))
          (Memᴰ.cases_cons q),
    ⊎_elim
        (λ q.
          ⊎_elim Memᴰ.head (λ o. Memᴰ.tail ((map_set-keys m k x v).1 (inl o))) (Memᴰ.cases_cons q))
        (λ q. Memᴰ.tail ((map_set-keys m k x v).1 (inr q))),
  )
]

pub event_to_hashes-keys :
    (links : List (JsString × JsString)) (m : JsMap JsString (List JsString)) (x : JsString)
    → Memᴰ x (map key (event_to_hashes links m))
      ↔ (Memᴰ x (map key m) ⊎ ((h : JsString) × Memᴰ (x, h) links))
unfolding event_to_hashes add_at
event_to_hashes-keys [] m x = (inl, ⊎_elim (λ q. q) (λ q. absurd (Memᴰ.not-nil q.1)))
event_to_hashes-keys ((id, hash) ∷ links) m x =
    let rest = event_to_hashes-keys links (add_at m id hash) x in
    let keys = map_set-keys m id x (set_add (set_at m id) hash) in
    (
      λ q.
          ⊎_elim (λ k. ⊎_elim inl (λ e. inr (hash, Memᴰ.head (ap (λ i. (i, hash)) e))) (keys.0 k))
            (λ w. inr (w.0, Memᴰ.tail w.1)) (rest.0 q),
      ⊎_elim (λ k. rest.1 (inl (keys.1 (inl k))))
          (λ w.
            ⊎_elim (λ e. rest.1 (inl (keys.1 (inr (ap (λ p. p.0) e))))) (λ k. rest.1 (inr (w.0, k)))
              (Memᴰ.cases_cons w.1)),
    )

module _ (links : List (JsString × JsString)) where
  abbrev sets : List (List JsString)
  sets = map value (hash_to_events links [])

  Correlated-Linked : {x y : JsString} → Correlated links x y → Linked sets x y
  Correlated-Linked same_event = itself
  Correlated-Linked (same_hash {x} {y} {h} p q) =
      share (set_at-value (hash_to_events links []) h x (hash_to_events-Memᴰ links [] x h (inl p)))
        (hash_to_events-Memᴰ links [] x h (inl p)) (hash_to_events-Memᴰ links [] y h (inl q))
  Correlated-Linked (reverse c) = back (Correlated-Linked c)
  Correlated-Linked (through c d) = chain (Correlated-Linked c) (Correlated-Linked d)

  Linked-Correlated : {x y : JsString} → Linked sets x y → Correlated links x y
  Linked-Correlated itself = same_event
  Linked-Correlated (share {x} {y} {ids} m p q) =
      let (h, carries) =
        value-Carries links (hash_to_events links []) ids
          (hash_to_events-Carries links links [] (λ p q. q) tt) m in
      same_hash (carries x p) (carries y q)
  Linked-Correlated (back c) = reverse (Linked-Correlated c)
  Linked-Correlated (chain c d) = through (Linked-Correlated c) (Linked-Correlated d)

-- The groups are the classes of the correlated events.
pub record IsCorrelation (links : List (JsString × JsString))
    (groups : JsMap JsString (List JsString)) : Type 0 where
  pub placed : (x h : JsString) → Memᴰ (x, h) links → (r : JsString) × Memᴰ x (set_at groups r)
  pub carried : (r x : JsString) → Memᴰ x (set_at groups r) → (h : JsString) × Memᴰ (x, h) links
  pub once : (r r' x : JsString) → Memᴰ x (set_at groups r) → Memᴰ x (set_at groups r') → r ≡ r'
  pub exact :
      (r x y h : JsString)
      → Memᴰ x (set_at groups r)
      → Memᴰ (y, h) links
      → (Memᴰ y (set_at groups r) ↔ Correlated links x y)

-- Each event that carries a hash is in exactly one group, and another one is in this group exactly
-- if it is correlated with it: the union-find finds the equivalence that common hashes generate.
pub event_groups-IsCorrelation :
    (action_hash : Action → Outcome JsString) (events : List EventRecord)
    → IsCorrelation (links_of action_hash events) (event_groups (links_of action_hash events))
unfolding event_groups
event_groups-IsCorrelation action_hash events =
    let links = links_of action_hash events in
    let g = group_ids-IsGrouping (sets links) (map key (event_to_hashes links [])) in
    let keys = λ (x : JsString). event_to_hashes-keys links [] x in
    record {
      placed = λ x h q. g.placed x ((keys x).1 (inr (h, q)));
      carried =
          λ r x q. ⊎_elim (λ n. absurd (Memᴰ.not-nil n)) (λ w. w) ((keys x).0 (g.only_ids r x q));
      once = g.once;
      exact = λ r x y h m q. (
        λ k. Linked-Correlated links ((g.exact r x y m ((keys y).1 (inr (h, q)))).0 k),
        λ c. (g.exact r x y m ((keys y).1 (inr (h, q)))).1 (Correlated-Linked links c),
      );
    }
