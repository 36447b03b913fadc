-- ===== src/Dashboard/UnionFind/Classes/Members.antt =====
-- What the sets of the union-find hold.
use mathlib.Core.List.{Memᴰ}
use mathlib.Core.List.Memᴰ
use mathlib.Core.Logic.{⊎_elim}
use sync_rollups.Prelude.{
  ℕ, ◌<◌, ◌≡◌, ◌∙◌, ◌↔◌, ◌⊎◌, refl, sym, ap, true, Bool-cases, inl, inr, JsString, str_eq,
  str_eq_iff, List, [], ◌∷◌, ◌++◌, any, arith, if◌then◌else◌,
}
use sync_rollups.Maps.{JsMap, text_key, map_get, map_get-map_set}
use sync_rollups.Dashboard.UnionFind.{Parents, find, set_add, set_at, add_at, collect}
use sync_rollups.Dashboard.UnionFind.Forest.{IsForest, find-IsFound}

Memᴰ-cons : (a x : JsString) (xs : List JsString) → Memᴰ a (x ∷ xs) ↔ ((a ≡ x) ⊎ Memᴰ a xs)
Memᴰ-cons a x xs = (Memᴰ.cases_cons, ⊎_elim Memᴰ.head Memᴰ.tail)

Memᴰ-concat : (a x : JsString) (xs : List JsString) → Memᴰ a (xs ++ x ∷ []) ↔ (Memᴰ a xs ⊎ (a ≡ x))
Memᴰ-concat a x xs = (
  λ m. ⊎_elim inl (λ last. inr (Memᴰ.eq_of_singleton last)) (Memᴰ.append_cases xs m),
  ⊎_elim (Memᴰ.append_left _) (λ e. Memᴰ.append_right xs (Memᴰ.head e)),
)

any-Memᴰ : (x : JsString) (l : List JsString) → any (λ y. str_eq y x) l ≡ true → Memᴰ x l
any-Memᴰ x [] h = ground (arith, h)
any-Memᴰ x (y ∷ l) h = elim (Bool-cases (str_eq y x)) [
  | inl e ↦ Memᴰ.head (sym ((str_eq_iff y x).0 e))
  | inr d ↦ Memᴰ.tail (any-Memᴰ x l (rw d at h))
]

-- A set holds what was added to it.
pub set_add-Memᴰ :
    (l : List JsString) (x y : JsString) → Memᴰ y (set_add l x) ↔ (Memᴰ y l ⊎ (y ≡ x))
unfolding set_add
set_add-Memᴰ l x y = elim (Bool-cases (any (λ z. str_eq z x) l)) [
  | inl old ↦ rw old (inl, ⊎_elim (λ m. m) (λ e. Memᴰ.cast e (any-Memᴰ x l old)))
  | inr new ↦ rw new (Memᴰ-concat y x l)
]

set_at-add_at :
    (m : JsMap JsString (List JsString)) (k x j : JsString)
    → set_at (add_at m k x) j ≡ (if str_eq k j then set_add (set_at m k) x else set_at m j)
unfolding set_at add_at
set_at-add_at m k x j = ground (arith, map_get-map_set m k j (set_add (set_at m k) x))

pub add_at-Memᴰ :
    (m : JsMap JsString (List JsString)) (k x j y : JsString)
    → Memᴰ y (set_at (add_at m k x) j) ↔ (Memᴰ y (set_at m j) ⊎ ((y ≡ x) × (k ≡ j)))
add_at-Memᴰ m k x j y = elim (Bool-cases (str_eq k j)) [
  | inl e ↦
      rw (set_at-add_at m k x j, e, ← (str_eq_iff k j).0 e)
        (
          λ h. ⊎_elim inl (λ q. inr (q, refl)) ((set_add-Memᴰ (set_at m k) x y).0 h),
          λ h. (set_add-Memᴰ (set_at m k) x y).1 (⊎_elim inl (λ q. inr q.0) h),
        )
  | inr d ↦
      rw (set_at-add_at m k x j, d)
        (inl, ⊎_elim (λ h. h) (λ q. absurd (ground (arith, q.1, d, str_eq_iff k j))))
]

module _ (root : JsString → JsString) (depth : JsString → ℕ) (bound rounds : ℕ)
    (enough : bound < rounds) where
  collected :
      (x : JsString) (ids : List JsString) (groups : JsMap JsString (List JsString))
      (r y k : JsString) (M : Type 0)
      → k ≡ root x
      → M ↔ (Memᴰ y (set_at (add_at groups k x) r) ⊎ (Memᴰ y ids × (root y ≡ r)))
      → M ↔ (Memᴰ y (set_at groups r) ⊎ (Memᴰ y (x ∷ ids) × (root y ≡ r)))
  collected x ids groups r y k M e h = (
    λ m.
        ⊎_elim
          (λ q.
            ⊎_elim inl (λ w. inr (Memᴰ.head w.0, ap root w.0 ∙ sym e ∙ w.1))
              ((add_at-Memᴰ groups k x r y).0 q))
          (λ q. inr (Memᴰ.tail q.0, q.1)) (h.0 m),
    λ q. h.1 (
        ⊎_elim (λ old. inl ((add_at-Memᴰ groups k x r y).1 (inl old)))
          (λ w.
            ⊎_elim
              (λ same.
                inl ((add_at-Memᴰ groups k x r y).1 (inr (same, e ∙ sym (ap root same) ∙ w.1))))
              (λ later. inr (later, w.1)) (Memᴰ.cases_cons w.0))
          q),
  )

  -- The set of a root holds the ids that have this root.
  collect-Memᴰ :
      (ids : List JsString) (parent : Parents) (groups : JsMap JsString (List JsString))
      → IsForest parent root depth bound
      → (r y : JsString)
      → Memᴰ y (set_at (collect rounds ids parent groups) r)
        ↔ (Memᴰ y (set_at groups r) ⊎ (Memᴰ y ids × (root y ≡ r)))
  unfolding collect
  collect-Memᴰ [] parent groups f r y = (inl, ⊎_elim (λ h. h) (λ q. absurd (Memᴰ.not-nil q.0)))
  collect-Memᴰ (x ∷ ids) parent groups f r y =
      let found =
        find-IsFound root depth bound rounds parent x f (omega (arith, enough, f.bounded x)) in
      collected x ids groups r y (find rounds parent x).0 _ found.answer_root (
        collect-Memᴰ ids (find rounds parent x).1 (add_at groups (find rounds parent x).0 x)
          found.forest r y)

  pub collected_all :
      (ids : List JsString) (parent : Parents)
      → IsForest parent root depth bound
      → (r y : JsString)
      → Memᴰ y (set_at (collect rounds ids parent []) r) ↔ (Memᴰ y ids × (root y ≡ r))
  unfolding set_at map_get
  collected_all ids parent f r y = (
    λ m. ⊎_elim (λ q. absurd (Memᴰ.not-nil q)) (λ h. h) ((collect-Memᴰ ids parent [] f r y).0 m),
    λ h. (collect-Memᴰ ids parent [] f r y).1 (inr h),
  )
