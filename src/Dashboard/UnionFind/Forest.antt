-- ===== src/Dashboard/UnionFind/Forest.antt =====
-- The map of parents is a forest, and a search in it ends at the root.
pub mod Hung
use sync_rollups.Prelude.{
  ℕ, zero, suc, ◌≤◌, ◌<◌, ◌≡◌, ◌≢◌, ◌∙◌, refl, sym, ap, false, Bool-cases, inl, inr, JsString,
  str_eq, str_eq_iff, str_eq_refl, none, [], ◌∷◌, arith, if◌then◌else◌,
}
use sync_rollups.Maps.{text_key, map_get, map_set, map_has, map_get-map_set}
use sync_rollups.Dashboard.UnionFind.{Parents, parent_of, follow, with_id, find}

-- A forest whose nodes have the given roots and depths.
pub record IsForest (parent : Parents) (root : JsString → JsString) (depth : JsString → ℕ)
    (bound : ℕ) : Type 0 where
  pub same_root : (x : JsString) → root (parent_of parent x) ≡ root x
  pub at_root : (x : JsString) → parent_of parent x ≡ x → (root x ≡ x) × (depth x ≡ 0)
  pub nearer : (x : JsString) → parent_of parent x ≢ x → depth (parent_of parent x) < depth x
  pub bounded : (x : JsString) → depth x ≤ bound
  pub top : (x : JsString) → parent_of parent (root x) ≡ root x

pub parent_of-map_set :
    (parent : Parents) (x p y : JsString)
    → parent_of (map_set parent x p) y ≡ (if str_eq x y then p else parent_of parent y)
unfolding parent_of
parent_of-map_set parent x p y = ground (arith, map_get-map_set parent x y p)

pub not_eq : (x y : JsString) → str_eq x y ≡ false → x ≢ y
not_eq x y n e = ground (arith, n, str_eq_iff x y)

pub str_eq_sym : (x y : JsString) → str_eq x y ≡ false → str_eq y x ≡ false
str_eq_sym x y n = ground (arith, n, str_eq_iff x y, str_eq_iff y x)

map_has-none :
    (parent : Parents) (x : JsString) → map_has parent x ≡ false → map_get parent x ≡ none
unfolding map_has map_get
map_has-none [] x h = refl
map_has-none ((j, p) ∷ parent) x h = ground (arith, h, map_has-none parent x)

module _ (root : JsString → JsString) (depth : JsString → ℕ) (bound : ℕ) where
  pub IsForest-same :
      (parent parent' : Parents)
      → ((x : JsString) → parent_of parent' x ≡ parent_of parent x)
      → IsForest parent root depth bound
      → IsForest parent' root depth bound
  IsForest-same parent parent' same f = record {
    same_root = λ x. rw (same x) (f.same_root x);
    at_root = λ x e. f.at_root x (sym (same x) ∙ e);
    nearer = λ x n. rw (same x) (f.nearer x (λ e. n (same x ∙ e)));
    bounded = f.bounded;
    top = λ x. same (root x) ∙ f.top x;
  }

  module _ (parent : Parents) (f : IsForest parent root depth bound) where
    above_le : (x : JsString) → depth (parent_of parent x) ≤ depth x
    above_le x = elim (Bool-cases (str_eq (parent_of parent x) x)) [
      | inl e ↦ rw ((str_eq_iff _ _).0 e) (omega arith)
      | inr n ↦ omega (arith, f.nearer x (not_eq _ _ n))
    ]

    above_less :
        (x : JsString)
        → parent_of parent x ≢ x
        → depth (parent_of parent (parent_of parent x)) < depth x
    above_less x n = omega (arith, above_le (parent_of parent x), f.nearer x n)

    above_other :
        (x : JsString) → parent_of parent x ≢ x → parent_of parent (parent_of parent x) ≢ x
    above_other x n e = omega (arith, above_less x n, ap depth e)

    halved : JsString → Parents
    halved x = map_set parent x (parent_of parent (parent_of parent x))

    parent_of-halved :
        (x y : JsString)
        → parent_of (halved x) y
          ≡ (if str_eq x y then parent_of parent (parent_of parent x) else parent_of parent y)
    unfolding halved
    parent_of-halved x y = parent_of-map_set parent x _ y

    parent_of-halved_self :
        (x : JsString) → parent_of (halved x) x ≡ parent_of parent (parent_of parent x)
    parent_of-halved_self x = ground (arith, parent_of-halved x x, str_eq_refl x)

    parent_of-halved_other :
        (x y : JsString) → str_eq x y ≡ false → parent_of (halved x) y ≡ parent_of parent y
    parent_of-halved_other x y n = rw (parent_of-halved x y, n) refl

    halved-IsForest : (x : JsString) → parent_of parent x ≢ x → IsForest (halved x) root depth bound
    halved-IsForest x n = record {
      same_root = λ y. elim (Bool-cases (str_eq x y)) [
        | inl e ↦
            rw (← (str_eq_iff x y).0 e, parent_of-halved_self x)
              (f.same_root (parent_of parent x) ∙ f.same_root x)
        | inr d ↦ rw (parent_of-halved_other x y d) (f.same_root y)
      ];
      at_root = λ y e. elim (Bool-cases (str_eq x y)) [
        | inl same ↦
            absurd (
              above_other x n (sym (parent_of-halved_self x) ∙ rw (← (str_eq_iff x y).0 same) at e))
        | inr d ↦ f.at_root y (sym (parent_of-halved_other x y d) ∙ e)
      ];
      nearer = λ y m. elim (Bool-cases (str_eq x y)) [
        | inl e ↦ rw (← (str_eq_iff x y).0 e, parent_of-halved_self x) (above_less x n)
        | inr d ↦
            rw (parent_of-halved_other x y d)
              (f.nearer y (λ e. m (parent_of-halved_other x y d ∙ e)))
      ];
      bounded = f.bounded;
      top = λ y. elim (Bool-cases (str_eq x (root y))) [
        | inl e ↦ absurd (
            n (ap (parent_of parent) ((str_eq_iff _ _).0 e) ∙ f.top y ∙ sym ((str_eq_iff _ _).0 e)))
        | inr d ↦ parent_of-halved_other x (root y) d ∙ f.top y
      ];
    }

  pub IsForest-wider :
      (parent : Parents) (m : ℕ)
      → bound ≤ m
      → IsForest parent root depth bound
      → IsForest parent root depth m
  IsForest-wider parent m h f = record {
    same_root = f.same_root;
    at_root = f.at_root;
    nearer = f.nearer;
    bounded = λ x. omega (arith, h, f.bounded x);
    top = f.top;
  }

  -- What a search leaves: the root, and a forest with the same roots and depths.
  pub record IsFound (x : JsString) (answer : JsString × Parents) : Type 0 where
    pub answer_root : answer.0 ≡ root x
    pub forest : IsForest answer.1 root depth bound

  -- The loop ends at the root within as many rounds as the node is deep, and one.
  pub follow-IsFound :
      (rounds : ℕ) (parent : Parents) (x : JsString)
      → IsForest parent root depth bound
      → depth x < rounds
      → IsFound x (follow rounds parent x)
  unfolding follow halved
  follow-IsFound zero parent x f h = absurd (omega (arith, h))
  follow-IsFound (suc rounds) parent x f h = elim (Bool-cases (str_eq (parent_of parent x) x)) [
    | inl e ↦
        rw (follow, e)
          (record { answer_root = sym (f.at_root x ((str_eq_iff _ _).0 e)).0; forest = f })
    | inr d ↦
        let rest =
          follow-IsFound rounds _ _ (halved-IsForest parent f x (not_eq _ _ d))
            (omega (arith, h, above_less parent f x (not_eq _ _ d))) in
        rw (follow, d)
          (record {
            answer_root = rest.answer_root ∙ f.same_root (parent_of parent x) ∙ f.same_root x;
            forest = rest.forest;
          })
  ]

  parent_of-with_id :
      (parent : Parents) (x y : JsString) → parent_of (with_id parent x) y ≡ parent_of parent y
  unfolding with_id parent_of
  parent_of-with_id parent x y =
      ground (arith, map_get-map_set parent x y x, str_eq_iff x y, map_has-none parent x)

  pub find-IsFound :
      (rounds : ℕ) (parent : Parents) (x : JsString)
      → IsForest parent root depth bound
      → depth x < rounds
      → IsFound x (find rounds parent x)
  unfolding find
  find-IsFound rounds parent x f h =
      follow-IsFound rounds (with_id parent x) x
        (IsForest-same parent (with_id parent x) (parent_of-with_id parent x) f) h
