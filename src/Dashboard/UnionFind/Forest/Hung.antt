-- ===== src/Dashboard/UnionFind/Forest/Hung.antt =====
-- A forest after one of its roots has been hung below another one.
use sync_rollups.Prelude.{
  ℕ, suc, ◌≤◌, ◌<◌, ◌≡◌, ◌∙◌, refl, sym, ap, false, Bool-cases, inl, inr, JsString, str_eq,
  str_eq_iff, str_eq_refl, arith, if◌then◌else◌,
}
use sync_rollups.Maps.{text_key, map_set}
use sync_rollups.Dashboard.UnionFind.{Parents, parent_of}
use sync_rollups.Dashboard.UnionFind.Forest.{IsForest, parent_of-map_set, not_eq}

-- The roots and depths after the root `p` has been hung below the root `q`.
unfoldable pub joined : (JsString → JsString) → JsString → JsString → JsString → JsString
joined root p q x = if str_eq (root x) p then q else root x

unfoldable pub deeper : (JsString → JsString) → (JsString → ℕ) → JsString → JsString → ℕ
deeper root depth p x = if str_eq (root x) p then suc (depth x) else depth x

module _ (root : JsString → JsString) (depth : JsString → ℕ) (bound : ℕ) (parent : Parents)
    (f : IsForest parent root depth bound) (p q : JsString) (d : str_eq q p ≡ false)
    (top_p : root p ≡ p) (top_q : root q ≡ q) where
  pub joined_of : (x y : JsString) → root x ≡ root y → joined root p q x ≡ joined root p q y
  unfolding joined
  joined_of x y e = rw e refl

  deeper_of :
      (x y : JsString)
      → root x ≡ root y
      → depth x < depth y
      → deeper root depth p x < deeper root depth p y
  unfolding deeper
  deeper_of x y e h = rw e (ground arith)

  joined_self : joined root p q p ≡ q
  unfolding joined
  joined_self = rw (top_p, str_eq_refl p) refl

  joined_top : joined root p q q ≡ q
  unfolding joined
  joined_top = rw (top_q, d) refl

  hung_self : parent_of (map_set parent p q) p ≡ q
  hung_self = rw (parent_of-map_set parent p q p, str_eq_refl p) refl

  hung_other :
      (y : JsString) → str_eq p y ≡ false → parent_of (map_set parent p q) y ≡ parent_of parent y
  hung_other y n = rw (parent_of-map_set parent p q y, n) refl

  hung_root :
      (y : JsString)
      → parent_of parent y ≡ y
      → str_eq p y ≡ false
      → (joined root p q y ≡ y) × (deeper root depth p y ≡ 0)
  unfolding joined deeper
  hung_root y e n =
      rw ((f.at_root y e).0, (f.at_root y e).1) (ground (arith, n, str_eq_iff p y, str_eq_iff y p))

  q_parent : parent_of parent q ≡ q
  q_parent = ap (parent_of parent) (sym top_q) ∙ f.top q ∙ top_q

  hung_self_nearer : deeper root depth p q < deeper root depth p p
  unfolding deeper
  hung_self_nearer = rw (top_p, top_q, d, str_eq_refl p, (f.at_root q q_parent).1) (omega arith)

  hung_top : (y : JsString) → str_eq (root y) p ≡ false → str_eq p (root y) ≡ false
  hung_top y n = ground (arith, n, str_eq_iff p (root y), str_eq_iff (root y) p)

  q_top : parent_of (map_set parent p q) q ≡ q
  q_top = hung_other q (ground (arith, d, str_eq_iff p q, str_eq_iff q p)) ∙ q_parent

  deeper_bounded : (y : JsString) → deeper root depth p y ≤ suc bound
  unfolding deeper
  deeper_bounded y = ground (arith, f.bounded y)

  pub hung-IsForest :
      IsForest (map_set parent p q) (joined root p q) (deeper root depth p) (suc bound)
  unfolding joined
  hung-IsForest = record {
    same_root = λ y. elim (Bool-cases (str_eq p y)) [
      | inl e ↦ rw (← (str_eq_iff p y).0 e, hung_self) (joined_top ∙ sym joined_self)
      | inr n ↦ rw (hung_other y n) (joined_of _ _ (f.same_root y))
    ];
    at_root = λ y e. elim (Bool-cases (str_eq p y)) [
      | inl s ↦
          let at_y = (str_eq_iff p y).0 s in
          absurd
            (not_eq q p d (sym hung_self ∙ ap (parent_of (map_set parent p q)) at_y ∙ e ∙ sym at_y))
      | inr n ↦ hung_root y (sym (hung_other y n) ∙ e) n
    ];
    nearer = λ y m. elim (Bool-cases (str_eq p y)) [
      | inl e ↦ rw (← (str_eq_iff p y).0 e, hung_self) hung_self_nearer
      | inr n ↦
          rw (hung_other y n)
            (deeper_of _ _ (f.same_root y) (f.nearer y (λ e. m (hung_other y n ∙ e))))
    ];
    bounded = deeper_bounded;
    top = λ y. elim (Bool-cases (str_eq (root y) p)) [
      | inl e ↦ rw (joined, e) q_top
      | inr n ↦ rw (joined, n) (hung_other (root y) (hung_top y n) ∙ f.top y)
    ];
  }
