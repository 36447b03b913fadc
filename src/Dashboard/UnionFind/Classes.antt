-- ===== src/Dashboard/UnionFind/Classes.antt =====
-- The unions make the roots of two ids equal exactly if the ids belong together.
pub mod Members
pub mod Groups
use sync_rollups.Prelude.{
  ℕ, suc, ◌+◌, ◌≤◌, ◌<◌, ◌≡◌, Bool, Bool-cases, inl, inr, JsString, str_eq, str_eq_iff, List, [],
  ◌∷◌, All, All-map, length, arith, if◌then◌else◌,
}
use sync_rollups.Maps.{text_key, map_set}
use sync_rollups.Dashboard.UnionFind.{Parents, find, union, union_rest, union_ids, union_all, total}
use sync_rollups.Dashboard.UnionFind.Forest.{IsForest, find-IsFound, IsForest-wider, str_eq_sym}
use sync_rollups.Dashboard.UnionFind.Forest.Hung.{joined, joined_of, deeper, hung-IsForest}

-- A relation of ids that is an equivalence.
pub record IsEquivalence (R : JsString → JsString → Type 0) : Type 0 where
  pub reflexive : (x : JsString) → R x x
  pub symmetric : (x y : JsString) → R x y → R y x
  pub transitive : (x y z : JsString) → R x y → R y z → R x z

-- A forest whose trees are within the classes of a relation.
pub record Trees (R : JsString → JsString → Type 0) (parent : Parents) (bound : ℕ) : Type 0 where
  pub root : JsString → JsString
  pub depth : JsString → ℕ
  pub forest : IsForest parent root depth bound
  pub sound : (x : JsString) → R x (root x)

-- Ids with one root before have one afterwards.
abbrev pub Coarser : (JsString → JsString) → (JsString → JsString) → Type 0
Coarser old new = (x y : JsString) → old x ≡ old y → new x ≡ new y

abbrev pub Together : (JsString → JsString) → List JsString → Type 0
Together root [] = Unit
Together root (a ∷ ids) = All (λ b. root a ≡ root b) ids

abbrev pub Related : (JsString → JsString → Type 0) → List JsString → Type 0
Related R [] = Unit
Related R (a ∷ ids) = All (R a) ids

module _ (R : JsString → JsString → Type 0) (eq : IsEquivalence R) where
  root_idem :
      (parent : Parents) (n : ℕ) (t : Trees R parent n) (x : JsString)
      → t.root (t.root x) ≡ t.root x
  root_idem parent n t x = (t.forest.at_root (t.root x) (t.forest.top x)).0

  joined_sound :
      (parent : Parents) (n : ℕ) (t : Trees R parent n) (a b : JsString)
      → R a b
      → (x : JsString) → R x (joined t.root (t.root a) (t.root b) x)
  unfolding joined
  joined_sound parent n t a b r x = elim (Bool-cases (str_eq (t.root x) (t.root a))) [
    | inl e ↦ rw e (
        eq.transitive _ _ _
          (eq.transitive _ _ _ (rw (← (str_eq_iff _ _).0 e) (t.sound x))
            (eq.symmetric _ _ (t.sound a)))
          (eq.transitive _ _ _ r (t.sound b)))
    | inr d ↦ rw d (t.sound x)
  ]

  joined_united :
      (parent : Parents) (n : ℕ) (t : Trees R parent n) (a b : JsString)
      → joined t.root (t.root a) (t.root b) a ≡ joined t.root (t.root a) (t.root b) b
  unfolding joined
  joined_united parent n t a b = ground (arith, str_eq_iff (t.root a) (t.root a))

  -- A forest after a union: its trees, what it keeps and what it unites.
  abbrev United : Parents → ℕ → (JsString → JsString) → JsString → JsString → Type 0
  United parent n old a b = (t : Trees R parent n) × Coarser old t.root × (t.root a ≡ t.root b)

  abbrev widen : (parent : Parents) (n : ℕ) → Trees R parent n → (m : ℕ) → n ≤ m → Trees R parent m
  widen parent n t m h = record {
    root = t.root;
    depth = t.depth;
    forest = IsForest-wider t.root t.depth n parent m h t.forest;
    sound = t.sound;
  }

  -- The root of `a` is hung below that of `b`, unless they are the same.
  hang :
      (parent : Parents) (n : ℕ) (t : Trees R parent n) (a b : JsString)
      → R a b
      → United
          (if str_eq (t.root a) (t.root b) then parent else map_set parent (t.root a) (t.root b))
          (suc n)
          t.root
          a
          b
  hang parent n t a b r = elim (Bool-cases (str_eq (t.root a) (t.root b))) [
    | inl e ↦ rw e (widen parent n t (suc n) (omega arith), λ x y k. k, (str_eq_iff _ _).0 e)
    | inr d ↦ rw d (
      record {
        root = joined t.root (t.root a) (t.root b);
        depth = deeper t.root t.depth (t.root a);
        forest =
            hung-IsForest t.root t.depth n parent t.forest (t.root a) (t.root b) (str_eq_sym _ _ d)
              (root_idem parent n t a) (root_idem parent n t b);
        sound = joined_sound parent n t a b r;
      },
      joined_of t.root t.depth n parent t.forest _ _ (str_eq_sym _ _ d) (root_idem parent n t a)
          (root_idem parent n t b),
      joined_united parent n t a b,
    )
  ]

  union-United :
      (rounds : ℕ) (parent : Parents) (n : ℕ) (t : Trees R parent n) (a b : JsString)
      → n < rounds
      → R a b
      → United (union rounds parent a b) (suc n) t.root a b
  unfolding union
  union-United rounds parent n t a b h r =
      let fa =
        find-IsFound t.root t.depth n rounds parent a t.forest
          (omega (arith, h, t.forest.bounded a)) in
      let fb =
        find-IsFound t.root t.depth n rounds (find rounds parent a).1 b fa.forest
          (omega (arith, h, t.forest.bounded b)) in
      rw (union, fa.answer_root, fb.answer_root)
        (hang (find rounds (find rounds parent a).1 b).1 n
          (record { root = t.root; depth = t.depth; forest = fb.forest; sound = t.sound }) a b r)

  union_rest-Together :
      (rounds m : ℕ) (a : JsString) (ids : List JsString) (parent : Parents) (n : ℕ)
      (t : Trees R parent n)
      → n + length ids ≤ m
      → m < rounds
      → All (R a) ids
      → (t' : Trees R (union_rest rounds a ids parent) m) × Coarser t.root t'.root
        × All (λ b. t'.root a ≡ t'.root b) ids
  unfolding union_rest
  union_rest-Together rounds m a [] parent n t h k _ =
      (widen parent n t m (omega (arith, h)), λ x y e. e, tt)
  union_rest-Together rounds m a (b ∷ ids) parent n t h k (r, rs) =
      let (t1, c1, e1) = union-United rounds parent n t a b (omega (arith, h, k)) r in
      let (t2, c2, e2) =
        union_rest-Together rounds m a ids (union rounds parent a b) (suc n) t1 (omega (arith, h)) k
          rs in
      (t2, λ x y e. c2 x y (c1 x y e), (c2 a b e1, e2))

  Together-Coarser :
      (old new : JsString → JsString) (ids : List JsString)
      → Coarser old new
      → Together old ids
      → Together new ids
  Together-Coarser old new [] c h = tt
  Together-Coarser old new (a ∷ ids) c h =
      All-map (λ b. old a ≡ old b) (λ b. new a ≡ new b) (λ b e. c a b e) ids h

  union_ids-Together :
      (rounds m : ℕ) (ids : List JsString) (parent : Parents) (n : ℕ) (t : Trees R parent n)
      → n + length ids ≤ m
      → m < rounds
      → Related R ids
      → (t' : Trees R (union_ids rounds ids parent) (n + length ids)) × Coarser t.root t'.root
        × Together t'.root ids
  unfolding union_ids
  union_ids-Together rounds m [] parent n t h k _ =
      (widen parent n t _ (omega arith), λ x y e. e, tt)
  union_ids-Together rounds m (a ∷ ids) parent n t h k r =
      union_rest-Together rounds (n + suc (length ids)) a ids parent n t (omega arith)
        (omega (arith, h, k)) r

  pub union_all-Together :
      (rounds m : ℕ) (sets : List (List JsString)) (parent : Parents) (n : ℕ) (t : Trees R parent n)
      → n + total sets ≤ m
      → m < rounds
      → All (Related R) sets
      → (t' : Trees R (union_all rounds sets parent) m) × Coarser t.root t'.root
        × All (Together t'.root) sets
  unfolding union_all total
  union_all-Together rounds m [] parent n t h k _ =
      (widen parent n t m (omega (arith, h)), λ x y e. e, tt)
  union_all-Together rounds m (ids ∷ sets) parent n t h k (r, rs) =
      let (t1, c1, e1) = union_ids-Together rounds m ids parent n t (omega (arith, h)) k r in
      let (t2, c2, e2) =
        union_all-Together rounds m sets (union_ids rounds ids parent) (n + length ids) t1
          (omega (arith, h)) k rs in
      (t2, λ x y e. c2 x y (c1 x y e), (Together-Coarser t1.root t2.root ids c2 e1, e2))
