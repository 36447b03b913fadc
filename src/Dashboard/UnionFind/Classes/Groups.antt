-- ===== src/Dashboard/UnionFind/Classes/Groups.antt =====
-- The groups of the ids are the classes of the relation that the sets generate.
use sync_rollups.Dashboard.UnionFind.Classes.Members.{collected_all}
use mathlib.Core.List.{Memᴰ}
use mathlib.Core.List.Memᴰ
use mathlib.Core.Path.{subst}
use sync_rollups.Prelude.{suc, ◌≡◌, ◌∙◌, ◌↔◌, refl, sym, ap, JsString, List, [], ◌∷◌, All, arith}
use sync_rollups.Maps.{JsMap, text_key, map_get}
use sync_rollups.Dashboard.UnionFind.{set_at, parent_of, total, union_all, group_ids}
use sync_rollups.Dashboard.UnionFind.Classes.{
  IsEquivalence, Trees, Together, Related, union_all-Together,
}

-- The equivalence that the sets generate: two ids are linked if a chain of ids leads from one to
-- the other in which neighbours stand in a set together.
pub data Linked (sets : List (List JsString)) : JsString → JsString → Type 0 where
  itself : {x : JsString} → Linked sets x x
  share :
      {x y : JsString} {ids : List JsString}
      → Memᴰ ids sets
      → Memᴰ x ids
      → Memᴰ y ids
      → Linked sets x y
  back : {x y : JsString} → Linked sets x y → Linked sets y x
  chain : {x y z : JsString} → Linked sets x y → Linked sets y z → Linked sets x z

Linked-IsEquivalence : (sets : List (List JsString)) → IsEquivalence (Linked sets)
Linked-IsEquivalence sets = record {
  reflexive = λ x. itself;
  symmetric = λ x y h. back h;
  transitive = λ x y z h k. chain h k;
}

All-at : {A : Type 0} (P : A → Type 0) (a : A) (l : List A) → Memᴰ a l → All P l → P a
All-at P a [] m h = absurd (Memᴰ.not-nil m)
All-at P a (x ∷ l) (Memᴰ.head e) (p, h) = subst P (sym e) p
All-at P a (x ∷ l) (Memᴰ.tail m) (p, h) = All-at P a l m h

All-of : {A : Type 0} (P : A → Type 0) (l : List A) → ((a : A) → Memᴰ a l → P a) → All P l
All-of P [] h = tt
All-of P (x ∷ l) h = (h x (Memᴰ.head refl), All-of P l (λ a m. h a (Memᴰ.tail m)))

Related-of :
    (R : JsString → JsString → Type 0) (ids : List JsString)
    → ((x y : JsString) → Memᴰ x ids → Memᴰ y ids → R x y)
    → Related R ids
Related-of R [] h = tt
Related-of R (a ∷ ids) h = All-of (R a) ids (λ b m. h a b (Memᴰ.head refl) (Memᴰ.tail m))

sets-Related : (sets : List (List JsString)) → All (Related (Linked sets)) sets
sets-Related sets =
    All-of (Related (Linked sets)) sets
      (λ ids m. Related-of (Linked sets) ids (λ x y p q. share m p q))

first_root :
    (root : JsString → JsString) (a : JsString) (ids : List JsString) (x : JsString)
    → Together root (a ∷ ids)
    → Memᴰ x (a ∷ ids)
    → root a ≡ root x
first_root root a ids x h (Memᴰ.head e) = ap root (sym e)
first_root root a ids x h (Memᴰ.tail m) = All-at (λ b. root a ≡ root b) x ids m h

Together-at :
    (root : JsString → JsString) (ids : List JsString) (x y : JsString)
    → Together root ids
    → Memᴰ x ids
    → Memᴰ y ids
    → root x ≡ root y
Together-at root [] x y h m k = absurd (Memᴰ.not-nil m)
Together-at root (a ∷ ids) x y h m k =
    sym (first_root root a ids x h m) ∙ first_root root a ids y h k

module _ (sets : List (List JsString)) (root : JsString → JsString)
    (together : All (Together root) sets) where
  Linked-root : {x y : JsString} → Linked sets x y → root x ≡ root y
  Linked-root itself = refl
  Linked-root (share {x} {y} {ids} m p q) =
      Together-at root ids x y (All-at (Together root) ids sets m together) p q
  Linked-root (back h) = sym (Linked-root h)
  Linked-root (chain h k) = Linked-root h ∙ Linked-root k

-- Each id is in one group, and two ids are in the same group exactly if they are linked.
pub record IsGrouping (sets : List (List JsString)) (ids : List JsString)
    (groups : JsMap JsString (List JsString)) : Type 0 where
  pub placed : (x : JsString) → Memᴰ x ids → (r : JsString) × Memᴰ x (set_at groups r)
  pub only_ids : (r x : JsString) → Memᴰ x (set_at groups r) → Memᴰ x ids
  pub once : (r r' x : JsString) → Memᴰ x (set_at groups r) → Memᴰ x (set_at groups r') → r ≡ r'
  pub exact :
      (r x y : JsString)
      → Memᴰ x (set_at groups r)
      → Memᴰ y ids
      → (Memᴰ y (set_at groups r) ↔ Linked sets x y)

blank : (R : JsString → JsString → Type 0) → IsEquivalence R → Trees R [] 0
unfolding parent_of map_get
blank R eq = record {
  root = λ x. x;
  depth = λ x. 0;
  forest = record {
    same_root = λ x. refl;
    at_root = λ x e. (refl, refl);
    nearer = λ x n. absurd (n refl);
    bounded = λ x. omega arith;
    top = λ x. refl;
  };
  sound = eq.reflexive;
}

-- With a round for each id of the sets, and one, every search of the union-find ends at a root, and
-- its groups are the classes of the ids under the equivalence that the sets generate: each id is in
-- exactly one group, and an id is in the group of another exactly if they are linked.
pub group_ids-IsGrouping :
    (sets : List (List JsString)) (ids : List JsString) → IsGrouping sets ids (group_ids sets ids)
unfolding group_ids
group_ids-IsGrouping sets ids =
    let (t, _, together) =
      union_all-Together (Linked sets) (Linked-IsEquivalence sets) (suc (total sets)) (total sets)
        sets [] 0 (blank _ (Linked-IsEquivalence sets)) (omega arith) (omega arith)
        (sets-Related sets) in
    let spec = λ (r y : JsString).
      collected_all t.root t.depth (total sets) (suc (total sets)) (omega arith) ids
        (union_all (suc (total sets)) sets []) t.forest r y in
    record {
      placed = λ x m. (t.root x, (spec (t.root x) x).1 (m, refl));
      only_ids = λ r x m. ((spec r x).0 m).0;
      once = λ r r' x m m'. sym ((spec r x).0 m).1 ∙ ((spec r' x).0 m').1;
      exact = λ r x y m k. (
        λ q.
            chain (t.sound x) (back (rw (((spec r x).0 m).1 ∙ sym ((spec r y).0 q).1) (t.sound y))),
        λ l. (spec r y).1 (k, sym (Linked-root sets t.root together l) ∙ ((spec r x).0 m).1),
      );
    }
