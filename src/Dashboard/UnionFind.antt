-- ===== src/Dashboard/UnionFind.antt =====
-- The union-find of `buildTransactionBundles` in
-- visualizator/dashboard/src/lib/crossChainCorrelation.ts, on the ids of events. Its maps are
-- passed on; a set is a list in the order of insertion.
pub mod Forest
pub mod Classes
use sync_rollups.Prelude.{
  ℕ, zero, suc, ◌+◌, true, false, JsString, str_eq, none, some, List, [], ◌∷◌, ◌++◌, any, length,
  if◌then◌else◌,
}
use sync_rollups.Maps.{JsMap, text_key, map_get, map_set, map_has}

abbrev pub Parents : Type 0
Parents = JsMap JsString JsString

-- `parent.get(x)`; every id that is asked for has been set by `find`.
unfoldable pub parent_of : Parents → JsString → JsString
parent_of parent x = elim (map_get parent x) [ none ↦ x | some p ↦ p ]

-- The loop of `find` beside the map, in which it has halved the path.
unfoldable pub follow : ℕ → Parents → JsString → JsString × Parents
unfolding parent_of
follow zero parent x = (x, parent)
follow (suc rounds) parent x = elim (str_eq (parent_of parent x) x) [
  | true ↦ (x, parent)
  | false ↦
      let above = parent_of parent (parent_of parent x) in
      follow rounds (map_set parent x above) above
]

unfoldable pub with_id : Parents → JsString → Parents
with_id parent x = if map_has parent x then parent else map_set parent x x

unfoldable pub find : ℕ → Parents → JsString → JsString × Parents
unfolding follow with_id
find rounds parent x = follow rounds (with_id parent x) x

unfoldable pub union : ℕ → Parents → JsString → JsString → Parents
unfolding find
union rounds parent a b =
    let ra = find rounds parent a in
    let rb = find rounds ra.1 b in if str_eq ra.0 rb.0 then rb.1 else map_set rb.1 ra.0 rb.0

-- The first id of a set is united with the others.
unfoldable pub union_rest : ℕ → JsString → List JsString → Parents → Parents
union_rest rounds a [] parent = parent
union_rest rounds a (b ∷ ids) parent = union_rest rounds a ids (union rounds parent a b)

unfoldable pub union_ids : ℕ → List JsString → Parents → Parents
unfolding union_rest
union_ids rounds [] parent = parent
union_ids rounds (a ∷ ids) parent = union_rest rounds a ids parent

unfoldable pub union_all : ℕ → List (List JsString) → Parents → Parents
unfolding union_ids
union_all rounds [] parent = parent
union_all rounds (ids ∷ sets) parent = union_all rounds sets (union_ids rounds ids parent)

-- `set.add(x)`
unfoldable pub set_add : List JsString → JsString → List JsString
set_add l x = if any (λ y. str_eq y x) l then l else l ++ (x ∷ [])

-- `m.get(k)`, where a missing key has the empty set.
unfoldable pub set_at : JsMap JsString (List JsString) → JsString → List JsString
set_at m k = elim (map_get m k) [ none ↦ [] | some l ↦ l ]

unfoldable pub add_at :
    JsMap JsString (List JsString) → JsString → JsString → JsMap JsString (List JsString)
unfolding set_add set_at
add_at m k x = map_set m k (set_add (set_at m k) x)

-- The ids, each in the set of its root.
unfoldable pub collect :
    ℕ → List JsString → Parents → JsMap JsString (List JsString) → JsMap JsString (List JsString)
unfolding find add_at
collect rounds [] parent groups = groups
collect rounds (x ∷ ids) parent groups =
    let root = find rounds parent x in collect rounds ids root.1 (add_at groups root.0 x)

-- A path is never longer than the unions made, of which there is at most one for each id of a set.
unfoldable pub total : List (List JsString) → ℕ
total [] = 0
total (ids ∷ sets) = length ids + total sets

unfoldable pub group_ids : List (List JsString) → List JsString → JsMap JsString (List JsString)
unfolding total union_all collect
group_ids sets ids =
    let rounds = suc (total sets) in collect rounds ids (union_all rounds sets []) []
