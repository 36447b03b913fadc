-- ===== src/Maps.antt =====
-- `Map` of JavaScript, with texts or numbers for keys: entries in the order of insertion, where a
-- second `set` of a key keeps its place.
use sync_rollups.Prelude.{
  ℕ, ◌≤◌, Bool, true, false, ◌≡◌, ◌↔◌, refl, Option, none, some, List, [], ◌∷◌, JsString, str_eq,
  str_eq_iff, ◌==◌, ==_iff, if◌then◌else◌, arith, length,
}

-- What `===` decides on keys.
pub record Key (K : Type 0) : Type 0 where
  pub key_eq : K → K → Bool
  pub key_eq_iff : (j k : K) → (key_eq j k ≡ true) ↔ (j ≡ k)

instance abbrev pub text_key : Key JsString
text_key = record { key_eq = str_eq; key_eq_iff = str_eq_iff }

instance abbrev pub nat_key : Key ℕ
nat_key = record { key_eq = λ a b. a == b; key_eq_iff = ==_iff }

abbrev pub JsMap : Type 0 → Type 0 → Type 0
JsMap K V = List (K × V)

module _ {K V : Type 0} ⦃e : Key K⦄ where
  unfoldable pub map_get : JsMap K V → K → Option V
  map_get [] k = none
  map_get ((j, v) ∷ m) k = if e.key_eq j k then some v else map_get m k

  unfoldable pub map_set : JsMap K V → K → V → JsMap K V
  map_set [] k v = (k, v) ∷ []
  map_set ((j, w) ∷ m) k v = if e.key_eq j k then (j, v) ∷ m else (j, w) ∷ map_set m k v

  unfoldable pub map_has : JsMap K V → K → Bool
  map_has [] k = false
  map_has ((j, v) ∷ m) k = if e.key_eq j k then true else map_has m k

  unfoldable pub map_delete : JsMap K V → K → JsMap K V
  map_delete [] k = []
  map_delete ((j, v) ∷ m) k =
      let rest = map_delete m k in if e.key_eq j k then rest else (j, v) ∷ rest

  pub map_get-map_set :
      (m : JsMap K V) (k j : K) (v : V)
      → map_get (map_set m k v) j ≡ (if e.key_eq k j then some v else map_get m j)
  unfolding map_get map_set
  map_get-map_set [] k j v = refl
  map_get-map_set ((i, w) ∷ m) k j v =
      ground (arith, e.key_eq_iff k j, e.key_eq_iff i k, e.key_eq_iff i j, map_get-map_set m k j v)

  pub map_get-map_delete :
      (m : JsMap K V) (k j : K)
      → map_get (map_delete m k) j ≡ (if e.key_eq k j then none else map_get m j)
  unfolding map_get map_delete
  map_get-map_delete [] k j = ground arith
  map_get-map_delete ((i, w) ∷ m) k j =
      ground (arith, e.key_eq_iff k j, e.key_eq_iff i k, e.key_eq_iff i j, map_get-map_delete m k j)

  pub length-map_delete : (m : JsMap K V) (k : K) → length (map_delete m k) ≤ length m
  unfolding map_delete
  length-map_delete [] k = omega arith
  length-map_delete ((i, w) ∷ m) k = ground (arith, length-map_delete m k)
