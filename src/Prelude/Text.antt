-- ===== src/Prelude/Text.antt =====
-- JavaScript strings: lists of code units, with the operations that the program uses.
use Prim.Native.Nat.{ℕ, ◌+◌}
use Prim.Native.Char.{code}
use Prim.Native.String.{String}
use mathlib.Core.Path.{◌≡◌, refl}
use mathlib.Core.Logic.{◌↔◌}
use mathlib.Core.Bool.{Bool, true, false, ◌&&◌, ◌||◌}
use mathlib.Core.List.{List, [], ◌∷◌}
use native.Mathlib.Omega.{arith}
use sync_rollups.Prelude.Tests.{leb, ◌==◌, ==_iff, if◌then◌else◌}

abbrev pub JsString : Type 0
JsString = List ℕ

-- A literal of the source; all of them are ASCII.
abbrev pub codes : String → JsString
codes String.[] = []
codes (String.◌∷◌ c s) = code c ∷ codes s

-- `s === t`
unfoldable pub str_eq : JsString → JsString → Bool
str_eq [] [] = true
str_eq [] (d ∷ t) = false
str_eq (c ∷ s) [] = false
str_eq (c ∷ s) (d ∷ t) = (c == d) && str_eq s t

pub str_eq_iff : (s t : JsString) → (str_eq s t ≡ true) ↔ (s ≡ t)
unfolding str_eq
str_eq_iff [] [] = (λ _. refl, λ _. refl)
str_eq_iff [] (d ∷ t) = ground arith
str_eq_iff (c ∷ s) [] = ground arith
str_eq_iff (c ∷ s) (d ∷ t) = ground (arith, ==_iff c d, str_eq_iff s t)

pub str_eq_refl : (s : JsString) → str_eq s s ≡ true
str_eq_refl s = (str_eq_iff s s).1 refl

-- `s.startsWith(t)`
unfoldable pub starts_with : JsString → JsString → Bool
starts_with s [] = true
starts_with [] (d ∷ t) = false
starts_with (c ∷ s) (d ∷ t) = (c == d) && starts_with s t

-- `s.includes(t)`
unfoldable pub includes : JsString → JsString → Bool
unfolding starts_with
includes [] t = starts_with [] t
includes (c ∷ s) t = starts_with (c ∷ s) t || includes s t

-- `s.toLowerCase()` on ASCII text, which addresses, hashes and calldata are.
abbrev pub lower_code : ℕ → ℕ
lower_code c = if leb b'A' c && leb c b'Z' then c + 32 else c

unfoldable pub to_lower : JsString → JsString
to_lower [] = []
to_lower (c ∷ s) = lower_code c ∷ to_lower s

-- JavaScript takes the empty string for false.
abbrev pub is_truthy : JsString → Bool
is_truthy [] = false
is_truthy (c ∷ s) = true

lower_code_idem : (c : ℕ) → lower_code (lower_code c) ≡ lower_code c
lower_code_idem c = ground arith

pub to_lower_idem : (s : JsString) → to_lower (to_lower s) ≡ to_lower s
unfolding to_lower
to_lower_idem [] = refl
to_lower_idem (c ∷ s) = cc (lower_code_idem c, to_lower_idem s)
