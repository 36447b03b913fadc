-- ===== src/Types/BigInt.antt =====
-- `n.toString(16)` and `BigInt(text)` of JavaScript, as rollup1/reth-fullnode/types.ts uses them.
-- White space around the text, which `BigInt` skips and no value of the program has, is refused.
use sync_rollups.Prelude.{
  ℕ, zero, suc, ◌+◌, ◌-◌, ◌*◌, ◌/◌, ◌%◌, ◌<◌, ◌≤◌, Bool, true, false, ◌&&◌, ◌||◌, ◌≡◌, ◌≢◌, refl,
  sym, ap, ◌∙◌, arith, JsString, codes, Option, none, some, [], ◌∷◌, ltb, leb, ◌==◌, if◌then◌else◌,
  Bool, true, false, ◌↔◌, Bool-cases, inl, inr, ==_iff, All,
}
use sync_rollups.Prelude.Int.{ℤ, pos, negsuc, sub_ℕ}
use native.Mathlib.Nat.{mod-lt, div-lt_self, div-add-mod'}
use sync_rollups.Outcome.{Outcome, ok, throw}

abbrev pub digit_code : ℕ → ℕ
digit_code d = if ltb d 10 then b'0' + d else b'a' + (d - 10)

-- The digits of `n` in front of `out`.
unfoldable pub digit_loop : ℕ → ℕ → ℕ → JsString → JsString
digit_loop base zero n out = out
digit_loop base (suc f) n out =
    let rest = digit_loop base f (n / base) (digit_code (n % base) ∷ out) in
    if n == 0 then out else rest

unfoldable pub digits : ℕ → ℕ → JsString
digits base n = if n == 0 then b'0' ∷ [] else digit_loop base (suc n) n []

-- `n.toString(base)`
unfoldable pub to_string : ℕ → ℤ → JsString
to_string base (pos n) = digits base n
to_string base (negsuc n) = b'-' ∷ digits base (suc n)

-- `"0x" + n.toString(16)`
unfoldable pub to_hex : ℤ → JsString
unfolding to_string
to_hex n = b'0' ∷ b'x' ∷ to_string 16 n

unfoldable pub raw_digit : ℕ → Option ℕ
raw_digit c =
    if leb b'0' c && leb c b'9'
    then some (c - b'0')
    else if leb b'a' c && leb c b'f'
    then some (c - b'a' + 10)
    else if leb b'A' c && leb c b'F'
    then some (c - b'A' + 10)
    else none

unfoldable pub digit_value : ℕ → ℕ → Option ℕ
unfolding raw_digit
digit_value base c = elim (raw_digit c) [
  | none ↦ none
  | some d ↦ if ltb d base then some d else none
]

scan : ℕ → ℕ → JsString → Option ℕ
scan base n [] = some n
scan base n (c ∷ s) = elim (digit_value base c) [
  | none ↦ none
  | some d ↦ scan base (n * base + d) s
]

abbrev syntax_error : Outcome ℤ
syntax_error = throw (codes "SyntaxError")

-- One digit at least.
parse_digits : ℕ → JsString → Outcome ℤ
unfolding scan digit_value
parse_digits base [] = syntax_error
parse_digits base (c ∷ s) = elim (scan base 0 (c ∷ s)) [ none ↦ syntax_error | some n ↦ ok (pos n) ]

abbrev negate : Outcome ℤ → Outcome ℤ
negate (ok (pos n)) = ok (sub_ℕ 0 n)
negate (ok (negsuc n)) = ok (pos (suc n))
negate (throw e) = throw e

parse_prefixed : ℕ → JsString → JsString → Outcome ℤ
unfolding parse_digits
parse_prefixed c s whole =
    if c == b'x' || c == b'X'
    then parse_digits 16 s
    else if c == b'o' || c == b'O'
    then parse_digits 8 s
    else if c == b'b' || c == b'B'
    then parse_digits 2 s
    else parse_digits 10 whole

parse_signed : ℕ → JsString → Outcome ℤ
unfolding parse_digits
parse_signed c s =
    if c == b'-'
    then negate (parse_digits 10 s)
    else if c == b'+'
    then parse_digits 10 s
    else parse_digits 10 (c ∷ s)

-- `BigInt(text)`: hexadecimal, octal or binary with a prefix, or decimal with a sign.
unfoldable pub big_int : JsString → Outcome ℤ
unfolding parse_prefixed parse_signed
big_int [] = ok (pos 0)
big_int (c ∷ []) = parse_signed c []
big_int (c ∷ d ∷ s) = if c == b'0' then parse_prefixed d s (c ∷ d ∷ s) else parse_signed c (d ∷ s)

module _ {base : ℕ} (two : 2 ≤ base) (hex : base ≤ 16) where
  scan-digit_code :
      (n d : ℕ) (s : JsString)
      → d < base
      → scan base n (digit_code d ∷ s) ≡ scan base (n * base + d) s
  unfolding scan digit_value
  scan-digit_code n d s h = ground arith

  scan-digit_loop :
      (f n : ℕ) (out : JsString) → n < f → scan base 0 (digit_loop base f n out) ≡ scan base n out
  unfolding digit_loop
  scan-digit_loop zero n out h = elim h [ ]
  scan-digit_loop (suc f) n out h = elim (Bool-cases (n == 0)) [
    | inl e ↦ rw e (ap (λ k. scan base k out) (sym ((==_iff n 0).0 e)))
    | inr e ↦ rw e (
        scan-digit_loop f (n / base) (digit_code (n % base) ∷ out) (quotient_lt f n e h)
        ∙ scan-digit_code (n / base) (n % base) out (mod-lt n (omega arith))
        ∙ ap (λ k. scan base k out) (div-add-mod' n base))
  ]
    where
      quotient_lt : (f n : ℕ) → (n == 0) ≡ false → n < suc f → n / base < f
      quotient_lt f n e h = ground (arith, div-lt_self {n = n} {k = base})

  digit_loop-ne-nil : (f n : ℕ) (out : JsString) → out ≢ [] → digit_loop base f n out ≢ []
  unfolding digit_loop
  digit_loop-ne-nil zero n out h = h
  digit_loop-ne-nil (suc f) n out h =
      ground (arith, digit_loop-ne-nil f (n / base) (digit_code (n % base) ∷ out))

  digit_loop-ne-nil_of_pos :
      (f n : ℕ) (out : JsString) → (n == 0) ≡ false → n < f → digit_loop base f n out ≢ []
  unfolding digit_loop
  digit_loop-ne-nil_of_pos zero n out e h = elim h [ ]
  digit_loop-ne-nil_of_pos (suc f) n out e h =
      rw e (digit_loop-ne-nil f (n / base) (digit_code (n % base) ∷ out) (cc))

  parse_digits-eq-ok :
      (n : ℕ) (s : JsString) → s ≢ [] → scan base 0 s ≡ some n → parse_digits base s ≡ ok (pos n)
  unfolding parse_digits
  parse_digits-eq-ok n [] h e = absurd (h refl)
  parse_digits-eq-ok n (c ∷ s) h e = rw (e, parse_digits)

  parse_digits-zero : parse_digits base (b'0' ∷ []) ≡ ok (pos 0)
  unfolding parse_digits
  parse_digits-zero = ground arith

  parse_digits-digits : (n : ℕ) → parse_digits base (digits base n) ≡ ok (pos n)
  unfolding digits scan
  parse_digits-digits n = elim (Bool-cases (n == 0)) [
    | inl e ↦ rw e (parse_digits-zero ∙ ap (λ k. ok (pos k)) (sym ((==_iff n 0).0 e)))
    | inr e ↦ rw e (
        parse_digits-eq-ok n _ (digit_loop-ne-nil_of_pos (suc n) n [] e (omega arith))
          (scan-digit_loop (suc n) n [] (omega arith)))
  ]

-- Reading back what was printed gives the number, however large.
pub big_int-to_hex : (n : ℕ) → big_int (to_hex (pos n)) ≡ ok (pos n)
unfolding big_int to_hex
big_int-to_hex n = parse_digits-digits (omega arith) (omega arith) n

abbrev pub IsDecimal : ℕ → Type 0
IsDecimal c = (b'0' ≤ c) × (c ≤ b'9')

digit_loop-IsDecimal :
    (f n : ℕ) (out : JsString) → All IsDecimal out → All IsDecimal (digit_loop 10 f n out)
unfolding digit_loop
digit_loop-IsDecimal zero n out h = h
digit_loop-IsDecimal (suc f) n out h =
    ground (arith, digit_loop-IsDecimal f (n / 10) (digit_code (n % 10) ∷ out))

pub digits-IsDecimal : (n : ℕ) → All IsDecimal (digits 10 n)
unfolding digits
digits-IsDecimal n = ground (arith, digit_loop-IsDecimal (suc n) n [] tt)

big_int-decimal :
    (s : JsString) {z : ℤ} → All IsDecimal s → parse_digits 10 s ≡ ok z → big_int s ≡ ok z
unfolding big_int
big_int-decimal [] h e = unfold parse_digits in cc e
big_int-decimal (c ∷ []) h e = ground arith
big_int-decimal (c ∷ d ∷ s) h e = ground arith

-- So does the decimal form.
pub big_int-to_string10 : (n : ℕ) → big_int (to_string 10 (pos n)) ≡ ok (pos n)
unfolding to_string
big_int-to_string10 n =
    big_int-decimal (digits 10 n) (digits-IsDecimal n)
      (parse_digits-digits (omega arith) (omega arith) n)

-- `a === b` on integers.
abbrev pub int_eq : ℤ → ℤ → Bool
int_eq (pos a) (pos b) = a == b
int_eq (negsuc a) (negsuc b) = a == b
int_eq (pos a) (negsuc b) = false
int_eq (negsuc a) (pos b) = false

pub int_eq_iff : (a b : ℤ) → (int_eq a b ≡ true) ↔ (a ≡ b)
int_eq_iff a b = ground arith
