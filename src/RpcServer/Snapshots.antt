-- ===== src/RpcServer/Snapshots.antt =====
-- The builder's rollbacks reach rollup1/reth-fullnode/rpc-server.ts in two forms; what they come to.
use sync_rollups.Prelude.{
  ℕ, zero, suc, ◌+◌, ◌*◌, ◌/◌, ◌%◌, ◌<◌, ◌≤◌, ◌≡◌, refl, ap, ◌∙◌, arith, JsString, none, some, [],
  ◌∷◌, ◌==◌, ==_iff, if◌then◌else◌, false, Bool-cases, inl, inr, All,
}
use sync_rollups.Prelude.Int.{pos}
use native.Mathlib.Nat.{mod-lt, div-lt_self}
use sync_rollups.Outcome.{ok}
use sync_rollups.Types.BigInt.{
  digit_code, digit_loop, digits, digit_value, raw_digit, to_string, to_hex, IsDecimal,
  digits-IsDecimal,
}
use sync_rollups.Builder.{block_text, block_number}
use sync_rollups.RpcServer.{parse_prefix, parse_int, revert_target}

-- The number that the digits of `n` in a base are in base 16.
reread : ℕ → ℕ → ℕ → ℕ
reread base zero n = 0
reread base (suc f) n =
    if n == 0 then 0 else (let rest = reread base f (n / base) in rest * 16 + n % base)

module _ {base : ℕ} (two : 2 ≤ base) (hex : base ≤ 16) where
  parse_first :
      (d : ℕ) (s : JsString)
      → d < base
      → parse_prefix none (digit_code d ∷ s) ≡ parse_prefix (some d) s
  unfolding parse_prefix digit_value raw_digit
  parse_first d s h = ground arith

  parse_next :
      (n d : ℕ) (s : JsString)
      → d < base
      → parse_prefix (some n) (digit_code d ∷ s) ≡ parse_prefix (some (n * 16 + d)) s
  unfolding parse_prefix digit_value raw_digit
  parse_next n d s h = ground arith

  quotient_lt : (f n : ℕ) → (n == 0) ≡ false → n < suc f → n / base < f
  quotient_lt f n e h = ground (arith, div-lt_self {n = n} {k = base})

  loop_of_zero : (f : ℕ) (out : JsString) → digit_loop base f 0 out ≡ out
  unfolding digit_loop
  loop_of_zero zero out = refl
  loop_of_zero (suc f) out = refl

  reread_of_zero : (f : ℕ) → reread base f 0 ≡ 0
  unfolding reread
  reread_of_zero zero = refl
  reread_of_zero (suc f) = refl

  parse_prefix-digit_loop :
      (f n : ℕ) (out : JsString)
      → n < f
      → (n == 0) ≡ false
      → parse_prefix none (digit_loop base f n out) ≡ parse_prefix (some (reread base f n)) out
  unfolding digit_loop reread
  parse_prefix-digit_loop zero n out h e = elim h [ ]
  parse_prefix-digit_loop (suc f) n out h e = elim (Bool-cases (n / base == 0)) [
    | inl z ↦
        rw
          (
            e,
            (==_iff (n / base) 0).0 z,
            loop_of_zero f (digit_code (n % base) ∷ out),
            reread_of_zero f,
          )
          (parse_first (n % base) out (mod-lt n (omega arith))
            ∙ ap (λ k. parse_prefix (some k) out) (omega arith))
    | inr z ↦ rw e (
        parse_prefix-digit_loop f (n / base) (digit_code (n % base) ∷ out) (quotient_lt f n e h) z
        ∙ parse_next (reread base f (n / base)) (n % base) out (mod-lt n (omega arith)))
  ]

  parse_prefix-digits : (n : ℕ) → parse_prefix none (digits base n) ≡ some (reread base (suc n) n)
  unfolding digits parse_prefix
  parse_prefix-digits n = elim (Bool-cases (n == 0)) [
    | inl e ↦ rw ((==_iff n 0).0 e, reread_of_zero 1) (parse_first 0 [] (omega arith))
    | inr e ↦ rw e (parse_prefix-digit_loop (suc n) n [] (omega arith) e)
  ]

reread16 : (f n : ℕ) → n < f → reread 16 f n ≡ n
unfolding reread
reread16 zero n h = elim h [ ]
reread16 (suc f) n h = ground (arith, reread16 f (n / 16))

reread10_ge : (f n : ℕ) → n < f → n ≤ reread 10 f n
unfolding reread
reread10_ge zero n h = elim h [ ]
reread10_ge (suc f) n h = ground (arith, reread10_ge f (n / 10))

reread10_gt : (f n : ℕ) → n < f → 9 < n → n < reread 10 f n
unfolding reread
reread10_gt zero n h k = elim h [ ]
reread10_gt (suc f) n h k = ground (arith, reread10_ge f (n / 10))

parse_int_of_decimal : (s : JsString) → All IsDecimal s → parse_int s ≡ parse_prefix none s
unfolding parse_int parse_prefix
parse_int_of_decimal [] h = refl
parse_int_of_decimal (c ∷ []) h = refl
parse_int_of_decimal (c ∷ d ∷ s) h = ground arith

-- A rollback that the builder asks for in hexadecimal text goes back to the block that is meant.
pub revert_target-hex : (n : ℕ) → revert_target (block_text (to_hex (pos n))) ≡ ok (some n)
unfolding revert_target parse_int to_hex to_string
revert_target-hex n =
    ap ok (
      parse_prefix-digits (omega arith) (omega arith) n
      ∙ ap some (reread16 (suc n) n (omega arith)))

-- A rollback that the builder asks for by a number from 10 on, as after a failed L2 transaction,
-- goes to a block with a higher number: the decimal digits are read as hexadecimal ones.
pub revert_target-number :
    (n : ℕ) → 9 < n → (k : ℕ) × (revert_target (block_number n) ≡ ok (some k)) × (n < k)
unfolding revert_target to_string
revert_target-number n h = (
  reread 10 (suc n) n,
  rw (too_large n h, parse_int_of_decimal (digits 10 n) (digits-IsDecimal n))
      (ap ok (parse_prefix-digits (omega arith) (omega arith) n)),
  reread10_gt (suc n) n (omega arith) h,
)
  where
    too_large : (n : ℕ) → 9 < n → (n == 0) ≡ false
    too_large n h = ground arith
