-- ===== src/Builder/Relays/Inclusion.antt =====
-- What the answer of rollup1/builder/bundle-submitter.ts says about a bundle.
use sync_rollups.Prelude.{
  ℕ, zero, suc, ◌+◌, ◌-◌, ◌≡◌, refl, Bool, true, false, JsString, Option, none, some, List, ltb,
}
use sync_rollups.Outcome.Io.{Io}
use sync_rollups.Outcome.Rules.{
  Ends, Ends-bind, Ends-then, EndsFrom-pure, Ends-pure, EndsFrom-given, Ends-catching,
}
use sync_rollups.Builder.Relays.{
  RelayServices, is_found, has_receipt, inclusion_loop, wait_for_inclusion, submit_and_wait,
  first_of,
}

module _ {S A : Type 0} (P : A → S → Type 0) where
  Ends-test :
      (b : Bool) (m n : Io S A) → Ends P m → Ends P n → Ends P (elim b [ true ↦ m | false ↦ n ])
  Ends-test true m n h k = h
  Ends-test false m n h k = k

  Ends-refused :
      (b : Bool) (m n : Io S A) → b ≡ false → Ends P n → Ends P (elim b [ true ↦ m | false ↦ n ])
  Ends-refused true m n e k = absurd cc
  Ends-refused false m n e k = k

  Ends-option :
      {B : Type 0} (o : Option B) (m : Io S A) (f : B → Io S A)
      → Ends P m
      → ((x : B) → Ends P (f x))
      → Ends P (elim o [ none ↦ m | some x ↦ f x ])
  Ends-option none m f h k = h
  Ends-option (some x) m f h k = k x

module _ {W : Type 0} (s : RelayServices W)
    (silent : (hash : JsString) → Ends (λ block _. block ≡ none) (s.receipt_block hash)) where
  abbrev Not : Bool → W → Type 0
  Not found w = found ≡ false

  found_none : (block : Option ℕ) → block ≡ none → is_found s block ≡ false
  unfolding is_found
  found_none none e = refl
  found_none (some n) e = absurd cc

  has_receipt-Ends : (hash : JsString) → Ends Not (has_receipt s hash)
  unfolding has_receipt
  has_receipt-Ends hash =
      Ends-catching Not _ _
        (Ends-then Not _ _ _ (silent hash)
          (λ block. EndsFrom-pure _ _ _ (λ _ e. found_none block e)))
        (λ e. Ends-pure _ _ (λ _. refl))

  inclusion_loop-Ends :
      (rounds start last target : ℕ) (hash : JsString)
      → Ends Not (inclusion_loop s rounds start last target hash)
  unfolding inclusion_loop
  inclusion_loop-Ends zero start last target hash = Ends-pure _ _ (λ _. refl)
  inclusion_loop-Ends (suc rounds) start last target hash = Ends-bind Not _ _ (λ time.
      Ends-test Not (ltb (time - start) 24000) _ _
        (Ends-bind Not _ _ (λ block.
          Ends-option Not block _ _
            (Ends-bind Not _ _ (λ _. inclusion_loop-Ends rounds start last target hash))
            (λ current.
              Ends-test Not (ltb last current) _ _
                (Ends-then Not Not _ _ (has_receipt-Ends hash) (λ found.
                  EndsFrom-given Not (found ≡ false) _ (λ e. Ends-refused Not found _ _ e (
                    Ends-test Not (ltb target current) _ _
                      (Ends-bind Not _ _ (λ _. has_receipt-Ends hash))
                      (Ends-bind Not _ _
                        (λ _. inclusion_loop-Ends rounds start current target hash))))))
                (Ends-bind Not _ _ (λ _. inclusion_loop-Ends rounds start last target hash)))))
        (Ends-pure _ _ (λ _. refl)))

  wait_for_inclusion-Ends :
      (target : ℕ) (hash : JsString) → Ends Not (wait_for_inclusion s target hash)
  unfolding wait_for_inclusion
  wait_for_inclusion-Ends target hash =
      Ends-bind Not _ _ (λ start. inclusion_loop-Ends 48 start 0 target hash)

  -- If the node on L1 never answers a receipt, a bundle is not reported as included, whatever the
  -- relays, the blocks and the clock do.
  pub submit_and_wait-Ends :
      (relays raws : List JsString) (target : ℕ)
      → Ends (λ result _. result.included ≡ false) (submit_and_wait s relays raws target)
  unfolding submit_and_wait
  submit_and_wait-Ends relays raws target = Ends-bind _ _ _ (λ hashes. Ends-bind _ _ _ (λ _.
      Ends-then _ Not _ _ (wait_for_inclusion-Ends (target + 2) (first_of s hashes)) (λ included.
        EndsFrom-given _ (included ≡ false) _
          (λ e. Ends-bind _ _ _ (λ block. Ends-pure _ _ (λ _. e))))))
