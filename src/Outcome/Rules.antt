-- ===== src/Outcome/Rules.antt =====
-- Rules for what async methods guarantee: `Ends P m` speaks of the runs that do not throw, and
-- `Returns Q P m` says that from a state of `Q` no run throws too.
use sync_rollups.Prelude.{JsString, Bool, true, false, ◌≡◌, refl, if◌then◌else◌}
use sync_rollups.Outcome.{Outcome, ok, throw}
use sync_rollups.Outcome.Io.{Io, pure, raise, lift, modify, catching, recover, continue, ◌>>=◌}

module _ {S A : Type 0} where
  abbrev pub EndsAt : (A → S → Type 0) → Outcome A → S → Type 0
  EndsAt P (ok a) s = P a s
  EndsAt P (throw e) s = Unit

  abbrev pub ReturnsAt : (A → S → Type 0) → Outcome A → S → Type 0
  ReturnsAt P (ok a) s = P a s
  ReturnsAt P (throw e) s = ⊥

  pub record Ends (P : A → S → Type 0) (m : Io S A) : Type 0 where
    pub ends : (s : S) → EndsAt P (m s).0 (m s).1

  pub record Returns (Q : S → Type 0) (P : A → S → Type 0) (m : Io S A) : Type 0 where
    pub returns : (s : S) → Q s → ReturnsAt P (m s).0 (m s).1

abbrev pub Always : {S : Type 0} → S → Type 0
Always s = Unit

module _ {S A B : Type 0} (P : B → S → Type 0) where
  Ends-continue :
      (r : Outcome A) (f : A → Io S B) (s : S)
      → ((a : A) → Ends P (f a))
      → EndsAt P (continue r f s).0 (continue r f s).1
  Ends-continue (ok a) f s h = (h a).ends s
  Ends-continue (throw e) f s h = tt

  pub Ends-bind : (m : Io S A) (f : A → Io S B) → ((a : A) → Ends P (f a)) → Ends P (m >>= f)
  unfolding ◌>>=◌
  Ends-bind m f h = record { ends = λ s. Ends-continue (m s).0 f (m s).1 h }

  Returns-continue :
      (Q : A → S → Type 0) (r : Outcome A) (f : A → Io S B) (s : S)
      → ReturnsAt Q r s
      → ((a : A) → Returns (Q a) P (f a))
      → ReturnsAt P (continue r f s).0 (continue r f s).1
  Returns-continue Q (ok a) f s q h = (h a).returns s q
  Returns-continue Q (throw e) f s q h = absurd q

  pub Returns-bind :
      (R : S → Type 0) (Q : A → S → Type 0) (m : Io S A) (f : A → Io S B)
      → Returns R Q m
      → ((a : A) → Returns (Q a) P (f a))
      → Returns R P (m >>= f)
  unfolding ◌>>=◌
  Returns-bind R Q m f h k = record {
    returns = λ s r. Returns-continue Q (m s).0 f (m s).1 (h.returns s r) k;
  }

module _ {S : Type 0} where
  -- `Ends` for the runs from a state of `Q`.
  pub record EndsFrom {A : Type 0} (Q : S → Type 0) (P : A → S → Type 0) (m : Io S A) : Type 0 where
    pub ends : (s : S) → Q s → EndsAt P (m s).0 (m s).1

module _ {S A B : Type 0} (P : B → S → Type 0) where
  ends_after :
      (Q : A → S → Type 0) (r : Outcome A) (f : A → Io S B) (s : S)
      → EndsAt Q r s
      → ((a : A) → EndsFrom (Q a) P (f a))
      → EndsAt P (continue r f s).0 (continue r f s).1
  ends_after Q (ok a) f s q h = (h a).ends s q
  ends_after Q (throw e) f s q h = tt

  pub Ends-then :
      (Q : A → S → Type 0) (m : Io S A) (f : A → Io S B)
      → Ends Q m
      → ((a : A) → EndsFrom (Q a) P (f a))
      → Ends P (m >>= f)
  unfolding ◌>>=◌
  Ends-then Q m f h k = record { ends = λ s. ends_after Q (m s).0 f (m s).1 (h.ends s) k }

  pub EndsFrom-bind :
      (R : S → Type 0) (Q : A → S → Type 0) (m : Io S A) (f : A → Io S B)
      → EndsFrom R Q m
      → ((a : A) → EndsFrom (Q a) P (f a))
      → EndsFrom R P (m >>= f)
  unfolding ◌>>=◌
  EndsFrom-bind R Q m f h k = record { ends = λ s r. ends_after Q (m s).0 f (m s).1 (h.ends s r) k }

module _ {S : Type 0} (P : Unit {0} → S → Type 0) (f : S → S) where
  pub Ends-modify : ((s : S) → P tt (f s)) → Ends P (modify f)
  unfolding modify
  Ends-modify h = record { ends = λ s. h s }

  pub EndsFrom-modify : (Q : S → Type 0) → ((s : S) → Q s → P tt (f s)) → EndsFrom Q P (modify f)
  unfolding modify
  EndsFrom-modify Q h = record { ends = λ s q. h s q }

  pub Returns-modify : (Q : S → Type 0) → ((s : S) → Q s → P tt (f s)) → Returns Q P (modify f)
  unfolding modify
  Returns-modify Q h = record { returns = λ s q. h s q }

module _ {S A : Type 0} (P : A → S → Type 0) where
  pub ends_weaken :
      (Q : A → S → Type 0) (r : Outcome A) (s : S)
      → ((a : A) (s : S) → Q a s → P a s)
      → EndsAt Q r s
      → EndsAt P r s
  ends_weaken Q (ok a) s h q = h a s q
  ends_weaken Q (throw e) s h q = tt

  pub EndsFrom-pure : (Q : S → Type 0) (a : A) → ((s : S) → Q s → P a s) → EndsFrom Q P (pure a)
  unfolding pure
  EndsFrom-pure Q a h = record { ends = λ s q. h s q }

  pub EndsFrom-weaken : (Q : S → Type 0) (m : Io S A) → Ends P m → EndsFrom Q P m
  EndsFrom-weaken Q m h = record { ends = λ s q. h.ends s }

  pub Ends-weaken :
      (Q : A → S → Type 0) (m : Io S A) → ((a : A) (s : S) → Q a s → P a s) → Ends Q m → Ends P m
  Ends-weaken Q m h k = record { ends = λ s. ends_weaken Q (m s).0 (m s).1 h (k.ends s) }

  pub Ends-pure : (a : A) → ((s : S) → P a s) → Ends P (pure a)
  unfolding pure
  Ends-pure a h = record { ends = λ s. h s }

  pub Returns-pure : (Q : S → Type 0) (a : A) → ((s : S) → Q s → P a s) → Returns Q P (pure a)
  unfolding pure
  Returns-pure Q a h = record { returns = λ s q. h s q }

  pub Returns-weaken :
      (Q R : S → Type 0) (m : Io S A) → ((s : S) → R s → Q s) → Returns Q P m → Returns R P m
  Returns-weaken Q R m h r = record { returns = λ s q. r.returns s (h s q) }

  Returns-recover :
      (r : Outcome A) (handler : JsString → Io S A) (s : S)
      → EndsAt P r s
      → ((e : JsString) → Returns Always P (handler e))
      → ReturnsAt P (recover r handler s).0 (recover r handler s).1
  Returns-recover (ok a) handler s h k = h
  Returns-recover (throw e) handler s h k = (k e).returns s tt

  pub Ends-modify-pure :
      (f : S → S) (a : A) → ((s : S) → P a (f s)) → Ends P (modify f >>= λ _. pure a)
  unfolding ◌>>=◌ modify pure
  Ends-modify-pure f a h = record { ends = λ s. h s }

  pub Ends-raise : (e : JsString) → Ends P (raise e)
  unfolding raise
  Ends-raise e = record { ends = λ s. tt }

  -- What is caught does not throw on.
  pub Returns-catching :
      (m : Io S A) (handler : JsString → Io S A)
      → Ends P m
      → ((e : JsString) → Returns Always P (handler e))
      → Returns Always P (catching m handler)
  unfolding catching
  Returns-catching m handler h k = record {
    returns = λ s _. Returns-recover (m s).0 handler (m s).1 (h.ends s) k;
  }

  pub Ends-if :
      (b : Bool) (m n : Io S A)
      → (b ≡ true → Ends P m)
      → (b ≡ false → Ends P n)
      → Ends P (if b then m else n)
  Ends-if true m n h k = h refl
  Ends-if false m n h k = k refl

module _ {S A : Type 0} where
  -- Nothing is claimed.
  abbrev pub Anything : A → S → Type 0
  Anything a s = Unit

  ends-Anything : (r : Outcome A) (s : S) → EndsAt Anything r s
  ends-Anything (ok a) s = tt
  ends-Anything (throw e) s = tt

  pub Ends-Anything : (m : Io S A) → Ends Anything m
  Ends-Anything m = record { ends = λ s. ends-Anything (m s).0 (m s).1 }

module _ {S A : Type 0} (P : A → S → Type 0) where
  -- A condition on no state holds before or not at all.
  pub EndsFrom-given : (X : Type 0) (m : Io S A) → (X → Ends P m) → EndsFrom (λ _. X) P m
  EndsFrom-given X m h = record { ends = λ s x. (h x).ends s }

  Ends-recover :
      (r : Outcome A) (handler : JsString → Io S A) (s : S)
      → EndsAt P r s
      → ((e : JsString) → Ends P (handler e))
      → EndsAt P (recover r handler s).0 (recover r handler s).1
  Ends-recover (ok a) handler s h k = h
  Ends-recover (throw e) handler s h k = (k e).ends s

  pub Ends-catching :
      (m : Io S A) (handler : JsString → Io S A)
      → Ends P m
      → ((e : JsString) → Ends P (handler e))
      → Ends P (catching m handler)
  unfolding catching
  Ends-catching m handler h k = record {
    ends = λ s. Ends-recover (m s).0 handler (m s).1 (h.ends s) k;
  }

  Ends_at-lift : (r : Outcome A) (s : S) → ((a : A) → r ≡ ok a → P a s) → EndsAt P r s
  Ends_at-lift (ok a) s h = h a refl
  Ends_at-lift (throw e) s h = tt

  pub Ends-lift : (r : Outcome A) → ((a : A) → r ≡ ok a → (s : S) → P a s) → Ends P (lift r)
  unfolding lift
  Ends-lift r h = record { ends = λ s. Ends_at-lift r s (λ a e. h a e s) }
