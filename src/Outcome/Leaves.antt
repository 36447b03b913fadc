-- ===== src/Outcome/Leaves.antt =====
-- Rules for what async methods leave of the state, whether they throw or not: from a state of `Q`
-- a run of `m` ends in one of `P`.
use sync_rollups.Prelude.{JsString, Bool, true, false, Option, none, some, if◌then◌else◌}
use sync_rollups.Outcome.{Outcome, ok, throw}
use sync_rollups.Outcome.Io.{
  Io, pure, raise, lift, gets, modify, catching, recover, continue, ◌>>=◌,
}
use sync_rollups.Outcome.Rules.{Ends, EndsAt, Returns, ReturnsAt, Always, Anything}

pub record Leaves {S A : Type 0} (Q P : S → Type 0) (m : Io S A) : Type 0 where
  pub leaves : (s : S) → Q s → P (m s).1

module _ {S A B : Type 0} (Q P R : S → Type 0) where
  Leaves-continue :
      (r : Outcome A) (f : A → Io S B) (s : S)
      → R s
      → (R s → P s)
      → ((a : A) → Leaves R P (f a))
      → P (continue r f s).1
  Leaves-continue (ok a) f s q h k = (k a).leaves s q
  Leaves-continue (throw e) f s q h k = h q

  pub Leaves-bind :
      (m : Io S A) (f : A → Io S B)
      → ((s : S) → R s → P s)
      → Leaves Q R m
      → ((a : A) → Leaves R P (f a))
      → Leaves Q P (m >>= f)
  unfolding ◌>>=◌
  Leaves-bind m f h k l = record {
    leaves = λ s q. Leaves-continue (m s).0 f (m s).1 (k.leaves s q) (h (m s).1) l;
  }

  Leaves-proceed :
      (r : Outcome A) (f : A → Io S B) (s : S)
      → ReturnsAt Anything r s
      → R s
      → ((a : A) → Leaves R P (f a))
      → P (continue r f s).1
  Leaves-proceed (ok a) f s t q k = (k a).leaves s q
  Leaves-proceed (throw e) f s t q k = absurd t

  -- After a call that does not throw.
  pub Leaves-after :
      (m : Io S A) (f : A → Io S B)
      → Returns Always Anything m
      → Leaves Q R m
      → ((a : A) → Leaves R P (f a))
      → Leaves Q P (m >>= f)
  unfolding ◌>>=◌
  Leaves-after m f t k l = record {
    leaves = λ s q. Leaves-proceed (m s).0 f (m s).1 (t.returns s tt) (k.leaves s q) l;
  }

module _ {S : Type 0} (Q P : S → Type 0) where
  pub Leaves-modify : (f : S → S) → ((s : S) → Q s → P (f s)) → Leaves Q P (modify f)
  unfolding modify
  Leaves-modify f h = record { leaves = h }

module _ {S A : Type 0} (Q : S → Type 0) where
  pub Leaves-pure : (a : A) → Leaves Q Q (pure a)
  unfolding pure
  Leaves-pure a = record { leaves = λ s q. q }

  pub Leaves-raise : (e : JsString) → Leaves {A = A} Q Q (raise e)
  unfolding raise
  Leaves-raise e = record { leaves = λ s q. q }

  pub Leaves-lift : (r : Outcome A) → Leaves Q Q (lift r)
  unfolding lift
  Leaves-lift r = record { leaves = λ s q. q }

  pub Leaves-gets : (f : S → A) → Leaves Q Q (gets f)
  unfolding gets
  Leaves-gets f = record { leaves = λ s q. q }

  Leaves-recover :
      (r : Outcome A) (handler : JsString → Io S A) (s : S)
      → Q s
      → ((e : JsString) → Leaves Q Q (handler e))
      → Q (recover r handler s).1
  Leaves-recover (ok a) handler s q k = q
  Leaves-recover (throw e) handler s q k = (k e).leaves s q

  pub Leaves-catching :
      (m : Io S A) (handler : JsString → Io S A)
      → Leaves Q Q m
      → ((e : JsString) → Leaves Q Q (handler e))
      → Leaves Q Q (catching m handler)
  unfolding catching
  Leaves-catching m handler h k = record {
    leaves = λ s q. Leaves-recover (m s).0 handler (m s).1 (h.leaves s q) k;
  }

module _ {S A : Type 0} (Q P : S → Type 0) where
  pub Leaves-weaken :
      (R : S → Type 0) (m : Io S A) → ((s : S) → Q s → R s) → Leaves R P m → Leaves Q P m
  Leaves-weaken R m h k = record { leaves = λ s q. k.leaves s (h s q) }

  pub Leaves-less :
      (R : S → Type 0) (m : Io S A) → ((s : S) → R s → P s) → Leaves Q R m → Leaves Q P m
  Leaves-less R m h k = record { leaves = λ s q. h (m s).1 (k.leaves s q) }

  pub Leaves-if :
      (b : Bool) (m n : Io S A) → Leaves Q P m → Leaves Q P n → Leaves Q P (if b then m else n)
  Leaves-if true m n h k = h
  Leaves-if false m n h k = k

module _ {S A B : Type 0} (Q : S → Type 0) where
  -- A chain of calls that keep a property.
  pub Keeps-bind :
      (m : Io S A) (f : A → Io S B)
      → Leaves Q Q m
      → ((a : A) → Leaves Q Q (f a))
      → Leaves Q Q (m >>= f)
  Keeps-bind m f h k = Leaves-bind Q Q Q m f (λ s q. q) h k

module _ {S A B : Type 0} (Q : S → Type 0) where
  pub Leaves-option :
      (o : Option B) (m : Io S A) (f : B → Io S A)
      → Leaves Q Q m
      → ((b : B) → Leaves Q Q (f b))
      → Leaves Q Q (elim o [ none ↦ m | some b ↦ f b ])
  Leaves-option none m f h k = h
  Leaves-option (some b) m f h k = k b

module _ {S A B : Type 0} (Q P R : S → Type 0) where
  Leaves-told :
      (X : A → Type 0) (r : Outcome A) (f : A → Io S B) (s : S)
      → EndsAt (λ a _. X a) r s
      → R s
      → (R s → P s)
      → ((a : A) → X a → Leaves R P (f a))
      → P (continue r f s).1
  Leaves-told X (ok a) f s x q h k = (k a x).leaves s q
  Leaves-told X (throw e) f s x q h k = h q

  -- `Leaves-bind` where something is known of the result.
  pub Leaves-knowing :
      (X : A → Type 0) (m : Io S A) (f : A → Io S B)
      → ((s : S) → R s → P s)
      → Ends (λ a _. X a) m
      → Leaves Q R m
      → ((a : A) → X a → Leaves R P (f a))
      → Leaves Q P (m >>= f)
  unfolding ◌>>=◌
  Leaves-knowing X m f h x k l = record {
    leaves = λ s q. Leaves-told X (m s).0 f (m s).1 (x.ends s) (k.leaves s q) (h (m s).1) l;
  }

module _ {S A B : Type 0} (Q P : S → Type 0) where
  -- A read, whose result is known.
  pub Leaves-read :
      (g : S → A) (f : A → Io S B) → ((s : S) → Q s → P (f (g s) s).1) → Leaves Q P (gets g >>= f)
  unfolding ◌>>=◌ gets
  Leaves-read g f h = record { leaves = h }
