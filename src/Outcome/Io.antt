-- ===== src/Outcome/Io.antt =====
-- Async methods: state passing with exceptions. A proof opens `◌>>=◌` and its kin, or uses the
-- rules of `Outcome.Rules`.
use sync_rollups.Prelude.{JsString}
use sync_rollups.Outcome.{Outcome, ok, throw}

abbrev pub Io : Type 0 → Type 0 → Type 0
Io S A = S → Outcome A × S

module _ {S A : Type 0} where
  unfoldable pub pure : A → Io S A
  pure a s = (ok a, s)

  unfoldable pub raise : JsString → Io S A
  raise e s = (throw e, s)

  unfoldable pub lift : Outcome A → Io S A
  lift r s = (r, s)

  unfoldable pub gets : (S → A) → Io S A
  gets f s = (ok (f s), s)

  abbrev pub recover : Outcome A → (JsString → Io S A) → Io S A
  recover (ok a) handler s = (ok a, s)
  recover (throw e) handler s = handler e s

  -- `try { m } catch (e) { handler(e) }`
  unfoldable pub catching : Io S A → (JsString → Io S A) → Io S A
  catching m handler s = let (r, s') = m s in recover r handler s'

unfoldable pub modify : {S : Type 0} → (S → S) → Io S (Unit {0})
modify f s = (ok tt, f s)

module _ {S A B : Type 0} where
  abbrev pub continue : Outcome A → (A → Io S B) → Io S B
  continue (ok a) f s = f a s
  continue (throw e) f s = (throw e, s)

  infixl 5 ◌>>=◌ ◌>>◌
  unfoldable pub ◌>>=◌ : Io S A → (A → Io S B) → Io S B
  ◌>>=◌ m f s = let (r, s') = m s in continue r f s'

  abbrev pub ◌>>◌ : Io S A → Io S B → Io S B
  ◌>>◌ m n = m >>= λ _. n
