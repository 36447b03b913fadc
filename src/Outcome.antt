-- ===== src/Outcome.antt =====
-- Exceptions and effects of the TypeScript code. A call that may throw returns an `Outcome`; an
-- async method is an `Io` over the state that it can change: what it wrote before an exception
-- stays written.
pub mod Io
pub mod Rules
pub mod Leaves
use sync_rollups.Prelude.{JsString}

-- `throw` holds the message of the error.
pub data Outcome {ℓ} (A : Type ℓ) : Type ℓ where
  throw : JsString → Outcome A
  ok : A → Outcome A

module _ {ℓ κ} {A : Type ℓ} {B : Type κ} where
  infixl 5 ◌>>=◌
  abbrev pub ◌>>=◌ : Outcome A → (A → Outcome B) → Outcome B
  throw message >>= next = throw message
  ok value >>= next = next value
