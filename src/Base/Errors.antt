-- ===== src/Base/Errors.antt =====
-- The result of a Go function that returns a value and an error, which is seen by its text.
use doevoe.Base.Strings.{Text}

pub data Fallible {ℓ} (A : Type ℓ) : Type ℓ where
  value : A → Fallible A
  failure : Text → Fallible A

infixl 5 ◌>>=◌
abbrev pub ◌>>=◌ {ℓ κ} : {A : Type ℓ} {B : Type κ} → Fallible A → (A → Fallible B) → Fallible B
value a >>= f = f a
failure e >>= f = failure e
