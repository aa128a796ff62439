-- ===== src/Prelude/Results.antt =====
-- A Go function that returns an error may also panic, at a nil pointer: no caller goes on then.
use mathlib.Core.Bool.{Bool, true, false}

pub data Result {ℓ} (E A : Type ℓ) : Type ℓ where
  ok : A → Result E A
  err : E → Result E A
  panic : Result E A

infixl 5 ◌>>=◌ ◌>>◌
abbrev pub ◌>>=◌ {ℓ} : {E A B : Type ℓ} → Result E A → (A → Result E B) → Result E B
ok a >>= f = f a
err e >>= f = err e
panic >>= f = panic

abbrev pub ◌>>◌ {ℓ} : {E A B : Type ℓ} → Result E A → Result E B → Result E B
m >> n = m >>= λ _. n

-- `if test { return err }`
abbrev pub fail_if : {E : Type 0} → Bool → E → Result E Unit
fail_if true e = err e
fail_if false e = ok tt
