-- ===== src/Prelude/Result.antt =====
-- How a Go call ends: with a value, with an error that it returns, or not at all, by a run-time
-- panic or by `log.Fatal`, which exits the process.

pub data Result {ℓ} (E A : Type ℓ) : Type ℓ where
  ok : A → Result E A
  err : E → Result E A
  panic : Result E A
  fatal : Result E A

infixl 5 ◌>>=◌
abbrev pub ◌>>=◌ {ℓ} : {E A B : Type ℓ} → Result E A → (A → Result E B) → Result E B
ok a >>= f = f a
err e >>= f = err e
panic >>= f = panic
fatal >>= f = fatal
