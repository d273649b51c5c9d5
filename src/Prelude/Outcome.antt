-- ===== src/Prelude/Outcome.antt =====
-- The outcome of Go code that can panic, written with a bound on its rounds.

pub data Run {ℓ} (A : Type ℓ) : Type ℓ where
  done : A → Run A
  -- an index out of range, a nil dereference or an explicit panic
  panics : Run A
  -- the bound on the rounds was too small
  no_fuel : Run A

infixl 5 ◌>>=◌
abbrev pub ◌>>=◌ {ℓ κ} : {A : Type ℓ} {B : Type κ} → Run A → (A → Run B) → Run B
done a >>= f = f a
panics >>= f = panics
no_fuel >>= f = no_fuel
