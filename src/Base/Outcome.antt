-- ===== src/Base/Outcome.antt =====
-- How a function of the source ends: with a value, with `Err(())`, or by a panic; `out_of_fuel` is
-- a loop that was given too few rounds.
use mathlib.Core.Option.{Option, none, some}

pub data Outcome {ℓ} (A : Type ℓ) : Type ℓ where
  ok : A → Outcome A
  err : Outcome A
  panic : Outcome A
  out_of_fuel : Outcome A

-- An index that is out of bounds panics.
abbrev pub or_panic {ℓ} : {A : Type ℓ} → Option A → Outcome A
or_panic none = panic
or_panic (some a) = ok a

infixl 5 ◌>>=◌ ◌>>◌
abbrev pub ◌>>=◌ {ℓ κ} : {A : Type ℓ} {B : Type κ} → Outcome A → (A → Outcome B) → Outcome B
ok a >>= f = f a
err >>= f = err
panic >>= f = panic
out_of_fuel >>= f = out_of_fuel

abbrev pub ◌>>◌ {ℓ κ} : {A : Type ℓ} {B : Type κ} → Outcome A → Outcome B → Outcome B
m >> k = m >>= λ _. k

abbrev pub or_out_of_fuel {ℓ} : {A : Type ℓ} → Option A → Outcome A
or_out_of_fuel none = out_of_fuel
or_out_of_fuel (some a) = ok a
