-- ===== src/Prelude/Outcome.antt =====
-- The outcome of code that can fail to come back: by undefined behaviour or a failed `assert`
-- (`fault`), or in a loop whose fuel is used up (`spent`). What a theorem says of `ok` it says of
-- a run that returns.

pub data Outcome {ℓ} (A : Type ℓ) : Type ℓ where
  ok : A → Outcome A
  fault : Outcome A
  spent : Outcome A

infixl 5 ◌>>=◌
abbrev pub ◌>>=◌ {ℓ κ} : {A : Type ℓ} {B : Type κ} → Outcome A → (A → Outcome B) → Outcome B
ok a >>= f = f a
fault >>= f = fault
spent >>= f = spent
