-- ===== src/Base/Got.antt =====
-- Go's pair of a value and an error, for calls whose value is not looked at beside an error; the
-- error is its text.
use sentnodes_agent.Base.Text.{Text}
use mathlib.Core.Path.{◌≡◌, refl}

pub data Got {ℓ} (A : Type ℓ) : Type ℓ where
  got : A → Got A
  failed : Text → Got A

-- `if err != nil { return err }`
infixl 5 ◌>>=◌
abbrev pub ◌>>=◌ {ℓ κ} : {A : Type ℓ} {B : Type κ} → Got A → (A → Got B) → Got B
got a >>= f = f a
failed e >>= f = failed e

-- A chain that succeeds has succeeded at its first step.
pub >>=-eq-got {ℓ κ} :
    {A : Type ℓ} {B : Type κ} (m : Got A) (f : A → Got B) {b : B}
    → (m >>= f) ≡ got b
    → (a : A) × (m ≡ got a) × (f a ≡ got b)
>>=-eq-got (got a) f h = (a, refl, h)
>>=-eq-got (failed e) f h = cc
