-- ===== src/TwoPhase/Outcome.antt =====
-- `m_logger->fatal` ends the process: a call returns a value or ends in `fatal`.
use cbdc_forensics.Common.{◌≡◌, refl}

pub data Outcome {ℓ} (A : Type ℓ) : Type ℓ where
  fatal : Outcome A
  ok : A → Outcome A

infixl 5 ◌>>=◌
abbrev pub ◌>>=◌ {ℓ κ} : {A : Type ℓ} {B : Type κ} → Outcome A → (A → Outcome B) → Outcome B
fatal >>= f = fatal
ok a >>= f = f a

pub >>=-eq_ok {ℓ κ} :
    {A : Type ℓ} {B : Type κ} (m : Outcome A) (f : A → Outcome B) {b : B}
    → (m >>= f) ≡ ok b
    → (a : A) × (m ≡ ok a) × (f a ≡ ok b)
>>=-eq_ok fatal f h = cc
>>=-eq_ok (ok a) f h = (a, refl, h)
