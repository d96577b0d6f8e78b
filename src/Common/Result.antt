-- ===== src/Common/Result.antt =====
-- The outcome of C++ code: a value, an exception, a loop that never ends, or undefined behaviour.
use mathlib.Core.Path.{◌≡◌, refl}
use mathlib.Core.Logic.{◌⊎◌, inl, inr}
use ezbake_common_cpp.Common.Bytes.{Text}

pub data Exception : Type 0 where
  runtime_error invalid_argument out_of_range service_discovery_exception : Text → Exception
  thrift_exception length_error : Text → Exception
  bad_lexical_cast filesystem_error : Exception

pub data Result {ℓ} (A : Type ℓ) : Type ℓ where
  ok : A → Result A
  throw : Exception → Result A
  hang : Result A
  crash : Result A

infixl 5 ◌>>=◌
abbrev pub ◌>>=◌ {ℓ κ} : {A : Type ℓ} {B : Type κ} → Result A → (A → Result B) → Result B
ok a >>= f = f a
throw e >>= f = throw e
hang >>= f = hang
crash >>= f = crash

-- The call returns a value or throws.
abbrev pub Ends {ℓ} : {A : Type ℓ} → Result A → Type 0
Ends (ok a) = Unit
Ends (throw e) = Unit
Ends hang = ⊥
Ends crash = ⊥

-- To split on an outcome and keep the equation.
pub Result-cases {ℓ} :
    {A : Type ℓ} (r : Result A)
    → ((a : A) × (r ≡ ok a)) ⊎ (((e : Exception) × (r ≡ throw e)) ⊎ ((r ≡ hang) ⊎ (r ≡ crash)))
Result-cases (ok a) = inl (a, refl)
Result-cases (throw e) = inr (inl (e, refl))
Result-cases hang = inr (inr (inl refl))
Result-cases crash = inr (inr (inr refl))
