-- ===== src/Common/Outcome.antt =====
-- Python's exceptions as values. The constructors are the exception classes that the code raises or
-- relies on; `recursion_error` is what the interpreter raises when its stack limit is reached, and
-- is also the answer of a loop that is out of fuel.
use mathlib.Core.Path.{◌≡◌, refl}
use mathlib.Core.Logic.{◌⊎◌, inl, inr}
use mathlib.Core.Bool.{Bool, true, false}

pub data Exc : Type 0 where
  index_error value_error type_error key_error unicode_error : Exc
  overflow_error assertion_error runtime_error recursion_error connection_error timeout_error : Exc
  handshake_error pair_error crypto_error struct_error : Exc

pub data Outcome {ℓ} (A : Type ℓ) : Type ℓ where
  raise : Exc → Outcome A
  ok : A → Outcome A

-- `if not test: raise e`
abbrev pub require : Bool → Exc → Outcome (Unit {0})
require true e = ok tt
require false e = raise e

-- What follows runs on the value, unless there is an exception.
infixl 5 ◌>>=◌ ◌>>◌
abbrev pub ◌>>=◌ {ℓ κ} : {B : Type κ} {A : Type ℓ} → Outcome A → (A → Outcome B) → Outcome B
raise e >>= rest = raise e
ok a >>= rest = rest a

abbrev pub ◌>>◌ {ℓ} : {B : Type ℓ} → Outcome (Unit {0}) → Outcome B → Outcome B
raise e >> rest = raise e
ok u >> rest = rest

-- Where a block returns, its first step did.
pub returned_first {ℓ κ} :
    {B : Type κ} {A : Type ℓ} {b : B} (step : Outcome A) (rest : A → Outcome B)
    → (step >>= rest) ≡ ok b
    → (a : A) × (step ≡ ok a)
returned_first (raise e) rest h = cc
returned_first (ok a) rest h = (a, refl)

pub Outcome-cases {ℓ} :
    {A : Type ℓ} (m : Outcome A) → ((e : Exc) × (m ≡ raise e)) ⊎ ((a : A) × (m ≡ ok a))
Outcome-cases (ok a) = inr (a, refl)
Outcome-cases (raise e) = inl (e, refl)

-- … and the rest returned on its value.
pub returned_then {ℓ κ} :
    {B : Type κ} {A : Type ℓ} {b : B} (step : Outcome A) (rest : A → Outcome B)
    → (step >>= rest) ≡ ok b
    → (a : A) × ((step ≡ ok a) × (rest a ≡ ok b))
returned_then (raise e) rest h = absurd (cc h)
returned_then (ok a) rest h = (a, (refl, h))
