-- ===== src/Common/Fault.antt =====
-- A run of C++ code either returns or ends the program.
use cpp_experiments.Common.{Bool, true, false, Option, none, some}

-- `undefined`: an access outside an object, a null pointer, a signed overflow, an indeterminate
-- value. `thrown`: an exception that no handler catches.
pub data Fault : Type 0 where
  undefined thrown : Fault

pub data Run {ℓ} (A : Type ℓ) : Type ℓ where
  ok : A → Run A
  fault : Fault → Run A

infixl 5 ◌>>=◌ ◌>>◌
abbrev pub ◌>>=◌ {ℓ κ} : {A : Type ℓ} {B : Type κ} → Run A → (A → Run B) → Run B
ok a >>= f = f a
fault e >>= f = fault e

abbrev pub ◌>>◌ {ℓ} : {B : Type ℓ} → Run (Unit {0}) → Run B → Run B
m >> k = m >>= λ _. k

abbrev pub check : Bool → Fault → Run (Unit {0})
check true e = ok tt
check false e = fault e

abbrev pub or_fault {ℓ} : {A : Type ℓ} → Option A → Fault → Run A
or_fault none e = fault e
or_fault (some a) e = ok a
