-- ===== src/Kurt/Error.antt =====
-- crates/kurt/src/error.rs: the errors of the wrappers and the statuses of the runtime.
use kuai.Prelude.{zero, suc, ℤ, pos, negsuc, ◌≡◌, refl, String}

-- A status is the runtime's code; 0 is success.
pub data Error : Type 0 where
  runtime : ℤ → Error
  invalid_argument : String → Error
  device_mismatch type_mismatch invalid_utf8 resources_in_use : Error

pub data Result (A : Type 0) : Type 0 where
  returned : A → Result A
  failed : Error → Result A

-- `m?` and what follows it
abbrev pub try : {A B : Type 0} → Result A → (A → Result B) → Result B
try (returned a) f = f a
try (failed e) f = failed e

abbrev pub success : ℤ
success = pos 0

abbrev pub check : ℤ → Result (Unit {0})
check (pos zero) = returned tt
check (pos (suc n)) = failed (runtime (pos (suc n)))
check (negsuc n) = failed (runtime (negsuc n))

-- A sequence that returns: both its parts do.
pub try-eq-returned :
    {A B : Type 0} (r : Result A) (f : A → Result B) {b : B}
    → try r f ≡ returned b
    → (a : A) × (r ≡ returned a) × (f a ≡ returned b)
try-eq-returned (returned a) f h = (a, refl, h)
try-eq-returned (failed e) f h = cc

pub check-eq-returned : (status : ℤ) → check status ≡ returned tt → status ≡ success
check-eq-returned (pos zero) h = refl
check-eq-returned (pos (suc n)) h = cc
check-eq-returned (negsuc n) h = cc
