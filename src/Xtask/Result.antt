-- ===== src/Xtask/Result.antt =====
-- How a run of xtask/src/cpp.rs ends: with a value, with a message, or with an overflow or an index
-- out of bounds, where a debug build panics. A message is a constructor with what it prints.
use kuai.Prelude.{ℕ, ◌+◌, ◌-◌, ◌^◌, ◌≡◌, refl, ◌⊎◌, inl, inr, Bool, true, false, ltb, if◌then◌else◌}
use kuai.Xtask.Path.{OsString, PathBuf}

-- An error of the operating system, of which the source asks whether it is `NotFound`.
pub data IoError : Type 0 where
  not_found : IoError
  other : ℕ → IoError

pub data ExitStatus : Type 0 where
  code : ℕ → ExitStatus
  signal : ℕ → ExitStatus

-- Why a batch failed.
pub data Failure : Type 0 where
  exited : ExitStatus → Failure
  launch_error : IoError → Failure

pub data Error : Type 0 where
  options_over_budget : Error
  path_over_budget : PathBuf → Error
  cannot_resolve : OsString → IoError → Error
  cannot_inspect : PathBuf → IoError → Error
  cannot_traverse : PathBuf → Error
  not_a_target : PathBuf → Error
  cannot_read : OsString → IoError → Error
  wrong_version_file : Error
  not_a_style : PathBuf → Error
  not_launched : IoError → Error
  version_check_failed : ExitStatus → Error
  wrong_version : (expected actual : OsString) → Error
  -- Of the batches the first that failed, and whether files may have been modified.
  batch_failed : (number count : ℕ) → Failure → (modified : Bool) → Error

pub data Result (A : Type 0) : Type 0 where
  returned : A → Result A
  failed : Error → Result A
  overflowed : Result A

-- `m?` and what follows it
abbrev pub try : {A B : Type 0} → Result A → (A → Result B) → Result B
try (returned a) f = f a
try (failed e) f = failed e
try overflowed f = overflowed

-- `map_err` on what the operating system gives
abbrev pub map_err : {A : Type 0} → IoError ⊎ A → (IoError → Error) → Result A
map_err (inl e) f = failed (f e)
map_err (inr a) f = returned a

-- `a - b` of usize
abbrev pub checked_sub : {B : Type 0} → ℕ → ℕ → (ℕ → Result B) → Result B
checked_sub a b f = if ltb a b then overflowed else f (a - b)

-- `a + b` of usize
abbrev pub checked_add : {B : Type 0} → ℕ → ℕ → (ℕ → Result B) → Result B
checked_add a b f = if ltb (a + b) (2 ^ 64) then f (a + b) else overflowed

-- A run that returns or fails, without an overflow.
abbrev pub Ends : {A : Type 0} → Result A → Type 0
Ends {A} r = ((a : A) × (r ≡ returned a)) ⊎ ((e : Error) × (r ≡ failed e))

pub map_err-Ends : {A : Type 0} (r : IoError ⊎ A) (f : IoError → Error) → Ends (map_err r f)
map_err-Ends (inl e) f = inr (f e, refl)
map_err-Ends (inr a) f = inl (a, refl)

pub if-Ends :
    {A : Type 0} (b : Bool) (e : Error) (a : A) → Ends (if b then failed e else returned a)
if-Ends true e a = inr (e, refl)
if-Ends false e a = inl (a, refl)

pub try-Ends :
    {A B : Type 0} (r : Result A) (f : A → Result B)
    → Ends r
    → ((a : A) → Ends (f a))
    → Ends (try r f)
try-Ends r f (inl (a, h)) k = rw h (k a)
try-Ends r f (inr (e, h)) k = rw h (inr (e, refl))

pub try-eq-returned :
    {A B : Type 0} (r : Result A) (f : A → Result B) {b : B}
    → try r f ≡ returned b
    → (a : A) × (r ≡ returned a) × (f a ≡ returned b)
try-eq-returned (returned a) f h = (a, refl, h)
try-eq-returned (failed e) f h = cc
try-eq-returned overflowed f h = cc
