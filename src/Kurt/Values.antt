-- ===== src/Kurt/Values.antt =====
-- Values that crates/kurt/src/ku_scalar.rs and ku_slice.rs hand to the runtime and read back.
use kuai.Prelude.{ℤ, pos, ◌≡◌, refl, false, Option, none, some}
use kuai.Kurt.Scalar.{
  int_eq, ScalarValue, none_value, boolean_value_of, byte_value, i16_value, i32_value, i64_value,
  f32_value, f64_value, primitive_type, raw, from_raw,
}
use kuai.Kurt.Slice.{SliceSpec, desc_of, spec_of}

-- A scalar comes back from the tagged union as it was written, by a tag that selects its own
-- member.
from_raw-raw : (v : ScalarValue) → from_raw (raw v) ≡ some v
unfolding from_raw raw primitive_type
from_raw-raw none_value = refl
from_raw-raw (boolean_value_of b) = refl
from_raw-raw (byte_value v) = refl
from_raw-raw (i16_value v) = refl
from_raw-raw (i32_value v) = refl
from_raw-raw (i64_value v) = refl
from_raw-raw (f32_value v) = refl
from_raw-raw (f64_value v) = refl

-- No explicit step of a slice is zero.
abbrev pub StepIsNonZero : SliceSpec → Type 0
StepIsNonZero spec = elim spec.step [ none ↦ Unit | some i ↦ int_eq i (pos 0) ≡ false ]

comes_back :
    (a b c : Option ℤ)
    → StepIsNonZero (record { start = a; stop = b; step = c })
    → spec_of (desc_of (record { start = a; stop = b; step = c }))
      ≡ record { start = a; stop = b; step = c }
unfolding spec_of desc_of
comes_back none none none h = refl
comes_back none (some b) none h = refl
comes_back (some a) none none h = refl
comes_back (some a) (some b) none h = refl
comes_back none none (some c) h = rw h refl
comes_back none (some b) (some c) h = rw h refl
comes_back (some a) none (some c) h = rw h refl
comes_back (some a) (some b) (some c) h = rw h refl

-- A slice whose step is not zero comes back from its descriptor as it was given, with every bound
-- and step present exactly where it was, also where it is zero.
spec_of-desc_of : (spec : SliceSpec) → StepIsNonZero spec → spec_of (desc_of spec) ≡ spec
spec_of-desc_of spec h = comes_back spec.start spec.stop spec.step h
