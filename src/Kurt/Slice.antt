-- ===== src/Kurt/Slice.antt =====
-- crates/kurt/src/ku_slice.rs: slices and the descriptors of the runtime.
use Prim.Native.Nat.{bit_and, bit_or}
use kuai.Prelude.{ℕ, ℤ, pos, Bool, not, Option, none, some, is_some, ◌==◌, if◌then◌else◌}
use kuai.Kurt.Scalar.{int_eq}

-- The step is not zero where it is present.
pub record SliceSpec : Type 0 where
  pub start : Option ℤ
  pub stop : Option ℤ
  pub step : Option ℤ

pub record SliceDesc : Type 0 where
  pub start : ℤ
  pub stop : ℤ
  pub step : ℤ
  pub flags : ℕ

abbrev pub has_start : ℕ
has_start = 1

abbrev pub has_stop : ℕ
has_stop = 2

abbrev pub has_step : ℕ
has_step = 4

-- `o.unwrap_or(0)`
abbrev pub or_zero : Option ℤ → ℤ
or_zero none = pos 0
or_zero (some i) = i

-- The descriptor that `KuArc::new` gives the runtime.
unfoldable pub desc_of : SliceSpec → SliceDesc
desc_of spec = record {
  start = or_zero spec.start;
  stop = or_zero spec.stop;
  step = or_zero spec.step;
  flags =
      bit_or
        (bit_or (if is_some spec.start then has_start else 0)
          (if is_some spec.stop then has_stop else 0))
        (if is_some spec.step then has_step else 0);
}

-- `flags & flag != 0`
abbrev pub has : ℕ → ℕ → Bool
has flags flag = not (bit_and flags flag == 0)

-- `NonZeroI64::new`
abbrev pub non_zero : ℤ → Option ℤ
non_zero i = if int_eq i (pos 0) then none else some i

-- What `spec` makes of the descriptor that the runtime gives back.
unfoldable pub spec_of : SliceDesc → SliceSpec
spec_of out = record {
  start = if has out.flags has_start then some out.start else none;
  stop = if has out.flags has_stop then some out.stop else none;
  step = if has out.flags has_step then non_zero out.step else none;
}
