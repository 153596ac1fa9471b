-- ===== src/Kurt/Scalar.antt =====
-- crates/kurt/src/ku_scalar.rs: scalar values and the tagged union of the runtime. A float is its
-- bits; an integer of any width is an integer.
use kuai.Prelude.{
  ℕ, ℤ, pos, negsuc, ◌≡◌, refl, Bool, true, false, Option, none, some, not, ◌==◌, if◌then◌else◌,
}

pub data PrimitiveType : Type 0 where
  none_type boolean byte i16 i32 i64 f32 f64 : PrimitiveType

abbrev pub primitive_eq : PrimitiveType → PrimitiveType → Bool
primitive_eq none_type none_type = true
primitive_eq boolean boolean = true
primitive_eq byte byte = true
primitive_eq i16 i16 = true
primitive_eq i32 i32 = true
primitive_eq i64 i64 = true
primitive_eq f32 f32 = true
primitive_eq f64 f64 = true
primitive_eq _ _ = false

pub primitive_eq_refl : (t : PrimitiveType) → primitive_eq t t ≡ true
primitive_eq_refl none_type = refl
primitive_eq_refl boolean = refl
primitive_eq_refl byte = refl
primitive_eq_refl i16 = refl
primitive_eq_refl i32 = refl
primitive_eq_refl i64 = refl
primitive_eq_refl f32 = refl
primitive_eq_refl f64 = refl

-- `Boolean(i8)`
pub record Boolean : Type 0 where
  pub code : ℤ

-- `KU_BOOL_NULL`, `KU_BOOL_FALSE` and `KU_BOOL_TRUE`
abbrev pub bool_null : ℤ
bool_null = negsuc 127

abbrev pub bool_false : ℤ
bool_false = pos 0

abbrev pub bool_true : ℤ
bool_true = pos 1

abbrev pub int_eq : ℤ → ℤ → Bool
int_eq (pos m) (pos n) = m == n
int_eq (pos m) (negsuc n) = false
int_eq (negsuc m) (pos n) = false
int_eq (negsuc m) (negsuc n) = m == n

unfoldable pub boolean_value : Boolean → Option Bool
boolean_value b = if int_eq b.code bool_null then none else some (not (int_eq b.code (pos 0)))

abbrev pub boolean_of : Bool → Boolean
boolean_of true = record { code = bool_true }
boolean_of false = record { code = bool_false }

unfoldable pub boolean_of_option : Option Bool → Boolean
boolean_of_option none = record { code = bool_null }
boolean_of_option (some b) = boolean_of b

pub data ScalarValue : Type 0 where
  none_value : ScalarValue
  boolean_value_of : Boolean → ScalarValue
  byte_value i16_value i32_value i64_value : ℤ → ScalarValue
  f32_value f64_value : ℕ → ScalarValue

-- The member of the union `ku_union_value_t` that was written.
pub data UnionValue : Type 0 where
  none_member : UnionValue
  boolean_member : ℤ → UnionValue
  ch_member i16_member i32_member i64_member : ℤ → UnionValue
  f32_member f64_member : ℕ → UnionValue

pub record Union : Type 0 where
  pub value : UnionValue
  pub tag : ℕ

unfoldable pub primitive_type : ScalarValue → PrimitiveType
primitive_type none_value = none_type
primitive_type (boolean_value_of b) = boolean
primitive_type (byte_value v) = byte
primitive_type (i16_value v) = i16
primitive_type (i32_value v) = i32
primitive_type (i64_value v) = i64
primitive_type (f32_value v) = f32
primitive_type (f64_value v) = f64

-- `as i32`, the numbers of kurt-sys
abbrev pub tag_of : PrimitiveType → ℕ
tag_of none_type = 0
tag_of boolean = 1
tag_of byte = 2
tag_of i16 = 3
tag_of i32 = 4
tag_of i64 = 5
tag_of f32 = 6
tag_of f64 = 7

abbrev pub member : ScalarValue → UnionValue
member none_value = none_member
member (boolean_value_of b) = boolean_member b.code
member (byte_value v) = ch_member v
member (i16_value v) = i16_member v
member (i32_value v) = i32_member v
member (i64_value v) = i64_member v
member (f32_value v) = f32_member v
member (f64_value v) = f64_member v

unfoldable pub raw : ScalarValue → Union
raw v = record { value = member v; tag = tag_of (primitive_type v) }

-- The member that the tag selects. `none` is a read of a member that was not written, or the
-- unreachable tag.
unfoldable pub from_raw : Union → Option ScalarValue
from_raw u = elim u.value [
  | none_member ↦ if u.tag == 0 then some none_value else none
  | boolean_member c ↦ if u.tag == 1 then some (boolean_value_of (record { code = c })) else none
  | ch_member v ↦ if u.tag == 2 then some (byte_value v) else none
  | i16_member v ↦ if u.tag == 3 then some (i16_value v) else none
  | i32_member v ↦ if u.tag == 4 then some (i32_value v) else none
  | i64_member v ↦ if u.tag == 5 then some (i64_value v) else none
  | f32_member v ↦ if u.tag == 6 then some (f32_value v) else none
  | f64_member v ↦ if u.tag == 7 then some (f64_value v) else none
]
