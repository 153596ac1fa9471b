-- ===== src/Kurt/Objects.antt =====
-- Scalars, strings, slices and arrays as native objects, and the layout of a tensor: the
-- constructors and accessors of crates/kurt/src/ku_scalar.rs, ku_string.rs, ku_slice.rs,
-- ku_array.rs and ku_tensor.rs. The runtime is a parameter; an accessor that the runtime cannot
-- refuse is a function.
use kuai.Prelude.{
  ℕ, zero, suc, ℤ, pos, Bool, true, Option, none, some, List, [], ◌∷◌, String, map, ◌==◌,
  if◌then◌else◌,
}
use kuai.Kurt.Error.{invalid_utf8, Result, returned, failed, try, check}
use kuai.Kurt.Scalar.{
  PrimitiveType, boolean, byte, i16, i32, i64, f32, f64, ScalarValue, none_value, boolean_value_of,
  boolean_of, boolean_of_option, Union, raw as raw_scalar, from_raw as scalar_from_raw,
}
use kuai.Kurt.Slice.{SliceSpec, SliceDesc, desc_of, spec_of}
use kuai.Kurt.Tensor.{TensorMetadata}
use kuai.Kurt.Owner.{KuObjectKind, scalar, string, slice, array, Heap, Owner}
use kuai.Kurt.Handle.{Held, held}
use kuai.Kurt.Call.{Runtime, from_native}

-- What `ku_object_create` is given; an array is given the handles of its elements.
pub data CreateDesc : Type 0 where
  scalar_desc : Union → CreateDesc
  string_desc : List ℕ → CreateDesc
  slice_desc : SliceDesc → CreateDesc
  array_desc : List ℕ → CreateDesc

pub record Objects : Type 0 where
  pub create : CreateDesc → Heap → ℤ × ℕ × Heap
  pub scalar_get_value : ℕ → Union
  pub string_get_value : ℕ → List ℕ
  pub slice_get_value : ℕ → SliceDesc
  pub array_get_size : ℕ → ℕ
  pub array_get : ℕ → ℕ → Heap → ℤ × ℕ × Heap
  -- of the standard library
  pub from_utf8 : List ℕ → Option String

-- `From` for `ScalarValue`
abbrev pub scalar_of_bool : Bool → ScalarValue
scalar_of_bool value = boolean_value_of (boolean_of value)

abbrev pub scalar_of_option : Option Bool → ScalarValue
scalar_of_option value = boolean_value_of (boolean_of_option value)

abbrev pub scalar_of_unit : Unit {0} → ScalarValue
scalar_of_unit value = none_value

module _ (rt : Objects) where
  -- A new object with its first owner, or the error of the runtime.
  unfoldable pub created_as : KuObjectKind → CreateDesc → Heap → Held (Result Owner)
  created_as kind desc heap =
      let (status, raw, after) = rt.create desc heap in
      held (try (check status) λ _. returned (record { raw = raw; view = some kind })) after

  unfoldable pub new_scalar : ScalarValue → Heap → Held (Result Owner)
  new_scalar value heap = created_as scalar (scalar_desc (raw_scalar value)) heap

  unfoldable pub new_string : List ℕ → Heap → Held (Result Owner)
  new_string bytes heap = created_as string (string_desc bytes) heap

  unfoldable pub new_slice : SliceSpec → Heap → Held (Result Owner)
  new_slice spec heap = created_as slice (slice_desc (desc_of spec)) heap

  unfoldable pub new_array : List Owner → Heap → Held (Result Owner)
  new_array items heap = created_as array (array_desc (map (λ o. o.raw) items)) heap

  -- `none` is a tag that the runtime does not give.
  unfoldable pub value : Owner → Option ScalarValue
  value o = scalar_from_raw (rt.scalar_get_value o.raw)

  unfoldable pub as_bytes : Owner → List ℕ
  as_bytes o = rt.string_get_value o.raw

  unfoldable pub to_str : Owner → Result String
  to_str o = elim (rt.from_utf8 (as_bytes o)) [
    | none ↦ failed invalid_utf8
    | some text ↦ returned text
  ]

  unfoldable pub spec : Owner → SliceSpec
  spec o = spec_of (rt.slice_get_value o.raw)

  unfoldable pub len : Owner → ℕ
  len o = rt.array_get_size o.raw

  unfoldable pub is_empty : Owner → Bool
  is_empty o = len o == 0

  -- An element of an array, with a reference of its own.
  unfoldable pub get : Runtime → Owner → ℕ → Heap → Held (Result Owner)
  get kinds o index heap =
      let (status, raw, after) = rt.array_get o.raw index heap in
      elim (check status) [
        | failed e ↦ held (failed e) after
        | returned _ ↦ from_native kinds raw after
      ]

-- `ku_tensor_info_t`; a tensor of rank zero has no arrays.
pub record TensorInfo : Type 0 where
  pub primitive_type : ℤ
  pub ndim : ℕ
  pub shape : List ℕ
  pub strides : List ℕ

-- The type of the elements by its code; `none` is unreachable.
abbrev pub element_type : ℤ → Option PrimitiveType
element_type (pos (suc zero)) = some boolean
element_type (pos (suc (suc zero))) = some byte
element_type (pos (suc (suc (suc zero)))) = some i16
element_type (pos (suc (suc (suc (suc zero))))) = some i32
element_type (pos (suc (suc (suc (suc (suc zero)))))) = some i64
element_type (pos (suc (suc (suc (suc (suc (suc zero))))))) = some f32
element_type (pos (suc (suc (suc (suc (suc (suc (suc zero)))))))) = some f64
element_type _ = none

unfoldable pub metadata : TensorInfo → Option TensorMetadata
metadata info = elim (element_type info.primitive_type) [
  | none ↦ none
  | some t ↦ some (
      if info.ndim == 0
      then record { primitive_type = t; shape = []; strides = [] }
      else record { primitive_type = t; shape = info.shape; strides = info.strides })
]

-- What is called on the completion of a transfer.
pub data CompletionCall : Type 0 where
  wait_for release_of : ℕ → CompletionCall

pub record TransferWait : Type 0 where
  pub raw : Option ℕ
  pub waited : Bool

-- `Drop` of `TransferWait`
unfoldable pub drop_transfer : TransferWait → List CompletionCall
drop_transfer guard = elim guard.raw [
  | none ↦ []
  | some raw ↦ if guard.waited then release_of raw ∷ [] else wait_for raw ∷ release_of raw ∷ []
]

-- `wait` of a guard that has its completion, and the drop behind it.
unfoldable pub wait : (ℕ → ℤ) → ℕ → List CompletionCall × Result (Unit {0})
wait status raw =
    (wait_for raw ∷ drop_transfer (record { raw = some raw; waited = true }), check (status raw))
