-- ===== src/Kurt/Tensor.antt =====
-- crates/kurt/src/ku_tensor.rs: shapes, sizes and copies of tensors. The runtime is a parameter:
-- its calls as functions of their arguments. A usize has 64 bits.
use kuai.Prelude.{
  ℕ, zero, suc, ℤ, ◌*◌, ◌%◌, ◌^◌, Bool, not, Option, none, some, List, [], ◌∷◌, length, ltb, leb,
  ◌==◌, if◌then◌else◌,
}
use kuai.Kurt.Error.{
  Error, invalid_argument, device_mismatch, type_mismatch, Result, returned, failed, try, check,
}
use kuai.Kurt.Scalar.{PrimitiveType, primitive_eq}

-- `checked_mul` of usize
abbrev pub checked_mul : ℕ → ℕ → Option ℕ
checked_mul a b = if ltb (a * b) (2 ^ 64) then some (a * b) else none

-- `.ok_or(e)?` and what follows it
abbrev pub or_failed : {A B : Type 0} → Option A → Error → (A → Result B) → Result B
or_failed none e f = failed e
or_failed (some a) e f = f a

unfoldable pub extents_product : List ℕ → ℕ → Result ℕ
extents_product [] count = returned count
extents_product (extent ∷ shape) count =
    let more : ℕ → Result ℕ = extents_product shape in
    if leb (2 ^ 63) extent
    then failed (invalid_argument "tensor extent exceeds i64")
    else or_failed (checked_mul count extent) (invalid_argument "tensor shape overflows usize") more

unfoldable pub element_count : List ℕ → Result ℕ
element_count shape =
    if ltb 8 (length shape)
    then failed (invalid_argument "tensor rank must be at most eight")
    else extents_product shape 1

-- `.filter(|&bytes| bytes <= isize::MAX as usize)`
abbrev pub in_address_space : Option ℕ → Option ℕ
in_address_space none = none
in_address_space (some bytes) = if ltb bytes (2 ^ 63) then some bytes else none

-- `byte_count::<T>` by the size of a `T`
unfoldable pub byte_count : ℕ → ℕ → Result ℕ
byte_count size count =
    or_failed (in_address_space (checked_mul count size))
      (invalid_argument "tensor byte size exceeds the host address space") λ bytes. returned bytes

-- A type of elements, with its tag and its size.
pub record Element : Type 1 where
  pub Value : Type 0
  pub type_tag : PrimitiveType
  pub size : ℕ
  pub default : Value

pub record TensorMetadata : Type 0 where
  pub primitive_type : PrimitiveType
  pub shape : List ℕ
  pub strides : List ℕ

-- The descriptor of a tensor to be made, without strides.
pub record CreateDesc (Device : Type 0) : Type 0 where
  pub device : Device
  pub primitive_type : PrimitiveType
  pub shape : List ℕ

-- The runtime: each call gives its status first. An address, a stream and a completion are what the
-- runtime makes of them.
pub record Runtime (V : Type 0) : Type 1 where
  pub Device : Type 0
  pub Tensor : Type 0
  pub Stream : Type 0
  pub Address : Type 0
  pub Completion : Type 0
  pub device_eq : Device → Device → Bool
  pub create_from_host : CreateDesc Device → List V → ℕ → ℤ × Tensor × Completion
  pub wait : Completion → ℤ
  pub get_device : Tensor → Device
  pub get_info : Tensor → TensorMetadata
  pub get_default_stream : Device → ℤ × Stream
  pub get_data : Tensor → ℤ × Address
  pub copy_to_host : Device → Address → ℕ → Stream → ℤ × List V × Completion

-- The stride of each axis against the product of the extents before it.
unfoldable pub check_strides : List ℕ → List ℕ → ℕ → Result (Unit {0})
check_strides [] strides canonical_stride = returned tt
check_strides (extent ∷ shape) [] canonical_stride = returned tt
check_strides (extent ∷ shape) (stride ∷ strides) canonical_stride =
    let rest = check_strides shape strides (canonical_stride * extent) in
    if not (stride == canonical_stride)
    then failed (invalid_argument "download requires a contiguous column-major tensor")
    else rest

abbrev pub replicate : {A : Type 0} → ℕ → A → List A
replicate zero a = []
replicate (suc n) a = a ∷ replicate n a

-- `iter().product()`, which wraps around; the empty product is the length of rank zero.
abbrev pub wrapping_product : List ℕ → ℕ
wrapping_product [] = 1
wrapping_product (extent ∷ shape) = (extent * wrapping_product shape) % 2 ^ 64

module _ (T : Element) (rt : Runtime T.Value) where
  unfoldable pub tensor_from_slice : rt.Device → List ℕ → List T.Value → Result rt.Tensor
  tensor_from_slice device shape values = try (element_count shape) λ count.
      if not (count == length values)
      then failed (invalid_argument "shape does not match the number of input elements")
      else try (byte_count T.size count) λ bytes.
        let desc : CreateDesc rt.Device = record {
          device = device;
          primitive_type = T.type_tag;
          shape = shape;
        } in
        let (status, tensor, completion) = rt.create_from_host desc values bytes in
        try (check status) λ _. try (check (rt.wait completion)) λ _. returned tensor

  unfoldable pub zeros : rt.Device → List ℕ → Result rt.Tensor
  zeros device shape = try (element_count shape) λ count.
      try (byte_count T.size count) λ _. tensor_from_slice device shape (replicate count T.default)

  unfoldable pub is_on : rt.Tensor → rt.Device → Bool
  is_on tensor device = rt.device_eq (rt.get_device tensor) device

  unfoldable pub len : rt.Tensor → ℕ
  len tensor = wrapping_product (rt.get_info tensor).shape

  unfoldable pub is_empty : rt.Tensor → Bool
  is_empty tensor = len tensor == 0

  -- The copy of a tensor that has elements.
  unfoldable pub download : rt.Device → rt.Tensor → ℕ → Result (List T.Value)
  download device tensor bytes =
      let (stream_status, stream) = rt.get_default_stream device in
      try (check stream_status) λ _.
        let (data_status, source) = rt.get_data tensor in
        try (check data_status) λ _.
          let (copy_status, values, completion) = rt.copy_to_host device source bytes stream in
          try (check copy_status) λ _. try (check (rt.wait completion)) λ _. returned values

  unfoldable pub to_vec : rt.Device → rt.Tensor → Result (List T.Value)
  to_vec device tensor =
      if not (is_on tensor device)
      then failed device_mismatch
      else (let metadata = rt.get_info tensor in
          if not (primitive_eq metadata.primitive_type T.type_tag)
          then failed type_mismatch
          else try (element_count metadata.shape) λ count. try (byte_count T.size count) λ bytes.
            if count == 0
            then returned []
            else try (check_strides metadata.shape metadata.strides 1)
                λ _. download device tensor bytes)
