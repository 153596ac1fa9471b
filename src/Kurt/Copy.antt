-- ===== src/Kurt/Copy.antt =====
-- Tensors made from host values and copied back, in crates/kurt/src/ku_tensor.rs.
use kuai.Prelude.{
  ltb, ◌^◌, ◌<◌, subst, ℕ, suc, ◌*◌, ◌≡◌, refl, ap, ◌∙◌, sym, true, false, List, [], ◌∷◌, arith,
  length, ◌==◌, ==_iff, Bool-cases, inl, inr, if◌then◌else◌,
}
use kuai.Kurt.Error.{Result, returned, try, check, success, try-eq-returned, check-eq-returned}
use kuai.Kurt.Scalar.{primitive_eq_refl}
use kuai.Kurt.Tensor.{
  CreateDesc, element_count, byte_count, check_strides, Element, Runtime, tensor_from_slice, to_vec,
  is_on, download,
}
use kuai.Kurt.Strides.{column_major, check_strides_iff}

not_zero : (n : ℕ) → (suc n == 0) ≡ false
not_zero n = ground arith

length-column_major :
    (stride : ℕ) (shape : List ℕ) → length (column_major stride shape) ≡ length shape
length-column_major stride [] = refl
length-column_major stride (e ∷ shape) = ap (λ n. suc n) (length-column_major (stride * e) shape)

byte_count-eq :
    (size count bytes : ℕ) → byte_count size count ≡ returned bytes → bytes ≡ count * size
unfolding byte_count
byte_count-eq size count bytes h = elim (Bool-cases (ltb (count * size) (2 ^ 64))) [
  | inr g ↦ absurd (cc (rw g at h))
  | inl g ↦ elim (Bool-cases (ltb (count * size) (2 ^ 63))) [
    | inl f ↦ cc (rw (g, f) at h)
    | inr f ↦ absurd (cc (rw (g, f) at h))
  ]
]

module _ (T : Element) (rt : Runtime T.Value) where
  -- The calls of a copy of so many bytes to the host succeed.
  pub record Answers (device : rt.Device) (tensor : rt.Tensor) (bytes : ℕ) : Type 0 where
    pub stream : rt.Stream
    pub has_stream : rt.get_default_stream device ≡ (success, stream)
    pub address : rt.Address
    pub has_address : rt.get_data tensor ≡ (success, address)
    pub copied : List T.Value
    pub completion : rt.Completion
    pub copies : rt.copy_to_host device address bytes stream ≡ (success, copied, completion)
    pub completes : rt.wait completion ≡ success

  -- The runtime holds some values in a tensor: it is on the device, has the element type, the shape
  -- and the strides of a contiguous tensor, and a copy of all its bytes that succeeds gives the
  -- values.
  pub record Holds (device : rt.Device) (shape : List ℕ) (values : List T.Value)
      (tensor : rt.Tensor) : Type 0 where
    pub on_device : rt.device_eq (rt.get_device tensor) device ≡ true
    pub info :
        rt.get_info tensor
        ≡ record { primitive_type = T.type_tag; shape = shape; strides = column_major 1 shape }
    pub holds : (answers : Answers device tensor (length values * T.size)) → answers.copied ≡ values

  download-Holds :
      (device : rt.Device) (shape : List ℕ) (values : List T.Value) (tensor : rt.Tensor)
      → Holds device shape values tensor
      → Answers device tensor (length values * T.size)
      → download T rt device tensor (length values * T.size) ≡ returned values
  unfolding download
  download-Holds device shape values tensor h a =
      rw (a.has_stream, a.has_address)
        (rw a.copies (rw a.completes (ap (λ vs. returned vs) (h.holds a))))

  abbrev desc : rt.Device → List ℕ → CreateDesc rt.Device
  desc device shape = record { device = device; primitive_type = T.type_tag; shape = shape }

  -- What the runtime documents of tensors made from host values, given with the number of their
  -- bytes: where both calls succeed, it holds the values in the tensor.
  abbrev pub IsWorking : Type 0
  IsWorking =
      (device : rt.Device) (shape : List ℕ) (values : List T.Value) (bytes : ℕ)
      → bytes ≡ length values * T.size
      → (rt.create_from_host (desc device shape) values bytes).0 ≡ success
      → rt.wait (rt.create_from_host (desc device shape) values bytes).2 ≡ success
      → Holds device shape values (rt.create_from_host (desc device shape) values bytes).1

  -- The calls of the runtime behind the checks of the sizes.
  submit : rt.Device → List ℕ → List T.Value → ℕ → Result rt.Tensor
  submit device shape values bytes =
      let (status, tensor, completion) = rt.create_from_host (desc device shape) values bytes in
      try (check status) λ _. try (check (rt.wait completion)) λ _. returned tensor

  submitted-Holds :
      (device : rt.Device) (shape : List ℕ) (values : List T.Value) (bytes : ℕ) (tensor : rt.Tensor)
      → IsWorking
      → bytes ≡ length values * T.size
      → submit device shape values bytes ≡ returned tensor
      → Holds device shape values tensor
  unfolding submit
  submitted-Holds device shape values bytes tensor working all h =
      let (_, accepted, h') =
        try-eq-returned (check (rt.create_from_host (desc device shape) values bytes).0) _ h in
      let (_, complete, h'') =
        try-eq-returned (check (rt.wait (rt.create_from_host (desc device shape) values bytes).2)) _
          h' in
      let same : (rt.create_from_host (desc device shape) values bytes).1 ≡ tensor = cc h'' in
      subst (Holds device shape values) same (
        working device shape values bytes all (check-eq-returned _ accepted)
          (check-eq-returned _ complete))

  -- The sizes of a tensor that was made.
  made-Holds :
      (device : rt.Device) (shape : List ℕ) (values : List T.Value) (tensor : rt.Tensor)
      → IsWorking
      → tensor_from_slice T rt device shape values ≡ returned tensor
      → (element_count shape ≡ returned (length values))
        × (byte_count T.size (length values) ≡ returned (length values * T.size))
        × Holds device shape values tensor
  unfolding tensor_from_slice submit
  made-Holds device shape values tensor working made =
      let (count, counted, made') = try-eq-returned (element_count shape) _ made in
      elim (Bool-cases (count == length values)) [
        | inr g ↦ absurd (cc (rw g at made'))
        | inl g ↦
            let same : count ≡ length values = (==_iff count (length values)).0 g in
            let sequence : try (byte_count T.size count) (submit device shape values)
                ≡ returned tensor =
              rw g at made' in
            let (bytes, sized, submitted) = try-eq-returned (byte_count T.size count) _ sequence in
            let all : bytes ≡ length values * T.size =
              byte_count-eq T.size count bytes sized ∙ ap (λ n. n * T.size) same in
            (
              counted ∙ ap (λ n. returned n) same,
              ap (byte_count T.size) (sym same) ∙ sized ∙ ap (λ n. returned n) all,
              submitted-Holds device shape values bytes tensor working all submitted,
            )
      ]

  -- A copy of a tensor that the runtime holds values in.
  copied-Holds :
      (device : rt.Device) (shape : List ℕ) (values : List T.Value) (tensor : rt.Tensor)
      → Holds device shape values tensor
      → (0 < length values → Answers device tensor (length values * T.size))
      → (if length values == 0
          then returned []
          else try
              (check_strides shape (column_major 1 shape) 1)
              λ _. download T rt device tensor (length values * T.size))
        ≡ returned values
  copied-Holds device shape [] tensor h answers = refl
  copied-Holds device shape (v ∷ vs) tensor h answers = rw (not_zero (length vs)) (
      rw ((check_strides_iff shape (column_major 1 shape) 1 (length-column_major 1 shape)).1 refl)
        (download-Holds device shape (v ∷ vs) tensor h (answers (omega arith))))

  -- On a runtime that keeps to what it documents of tensors made from host values: if values were
  -- made a tensor on a device, and the calls for a copy of all their bytes succeed (where there is
  -- any), a copy of the tensor to the host from that device returns the same values in the same
  -- order.
  pub to_vec-tensor_from_slice :
      (device : rt.Device) (shape : List ℕ) (values : List T.Value) (tensor : rt.Tensor)
      → IsWorking
      → tensor_from_slice T rt device shape values ≡ returned tensor
      → (0 < length values → Answers device tensor (length values * T.size))
      → to_vec T rt device tensor ≡ returned values
  unfolding to_vec is_on
  to_vec-tensor_from_slice device shape values tensor working made answers =
      let (counted, sized, h) = made-Holds device shape values tensor working made in
      rw h.on_device (
        rw h.info (
          rw (primitive_eq_refl T.type_tag)
            (rw counted (rw sized (copied-Holds device shape values tensor h answers)))))
