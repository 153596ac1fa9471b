-- ===== src/Kurt/Strides.antt =====
-- The strides of tensors in crates/kurt/src/ku_tensor.rs: what a download accepts.
use kuai.Prelude.{
  ℕ, ◌*◌, ◌≡◌, refl, ◌↔◌, List, [], ◌∷◌, arith, length, ◌==◌, ==_iff, Bool-cases, inl, inr,
}
use kuai.Kurt.Error.{returned}
use kuai.Kurt.Tensor.{check_strides}

-- The strides of a contiguous tensor whose first axis varies fastest.
abbrev pub column_major : ℕ → List ℕ → List ℕ
column_major stride [] = []
column_major stride (extent ∷ shape) = stride ∷ column_major (stride * extent) shape

-- With a stride for each axis, the strides of a tensor pass the check of a download exactly when
-- they are those of a contiguous tensor in column-major order.
pub check_strides_iff :
    (shape strides : List ℕ) (stride : ℕ)
    → length strides ≡ length shape
    → (check_strides shape strides stride ≡ returned tt) ↔ (strides ≡ column_major stride shape)
unfolding check_strides
check_strides_iff [] [] stride same = (λ h. refl, λ h. refl)
check_strides_iff [] (s ∷ ss) stride same = absurd (omega arith)
check_strides_iff (e ∷ shape) [] stride same = absurd (omega arith)
check_strides_iff (e ∷ shape) (s ∷ ss) stride same =
    let (passes, agrees) = check_strides_iff shape ss (stride * e) (omega arith) in
    elim (Bool-cases (s == stride)) [
      | inl g ↦ (λ h. cc ((==_iff s stride).0 g, passes (rw g at h)), λ h. rw g (agrees (cc h)))
      | inr g ↦ (
        λ h. absurd (cc (rw g at h)),
        λ h. let same : s ≡ stride = cc h in absurd (cc ((==_iff s stride).1 same, g)),
      )
    ]
