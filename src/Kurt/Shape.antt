-- ===== src/Kurt/Shape.antt =====
-- The sizes of tensors in crates/kurt/src/ku_tensor.rs: the numbers of elements and of bytes, and
-- the products of the leading axes, which stay in a usize.
use native.Mathlib.Nat.{mul_assoc, one-mul, mul-one}
use kuai.Prelude.{
  ℕ, ◌*◌, ◌^◌, ◌≤◌, ◌<◌, ◌≡◌, sym, ap, ◌∙◌, ◌↔◌, true, false, List, [], ◌∷◌, All, arith, length,
  ltb, leb, Bool-cases, inl, inr,
}
use kuai.Kurt.Error.{returned}
use kuai.Kurt.Tensor.{extents_product, element_count}

below : (a b : ℕ) → ltb a b ≡ true → a < b
below a b h = ground arith

not_below : (a b : ℕ) → leb a b ≡ false → b < a
not_below a b h = ground arith

ltb-true : (a b : ℕ) → a < b → ltb a b ≡ true
ltb-true a b h = ground arith

leb-false : (a b : ℕ) → b < a → leb a b ≡ false
leb-false a b h = ground arith

not_above : (n : ℕ) → ltb 8 n ≡ false → n ≤ 8
not_above n h = ground arith

ltb-false : (a b : ℕ) → b ≤ a → ltb a b ≡ false
ltb-false a b h = ground arith

abbrev pub product : List ℕ → ℕ
product [] = 1
product (n ∷ ns) = n * product ns

-- The products of the leading axes, each with what stands before, in the order of the axes.
abbrev pub leading : ℕ → List ℕ → List ℕ
leading count [] = []
leading count (n ∷ ns) = (count * n) ∷ leading (count * n) ns

-- What a shape has to keep to.
abbrev pub Fits : List ℕ → Type 0
Fits shape =
    (length shape ≤ 8) × All (λ n. n < 2 ^ 63) shape × All (λ n. n < 2 ^ 64) (leading 1 shape)

extents_product-Fits :
    (shape : List ℕ) (count n : ℕ)
    → extents_product shape count ≡ returned n
    → (n ≡ count * product shape)
      × All (λ n. n < 2 ^ 63) shape
      × All (λ n. n < 2 ^ 64) (leading count shape)
unfolding extents_product
extents_product-Fits [] count n h =
    let found : n ≡ count = cc h in (found ∙ sym (mul-one count), tt, tt)
extents_product-Fits (e ∷ shape) count n h = elim (Bool-cases (leb (2 ^ 63) e)) [
  | inl g ↦ absurd (cc (rw g at h))
  | inr g ↦ elim (Bool-cases (ltb (count * e) (2 ^ 64))) [
    | inl k ↦
        let (same, es, ks) = extents_product-Fits shape (count * e) n (rw (g, k) at h) in
        (
          same ∙ mul_assoc count e (product shape),
          (not_below (2 ^ 63) e g, es),
          (below (count * e) (2 ^ 64) k, ks),
        )
    | inr k ↦ absurd (cc (rw (g, k) at h))
  ]
]

Fits-extents_product :
    (shape : List ℕ) (count : ℕ)
    → All (λ n. n < 2 ^ 63) shape
    → All (λ n. n < 2 ^ 64) (leading count shape)
    → extents_product shape count ≡ returned (count * product shape)
unfolding extents_product
Fits-extents_product [] count h k = ap (λ n. returned n) (sym (mul-one count))
Fits-extents_product (e ∷ shape) count (h, hs) (k, ks) = rw (leb-false (2 ^ 63) e h) (
    rw (ltb-true (count * e) (2 ^ 64) k) (
      Fits-extents_product shape (count * e) hs ks
      ∙ ap (λ n. returned n) (mul_assoc count e (product shape))))

element_count-Fits :
    (shape : List ℕ) (n : ℕ) → element_count shape ≡ returned n → Fits shape × (n ≡ product shape)
unfolding element_count
element_count-Fits shape n h = elim (Bool-cases (ltb 8 (length shape))) [
  | inl g ↦ absurd (cc (rw g at h))
  | inr g ↦
      let (same, es, ks) = extents_product-Fits shape 1 n (rw g at h) in
      ((not_above (length shape) g, es, ks), same ∙ one-mul (product shape))
]

pub Fits-element_count :
    (shape : List ℕ) → Fits shape → element_count shape ≡ returned (product shape)
unfolding element_count
Fits-element_count shape (rank, es, ks) =
    rw (ltb-false 8 (length shape) rank)
      (Fits-extents_product shape 1 es ks ∙ ap (λ n. returned n) (one-mul (product shape)))

-- A shape has a number of elements exactly when it has at most eight axes, every extent is an i64,
-- and every product of leading axes is a usize; the number is then the product of the extents.
pub element_count_iff :
    (shape : List ℕ) (n : ℕ)
    → (element_count shape ≡ returned n) ↔ (Fits shape × (n ≡ product shape))
element_count_iff shape n = (
  element_count-Fits shape n,
  λ (fits, same). Fits-element_count shape fits ∙ ap (λ k. returned k) (sym same),
)
