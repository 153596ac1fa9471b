-- ===== src/Kurt/Releases.antt =====
-- The references of native objects while the results of a call are released or decoded
-- (crates/kurt/src/ku_c_call.rs).
use kuai.Prelude.{
  ℕ, suc, ◌+◌, ◌≡◌, refl, sym, ap, ◌∙◌, ◌⊎◌, inl, inr, Option, none, some, [], ◌∷◌, ◌++◌, arith,
  push, ◌==◌, ==_iff, Bool-cases, Option-cases, if◌then◌else◌,
}
use kuai.Kurt.Error.{Error, Result, returned, failed, try, check}
use kuai.Kurt.Owner.{KuObjectKind, Native, Heap, Owner}
use kuai.Kurt.Counts.{references, references-one_less}
use kuai.Kurt.Handle.{
  Held, held, release, Slots, drop_outputs, handle, handles, dropped, kind_from_raw,
}
use kuai.Kurt.Call.{Decoded, Runtime, classified, from_native, decode}

-- The references of an object that a list of handles holds.
abbrev pub slot_count : ℕ → Slots → ℕ
slot_count k [] = 0
slot_count k (none ∷ slots) = slot_count k slots
slot_count k (some raw ∷ slots) = (if k == raw then 1 else 0) + slot_count k slots

pub slot_count-append :
    (k : ℕ) (xs ys : Slots) → slot_count k (xs ++ ys) ≡ slot_count k xs + slot_count k ys
slot_count-append k [] ys = omega arith
slot_count-append k (none ∷ xs) ys = slot_count-append k xs ys
slot_count-append k (some raw ∷ xs) ys = omega (slot_count-append k xs ys, arith)

handles-push :
    (ds : Decoded) (d : Option Owner) → handles (push ds d) ≡ push (handles ds) (handle d)
handles-push [] d = refl
handles-push (e ∷ ds) d = ap (◌∷◌ (handle e)) (handles-push ds d)

slot_count-push :
    (k : ℕ) (ds : Decoded) (d : Option Owner)
    → slot_count k (handles (push ds d)) ≡ slot_count k (handles ds) + slot_count k (handle d ∷ [])
slot_count-push k ds d = rw (handles-push ds d) (slot_count-append k (handles ds) (handle d ∷ []))

-- Every object has as many references as the function says.
abbrev pub Backs : Heap → (ℕ → ℕ) → Type 0
Backs heap f = (k : ℕ) → references (heap k) ≡ f k

pub Backs_same : (heap : Heap) (f g : ℕ → ℕ) → ((k : ℕ) → f k ≡ g k) → Backs heap f → Backs heap g
Backs_same heap f g same backs k = backs k ∙ same k

alive :
    (heap : Heap) (raw : ℕ) (f : ℕ → ℕ)
    → Backs heap (λ k. (if k == raw then 1 else 0) + f k)
    → (o : Native) × (heap raw ≡ some o) × (o.others ≡ f raw)
alive heap raw f backs =
    let here : references (heap raw) ≡ 1 + f raw = rw ((==_iff raw raw).1 refl) at (backs raw) in
    elim (Option-cases (heap raw)) [
      | inl e ↦ let none_left : 0 ≡ 1 + f raw = rw e at here in absurd (omega (none_left, arith))
      | inr (o, e) ↦ let all : suc o.others ≡ 1 + f raw = rw e at here in (o, e, omega (all, arith))
    ]

-- A reference that is held can be released.
pub release-Backs :
    (raw : ℕ) (heap : Heap) (f : ℕ → ℕ)
    → Backs heap (λ k. (if k == raw then 1 else 0) + f k)
    → (after : Heap) × (release raw heap ≡ held tt after) × Backs after f
unfolding release
release-Backs raw heap f backs =
    let (o, e, count) = alive heap raw f backs in
    rw e (
      _,
      refl,
      λ k. elim (Bool-cases (k == raw)) [
        | inl g ↦
            let here : k ≡ raw = (==_iff k raw).0 g in
            rw g (references-one_less o o.others ∙ count ∙ ap f (sym here))
        | inr g ↦ rw g (omega (rw g at (backs k), arith))
      ],
    )

pub drop_outputs-Backs :
    (slots : Slots) (heap : Heap) (f : ℕ → ℕ)
    → Backs heap (λ k. slot_count k slots + f k)
    → (after : Heap) × (drop_outputs slots heap ≡ held tt after) × Backs after f
unfolding drop_outputs
drop_outputs-Backs [] heap f backs = (heap, refl, Backs_same heap _ _ (λ k. omega arith) backs)
drop_outputs-Backs (none ∷ slots) heap f backs = drop_outputs-Backs slots heap f backs
drop_outputs-Backs (some raw ∷ slots) heap f backs =
    let (middle, e, backs') =
      release-Backs raw heap (λ k. slot_count k slots + f k)
        (Backs_same heap _ _ (λ k. omega arith) backs) in
    rw e (drop_outputs-Backs slots middle f backs')

-- The references of the results that are returned.
abbrev pub result_count : ℕ → Result Decoded → ℕ
result_count k (returned decoded) = slot_count k (handles decoded)
result_count k (failed e) = 0

-- A run ends, and then the references are those of its result and those that the function says.
abbrev pub Accounts : (ℕ → ℕ) → Held (Result Decoded) → Type 0
Accounts f m =
    (r : Result Decoded) × (after : Heap) × (m ≡ held r after)
    × Backs after (λ k. result_count k r + f k)

pub dropped-Accounts :
    (slots : Slots) (e : Error) (heap : Heap) (f : ℕ → ℕ)
    → Backs heap (λ k. slot_count k slots + f k)
    → Accounts f (dropped slots e heap)
dropped-Accounts slots e heap f backs =
    let (after, g, backs') = drop_outputs-Backs slots heap f backs in
    rw g (failed e, after, refl, Backs_same after _ _ (λ k. omega arith) backs')

module _ (rt : Runtime) where
  from_native-Backs :
      (raw : ℕ) (heap : Heap) (f : ℕ → ℕ)
      → Backs heap (λ k. (if k == raw then 1 else 0) + f k)
      → (from_native rt raw heap ≡ held (returned (record { raw = raw; view = none })) heap)
        ⊎ ((e : Error) × (after : Heap) × (from_native rt raw heap ≡ held (failed e) after)
            × Backs after f)
  unfolding from_native
  from_native-Backs raw heap f backs =
      let (o, e, count) = alive heap raw f backs in
      rw e (by_kind (try (check (rt.get_kind raw).0) λ _. kind_from_raw (rt.get_kind raw).1))
    where
      by_kind :
          (kind : Result KuObjectKind)
          → (classified rt raw kind heap ≡ held (returned (record { raw = raw; view = none })) heap)
            ⊎ ((e : Error) × (after : Heap) × (classified rt raw kind heap ≡ held (failed e) after)
                × Backs after f)
      by_kind (returned kind) = inl refl
      by_kind (failed e) =
          let (after, g, backs') = release-Backs raw heap f backs in
          rw g (inr (e, after, refl, backs'))

  pub decode-Accounts :
      (slots others : Slots) (decoded : Decoded) (heap : Heap) (f : ℕ → ℕ)
      → Backs heap (λ k. slot_count k (handles decoded) + (slot_count k (slots ++ others) + f k))
      → Accounts f (decode rt slots others decoded heap)
  unfolding decode
  decode-Accounts [] others decoded heap f backs =
      let (after, e, backs') =
        drop_outputs-Backs others heap (λ k. slot_count k (handles decoded) + f k)
          (Backs_same heap _ _ (λ k. omega arith) backs) in
      rw e (returned decoded, after, refl, backs')
  decode-Accounts (none ∷ slots) others decoded heap f backs =
      decode-Accounts slots others (push decoded none) heap f
        (Backs_same heap _ _ (λ k. omega (slot_count-push k decoded none, arith)) backs)
  decode-Accounts (some raw ∷ slots) others decoded heap f backs =
      elim (from_native-Backs raw heap
        (λ k. slot_count k (handles decoded) + (slot_count k (slots ++ others) + f k))
        (Backs_same heap _ _ (λ k. omega arith) backs)) [
          | inl e ↦ rw e (
              decode-Accounts slots others (push decoded (some (record { raw = raw; view = none })))
                heap f
                (Backs_same heap _ _
                  (λ k.
                    omega
                      (slot_count-push k decoded (some (record { raw = raw; view = none })), arith))
                  backs))
          | inr (error, middle, e, backs') ↦
              let (after, g, backs'') =
                drop_outputs-Backs (handles decoded) middle
                  (λ k. slot_count k (slots ++ others) + f k) backs' in
              rw (e, g) (dropped-Accounts (slots ++ others) error after f backs'')
        ]
