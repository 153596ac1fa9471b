-- ===== src/Kurt/Calls.antt =====
-- Native calls of crates/kurt/src/ku_c_call.rs: who holds the references when a call has ended.
use kuai.Prelude.{
  ℕ, zero, suc, ◌+◌, ◌-◌, ◌^◌, ◌≤◌, ◌<◌, ◌≡◌, refl, ap, ◌⊎◌, inl, inr, ℤ, pos, negsuc, Bool, true,
  false, ◌&&◌, Option, none, some, List, [], ◌∷◌, arith, length, length-append, take, skip,
  take-skip, ltb, ◌==◌, Bool-cases, String,
}
use kuai.Kurt.Error.{device_mismatch, invalid_argument, Result, returned, failed, check}
use kuai.Kurt.Owner.{Heap, Owner}
use kuai.Kurt.Tensor.{replicate}
use kuai.Kurt.Counts.{references}
use kuai.Kurt.Releases.{
  slot_count, slot_count-append, Backs, Backs_same, Accounts, dropped-Accounts, decode-Accounts,
}
use kuai.Kurt.Handle.{Held, Slots}
use kuai.Kurt.Call.{
  Frame, NativeResult, Ffi, Target, KuCCall, KuFrameContext, Runtime, is_too_small, Decoded,
  decode_all, invoke, resize, enlarged, settle, frame_of, call_loop, call_unchecked,
}

-- What the C interface documents of a native function: it writes into the slots that it is given;
-- every non-null result carries a reference of its own; and where the slots are too few it reports
-- the number that it needs.
pub record Contract (ffi : Ffi) (needed : ℕ) : Type 0 where
  pub sized :
      (round : ℕ) (frame : Frame) (heap : Heap)
      → length (ffi round frame heap).results ≡ length frame.results
  pub owns :
      (round : ℕ) (frame : Frame) (heap : Heap) (k : ℕ)
      → references ((ffi round frame heap).heap k) + slot_count k frame.results
        ≡ references (heap k) + slot_count k (ffi round frame heap).results
  pub requires :
      (round : ℕ) (frame : Frame) (heap : Heap)
      → is_too_small (ffi round frame heap).status ≡ true
      → (length frame.results < needed) × ((ffi round frame heap).result_count ≡ needed)

and_parts : (a b : Bool) → a && b ≡ true → (a ≡ true) × (b ≡ true)
and_parts true b h = (refl, h)
and_parts false b h = cc

slot_count-replicate : (k n : ℕ) → slot_count k (replicate n none) ≡ 0
slot_count-replicate k zero = refl
slot_count-replicate k (suc n) = slot_count-replicate k n

length-replicate : (n : ℕ) → length (replicate {A = Option ℕ} n none) ≡ n
length-replicate zero = refl
length-replicate (suc n) = ap suc (length-replicate n)

module _ (rt : Runtime) where
  slot_count-resize :
      (k count : ℕ) (slots : Slots) → slot_count k (resize rt count slots) ≡ slot_count k slots
  slot_count-resize k count slots = omega (
    slot_count-append k slots (replicate (count - length slots) none),
    slot_count-replicate k (count - length slots),
    arith,
  )

  length-resize :
      (count : ℕ) (slots : Slots) → length slots ≤ count → length (resize rt count slots) ≡ count
  length-resize count slots h = omega (
    length-append slots (replicate (count - length slots) none),
    length-replicate (count - length slots),
    arith,
  )

  decode_all-Accounts :
      (result : Result (Unit {0})) (r : NativeResult) (f : ℕ → ℕ)
      → Backs r.heap (λ k. slot_count k r.results + f k)
      → Accounts f (decode_all rt result r)
  decode_all-Accounts (failed e) r f backs = dropped-Accounts r.results e r.heap f backs
  decode_all-Accounts (returned _) r f backs =
      decode-Accounts rt (take r.result_count r.results) (skip r.result_count r.results) [] r.heap f
        (Backs_same r.heap _ _
          (λ k. omega (ap (slot_count k) (take-skip r.result_count r.results), arith)) backs)

  enlarged-Accounts :
      (synchronized : Result (Unit {0})) (r : NativeResult) (f : ℕ → ℕ)
      (retry : Slots → Heap → Held (Result Decoded))
      → Backs r.heap (λ k. slot_count k r.results + f k)
      → Accounts f (retry (resize rt r.result_count r.results) r.heap)
      → Accounts f (enlarged rt synchronized r retry)
  enlarged-Accounts (failed e) r f retry backs again = dropped-Accounts r.results e r.heap f backs
  enlarged-Accounts (returned _) r f retry backs again = again

  -- A call is repeated only where the slots are too few, with as many as are needed.
  settle-Accounts :
      (synchronized : Result (Unit {0})) (r : NativeResult) (f : ℕ → ℕ)
      (retry : Slots → Heap → Held (Result Decoded))
      → Backs r.heap (λ k. slot_count k r.results + f k)
      → (is_too_small r.status ≡ true
          → length r.results < r.result_count
          → Accounts f (retry (resize rt r.result_count r.results) r.heap))
      → Accounts f (settle rt synchronized r retry)
  settle-Accounts synchronized r f retry backs again =
      elim (Bool-cases (is_too_small r.status && ltb (length r.results) r.result_count)) [
        | inl g ↦
            let (small, more) = and_parts (is_too_small r.status) _ g in
            rw g (enlarged-Accounts synchronized r f retry backs (again small (ground arith)))
        | inr g ↦ rw g (decode_all-Accounts _ r f backs)
      ]

  module _ (call : KuCCall) (context : KuFrameContext) (argv : Slots) (pargn : ℕ)
      (knames : List String) where
    module _ (ffi : Ffi) (needed : ℕ) (contract : Contract ffi needed) (f : ℕ → ℕ) where
      written :
          (round : ℕ) (slots : Slots) (heap : Heap)
          → Backs heap (λ k. slot_count k slots + f k)
          → let r = ffi round (frame_of rt call context argv pargn knames slots) heap in
            Backs r.heap (λ k. slot_count k r.results + f k)
      written round slots heap backs k = omega (
        contract.owns round (frame_of rt call context argv pargn knames slots) heap k,
        backs k,
        arith,
      )

      module _
          (invoked : (round : ℕ) (frame : Frame) (heap : Heap)
            → invoke rt call.target.kind call.target round frame heap
              ≡ some (ffi round frame heap)) where
        enough :
            (fuel round : ℕ) (slots : Slots) (heap : Heap)
            → needed ≤ length slots
            → Backs heap (λ k. slot_count k slots + f k)
            → Accounts f (call_loop rt call context argv pargn knames (suc fuel) round slots heap)
        unfolding call_loop
        enough fuel round slots heap h backs =
            let frame = frame_of rt call context argv pargn knames slots in
            rw (invoked round frame heap) (
              settle-Accounts (check (rt.flush round context.device)) (ffi round frame heap) f
                (call_loop rt call context argv pargn knames fuel (suc round))
                (written round slots heap backs)
                λ small more.
                  absurd (omega ((contract.requires round frame heap small).0, h, arith)))

        called_twice :
            (fuel round : ℕ) (slots : Slots) (heap : Heap)
            → Backs heap (λ k. slot_count k slots + f k)
            → Accounts f
                (call_loop rt call context argv pargn knames (suc (suc fuel)) round slots heap)
        unfolding call_loop
        called_twice fuel round slots heap backs =
            let frame = frame_of rt call context argv pargn knames slots in
            let r = ffi round frame heap in
            let left = written round slots heap backs in
            rw (invoked round frame heap) (
              settle-Accounts (check (rt.flush round context.device)) r f
                (call_loop rt call context argv pargn knames (suc fuel) (suc round)) left
                λ small more.
                  enough fuel (suc round) (resize rt r.result_count r.results) r.heap
                    (omega (
                      length-resize r.result_count r.results (omega (more, arith)),
                      (contract.requires round frame heap small).1,
                      arith,
                    ))
                    (Backs_same r.heap _ _
                      (λ k. omega (slot_count-resize k r.result_count r.results, arith)) left))

  -- A target has one function, or none.
  invoke_cases :
      (kind : ℤ) (target : Target)
      → ((round : ℕ) (frame : Frame) (heap : Heap) → invoke rt kind target round frame heap ≡ none)
        ⊎ ((round : ℕ) (frame : Frame) (heap : Heap)
            → invoke rt kind target round frame heap ≡ some (target.ffi round frame heap))
        ⊎ ((round : ℕ) (frame : Frame) (heap : Heap)
            → invoke rt kind target round frame heap
              ≡ some (target.closure_ffi target.capture round frame heap))
  invoke_cases (pos zero) target = inl λ _ _ _. refl
  invoke_cases (pos (suc zero)) target = inr (inl λ _ _ _. refl)
  invoke_cases (pos (suc (suc zero))) target = inr (inr λ _ _ _. refl)
  invoke_cases (pos (suc (suc (suc n)))) target = inl λ _ _ _. refl
  invoke_cases (negsuc n) target = inl λ _ _ _. refl

  call_loop-Accounts :
      (call : KuCCall) (context : KuFrameContext) (argv : Slots) (pargn : ℕ) (knames : List String)
      (needed fuel : ℕ) (heap : Heap) (f : ℕ → ℕ)
      → Contract call.target.ffi needed
      → Contract (call.target.closure_ffi call.target.capture) needed
      → Backs heap f
      → Accounts f (call_loop rt call context argv pargn knames (suc (suc fuel)) 0 (none ∷ []) heap)
  unfolding call_loop
  call_loop-Accounts call context argv pargn knames needed fuel heap f c c' backs =
      let backs' : Backs heap (λ k. slot_count k (none ∷ []) + f k) =
        Backs_same heap _ _ (λ k. omega arith) backs in
      elim (invoke_cases call.target.kind call.target) [
        | inl e ↦
            rw (e 0 (frame_of rt call context argv pargn knames (none ∷ [])) heap)
              (dropped-Accounts (none ∷ []) _ heap f backs')
        | inr (inl e) ↦
            called_twice call context argv pargn knames call.target.ffi needed c f e fuel 0
              (none ∷ []) heap backs'
        | inr (inr e) ↦
            called_twice call context argv pargn knames
              (call.target.closure_ffi call.target.capture) needed c' f e fuel 0 (none ∷ []) heap
              backs'
      ]

  -- Where both functions of the target keep to what the C interface documents and need the same
  -- number of slots: a call ends after at most two native calls, on every path, without the use of
  -- a handle whose object has been freed. Then every object has the references that it had before
  -- the call, and one for each of its places in the results that are returned: none is lost, and
  -- none is released twice.
  pub call_unchecked-Accounts :
      (call : KuCCall) (context : KuFrameContext) (positional : List (Option Owner))
      (keywords : List (String × Option Owner)) (needed fuel : ℕ) (heap : Heap) (f : ℕ → ℕ)
      → Contract call.target.ffi needed
      → Contract (call.target.closure_ffi call.target.capture) needed
      → Backs heap f
      → Accounts f (call_unchecked rt (suc (suc fuel)) call context positional keywords heap)
  unfolding call_unchecked
  call_unchecked-Accounts call context positional keywords needed fuel heap f c c' backs =
      let same = Backs_same heap _ (λ k. 0 + f k) (λ k. omega arith) backs in
      elim (Bool-cases (call.instance_raw == rt.get_instance context.device)) [
        | inl g ↦ elim (Bool-cases (ltb (length positional + length keywords) (2 ^ 64))) [
          | inl few ↦
              rw (g, few)
                (call_loop-Accounts call context _ (length positional) _ needed fuel heap f c c'
                  backs)
          | inr many ↦
              rw (g, many)
                (failed (invalid_argument "too many builtin arguments"), heap, refl, same)
        ]
        | inr g ↦ rw g (failed device_mismatch, heap, refl, same)
      ]
