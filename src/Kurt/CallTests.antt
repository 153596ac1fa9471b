-- ===== src/Kurt/CallTests.antt =====
-- A native function that gives its argument twice, and an instance with two owners.
use kuai.Prelude.{
  ℕ, ◌+◌, ◌≡◌, refl, ◌<◌, pos, Option, none, some, [], ◌∷◌, arith, length, ◌==◌, ==_iff, Bool-cases,
  inl, inr, true, if◌then◌else◌,
}
use kuai.Kurt.Error.{success, returned}
use kuai.Kurt.Owner.{KuObjectKind, Native, Heap, update, Owner}
use kuai.Kurt.Counts.{references}
use kuai.Kurt.Releases.{slot_count, Backs, Accounts}
use kuai.Kurt.Handle.{Held, held, Slots, release, drop_outputs}
use kuai.Kurt.Call.{
  NativeResult, Ffi, KuCCall, KuFrameContext, Runtime, is_too_small, from_native, decode, call_loop,
  call_unchecked,
}
use kuai.Kurt.Calls.{Contract, call_unchecked-Accounts}

abbrev refused : ℕ → Slots → Heap → NativeResult
refused needed slots heap = record {
  status = pos 2;
  result_count = needed;
  results = slots;
  heap = heap;
}

abbrev unwritten : Slots → Heap → NativeResult
unwritten slots heap = record { status = pos 100; result_count = 0; results = slots; heap = heap }

-- Object 1 with two more references.
abbrev twice_of : Slots → Option Native → Heap → NativeResult
twice_of [] o heap = refused 2 [] heap
twice_of (slot ∷ []) o heap = refused 2 (slot ∷ []) heap
twice_of (none ∷ none ∷ []) (some o) heap = record {
  status = success;
  result_count = 2;
  results = some 1 ∷ some 1 ∷ [];
  heap = update 1 (some (record o { others = o.others + 2 })) heap;
}
twice_of (none ∷ none ∷ []) none heap = unwritten (none ∷ none ∷ []) heap
twice_of (none ∷ none ∷ slot ∷ slots) o heap = unwritten (none ∷ none ∷ slot ∷ slots) heap
twice_of (none ∷ some raw ∷ slots) o heap = unwritten (none ∷ some raw ∷ slots) heap
twice_of (some raw ∷ slot ∷ slots) o heap = unwritten (some raw ∷ slot ∷ slots) heap

abbrev twice : Ffi
twice round frame heap = twice_of frame.results (heap 1) heap

twice_of_sized :
    (slots : Slots) (o : Option Native) (heap : Heap)
    → length (twice_of slots o heap).results ≡ length slots
twice_of_sized [] o heap = refl
twice_of_sized (slot ∷ []) o heap = refl
twice_of_sized (none ∷ none ∷ []) (some o) heap = refl
twice_of_sized (none ∷ none ∷ []) none heap = refl
twice_of_sized (none ∷ none ∷ slot ∷ slots) o heap = refl
twice_of_sized (none ∷ some raw ∷ slots) o heap = refl
twice_of_sized (some raw ∷ slot ∷ slots) o heap = refl

twice_of_owns :
    (slots : Slots) (o : Option Native) (heap : Heap) (k : ℕ)
    → heap 1 ≡ o
    → references ((twice_of slots o heap).heap k) + slot_count k slots
      ≡ references (heap k) + slot_count k (twice_of slots o heap).results
twice_of_owns [] o heap k h = refl
twice_of_owns (slot ∷ []) o heap k h = refl
twice_of_owns (none ∷ none ∷ []) (some o) heap k h = elim (Bool-cases (k == 1)) [
  | inl g ↦ let here : k ≡ 1 = (==_iff k 1).0 g in rw (g, here, h) (omega arith)
  | inr g ↦ rw g (omega arith)
]
twice_of_owns (none ∷ none ∷ []) none heap k h = refl
twice_of_owns (none ∷ none ∷ slot ∷ slots) o heap k h = refl
twice_of_owns (none ∷ some raw ∷ slots) o heap k h = refl
twice_of_owns (some raw ∷ slot ∷ slots) o heap k h = refl

twice_of_requires :
    (slots : Slots) (o : Option Native) (heap : Heap)
    → is_too_small (twice_of slots o heap).status ≡ true
    → (length slots < 2) × ((twice_of slots o heap).result_count ≡ 2)
twice_of_requires [] o heap h = (omega arith, refl)
twice_of_requires (slot ∷ []) o heap h = (omega arith, refl)
twice_of_requires (none ∷ none ∷ []) (some o) heap h = cc
twice_of_requires (none ∷ none ∷ []) none heap h = cc
twice_of_requires (none ∷ none ∷ slot ∷ slots) o heap h = cc
twice_of_requires (none ∷ some raw ∷ slots) o heap h = cc
twice_of_requires (some raw ∷ slot ∷ slots) o heap h = cc

twice-Contract : Contract twice 2
twice-Contract = record {
  sized = λ round frame heap. twice_of_sized frame.results (heap 1) heap;
  owns = λ round frame heap k. twice_of_owns frame.results (heap 1) heap k refl;
  requires = λ round frame heap. twice_of_requires frame.results (heap 1) heap;
}

-- Every object is a scalar, every wait succeeds, and every device is of instance 5.
abbrev quiet : Runtime
quiet = record {
  get_kind = λ raw. (success, pos 1);
  flush = λ round device. success;
  get_instance = λ device. 5;
}

-- The kind of every object is unknown.
abbrev unknown : Runtime
unknown = record quiet { get_kind = λ raw. (success, pos 9) }

abbrev doubling : KuCCall
doubling = record {
  target = record { kind = pos 1; ffi = twice; capture = 0; closure_ffi = λ capture. twice };
  instance_raw = 5;
}

abbrev context : KuFrameContext
context = record { raw = 3; device = 4 }

abbrev one : Option Owner
one = some (record { raw = 1; view = none })

-- Object 1 with one owner.
abbrev alone : Heap
alone = update 1 (some (record { kind = KuObjectKind.scalar; others = 0 })) λ k. none

abbrev by_one : ℕ → ℕ
by_one k = if k == 1 then 1 else 0

alone-Backs : Backs alone by_one
alone-Backs k = elim (Bool-cases (k == 1)) [ inl g ↦ rw g refl | inr g ↦ rw g refl ]

call_unchecked-Accounts_example :
    Accounts by_one (call_unchecked quiet 2 doubling context (one ∷ []) [] alone)
call_unchecked-Accounts_example =
    call_unchecked-Accounts quiet doubling context (one ∷ []) [] 2 0 alone by_one twice-Contract
      twice-Contract alone-Backs

-- The result of a run with the references of object 1.
abbrev seen : {A : Type 0} → Held A → Option (A × Option Native)
seen (held a heap) = some (a, heap 1)
seen _ = none

returns_both :
    seen (call_unchecked quiet 2 doubling context (one ∷ []) [] alone)
    ≡ some (returned (one ∷ one ∷ []), some (record { kind = KuObjectKind.scalar; others = 2 }))
unfolding call_unchecked call_loop decode from_native drop_outputs release
returns_both = refl
