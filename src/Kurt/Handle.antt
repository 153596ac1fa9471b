-- ===== src/Kurt/Handle.antt =====
-- Handles of native objects while a call holds them (crates/kurt/src/ku_c_call.rs, ku_object.rs):
-- their references, which a release takes, and their kinds.
use kuai.Prelude.{ℕ, zero, suc, ℤ, pos, negsuc, Option, none, some, List, [], ◌∷◌, map}
use kuai.Kurt.Error.{Error, type_mismatch, Result, returned, failed}
use kuai.Kurt.Owner.{
  KuObjectKind, scalar, tensor, array, string, slice, Native, Heap, update, Owner, one_less,
}

-- `fault` is a use of a handle whose object has been freed; `out_of_fuel` is a call that is still
-- being repeated.
pub data Held (A : Type 0) : Type 0 where
  fault : Held A
  out_of_fuel : Held A
  held : A → Heap → Held A

abbrev pub and_then : {A B : Type 0} → Held A → (A → Heap → Held B) → Held B
and_then fault f = fault
and_then out_of_fuel f = out_of_fuel
and_then (held a heap) f = f a heap

-- `ku_object_release`
abbrev pub released_of : ℕ → Option Native → Heap → Held (Unit {0})
released_of raw none heap = fault
released_of raw (some o) heap = held tt (update raw (one_less o o.others) heap)

unfoldable pub release : ℕ → Heap → Held (Unit {0})
release raw heap = released_of raw (heap raw) heap

-- Results of a native call: a handle, or null.
abbrev pub Slots : Type 0
Slots = List (Option ℕ)

-- `Drop` of `Outputs`
unfoldable pub drop_outputs : Slots → Heap → Held (Unit {0})
drop_outputs [] heap = held tt heap
drop_outputs (none ∷ slots) heap = drop_outputs slots heap
drop_outputs (some raw ∷ slots) heap =
    let rest = drop_outputs slots in and_then (release raw heap) λ _ after. rest after

-- The handle of an argument or of a result; null where there is none.
abbrev pub handle : Option Owner → Option ℕ
handle none = none
handle (some o) = some o.raw

abbrev pub handles : List (Option Owner) → Slots
handles os = map handle os

-- `KuObjectKind::from_raw`, by the codes of the runtime
abbrev pub kind_from_raw : ℤ → Result KuObjectKind
kind_from_raw (pos zero) = failed type_mismatch
kind_from_raw (pos (suc zero)) = returned scalar
kind_from_raw (pos (suc (suc zero))) = returned tensor
kind_from_raw (pos (suc (suc (suc zero)))) = returned array
kind_from_raw (pos (suc (suc (suc (suc zero))))) = returned string
kind_from_raw (pos (suc (suc (suc (suc (suc zero)))))) = returned slice
kind_from_raw (pos (suc (suc (suc (suc (suc (suc n))))))) = failed type_mismatch
kind_from_raw (negsuc n) = failed type_mismatch

-- An error return: the results are dropped.
abbrev pub dropped : {A : Type 0} → Slots → Error → Heap → Held (Result A)
dropped slots e heap = and_then (drop_outputs slots heap) λ _ after. held (failed e) after
