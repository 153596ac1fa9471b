-- ===== src/Kurt/Call.antt =====
-- crates/kurt/src/ku_c_call.rs with `from_native` of ku_object.rs: calls of native functions, and
-- who holds the references of their results. The runtime is a parameter: what it answers may depend
-- on how often it has been asked.
use kuai.Prelude.{
  ℕ, zero, suc, ◌+◌, ◌-◌, ◌^◌, ℤ, pos, negsuc, Bool, true, false, not, ◌&&◌, Option, none, some,
  List, [], ◌∷◌, ◌++◌, map, length, push, take, skip, ltb, ◌==◌, if◌then◌else◌, String,
}
use kuai.Kurt.Error.{invalid_argument, device_mismatch, Result, returned, failed, try, check}
use kuai.Kurt.Owner.{KuObjectKind, Native, Heap, Owner}
use kuai.Kurt.Tensor.{replicate}
use kuai.Kurt.Handle.{
  Held, fault, out_of_fuel, held, and_then, release, Slots, drop_outputs, handles, kind_from_raw,
  dropped,
}

-- The arguments and the storage for results of one call.
pub record Frame : Type 0 where
  pub ctx : ℕ
  pub argv : Slots
  pub pargn : ℕ
  pub knames : List String
  pub results : Slots

-- What a native function leaves behind.
pub record NativeResult : Type 0 where
  pub status : ℤ
  pub result_count : ℕ
  pub results : Slots
  pub heap : Heap

-- The number is that of the calls before.
abbrev pub Ffi : Type 0
Ffi = ℕ → Frame → Heap → NativeResult

-- `ku_call_t`: by its kind a function, or a function with a capture.
pub record Target : Type 0 where
  pub kind : ℤ
  pub ffi : Ffi
  pub capture : ℕ
  pub closure_ffi : ℕ → Ffi

pub record KuCCall : Type 0 where
  pub target : Target
  pub instance_raw : ℕ

pub record KuFrameContext : Type 0 where
  pub raw : ℕ
  pub device : ℕ

-- The status and the kind of an object, the status of a wait, and the instance of a device.
pub record Runtime : Type 0 where
  pub get_kind : ℕ → ℤ × ℤ
  pub flush : ℕ → ℕ → ℤ
  pub get_instance : ℕ → ℕ

abbrev pub is_too_small : ℤ → Bool
is_too_small (pos (suc (suc zero))) = true
is_too_small (pos (suc (suc (suc n)))) = false
is_too_small (pos (suc zero)) = false
is_too_small (pos zero) = false
is_too_small (negsuc n) = false

abbrev pub Decoded : Type 0
Decoded = List (Option Owner)

module _ (rt : Runtime) where
  -- A handle whose object is alive, by its kind: an owner, or an error, which drops the reference.
  abbrev pub classified : ℕ → Result KuObjectKind → Heap → Held (Result Owner)
  classified raw (returned kind) heap = held (returned (record { raw = raw; view = none })) heap
  classified raw (failed e) heap = and_then (release raw heap) λ _ after. held (failed e) after

  abbrev pub from_native_of : ℕ → Option Native → Heap → Held (Result Owner)
  from_native_of raw none heap = fault
  from_native_of raw (some o) heap =
      let (status, kind) = rt.get_kind raw in
      classified raw (try (check status) λ _. kind_from_raw kind) heap

  unfoldable pub from_native : ℕ → Heap → Held (Result Owner)
  from_native raw heap = from_native_of raw (heap raw) heap

  -- What follows the classification of a result: on an error the results before it are dropped, and
  -- then those behind it.
  abbrev pub decode_next :
      Slots
      → Decoded
      → Result Owner
      → Heap
      → (Decoded → Heap → Held (Result Decoded))
      → Held (Result Decoded)
  decode_next others decoded (returned o) heap rest = rest (push decoded (some o)) heap
  decode_next others decoded (failed e) heap rest =
      and_then (drop_outputs (handles decoded) heap) λ _ after. dropped others e after

  -- The loop over the results; `others` are the slots behind the count.
  unfoldable pub decode : Slots → Slots → Decoded → Heap → Held (Result Decoded)
  decode [] others decoded heap =
      and_then (drop_outputs others heap) λ _ after. held (returned decoded) after
  decode (none ∷ slots) others decoded heap = decode slots others (push decoded none) heap
  decode (some raw ∷ slots) others decoded heap =
      let rest = decode slots others in
      and_then (from_native raw heap) λ r after. decode_next (slots ++ others) decoded r after rest

  abbrev pub decode_all : Result (Unit {0}) → NativeResult → Held (Result Decoded)
  decode_all (failed e) r = dropped r.results e r.heap
  decode_all (returned _) r =
      decode (take r.result_count r.results) (skip r.result_count r.results) [] r.heap

  -- The native function by the kind of the target.
  abbrev pub invoke : ℤ → Target → ℕ → Frame → Heap → Option NativeResult
  invoke (pos (suc zero)) target round frame heap = some (target.ffi round frame heap)
  invoke (pos (suc (suc zero))) target round frame heap =
      some (target.closure_ffi target.capture round frame heap)
  invoke (pos zero) target round frame heap = none
  invoke (pos (suc (suc (suc n)))) target round frame heap = none
  invoke (negsuc n) target round frame heap = none

  -- `resize` to a count that is larger
  abbrev pub resize : ℕ → Slots → Slots
  resize count slots = slots ++ replicate (count - length slots) none

  abbrev pub enlarged :
      Result (Unit {0})
      → NativeResult
      → (Slots → Heap → Held (Result Decoded))
      → Held (Result Decoded)
  enlarged (failed e) r retry = dropped r.results e r.heap
  enlarged (returned _) r retry = retry (resize r.result_count r.results) r.heap

  -- What follows a native call and the wait for the device.
  abbrev pub settle :
      Result (Unit {0})
      → NativeResult
      → (Slots → Heap → Held (Result Decoded))
      → Held (Result Decoded)
  settle synchronized r retry =
      if is_too_small r.status && ltb (length r.results) r.result_count
      then enlarged synchronized r retry
      else decode_all
          (try (check r.status) λ _. try synchronized λ _.
            if ltb (length r.results) r.result_count
            then failed (invalid_argument "invalid native result count")
            else returned tt)
          r

  abbrev pub called :
      Option NativeResult
      → Result (Unit {0})
      → Slots
      → Heap
      → (Slots → Heap → Held (Result Decoded))
      → Held (Result Decoded)
  called none synchronized slots heap retry =
      dropped slots (invalid_argument "invalid native callable kind") heap
  called (some r) synchronized slots heap retry = settle synchronized r retry

  module _ (call : KuCCall) (context : KuFrameContext) (argv : Slots) (pargn : ℕ)
      (knames : List String) where
    abbrev pub frame_of : Slots → Frame
    frame_of slots = record {
      ctx = context.raw;
      argv = argv;
      pargn = pargn;
      knames = knames;
      results = slots;
    }

    unfoldable pub call_loop : (fuel round : ℕ) → Slots → Heap → Held (Result Decoded)
    call_loop zero round slots heap = out_of_fuel
    call_loop (suc fuel) round slots heap =
        let retry = call_loop fuel (suc round) in
        called (invoke call.target.kind call.target round (frame_of slots) heap)
          (check (rt.flush round context.device)) slots heap retry

  unfoldable pub call_unchecked :
      ℕ
      → KuCCall
      → KuFrameContext
      → (positional : List (Option Owner)) → (keywords : List (String × Option Owner)) → Heap
      → Held (Result Decoded)
  call_unchecked fuel call context positional keywords heap =
      if not (call.instance_raw == rt.get_instance context.device)
      then held (failed device_mismatch) heap
      else if not (ltb (length positional + length keywords) (2 ^ 64))
      then held (failed (invalid_argument "too many builtin arguments")) heap
      else call_loop call context (handles positional ++ handles (map (λ k. k.1) keywords))
          (length positional) (map (λ k. k.0) keywords) fuel 0 (none ∷ []) heap
