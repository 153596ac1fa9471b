-- ===== src/Kurt/Builtins.antt =====
-- crates/kurt/src/ku_c_call.rs: the names of the registered functions, their targets, and frame
-- contexts. The runtime is a parameter.
use kuai.Prelude.{ℕ, ℤ, Option, none, some, List, [], ◌∷◌, take, ◌==◌, if◌then◌else◌, String}
use kuai.Kurt.Error.{invalid_utf8, Result, returned, failed, try, check}
use kuai.Kurt.Call.{Target, KuCCall, KuFrameContext}

-- The bytes of a name
abbrev pub Bytes : Type 0
Bytes = List ℕ

-- The enumeration by the instance and the capacity gives its status, the count, and what then
-- stands in the storage. `from_utf8` is that of the standard library.
pub record Registry (World : Type 0) : Type 0 where
  pub get_builtin_info : ℕ → ℕ → World → ℤ × ℕ × List Bytes × World
  pub get_proc_address : ℕ → Bytes → World → ℤ × Target
  pub frame_ctx_create : ℕ → World → ℤ × ℕ × World
  pub frame_ctx_destroy : ℕ → World → World
  pub from_utf8 : Bytes → Option String

module _ {World : Type 0} (rt : Registry World) where
  -- `collect` on the names, up to the first that is not UTF-8.
  unfoldable pub decoded_names : List Bytes → Result (List String)
  decoded_names [] = returned []
  decoded_names (bytes ∷ items) = elim (rt.from_utf8 bytes) [
    | none ↦ failed invalid_utf8
    | some name ↦ try (decoded_names items) λ names. returned (name ∷ names)
  ]

  unfoldable pub builtin_names : ℕ → World → Result (List String) × World
  builtin_names instance_raw w =
      let (status, count, unwritten, after) = rt.get_builtin_info instance_raw 0 w in
      elim (check status) [
        | failed e ↦ (failed e, after)
        | returned _ ↦
            if count == 0
            then (returned [], after)
            else (let (status', count', items, after') =
                  rt.get_builtin_info instance_raw count after in
                (try (check status') λ _. decoded_names (take count' items), after'))
      ]

  unfoldable pub builtin : ℕ → Bytes → World → Result KuCCall
  builtin instance_raw name w =
      let (status, target) = rt.get_proc_address instance_raw name w in
      try (check status) λ _. returned (record { target = target; instance_raw = instance_raw })

  unfoldable pub frame_context : ℕ → World → Result KuFrameContext × World
  frame_context device w =
      let (status, raw, after) = rt.frame_ctx_create device w in
      (try (check status) λ _. returned (record { raw = raw; device = device }), after)

  unfoldable pub drop_context : KuFrameContext → World → World
  drop_context context w = rt.frame_ctx_destroy context.raw w
