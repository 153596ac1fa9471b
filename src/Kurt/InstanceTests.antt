-- ===== src/Kurt/InstanceTests.antt =====
-- An instance with two devices, and its owners. The world is the number of destructions.
use kuai.Prelude.{ℕ, suc, ◌≡◌, refl, ◌⊎◌, ℤ, pos, some, none, List, [], ◌∷◌, All, String}
use kuai.Kurt.Error.{success, invalid_argument, resources_in_use, returned, failed}
use kuai.Kurt.Instance.{
  InitInfo, InstanceOptions, Vendor, InstanceRuntime, has_bad_id, with_options,
}
use kuai.Kurt.Options.{IsValid, Describes, Initialized, with_options-Initialized}
use kuai.Kurt.Lifetime.{
  closed, Op, clone_owner, drop_owner, close_owner, close, run, run_all, all_left, IsLive, IsClosed,
  run_all-IsLive,
}

-- The devices exist where the status says so.
abbrev counting : ℤ → InstanceRuntime ℕ
counting found = record {
  init = λ info w. (success, 7, w);
  get_default_device = λ raw w. (found, 8);
  get_device = λ raw id w. (found, 8);
  get_capabilities = λ raw w.
      (success, record { max_worker_concurrency = 1; max_host_memory_bytes = 0; devices = [] });
  flush = λ raw w. (success, w);
  destroy = λ raw w. (success, suc w);
  device_info = λ raw w. (success, pos 1, pos 0);
  device_capabilities = λ raw w. (
    success,
    record {
      device_id = pos 0;
      streams = record { max_compute_streams = 0; max_copy_streams = 0 };
      max_memory_bytes = 0;
    },
  );
  device_flush = λ raw w. (success, w);
  default_stream = λ raw w. (success, 0);
}

abbrev two_devices : InstanceOptions
two_devices = record {
  vendor = Vendor.cuda;
  device_ids = pos 3 ∷ pos 0 ∷ [];
  default_device_id = pos 0;
  worker_threads = 0;
}

with_options-Initialized_example :
    ((¬ IsValid two_devices)
      × ((message : String) × (with_options (counting success) two_devices 0
            ≡ (failed (invalid_argument message), 0))))
    ⊎ (IsValid two_devices
        × ((info : InitInfo) × Describes two_devices info
            × Initialized
                (counting success)
                info
                0
                (with_options (counting success) two_devices 0)))
with_options-Initialized_example = with_options-Initialized (counting success) two_devices 0

made :
    with_options (counting success) two_devices 0
    ≡ (returned (record { raw = 7; default_device = 8 }), 0)
unfolding with_options has_bad_id
made = refl

-- Without its default device the instance is destroyed.
guard_destroys : (with_options (counting (pos 104)) two_devices 0).1 ≡ 1
unfolding with_options has_bad_id
guard_destroys = refl

refuses_twins :
    with_options (counting success) (record two_devices { device_ids = pos 0 ∷ pos 0 ∷ [] }) 0
    ≡ (failed (invalid_argument "device IDs must be nonnegative and unique"), 0)
unfolding with_options has_bad_id
refuses_twins = refl

-- The first `close` has another owner, the second has none.
abbrev closed_twice : List Op
closed_twice = clone_owner ∷ close_owner ∷ close_owner ∷ drop_owner ∷ []

run_all-IsLive_example :
    let (cs, end) =
      run_all (counting success) closed_twice (record { raw = some 7; owners = 1 }, 0) in
    IsLive (counting success) 7 0 (all_left closed_twice 1) end
    × All (IsClosed (counting success) 7 0) cs
run_all-IsLive_example = run_all-IsLive (counting success) closed_twice 7 0

closes : run_all (counting success) closed_twice (record { raw = some 7; owners = 1 }, 0) ≡ (
  closed (failed resources_in_use) ∷ closed (returned tt) ∷ [],
  (record { raw = none; owners = 0 }, 1),
)
unfolding run_all run close
closes = refl
