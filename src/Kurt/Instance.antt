-- ===== src/Kurt/Instance.antt =====
-- crates/kurt/src/ku_instance.rs: instances and devices. The runtime is a parameter, and what it
-- keeps is a world; a handle is a number.
use kuai.Prelude.{
  ℕ, ℤ, pos, negsuc, Bool, true, false, not, ◌||◌, List, [], ◌∷◌, map, if◌then◌else◌, String,
}
use kuai.Kurt.Error.{invalid_argument, Result, returned, failed, try, check}
use kuai.Kurt.Scalar.{int_eq}

pub data Vendor : Type 0 where
  cpu cuda : Vendor

abbrev pub vendor_name : Vendor → String
vendor_name cpu = "cpu"
vendor_name cuda = "cuda"

pub record InstanceOptions : Type 0 where
  pub vendor : Vendor
  pub device_ids : List ℤ
  pub default_device_id : ℤ
  pub worker_threads : ℕ

abbrev pub default_options : InstanceOptions
default_options = record {
  vendor = cpu;
  device_ids = pos 0 ∷ [];
  default_device_id = pos 0;
  worker_threads = 0;
}

pub data DeviceType : Type 0 where
  cpu cuda cuda_host cuda_managed external : DeviceType
  unknown : ℤ → DeviceType

-- `ku_device_stream_capabilities_t`
pub record StreamCapabilities : Type 0 where
  pub max_compute_streams : ℕ
  pub max_copy_streams : ℕ

-- `ku_device_capabilities_t`
pub record NativeDevice : Type 0 where
  pub device_id : ℤ
  pub streams : StreamCapabilities
  pub max_memory_bytes : ℕ

pub record DeviceCapabilities : Type 0 where
  pub device_id : ℤ
  pub max_compute_streams : ℕ
  pub max_copy_streams : ℕ
  pub max_memory_bytes : ℕ

abbrev pub device_from : NativeDevice → DeviceCapabilities
device_from value = record {
  device_id = value.device_id;
  max_compute_streams = value.streams.max_compute_streams;
  max_copy_streams = value.streams.max_copy_streams;
  max_memory_bytes = value.max_memory_bytes;
}

pub record InstanceCapabilities : Type 0 where
  pub worker_threads : ℕ
  pub max_host_memory_bytes : ℕ
  pub devices : List DeviceCapabilities

-- `ku_instance_capabilities_t`, without the scheduler, which is null here
pub record NativeCapabilities : Type 0 where
  pub max_worker_concurrency : ℕ
  pub max_host_memory_bytes : ℕ
  pub devices : List NativeDevice

-- `ku_instance_init_info_t`
pub record InitInfo : Type 0 where
  pub vendor : String
  pub default_device_id : ℤ
  pub capabilities : NativeCapabilities

-- The calls of the runtime, each with its status.
pub record InstanceRuntime (World : Type 0) : Type 0 where
  pub init : InitInfo → World → ℤ × ℕ × World
  pub get_default_device : ℕ → World → ℤ × ℕ
  pub get_device : ℕ → ℤ → World → ℤ × ℕ
  pub get_capabilities : ℕ → World → ℤ × NativeCapabilities
  pub flush : ℕ → World → ℤ × World
  pub destroy : ℕ → World → ℤ × World
  pub device_info : ℕ → World → ℤ × ℤ × ℤ
  pub device_capabilities : ℕ → World → ℤ × NativeDevice
  pub device_flush : ℕ → World → ℤ × World
  pub default_stream : ℕ → World → ℤ × ℕ

-- A new instance: the handle that its owners share, and its default device.
pub record KuInstance : Type 0 where
  pub raw : ℕ
  pub default_device : ℕ

abbrev pub is_negative : ℤ → Bool
is_negative (pos a) = false
is_negative (negsuc a) = true

abbrev pub contains : List ℤ → ℤ → Bool
contains [] id = false
contains (x ∷ xs) id = int_eq x id || contains xs id

-- An id is negative, or has been seen before.
unfoldable pub has_bad_id : List ℤ → List ℤ → Bool
has_bad_id seen [] = false
has_bad_id seen (id ∷ ids) = (is_negative id || contains seen id) || has_bad_id (id ∷ seen) ids

abbrev pub is_empty : List ℤ → Bool
is_empty [] = true
is_empty (id ∷ ids) = false

abbrev pub unlimited : ℤ → NativeDevice
unlimited id = record {
  device_id = id;
  streams = record { max_compute_streams = 0; max_copy_streams = 0 };
  max_memory_bytes = 0;
}

abbrev pub info_of : InstanceOptions → InitInfo
info_of options = record {
  vendor = vendor_name options.vendor;
  default_device_id = options.default_device_id;
  capabilities = record {
    max_worker_concurrency = options.worker_threads;
    max_host_memory_bytes = 0;
    devices = map unlimited options.device_ids;
  };
}

abbrev pub device_type_of : ℤ → DeviceType
device_type_of code =
    if int_eq code (pos 1)
    then cpu
    else if int_eq code (pos 2)
    then cuda
    else if int_eq code (pos 3)
    then cuda_host
    else if int_eq code (pos 4)
    then cuda_managed
    else if int_eq code (pos 12)
    then external
    else unknown code

module _ {World : Type 0} (rt : InstanceRuntime World) where
  -- The default device of an instance; without it the guard destroys the instance.
  abbrev pub with_device : Result (Unit {0}) → (raw device : ℕ) → World → Result KuInstance × World
  with_device (failed e) raw device w = (failed e, (rt.destroy raw w).1)
  with_device (returned _) raw device w =
      (returned (record { raw = raw; default_device = device }), w)

  abbrev pub initialized : Result (Unit {0}) → ℕ → World → Result KuInstance × World
  initialized (failed e) raw w = (failed e, w)
  initialized (returned _) raw w =
      let (status, device) = rt.get_default_device raw w in with_device (check status) raw device w

  unfoldable pub with_options : InstanceOptions → World → Result KuInstance × World
  with_options options w =
      if is_empty options.device_ids || not (contains options.device_ids options.default_device_id)
      then (failed (invalid_argument "device list must contain the default device"), w)
      else if has_bad_id [] options.device_ids
      then (failed (invalid_argument "device IDs must be nonnegative and unique"), w)
      else (let (status, raw, after) = rt.init (info_of options) w in
          initialized (check status) raw after)

  unfoldable pub new : Vendor → World → Result KuInstance × World
  new vendor w = with_options (record default_options { vendor = vendor }) w

  unfoldable pub device : KuInstance → ℤ → World → Result ℕ
  device instance_of id w =
      let (status, raw) = rt.get_device instance_of.raw id w in try (check status) λ _. returned raw

  unfoldable pub capabilities : KuInstance → World → Result InstanceCapabilities
  capabilities instance_of w =
      let (status, out) = rt.get_capabilities instance_of.raw w in
      try (check status) λ _. returned (record {
        worker_threads = out.max_worker_concurrency;
        max_host_memory_bytes = out.max_host_memory_bytes;
        devices = map device_from out.devices;
      })

  unfoldable pub flush : KuInstance → World → Result (Unit {0}) × World
  flush instance_of w = let (status, after) = rt.flush instance_of.raw w in (check status, after)

  unfoldable pub info : ℕ → World → Result (DeviceType × ℤ)
  info raw w =
      let (status, code, id) = rt.device_info raw w in
      try (check status) λ _. returned (device_type_of code, id)

  unfoldable pub device_capabilities : ℕ → World → Result DeviceCapabilities
  device_capabilities raw w =
      let (status, out) = rt.device_capabilities raw w in
      try (check status) λ _. returned (device_from out)

  unfoldable pub device_flush : ℕ → World → Result (Unit {0}) × World
  device_flush raw w = let (status, after) = rt.device_flush raw w in (check status, after)

  unfoldable pub stream : ℕ → World → Result ℕ
  stream raw w = let (status, out) = rt.default_stream raw w in try (check status) λ _. returned out
