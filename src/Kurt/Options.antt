-- ===== src/Kurt/Options.antt =====
-- Which options make an instance (crates/kurt/src/ku_instance.rs).
use kuai.Prelude.{
  map, zero, suc, String, All-of, ◌≡◌, refl, sym, ◌↔◌, ◌⊎◌, inl, inr, ℤ, pos, negsuc, Bool, true,
  false, ◌||◌, List, [], ◌∷◌, All, In, IsDistinct, ==_iff, Bool-cases, arith,
}
use kuai.Kurt.Error.{Error, invalid_argument, Result, returned, failed, check, success}
use kuai.Kurt.Scalar.{int_eq}
use kuai.Kurt.Instance.{
  Vendor, vendor_name, NativeDevice, InitInfo, unlimited, InstanceOptions, InstanceRuntime,
  KuInstance, is_negative, contains, has_bad_id, is_empty, info_of, initialized, with_options,
}

int_eq-true : (m n : ℤ) → (int_eq m n ≡ true) ↔ (m ≡ n)
int_eq-true (pos a) (pos b) = ground (arith, ==_iff a b)
int_eq-true (pos a) (negsuc b) = (λ h. cc h, λ h. cc h)
int_eq-true (negsuc a) (pos b) = (λ h. cc h, λ h. cc h)
int_eq-true (negsuc a) (negsuc b) = ground (arith, ==_iff a b)

or_true : (a b : Bool) → (a || b ≡ true) ↔ ((a ≡ true) ⊎ (b ≡ true))
or_true true b = (λ h. inl refl, λ h. refl)
or_true false b = (λ h. inr h, λ h. elim h [ inl e ↦ cc e | inr e ↦ e ])

or_false : (a b : Bool) → (a || b ≡ false) ↔ ((a ≡ false) × (b ≡ false))
or_false true b = (λ h. cc h, λ h. cc (h.0))
or_false false b = (λ h. (refl, h), λ h. h.1)

or_second : (b : Bool) → b || true ≡ true
or_second true = refl
or_second false = refl

not_true : (b : Bool) → (b ≡ false) ↔ ¬ (b ≡ true)
not_true true = (λ h. cc h, λ h. absurd (h refl))
not_true false = (λ h g. cc g, λ h. refl)

contains-In : (xs : List ℤ) (id : ℤ) → (contains xs id ≡ true) ↔ In id xs
contains-In [] id = (λ h. cc h, λ h. absurd h)
contains-In (x ∷ xs) id =
    let (into, from) = contains-In xs id in
    let (eq, back) = int_eq-true x id in
    let (either, both) = or_true (int_eq x id) (contains xs id) in
    (
      λ h. elim (either h) [ inl e ↦ inl (sym (eq e)) | inr e ↦ inr (into e) ],
      λ h. elim h [ inl e ↦ both (inl (back (sym e))) | inr e ↦ both (inr (from e)) ],
    )

abbrev pub IsNonNegative : ℤ → Type 0
IsNonNegative id = is_negative id ≡ false

-- No id is among those seen before.
abbrev Fresh : List ℤ → List ℤ → Type 0
Fresh seen ids = All (λ id. ¬ In id seen) ids

Fresh-split :
    (id : ℤ) (seen ids : List ℤ) → Fresh (id ∷ seen) ids ↔ ((¬ In id ids) × Fresh seen ids)
Fresh-split id seen [] = (λ h. (λ n. n, tt), λ h. tt)
Fresh-split id seen (x ∷ xs) =
    let (into, from) = Fresh-split id seen xs in
    (
      λ h.
          let (out, rest) = into h.1 in
          (λ m. elim m [ inl e ↦ h.0 (inl (sym e)) | inr n ↦ out n ], (λ n. h.0 (inr n), rest)),
      λ h. (
        λ m. elim m [ inl e ↦ h.0 (inl (sym e)) | inr n ↦ h.1.0 n ],
        from (λ n. h.0 (inr n), h.1.1),
      ),
    )

has_bad_id-false :
    (ids seen : List ℤ)
    → (has_bad_id seen ids ≡ false) ↔ (All IsNonNegative ids × IsDistinct ids × Fresh seen ids)
unfolding has_bad_id
has_bad_id-false [] seen = (λ h. (tt, tt, tt), λ h. refl)
has_bad_id-false (id ∷ ids) seen =
    let (into, from) = has_bad_id-false ids (id ∷ seen) in
    let (first, last) =
      or_false (is_negative id || contains seen id) (has_bad_id (id ∷ seen) ids) in
    let (sign, unseen) = or_false (is_negative id) (contains seen id) in
    let (to_not, not_to) = not_true (contains seen id) in
    let (is_in, in_is) = contains-In seen id in
    let (apart, together) = Fresh-split id seen ids in
    (
      λ h.
          let (now, later) = first h in
          let (positive, new) = sign now in
          let (all, distinct, fresh) = into later in
          let (out, rest) = apart fresh in
          ((positive, all), (out, distinct), (λ m. to_not new (in_is m), rest)),
      λ (all, distinct, fresh). last (
        unseen (all.0, not_to λ e. fresh.0 (is_in e)),
        from (all.1, distinct.1, together (distinct.0, fresh.1)),
      ),
    )

-- The default device is among the devices, whose ids are not negative and are each there once.
abbrev pub IsValid : InstanceOptions → Type 0
IsValid options =
    In options.default_device_id options.device_ids
    × All IsNonNegative options.device_ids
    × IsDistinct options.device_ids

has_bad_id-IsValid :
    (options : InstanceOptions)
    → contains options.device_ids options.default_device_id ≡ true
    → (has_bad_id [] options.device_ids ≡ false) ↔ IsValid options
has_bad_id-IsValid options h =
    let (into, from) = has_bad_id-false options.device_ids [] in
    (
      λ e.
          let (all, distinct, fresh) = into e in
          ((contains-In options.device_ids options.default_device_id).0 h, all, distinct),
      λ (m, all, distinct).
          from (all, distinct, All-of (λ id. ¬ In id []) (λ id n. n) options.device_ids),
    )

contains-is_empty : (xs : List ℤ) (id : ℤ) → contains xs id ≡ true → is_empty xs ≡ false
contains-is_empty [] id h = cc h
contains-is_empty (x ∷ xs) id h = refl

check_cases :
    (status : ℤ)
    → ((e : Error) × (check status ≡ failed e))
      ⊎ ((status ≡ success) × (check status ≡ returned tt))
check_cases (pos zero) = inr (refl, refl)
check_cases (pos (suc n)) = inl (_, refl)
check_cases (negsuc n) = inl (_, refl)

-- A device with an id and without limits.
abbrev IsDevice : ℤ → NativeDevice → Type 0
IsDevice id device =
    (device.device_id ≡ id)
    × (device.streams.max_compute_streams ≡ 0)
    × (device.streams.max_copy_streams ≡ 0)
    × (device.max_memory_bytes ≡ 0)

-- One device for each id, in their order.
abbrev AreDevices : List ℤ → List NativeDevice → Type 0
AreDevices [] [] = Unit
AreDevices [] (device ∷ devices) = ⊥
AreDevices (id ∷ ids) [] = ⊥
AreDevices (id ∷ ids) (device ∷ devices) = IsDevice id device × AreDevices ids devices

abbrev IsVendor : Vendor → String → Type 0
IsVendor Vendor.cpu name = name ≡ "cpu"
IsVendor Vendor.cuda name = name ≡ "cuda"

-- The options as the runtime is given them.
abbrev pub Describes : InstanceOptions → InitInfo → Type 0
Describes options info =
    IsVendor options.vendor info.vendor
    × (info.default_device_id ≡ options.default_device_id)
    × (info.capabilities.max_worker_concurrency ≡ options.worker_threads)
    × (info.capabilities.max_host_memory_bytes ≡ 0)
    × AreDevices options.device_ids info.capabilities.devices

unlimited-AreDevices : (ids : List ℤ) → AreDevices ids (map unlimited ids)
unlimited-AreDevices [] = tt
unlimited-AreDevices (id ∷ ids) = ((refl, refl, refl, refl), unlimited-AreDevices ids)

vendor_name-IsVendor : (vendor : Vendor) → IsVendor vendor (vendor_name vendor)
vendor_name-IsVendor Vendor.cpu = refl
vendor_name-IsVendor Vendor.cuda = refl

info_of-Describes : (options : InstanceOptions) → Describes options (info_of options)
info_of-Describes options =
    (vendor_name-IsVendor options.vendor, refl, refl, refl, unlimited-AreDevices options.device_ids)

module _ {World : Type 0} (rt : InstanceRuntime World) where
  -- What the calls of the runtime give for valid options: an error of the first, with nothing to
  -- destroy; an error of the second, and the new instance is destroyed; or an instance.
  abbrev pub Initialized : InitInfo → World → Result KuInstance × World → Type 0
  Initialized info w r =
      let (status, raw, created) = rt.init info w in
      let (device_status, device) = rt.get_default_device raw created in
      ((e : Error) × (check status ≡ failed e) × (r ≡ (failed e, created)))
      ⊎ ((status ≡ success)
          × (((e : Error) × (check device_status ≡ failed e)
                × (r ≡ (failed e, (rt.destroy raw created).1)))
              ⊎ ((device_status ≡ success)
                  × (r ≡ (returned (record { raw = raw; default_device = device }), created)))))

  initialized-Initialized :
      (options : InstanceOptions) (w : World)
      → let (status, raw, created) = rt.init (info_of options) w in
        Initialized (info_of options) w (initialized rt (check status) raw created)
  initialized-Initialized options w =
      let (status, raw, created) = rt.init (info_of options) w in
      let (device_status, device) = rt.get_default_device raw created in
      elim (check_cases status) [
        | inl (e, h) ↦ rw h (inl (e, refl, refl))
        | inr (ok, h) ↦ rw h (
            inr (
              ok,
              elim (check_cases device_status) [
                | inl (e, g) ↦ rw g (inl (e, refl, refl))
                | inr (found, g) ↦ rw g (inr (found, refl))
              ],
            ))
      ]

  -- Options that are not valid are refused and the runtime is not called. With valid options the
  -- instance is created for their vendor, default device and number of threads, with one device
  -- without limits for each id, in their order, and then asked for its default device: if the
  -- creation fails nothing is destroyed, if the second call fails the new instance is destroyed,
  -- and else the result has the new handle and the default device.
  pub with_options-Initialized :
      (options : InstanceOptions) (w : World)
      → ((¬ IsValid options)
          × ((message : String) × (with_options rt options w
                ≡ (failed (invalid_argument message), w))))
        ⊎ (IsValid options
            × ((info : InitInfo) × Describes options info
                × Initialized info w (with_options rt options w)))
  unfolding with_options
  with_options-Initialized options w =
      let ids = options.device_ids in
      let id = options.default_device_id in
      elim (Bool-cases (contains ids id)) [
        | inr g ↦ inl (
          λ valid. (not_true (contains ids id)).0 g ((contains-In ids id).1 valid.0),
          rw (g, or_second (is_empty ids)) (_, refl),
        )
        | inl g ↦
            let valid = has_bad_id-IsValid options g in
            elim (Bool-cases (has_bad_id [] ids)) [
              | inl bad ↦
                  inl (λ v. cc (valid.1 v, bad), rw (contains-is_empty ids id g, g, bad) (_, refl))
              | inr good ↦
                  rw (contains-is_empty ids id g, g, good)
                    (inr (
                      valid.0 good,
                      (
                        info_of options,
                        info_of-Describes options,
                        initialized-Initialized options w,
                      ),
                    ))
            ]
      ]
