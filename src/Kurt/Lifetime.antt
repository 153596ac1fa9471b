-- ===== src/Kurt/Lifetime.antt =====
-- crates/kurt/src/ku_instance.rs: the owners of an instance, from its creation to its end. They
-- share the inner instance by an `Arc`, which counts them.
use kuai.Prelude.{
  ℕ, zero, suc, ◌≡◌, refl, ◌⊎◌, inl, inr, Option, none, some, List, [], ◌∷◌, ◌++◌, All, All-append,
}
use kuai.Kurt.Error.{resources_in_use, Result, failed, check}
use kuai.Kurt.Instance.{InstanceRuntime}

-- What the owners share: the handle until it is taken, and their number.
pub record Shared : Type 0 where
  pub raw : Option ℕ
  pub owners : ℕ

-- What `close` gives; it panics where the handle has been taken before.
pub data Closed : Type 0 where
  panicked : Closed
  closed : Result (Unit {0}) → Closed

-- What the program does with one of the owners.
pub data Op : Type 0 where
  clone_owner drop_owner close_owner : Op

-- The owners that an operation leaves.
abbrev pub left : Op → ℕ → ℕ
left op zero = zero
left clone_owner (suc n) = suc (suc n)
left drop_owner (suc n) = n
left close_owner (suc n) = n

abbrev pub all_left : List Op → ℕ → ℕ
all_left [] n = n
all_left (op ∷ ops) n = all_left ops (left op n)

abbrev pub State : Type 0 → Type 0
State World = Shared × World

module _ {World : Type 0} (rt : InstanceRuntime World) where
  -- `Drop` of the inner instance
  abbrev pub drop_inner : Option ℕ → World → State World
  drop_inner none w = (record { raw = none; owners = 0 }, w)
  drop_inner (some raw) w = (record { raw = none; owners = 0 }, (rt.destroy raw w).1)

  -- An owner is dropped, by the number of owners.
  abbrev pub drop_one : ℕ → Shared → World → State World
  drop_one zero s w = (s, w)
  drop_one (suc zero) s w = drop_inner s.raw w
  drop_one (suc (suc n)) s w = (record s { owners = suc n }, w)

  -- `close` of the only owner
  abbrev pub close_last : Option ℕ → World → Closed × State World
  close_last none w = (panicked, (record { raw = none; owners = 0 }, w))
  close_last (some raw) w =
      let (status, after) = rt.destroy raw w in
      (closed (check status), (record { raw = none; owners = 0 }, after))

  -- `close` by the number of owners: where there are others, the error drops this one.
  unfoldable pub close : ℕ → Shared → World → Closed × State World
  close zero s w = (closed (failed resources_in_use), (s, w))
  close (suc zero) s w = close_last s.raw w
  close (suc (suc n)) s w = (closed (failed resources_in_use), drop_one (suc (suc n)) s w)

  -- One operation with an owner, and what `close` gives; without an owner there is none.
  abbrev pub run_by : Op → ℕ → Shared → World → List Closed × State World
  run_by op zero s w = ([], (s, w))
  run_by clone_owner (suc n) s w = ([], (record s { owners = suc (suc n) }, w))
  run_by drop_owner (suc n) s w = ([], drop_one (suc n) s w)
  run_by close_owner (suc n) s w = let (c, after) = close (suc n) s w in (c ∷ [], after)

  unfoldable pub run : Op → State World → List Closed × State World
  run op (s, w) = run_by op s.owners s w

  unfoldable pub run_all : List Op → State World → List Closed × State World
  run_all [] state = ([], state)
  run_all (op ∷ ops) state =
      let (first, after) = run op state in
      let (others, end) = run_all ops after in (first ++ others, end)

  -- With owners an instance has its handle, and the world is that of its creation; without, it has
  -- been destroyed, once.
  abbrev pub IsLive : ℕ → World → ℕ → State World → Type 0
  IsLive raw created zero (s, w) =
      (s ≡ record { raw = none; owners = 0 }) × (w ≡ (rt.destroy raw created).1)
  IsLive raw created (suc n) (s, w) =
      (s ≡ record { raw = some raw; owners = suc n }) × (w ≡ created)

  -- `close` fails where there are other owners, and else gives the status of the destruction.
  abbrev pub IsClosed : ℕ → World → Closed → Type 0
  IsClosed raw created c =
      (c ≡ closed (failed resources_in_use)) ⊎ (c ≡ closed (check (rt.destroy raw created).0))

  Runs : ℕ → World → ℕ → List Closed × State World → Type 0
  Runs raw created n (cs, state) = IsLive raw created n state × All (IsClosed raw created) cs

  run_owned :
      (op : Op) (raw n : ℕ) (created : World)
      → Runs raw created
          (left op (suc n))
          (run op (record { raw = some raw; owners = suc n }, created))
  unfolding run close Runs
  run_owned clone_owner raw n created = ((refl, refl), tt)
  run_owned drop_owner raw zero created = ((refl, refl), tt)
  run_owned drop_owner raw (suc n) created = ((refl, refl), tt)
  run_owned close_owner raw zero created = ((refl, refl), (inr refl, tt))
  run_owned close_owner raw (suc n) created = ((refl, refl), (inl refl, tt))

  run-IsLive :
      (op : Op) (raw n : ℕ) (created : World) (state : State World)
      → IsLive raw created n state
      → Runs raw created (left op n) (run op state)
  unfolding run Runs
  run-IsLive op raw zero created (s, w) (e, g) = rw (e, g) ((refl, refl), tt)
  run-IsLive op raw (suc n) created (s, w) (e, g) = rw (e, g) (run_owned op raw n created)

  run_all_live :
      (ops : List Op) (raw n : ℕ) (created : World) (state : State World)
      → IsLive raw created n state
      → Runs raw created (all_left ops n) (run_all ops state)
  unfolding run_all Runs
  run_all_live [] raw n created state live = (live, tt)
  run_all_live (op ∷ ops) raw n created state live =
      let (live', first) = run-IsLive op raw n created state live in
      let (live'', others) = run_all_live ops raw (left op n) created (run op state).1 live' in
      (live'', All-append (IsClosed raw created) (run op state).0 _ first others)

  -- From a new instance with one owner, whatever its owners do, in any order: while there are
  -- owners left the instance has its handle and has not been destroyed; when the last one has been
  -- dropped or closed it has been destroyed, exactly once, and stays so. `close` never panics: it
  -- fails with `ResourcesInUse`, or gives the status of the destruction.
  pub run_all-IsLive :
      (ops : List Op) (raw : ℕ) (created : World)
      → let (cs, end) = run_all ops (record { raw = some raw; owners = 1 }, created) in
        IsLive raw created (all_left ops 1) end × All (IsClosed raw created) cs
  unfolding Runs
  run_all-IsLive ops raw created = run_all_live ops raw 1 created _ (refl, refl)
