-- ===== src/Kurt/Owner.antt =====
-- crates/kurt/src/ku_arc.rs and ku_object.rs: the owners of native objects. The runtime keeps a
-- count of references for each object and frees it with the last; a handle is a number. References
-- that the runtime itself holds, as an array does of its elements, are not counted.
use kuai.Prelude.{
  ℕ, zero, suc, Bool, true, false, Option, none, some, List, [], ◌∷◌, ◌==◌, if◌then◌else◌,
}

pub data KuObjectKind : Type 0 where
  scalar tensor array string slice : KuObjectKind

abbrev pub kind_eq : KuObjectKind → KuObjectKind → Bool
kind_eq scalar scalar = true
kind_eq tensor tensor = true
kind_eq array array = true
kind_eq string string = true
kind_eq slice slice = true
kind_eq _ _ = false

-- The runtime's object: its kind, and its references less one.
pub record Native : Type 0 where
  pub kind : KuObjectKind
  pub others : ℕ

-- The objects that are alive, by their handles.
abbrev pub Heap : Type 0
Heap = ℕ → Option Native

abbrev pub update : ℕ → Option Native → Heap → Heap
update raw o heap k = if k == raw then o else heap k

-- A `KuArc<T>`: its handle, and the kind of `T`; `none` is `KuObject`.
pub record Owner : Type 0 where
  pub raw : ℕ
  pub view : Option KuObjectKind

pub record World : Type 0 where
  pub heap : Heap
  pub owners : List Owner

-- `fault` is a call of the runtime with a handle whose object has been freed.
pub data Ran : Type 0 where
  fault : Ran
  ran : World → Ran

-- `ku_object_retain` on an object that is alive, or not
abbrev pub retained : ℕ → Option Native → List Owner → Heap → Ran
retained raw none owners heap = fault
retained raw (some o) owners heap =
    ran (record {
      heap = update raw (some (record o { others = suc o.others })) heap;
      owners = owners;
    })

-- What is left of an object behind `ku_object_release`.
abbrev pub one_less : Native → ℕ → Option Native
one_less o zero = none
one_less o (suc n) = some (record o { others = n })

abbrev pub released : ℕ → Option Native → List Owner → Heap → Ran
released raw none owners heap = fault
released raw (some o) owners heap =
    ran (record { heap = update raw (one_less o o.others) heap; owners = owners })

-- `KuArc::retain`, and so `clone`: of the first owner.
unfoldable pub clone : Owner → List Owner → Heap → Ran
clone owner owners heap = retained owner.raw (heap owner.raw) (owner ∷ owner ∷ owners) heap

-- `Drop` of the first owner
unfoldable pub drop : Owner → List Owner → Heap → Ran
drop owner owners heap = released owner.raw (heap owner.raw) owners heap

-- `From`, whatever the kind of the owner: the same reference in a `KuArc<KuObject>`.
unfoldable pub erase : Owner → List Owner → Heap → Ran
erase owner owners heap =
    ran (record { heap = heap; owners = record owner { view = none } ∷ owners })

-- `TryFrom` for each target, by the kind of the object: the same reference in an owner of that
-- kind, or an error, which drops the owner.
abbrev pub try_from_kind : Owner → KuObjectKind → Option Native → List Owner → Heap → Ran
try_from_kind owner target none owners heap = fault
try_from_kind owner target (some o) owners heap =
    if kind_eq o.kind target
    then ran (record { heap = heap; owners = record owner { view = some target } ∷ owners })
    else released owner.raw (some o) owners heap

unfoldable pub try_from : Owner → KuObjectKind → List Owner → Heap → Ran
try_from owner target owners heap = try_from_kind owner target (heap owner.raw) owners heap

-- What a program does with the owners that it has: it makes an object with a handle that is not in
-- use, or picks an owner and clones, drops, erases or converts it.
pub data Op : Type 0 where
  create : ℕ → KuObjectKind → Op
  clone_of drop_of erase_of : ℕ → Op
  try_from_of : ℕ → KuObjectKind → Op

-- The owner at a place, and the others.
abbrev pub pick : ℕ → List Owner → Option (Owner × List Owner)
pick i [] = none
pick zero (o ∷ os) = some (o, os)
pick (suc i) (o ∷ os) = elim (pick i os) [ none ↦ none | some (p, ps) ↦ some (p, o ∷ ps) ]

abbrev pub on_picked : World → Option (Owner × List Owner) → (Owner → List Owner → Heap → Ran) → Ran
on_picked w none f = ran w
on_picked w (some (o, os)) f = f o os w.heap

-- `ku_object_create` gives an object with one reference; a handle that is in use is not given.
abbrev pub created : ℕ → KuObjectKind → Option Native → World → Ran
created raw kind none w = ran (record {
  heap = update raw (some (record { kind = kind; others = 0 })) w.heap;
  owners = record { raw = raw; view = some kind } ∷ w.owners;
})
created raw kind (some o) w = ran w

unfoldable pub run : Op → World → Ran
run (create raw kind) w = created raw kind (w.heap raw) w
run (clone_of i) w = on_picked w (pick i w.owners) clone
run (drop_of i) w = on_picked w (pick i w.owners) drop
run (erase_of i) w = on_picked w (pick i w.owners) erase
run (try_from_of i target) w = on_picked w (pick i w.owners) λ o. try_from o target

abbrev pub and_then : (World → Ran) → Ran → Ran
and_then f fault = fault
and_then f (ran w) = f w

unfoldable pub run_all : List Op → World → Ran
run_all [] w = ran w
run_all (op ∷ ops) w = and_then (run_all ops) (run op w)
