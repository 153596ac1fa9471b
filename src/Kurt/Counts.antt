-- ===== src/Kurt/Counts.antt =====
-- The references of native objects in crates/kurt/src/ku_arc.rs and ku_object.rs: each owner holds
-- one.
use kuai.Prelude.{
  ℕ, zero, suc, ◌+◌, ◌≡◌, refl, sym, ap, ◌∙◌, true, false, Option, none, some, List, [], ◌∷◌, arith,
  ◌==◌, ==_iff, Bool-cases, Option-cases, inl, inr, if◌then◌else◌,
}
use kuai.Kurt.Owner.{
  KuObjectKind, kind_eq, Native, Heap, update, Owner, World, Ran, ran, released, one_less, clone,
  drop, erase, try_from, Op, create, clone_of, drop_of, erase_of, try_from_of, pick, on_picked,
  created, run, run_all,
}

-- The owners of an object.
abbrev pub holders : ℕ → List Owner → ℕ
holders k [] = 0
holders k (o ∷ os) = (if k == o.raw then 1 else 0) + holders k os

-- The references of an object; one that has been freed has none.
abbrev pub references : Option Native → ℕ
references none = 0
references (some o) = suc o.others

-- Every object has as many references as owners; so an object is alive exactly as long as it has an
-- owner.
abbrev pub Balanced : World → Type 0
Balanced w = (k : ℕ) → references (w.heap k) ≡ holders k w.owners

-- The owner that was picked stands first, the one before it second.
moved :
    (p q : Owner) (qs : List Owner) (o : Owner) (rest : List Owner)
    → ◌≡◌ {A = Option (Owner × List Owner)} (some (q, p ∷ qs)) (some (o, rest))
    → (k : ℕ) {n : ℕ} → n ≡ holders k (q ∷ qs)
    → (if k == p.raw then 1 else 0) + n ≡ holders k (o ∷ rest)
moved p q qs o rest h k e =
    let same : q ≡ o = cc h in
    let rests : p ∷ qs ≡ rest = cc h in rw⁻¹ (same, rests) (rw e (omega arith))

pick-holders :
    (i : ℕ) (os : List Owner) (o : Owner) (rest : List Owner)
    → pick i os ≡ some (o, rest)
    → (k : ℕ) → holders k os ≡ holders k (o ∷ rest)
pick-holders i [] o rest h k = cc
pick-holders zero (p ∷ ps) o rest h k =
    let same : p ≡ o = cc h in let rests : ps ≡ rest = cc h in rw (same, rests) refl
pick-holders (suc i) (p ∷ ps) o rest h k = elim (Option-cases (pick i ps)) [
  | inl e ↦ absurd (cc (rw e at h))
  | inr ((q, qs), e) ↦ moved p q qs o rest (rw e at h) k (pick-holders i ps q qs e k)
]

self : (k : ℕ) → (k == k) ≡ true
self k = (==_iff k k).1 refl

-- An object that has an owner is alive, with a reference for each of its other owners.
owned :
    (heap : Heap) (o : Owner) (rest : List Owner)
    → references (heap o.raw) ≡ holders o.raw (o ∷ rest)
    → (n : Native) × (heap o.raw ≡ some n) × (n.others ≡ holders o.raw rest)
owned heap o rest h = elim (Option-cases (heap o.raw)) [
  | inl e ↦
      let none_left : 0 ≡ holders o.raw (o ∷ rest) = rw e at h in
      absurd (omega (rw (self o.raw) at none_left, arith))
  | inr (n, e) ↦
      let all : suc n.others ≡ holders o.raw (o ∷ rest) = rw e at h in
      (n, e, omega (rw (self o.raw) at all, arith))
]

update-Balanced :
    (heap : Heap) (raw : ℕ) (new : Option Native) (before after : List Owner)
    → ((k : ℕ) → references (heap k) ≡ holders k before)
    → references new ≡ holders raw after
    → ((k : ℕ) → (k == raw) ≡ false → holders k before ≡ holders k after)
    → (k : ℕ) → references (update raw new heap k) ≡ holders k after
update-Balanced heap raw new before after bal same others k = elim (Bool-cases (k == raw)) [
  | inl g ↦
      let here : k ≡ raw = (==_iff k raw).0 g in rw g (same ∙ ap (λ j. holders j after) (sym here))
  | inr g ↦ rw g (bal k ∙ others k g)
]

pub references-one_less : (o : Native) (n : ℕ) → references (one_less o n) ≡ n
references-one_less o zero = refl
references-one_less o (suc n) = refl

-- The run gives a balanced world.
abbrev Keeps : Ran → Type 0
Keeps r = (w : World) × (r ≡ ran w) × Balanced w

-- The references of a heap are those of the owners.
abbrev Owned : Heap → List Owner → Type 0
Owned heap owners = (k : ℕ) → references (heap k) ≡ holders k owners

clone-Keeps :
    (o : Owner) (rest : List Owner) (heap : Heap)
    → Owned heap (o ∷ rest)
    → Keeps (clone o rest heap)
unfolding clone
clone-Keeps o rest heap bal =
    let (n, alive, count) = owned heap o rest (bal o.raw) in
    rw alive (
      _,
      refl,
      update-Balanced heap o.raw (some (record n { others = suc n.others })) (o ∷ rest)
          (o ∷ o ∷ rest) bal (rw (self o.raw) (omega (count, arith))) λ k g. rw g (omega arith),
    )

released-Keeps :
    (o : Owner) (rest : List Owner) (heap : Heap) (n : Native)
    → Owned heap (o ∷ rest)
    → n.others ≡ holders o.raw rest
    → Keeps (released o.raw (some n) rest heap)
released-Keeps o rest heap n bal count = (
  _,
  refl,
  update-Balanced heap o.raw (one_less n n.others) (o ∷ rest) rest bal
      (references-one_less n n.others ∙ count) λ k g. rw g (omega arith),
)

drop-Keeps :
    (o : Owner) (rest : List Owner) (heap : Heap) → Owned heap (o ∷ rest) → Keeps (drop o rest heap)
unfolding drop
drop-Keeps o rest heap bal =
    let (n, alive, count) = owned heap o rest (bal o.raw) in
    rw alive (released-Keeps o rest heap n bal count)

erase-Keeps :
    (o : Owner) (rest : List Owner) (heap : Heap)
    → Owned heap (o ∷ rest)
    → Keeps (erase o rest heap)
unfolding erase
erase-Keeps o rest heap bal = (_, refl, bal)

try_from-Keeps :
    (target : KuObjectKind) (o : Owner) (rest : List Owner) (heap : Heap)
    → Owned heap (o ∷ rest)
    → Keeps (try_from o target rest heap)
unfolding try_from
try_from-Keeps target o rest heap bal =
    let (n, alive, count) = owned heap o rest (bal o.raw) in
    rw alive (elim (Bool-cases (kind_eq n.kind target)) [
      | inl g ↦ rw g (_, refl, bal)
      | inr g ↦ rw g (released-Keeps o rest heap n bal count)
    ])

on_picked-Keeps :
    (w : World) (i : ℕ) (f : Owner → List Owner → Heap → Ran)
    → ((o : Owner) (rest : List Owner) (heap : Heap)
        → Owned heap (o ∷ rest)
        → Keeps (f o rest heap))
    → Balanced w
    → Keeps (on_picked w (pick i w.owners) f)
on_picked-Keeps w i f h bal = elim (Option-cases (pick i w.owners)) [
  | inl e ↦ rw e (w, refl, bal)
  | inr ((o, rest), e) ↦ rw e (h o rest w.heap λ k. bal k ∙ pick-holders i w.owners o rest e k)
]

created-Keeps :
    (raw : ℕ) (kind : KuObjectKind) (w : World)
    → Balanced w
    → Keeps (created raw kind (w.heap raw) w)
created-Keeps raw kind w bal = elim (Option-cases (w.heap raw)) [
  | inl e ↦
      let unowned : 0 ≡ holders raw w.owners = rw e at (bal raw) in
      rw e (
        _,
        refl,
        update-Balanced w.heap raw (some (record { kind = kind; others = 0 })) w.owners
            (record { raw = raw; view = some kind } ∷ w.owners) bal
            (rw (self raw) (omega (unowned, arith))) λ k g. rw g (omega arith),
      )
  | inr (o, e) ↦ rw e (w, refl, bal)
]

run-Keeps : (op : Op) (w : World) → Balanced w → Keeps (run op w)
unfolding run
run-Keeps (create raw kind) w bal = created-Keeps raw kind w bal
run-Keeps (clone_of i) w bal = on_picked-Keeps w i clone clone-Keeps bal
run-Keeps (drop_of i) w bal = on_picked-Keeps w i drop drop-Keeps bal
run-Keeps (erase_of i) w bal = on_picked-Keeps w i erase erase-Keeps bal
run-Keeps (try_from_of i target) w bal =
    on_picked-Keeps w i (λ o. try_from o target) (try_from-Keeps target) bal

-- Where every object has as many references as owners, whatever owners a program makes, clones,
-- drops, erases or converts to other kinds, in any order: no call of the runtime is given a handle
-- whose object has been freed, and again every object has as many references as owners, so that
-- one that has lost its last owner has been freed.
pub run_all-Balanced :
    (ops : List Op) (w : World) → Balanced w → (w' : World) × (run_all ops w ≡ ran w') × Balanced w'
unfolding run_all
run_all-Balanced [] w bal = (w, refl, bal)
run_all-Balanced (op ∷ ops) w bal =
    let (w', e, bal') = run-Keeps op w bal in rw e (run_all-Balanced ops w' bal')
