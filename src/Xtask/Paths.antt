-- ===== src/Xtask/Paths.antt =====
-- The set of files of xtask/src/cpp.rs: its order, and what an insertion adds.
use Prim.Native.Nat.{Ordering}
use kuai.Prelude.{In, ◌≡◌, refl, ◌∙◌, ◌↔◌, ◌⊎◌, inl, inr, List, [], ◌∷◌, arith}
use kuai.Xtask.Path.{OsString, PathBuf}
use kuai.Xtask.Files.{bytes_cmp, path_cmp, insert}

bytes_cmp-eq : (a b : OsString) → bytes_cmp a b ≡ Ordering.eq → a ≡ b
bytes_cmp-eq [] [] h = refl
bytes_cmp-eq [] (c ∷ cs) h = cc
bytes_cmp-eq (b ∷ bs) [] h = cc
bytes_cmp-eq (b ∷ bs) (c ∷ cs) h = ground (arith, bytes_cmp-eq bs cs)

bytes_cmp-gt : (a b : OsString) → bytes_cmp a b ≡ Ordering.gt → bytes_cmp b a ≡ Ordering.lt
bytes_cmp-gt [] [] h = cc
bytes_cmp-gt [] (c ∷ cs) h = cc
bytes_cmp-gt (b ∷ bs) [] h = refl
bytes_cmp-gt (b ∷ bs) (c ∷ cs) h = ground (arith, bytes_cmp-gt bs cs)

bytes_cmp_refl : (a : OsString) → bytes_cmp a a ≡ Ordering.eq
bytes_cmp_refl [] = refl
bytes_cmp_refl (c ∷ cs) = ground (arith, bytes_cmp_refl cs)

path_cmp-eq : (p q : PathBuf) → path_cmp p q ≡ Ordering.eq → p ≡ q
path_cmp-eq [] [] h = refl
path_cmp-eq [] (n ∷ q) h = cc
path_cmp-eq (m ∷ p) [] h = cc
path_cmp-eq (m ∷ p) (n ∷ q) h = ground (arith, bytes_cmp-eq m n, path_cmp-eq p q)

path_cmp-gt : (p q : PathBuf) → path_cmp p q ≡ Ordering.gt → path_cmp q p ≡ Ordering.lt
path_cmp-gt [] [] h = cc
path_cmp-gt [] (n ∷ q) h = cc
path_cmp-gt (m ∷ p) [] h = refl
path_cmp-gt (m ∷ p) (n ∷ q) h =
    ground (arith, bytes_cmp-eq m n, bytes_cmp-gt m n, bytes_cmp_refl m, path_cmp-gt p q)

ordering_cases : (o : Ordering) → (o ≡ Ordering.lt) ⊎ (o ≡ Ordering.eq) ⊎ (o ≡ Ordering.gt)
ordering_cases Ordering.lt = inl refl
ordering_cases Ordering.eq = inr (inl refl)
ordering_cases Ordering.gt = inr (inr refl)

cmp_cases :
    (p q : PathBuf)
    → (path_cmp p q ≡ Ordering.lt) ⊎ (path_cmp p q ≡ Ordering.eq) ⊎ (path_cmp p q ≡ Ordering.gt)
cmp_cases p q = ordering_cases (path_cmp p q)

abbrev pub IsBefore : PathBuf → List PathBuf → Type 0
IsBefore p [] = Unit
IsBefore p (f ∷ files) = path_cmp p f ≡ Ordering.lt

-- Each file comes before the next one, in the order of paths.
abbrev pub IsSorted : List PathBuf → Type 0
IsSorted [] = Unit
IsSorted (f ∷ files) = IsBefore f files × IsSorted files

IsBefore-insert :
    (f p : PathBuf) (files : List PathBuf)
    → path_cmp f p ≡ Ordering.lt
    → IsBefore f files
    → IsBefore f (insert p files)
unfolding insert
IsBefore-insert f p [] h b = h
IsBefore-insert f p (g ∷ files) h b = elim (cmp_cases p g) [
  | inl e ↦ rw e h
  | inr (inl e) ↦ rw e b
  | inr (inr e) ↦ rw e b
]

pub insert-IsSorted :
    (p : PathBuf) (files : List PathBuf) → IsSorted files → IsSorted (insert p files)
unfolding insert
insert-IsSorted p [] s = (tt, tt)
insert-IsSorted p (f ∷ files) s = elim (cmp_cases p f) [
  | inl e ↦ rw e (e, s)
  | inr (inl e) ↦ rw e s
  | inr (inr e) ↦
      rw e (IsBefore-insert f p files (path_cmp-gt p f e) s.0, insert-IsSorted p files s.1)
]

-- The files of `after` are those of `before` and those with the property.
abbrev pub Adds : List PathBuf → (PathBuf → Type 0) → List PathBuf → Type 0
Adds before P after = (f : PathBuf) → In f after ↔ (In f before ⊎ P f)

pub insert-Adds : (p : PathBuf) (files : List PathBuf) → Adds files (λ f. f ≡ p) (insert p files)
unfolding insert
insert-Adds p [] f =
    (λ h. elim h [ inl e ↦ inr e | inr n ↦ inl n ], λ h. elim h [ inl n ↦ inr n | inr e ↦ inl e ])
insert-Adds p (g ∷ files) f = elim (cmp_cases p g) [
  | inl e ↦ rw e (
    λ h. elim h [ inl same ↦ inr same | inr more ↦ inl more ],
    λ h. elim h [ inl more ↦ inr more | inr same ↦ inl same ],
  )
  | inr (inl e) ↦
      rw e (λ h. inl h, λ h. elim h [ inl more ↦ more | inr same ↦ inl (same ∙ path_cmp-eq p g e) ])
  | inr (inr e) ↦
      let (into, from) = insert-Adds p files f in
      rw e (
        λ h. elim h [
          | inl same ↦ inl (inl same)
          | inr more ↦ elim (into more) [ inl old ↦ inl (inr old) | inr same ↦ inr same ]
        ],
        λ h. elim h [
          | inl (inl same) ↦ inl same
          | inl (inr old) ↦ inr (from (inl old))
          | inr same ↦ inr (from (inr same))
        ],
      )
]

pub Adds-trans :
    (before middle after : List PathBuf) {P Q : PathBuf → Type 0}
    → Adds before P middle
    → Adds middle Q after
    → Adds before (λ f. P f ⊎ Q f) after
Adds-trans before middle after first second f =
    let (into, from) = first f in
    let (into', from') = second f in
    (
      λ h. elim (into' h) [
        | inl m ↦ elim (into m) [ inl old ↦ inl old | inr p ↦ inr (inl p) ]
        | inr q ↦ inr (inr q)
      ],
      λ h. elim h [
        | inl old ↦ from' (inl (from (inl old)))
        | inr (inl p) ↦ from' (inl (from (inr p)))
        | inr (inr q) ↦ from' (inr q)
      ],
    )

pub Adds-same :
    (before after : List PathBuf) {P Q : PathBuf → Type 0}
    → ((f : PathBuf) → P f ↔ Q f)
    → Adds before P after
    → Adds before Q after
Adds-same before after same adds f =
    let (into, from) = adds f in
    let (to, back) = same f in
    (
      λ h. elim (into h) [ inl old ↦ inl old | inr p ↦ inr (to p) ],
      λ h. elim h [ inl old ↦ from (inl old) | inr q ↦ from (inr (back q)) ],
    )
