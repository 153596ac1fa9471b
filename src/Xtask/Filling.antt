-- ===== src/Xtask/Filling.antt =====
-- One step of the loop of `batches` in xtask/src/cpp.rs: what has been put into batches, and the
-- batch that is being filled.
use kuai.Prelude.{
  take, skip, skip-append, take-append, ℕ, suc, ◌+◌, ◌-◌, ◌^◌, ◌≤◌, ◌<◌, ◌≡◌, refl, sym, ap, ◌∙◌,
  inl, inr, true, false, List, [], ◌∷◌, ◌++◌, append_assoc, append-nil, arith, length,
  length-append, All, All-append, push, ltb, Bool-cases, leb,
}
use kuai.Xtask.Path.{PathBuf}
use kuai.Xtask.Result.{path_over_budget, returned, failed}
use kuai.Xtask.Batches.{Batching, cost_of, push_slice, batch_step}

abbrev pub concat : List (List PathBuf) → List PathBuf
concat [] = []
concat (c ∷ cs) = c ++ concat cs

abbrev pub total : List PathBuf → ℕ
total [] = 0
total (p ∷ ps) = cost_of p + total ps

pub concat-push :
    (cs : List (List PathBuf)) (c : List PathBuf) → concat (push cs c) ≡ concat cs ++ c
concat-push [] c = append-nil c
concat-push (d ∷ cs) c = rw (concat-push cs c) (sym (append_assoc d (concat cs) c))

total-push : (ps : List PathBuf) (p : PathBuf) → total (push ps p) ≡ total ps + cost_of p
total-push [] p = omega arith
total-push (q ∷ ps) p = omega (arith, total-push ps p)

total-length : (ps : List PathBuf) → 1 ≤ total ps → 1 ≤ length ps
total-length [] h = h
total-length (p ∷ ps) h = omega arith

pub empty : (ps : List PathBuf) → length ps ≡ 0 → ps ≡ []
empty [] h = refl
empty (p ∷ ps) h = cc

pub leb-true : (a b : ℕ) → a ≤ b → leb a b ≡ true
leb-true a b h = ground arith

module _ (fixed_cost budget : ℕ) where
  -- A command line of one file fits.
  abbrev pub Fits : PathBuf → Type 0
  Fits p = fixed_cost + cost_of p ≤ budget

  -- A command line of all files of a batch fits, and there is a file.
  abbrev pub IsBatch : List PathBuf → Type 0
  IsBatch chunk = (1 ≤ length chunk) × (fixed_cost + total chunk ≤ budget)

  -- The loop has put `before` into batches and is filling one with `current`.
  pub record Filling (before current : List PathBuf) (s : Batching) : Type 0 where
    pub joined : concat s.chunks ≡ before
    pub fit : All IsBatch s.chunks
    pub start_at : s.start ≡ length before
    pub costs : s.cost ≡ fixed_cost + total current
    pub in_budget : s.cost ≤ budget

  module _ (files : List PathBuf) where
    pub push_slice-Filling :
        (before current rest : List PathBuf) (s : Batching) (end : ℕ)
        → files ≡ before ++ (current ++ rest)
        → end ≡ length before + length current
        → Filling before current s
        → push_slice files fixed_cost budget end s ≡ returned (push s.chunks current)
    push_slice-Filling before current rest s end h e f =
        let sizes : length files ≡ length before + (length current + length rest) =
          rw (h, length-append before (current ++ rest), length-append current rest) refl in
        let first : leb s.start end ≡ true = leb-true _ _ (omega (f.start_at, e, arith)) in
        let last : leb end (length files) ≡ true = leb-true _ _ (omega (sizes, e, arith)) in
        let size : end - length before ≡ length current = omega (e, arith) in
        let slice : take (end - s.start) (skip s.start files) ≡ current =
          rw (f.start_at, h, skip-append before (current ++ rest), size)
            (take-append current rest) in
        rw (first, last, slice) refl

    -- A step that begins no batch.
    go_on :
        (before current rest : List PathBuf) (path : PathBuf) (s : Batching)
        → Filling before current s
        → s.cost + cost_of path ≤ budget
        → Filling before (push current path) (record s { cost = s.cost + cost_of path })
    go_on before current rest path s f h = record {
      joined = f.joined;
      fit = f.fit;
      start_at = f.start_at;
      costs = omega (total-push current path, f.costs, arith);
      in_budget = h;
    }

    -- The batch that is full is put away.
    begin :
        (before current : List PathBuf) (s : Batching) (index : ℕ)
        → index ≡ length before + length current
        → Filling before current s
        → fixed_cost < s.cost
        → fixed_cost ≤ budget
        → Filling
            (before ++ current)
            []
            (record { chunks = push s.chunks current; start = index; cost = fixed_cost })
    begin before current s index e f more room = record {
      joined = concat-push s.chunks current ∙ ap (λ xs. xs ++ current) f.joined;
      fit = All-append IsBatch s.chunks (current ∷ []) f.fit (
        (total-length current (omega (f.costs, more, arith)), omega (f.costs, f.in_budget, arith)),
        tt,
      );
      start_at = e ∙ sym (length-append before current);
      costs = omega arith;
      in_budget = room;
    }

    -- The files are those in batches, those of the batch that is being filled, and the rest.
    unfoldable pub Filled : ℕ → List PathBuf → Batching → Type 0
    Filled index rest s =
        (before current : List PathBuf) × (files ≡ before ++ (current ++ rest))
        × (index ≡ length before + length current)
        × Filling before current s

    moved_on :
        (before current rest : List PathBuf) (path : PathBuf)
        → files ≡ before ++ (current ++ path ∷ rest)
        → files ≡ before ++ (push current path ++ rest)
    moved_on before current rest path h =
        h ∙ ap (λ xs. before ++ xs) (sym (append_assoc current (path ∷ []) rest))

    pub batch_step-Filled :
        (path : PathBuf) (index : ℕ) (rest : List PathBuf) (s : Batching)
        → budget < 2 ^ 64
        → Fits path
        → Filled index (path ∷ rest) s
        → (s' : Batching) × (batch_step files fixed_cost budget path index s ≡ returned s')
          × Filled (suc index) rest s'
    unfolding batch_step Filled
    batch_step-Filled path index rest s small fits (before, current, h, e, f) =
        let enough : ltb budget fixed_cost ≡ false = ground arith in
        let room : ltb (budget - fixed_cost) (cost_of path) ≡ false = ground arith in
        let left : ltb budget s.cost ≡ false = ground (f.in_budget, arith) in
        elim (Bool-cases (ltb (budget - s.cost) (cost_of path))) [
          | inl g ↦
              let more : fixed_cost < s.cost = ground (f.costs, arith) in
              let sum : ltb (fixed_cost + cost_of path) (2 ^ 64) ≡ true = ground arith in
              rw
                (
                  enough,
                  room,
                  left,
                  g,
                  push_slice-Filling before current (path ∷ rest) s index h e f,
                  sum,
                )
                (
                  _,
                  refl,
                  (
                    before ++ current,
                    path ∷ [],
                    h ∙ sym (append_assoc before current (path ∷ rest)),
                    omega (length-append before current, e, arith),
                    go_on (before ++ current) [] rest path _
                        (begin before current s index e f more (omega arith)) (omega arith),
                  ),
                )
          | inr g ↦
              let sum : ltb (s.cost + cost_of path) (2 ^ 64) ≡ true = ground arith in
              rw (enough, room, left, g, sum)
                (
                  _,
                  refl,
                  (
                    before,
                    push current path,
                    moved_on before current rest path h,
                    omega (length-append current (path ∷ []), e, arith),
                    go_on before current rest path s f (ground arith),
                  ),
                )
        ]

    pub batch_step_over :
        (path : PathBuf) (index : ℕ) (s : Batching)
        → fixed_cost < budget
        → ¬ Fits path
        → batch_step files fixed_cost budget path index s ≡ failed (path_over_budget path)
    unfolding batch_step
    batch_step_over path index s h over =
        let enough : ltb budget fixed_cost ≡ false = ground arith in
        let room : ltb (budget - fixed_cost) (cost_of path) ≡ true = ground arith in
        rw (enough, room) refl
