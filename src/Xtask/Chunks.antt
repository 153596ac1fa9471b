-- ===== src/Xtask/Chunks.antt =====
-- The batches of xtask/src/cpp.rs: together they are the files, and each fits the budget.
use kuai.Prelude.{
  ℕ, suc, ◌+◌, ◌^◌, ◌≤◌, ◌<◌, ◌≡◌, refl, sym, ap, ◌∙◌, ◌⊎◌, inl, inr, List, [], ◌∷◌, ◌++◌,
  append-nil, arith, length, length-append, All, All-append, ltb, Bool-cases, leb, if◌then◌else◌,
}
use kuai.Xtask.Path.{PathBuf}
use kuai.Xtask.Result.{options_over_budget, path_over_budget, Result, returned, failed}
use kuai.Xtask.Batches.{Batching, cost_of, push_slice, batches_loop, batches}
use kuai.Xtask.Filling.{
  concat, concat-push, empty, Fits, IsBatch, Filled, push_slice-Filling, batch_step-Filled,
  batch_step_over,
}

module _ (fixed_cost budget : ℕ) (files : List PathBuf) where
  whole :
      (before current : List PathBuf)
      → files ≡ before ++ (current ++ [])
      → length files ≡ length before + length current
  whole before current parts = rw (parts, append-nil current) (length-append before current)

  -- The loop ends with all files in batches but those of the last one, or at the first path that
  -- fits none.
  Looped : List PathBuf → Result Batching → Type 0
  Looped paths r =
      (All (Fits fixed_cost budget) paths
        × ((s : Batching) × (r ≡ returned s) × Filled fixed_cost budget files (length files) [] s))
      ⊎ ((fitting : List PathBuf) × (path : PathBuf) × (others : List PathBuf) × (paths
            ≡ fitting ++ path ∷ others)
          × All (Fits fixed_cost budget) fitting
          × ¬ Fits fixed_cost budget path
          × (r ≡ failed (path_over_budget path)))

  batches_loop-Looped :
      (paths : List PathBuf) (index : ℕ) (s : Batching)
      → fixed_cost < budget
      → budget < 2 ^ 64
      → Filled fixed_cost budget files index paths s
      → Looped paths (batches_loop files fixed_cost budget paths index s)
  unfolding batches_loop Filled Looped
  batches_loop-Looped [] index s h small (before, current, parts, e, f) =
      inl (tt, (s, refl, (before, current, parts, whole before current parts, f)))
  batches_loop-Looped (path ∷ paths) index s h small filled =
      elim (Bool-cases (leb (fixed_cost + cost_of path) budget)) [
        | inl g ↦
            let fits : Fits fixed_cost budget path = ground arith in
            let (s', e, filled') =
              batch_step-Filled fixed_cost budget files path index paths s small fits filled in
            rw e (elim (batches_loop-Looped paths (suc index) s' h small filled') [
              | inl (all, rest) ↦ inl ((fits, all), rest)
              | inr (fitting, bad, others, parts, all, over, r) ↦
                  inr (path ∷ fitting, bad, others, ap (◌∷◌ path) parts, (fits, all), over, r)
            ])
        | inr g ↦
            let over : ¬ Fits fixed_cost budget path = ground arith in
            inr (
              [],
              path,
              paths,
              refl,
              tt,
              over,
              rw (batch_step_over fixed_cost budget files path index s h over) refl,
            )
      ]

  -- The batches, one after another, are the files in their order.
  abbrev pub Divided : List (List PathBuf) → Type 0
  Divided chunks = (concat chunks ≡ files) × All (IsBatch fixed_cost budget) chunks

  -- The last batch is put away if it has a file.
  last_batch :
      (s : Batching)
      → Filled fixed_cost budget files (length files) [] s
      → (chunks : List (List PathBuf)) × ((if ltb s.start (length files)
            then push_slice files fixed_cost budget (length files) s
            else returned s.chunks)
          ≡ returned chunks)
        × Divided chunks
  unfolding Filled
  last_batch s (before, current, parts, e, f) =
      let joined : files ≡ before ++ current =
        parts ∙ ap (λ xs. before ++ xs) (append-nil current) in
      elim (Bool-cases (ltb s.start (length files))) [
        | inl g ↦
            rw
              (
                g,
                push_slice-Filling fixed_cost budget files before current [] s (length files) parts
                    e f,
              )
              (
                _,
                refl,
                (
                  concat-push s.chunks current ∙ ap (λ xs. xs ++ current) f.joined ∙ sym joined,
                  All-append (IsBatch fixed_cost budget) s.chunks (current ∷ []) f.fit
                      ((ground (f.start_at, e, arith), omega (f.costs, f.in_budget, arith)), tt),
                ),
              )
        | inr g ↦
            let none_left : length current ≡ 0 = ground (f.start_at, e, arith) in
            rw g (
              s.chunks,
              refl,
              (
                f.joined
                    ∙ sym (append-nil before)
                    ∙ ap (λ xs. before ++ xs) (sym (empty current none_left))
                    ∙ sym joined,
                f.fit,
              ),
            )
      ]

  looped :
      fixed_cost < budget
      → budget < 2 ^ 64
      → Looped files (
          batches_loop files fixed_cost budget files 0
            (record { chunks = []; start = 0; cost = fixed_cost }))
  unfolding Filled
  looped room small = batches_loop-Looped files 0 _ room small (
    [],
    [],
    refl,
    refl,
    record {
      joined = refl;
      fit = tt;
      start_at = refl;
      costs = omega arith;
      in_budget = omega arith;
    },
  )

  -- The three ends: no room behind the options, all files in batches, or a path that does not fit.
  abbrev pub IsDivision : Result (List (List PathBuf)) → Type 0
  IsDivision r =
      ((budget ≤ fixed_cost) × (r ≡ failed options_over_budget))
      ⊎ ((fixed_cost < budget)
          × (((chunks : List (List PathBuf)) × (r ≡ returned chunks)
                × All (Fits fixed_cost budget) files
                × Divided chunks)
              ⊎ ((fitting : List PathBuf) × (path : PathBuf) × (others : List PathBuf) × (files
                    ≡ fitting ++ path ∷ others)
                  × All (Fits fixed_cost budget) fitting
                  × ¬ Fits fixed_cost budget path
                  × (r ≡ failed (path_over_budget path)))))

  -- With a budget that a usize holds: where the options leave room and every file fits alone, the
  -- batches are the files in their order, each batch has a file, and a command line of its files
  -- fits the budget; otherwise it fails, for the options, or for the first path that does not fit.
  -- Nothing overflows, and no slice is out of bounds.
  pub batches-IsDivision : budget < 2 ^ 64 → IsDivision (batches files fixed_cost budget)
  unfolding batches Looped
  batches-IsDivision small = elim (Bool-cases (leb budget fixed_cost)) [
    | inl g ↦ rw g (inl (ground arith, refl))
    | inr g ↦
        let room : fixed_cost < budget = ground arith in
        inr (
          room,
          rw g (elim (looped room small) [
            | inl (all, (s, r, filled)) ↦
                let (chunks, e, divided) = last_batch s filled in inl (chunks, rw r e, all, divided)
            | inr (fitting, path, others, parts, all, over, r) ↦
                inr (fitting, path, others, parts, all, over, rw r refl)
          ]),
        )
  ]
