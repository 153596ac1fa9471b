-- ===== src/Xtask/Batches.antt =====
-- `batches` of xtask/src/cpp.rs: the files cut into slices whose arguments fit the budget.
use kuai.Prelude.{
  take, skip, ℕ, suc, ◌-◌, List, [], ◌∷◌, ◌&&◌, length, push, ltb, leb, if◌then◌else◌,
}
use kuai.Xtask.Path.{PathBuf, as_os_str, argument_cost}
use kuai.Xtask.Result.{
  options_over_budget, path_over_budget, Result, returned, failed, overflowed, try, checked_sub,
  checked_add,
}

-- The variables of the loop.
pub record Batching : Type 0 where
  pub chunks : List (List PathBuf)
  pub start : ℕ
  pub cost : ℕ

abbrev pub cost_of : PathBuf → ℕ
cost_of path = argument_cost (as_os_str path)

module _ (files : List PathBuf) (fixed_cost budget : ℕ) where
  -- `chunks.push(&files[start..end])`
  abbrev pub push_slice : ℕ → Batching → Result (List (List PathBuf))
  push_slice end s =
      if leb s.start end && leb end (length files)
      then returned (push s.chunks (take (end - s.start) (skip s.start files)))
      else overflowed

  -- A new batch begins at the index.
  abbrev pub begin_batch : ℕ → Batching → Result Batching
  begin_batch index s =
      try (push_slice index s)
        λ chunks. returned (record { chunks = chunks; start = index; cost = fixed_cost })

  unfoldable pub batch_step : PathBuf → ℕ → Batching → Result Batching
  batch_step path index s = checked_sub budget fixed_cost λ room.
      if ltb room (cost_of path)
      then failed (path_over_budget path)
      else checked_sub budget s.cost λ left.
        try (if ltb left (cost_of path) then begin_batch index s else returned s)
          λ s'. checked_add s'.cost (cost_of path) λ cost. returned (record s' { cost = cost })

  unfoldable pub batches_loop : List PathBuf → ℕ → Batching → Result Batching
  batches_loop [] index s = returned s
  batches_loop (path ∷ paths) index s =
      try (batch_step path index s) (batches_loop paths (suc index))

  unfoldable pub batches : Result (List (List PathBuf))
  batches =
      if leb budget fixed_cost
      then failed options_over_budget
      else try (batches_loop files 0 (record { chunks = []; start = 0; cost = fixed_cost }))
          λ s. if ltb s.start (length files) then push_slice (length files) s else returned s.chunks
