-- ===== src/Xtask/Format.antt =====
-- `format` of xtask/src/cpp.rs. The processes that it starts act on a world, which is a parameter.
use kuai.Prelude.{
  take, ℕ, zero, suc, ◌*◌, Bool, true, false, not, Option, none, some, List, [], ◌∷◌, ◌++◌, ◌⊎◌,
  inl, inr, map, length, if◌then◌else◌,
}
use kuai.Syntax.Text.{codes}
use kuai.Xtask.Path.{OsString, PathBuf, as_os_str, saturating_add, argument_cost}
use kuai.Xtask.Result.{
  IoError, ExitStatus, code, signal, Failure, exited, launch_error, cannot_read, not_a_style,
  not_launched, version_check_failed, batch_failed, Result, returned, failed, overflowed, try,
  map_err,
}
use kuai.Xtask.Version.{parse_version, verify_version, Formatter, arguments}
use kuai.Xtask.Files.{FileSystem, FormatArgs, is_file, join, canonical, collect_files}
use kuai.Xtask.Batches.{batches}

abbrev pub argument_budget : ℕ
argument_budget = 16 * 1024

abbrev pub is_success : ExitStatus → Bool
is_success (code zero) = true
is_success (code (suc n)) = false
is_success (signal n) = false

-- Runs of `uvx` with their arguments: with its standard output, and without.
pub record Processes (World : Type 0) : Type 0 where
  pub output : List OsString → World → (IoError ⊎ (ExitStatus × OsString)) × World
  pub status : List OsString → World → (IoError ⊎ ExitStatus) × World

-- The style is a regular file.
abbrev pub is_regular : FileSystem → PathBuf → Bool
is_regular fs path = elim (fs.metadata path) [ inl error ↦ false | inr type ↦ is_file type ]

module _ (fs : FileSystem) where
  abbrev pub read : OsString → Result OsString
  read path = map_err (fs.read_to_string path) (cannot_read path)

  unfoldable pub load : OsString → Result Formatter
  load root = try (read (join root (codes "kurt-cpp/.clang-format-version"))) λ contents.
      try (parse_version contents) λ version.
        try (canonical fs (join root (codes "kurt-cpp/.clang-format"))) λ style.
          if not (is_regular fs style)
          then failed (not_a_style style)
          else returned (record { version = version; style = style })

-- The fold over the options.
abbrev pub add_costs : ℕ → List OsString → ℕ
add_costs cost [] = cost
add_costs cost (arg ∷ args) = add_costs (saturating_add cost (argument_cost arg)) args

abbrev pub fixed_cost_of : List OsString → ℕ
fixed_cost_of args = add_costs (argument_cost (codes "uvx")) args

-- The output of the version check.
abbrev pub checked_version : IoError ⊎ (ExitStatus × OsString) → Result OsString
checked_version (inl error) = failed (not_launched error)
checked_version (inr (status, stdout)) =
    if not (is_success status) then failed (version_check_failed status) else returned stdout

-- The error of a batch; none where it succeeded.
abbrev pub failure_of : IoError ⊎ ExitStatus → Option Failure
failure_of (inl error) = some (launch_error error)
failure_of (inr status) = if is_success status then none else some (exited status)

-- `m?` where processes have run
abbrev pub then_in :
    {A B World : Type 0} → Result A → World → (A → Result B × World) → Result B × World
then_in (returned a) w f = f a
then_in (failed e) w f = (failed e, w)
then_in overflowed w f = (overflowed, w)

module _ {World : Type 0} (processes : Processes World) where
  -- The command of one batch
  abbrev pub command : List OsString → List PathBuf → List OsString
  command args chunk = args ++ map as_os_str chunk

  -- What the loop does behind a batch, by how the batch failed.
  abbrev pub after_batch :
      (check : Bool) (count index : ℕ)
      → Option Failure
      → World
      → (World → Result ℕ × World)
      → Result ℕ × World
  after_batch check count index none after rest = rest after
  after_batch check count index (some failure) after rest =
      (failed (batch_failed (suc index) count failure (not check)), after)

  unfoldable pub run_batches :
      (args : List OsString) (check : Bool) (file_count count index : ℕ)
      → List (List PathBuf)
      → World
      → Result ℕ × World
  run_batches args check file_count count index [] w = (returned file_count, w)
  run_batches args check file_count count index (chunk ∷ chunks) w =
      let rest = run_batches args check file_count count (suc index) chunks in
      let (status, after) = processes.status (command args chunk) w in
      after_batch check count index (failure_of status) after rest

  -- What follows when files have been found.
  unfoldable pub format_files :
      FileSystem → OsString → FormatArgs → List PathBuf → World → Result ℕ × World
  format_files fs root args files w = then_in (load fs root) w λ formatter.
      let options = arguments formatter args.check in
      then_in (batches files (fixed_cost_of options) argument_budget) w λ chunks.
        let (version, checked) = processes.output (take 3 options ++ codes "--version" ∷ []) w in
        then_in (checked_version version) checked λ stdout.
          then_in (verify_version formatter.version stdout) checked
            λ _. run_batches options args.check (length files) (length chunks) 0 chunks checked

  unfoldable pub format : FileSystem → OsString → FormatArgs → World → Result ℕ × World
  format fs root args w = then_in (collect_files fs root args) w λ files. elim files [
    | [] ↦ (returned 0, w)
    | (file ∷ others) ↦ format_files fs root args (file ∷ others) w
  ]
