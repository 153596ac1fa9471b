-- ===== src/Xtask/Runs.antt =====
-- The processes that `format` of xtask/src/cpp.rs starts, in their order.
use kuai.Prelude.{Bool, true, false, take, ℕ, ◌≡◌, ◌⊎◌, inr, List, [], ◌∷◌, ◌++◌, length}
use kuai.Syntax.Text.{codes}
use kuai.Xtask.Path.{OsString, PathBuf, as_os_str}
use kuai.Xtask.Result.{IoError, ExitStatus, code, Error, Result, returned, failed}
use kuai.Xtask.Version.{Formatter, arguments}
use kuai.Xtask.Files.{FileSystem, FormatArgs}
use kuai.Xtask.Printed.{IsPrinted}
use kuai.Xtask.Chunks.{Divided}
use kuai.Xtask.Format.{argument_budget, Processes, load, fixed_cost_of}
use kuai.Xtask.BatchRuns.{Batched}

abbrev IsMode : Bool → List OsString → Type 0
IsMode true mode = mode ≡ codes "--dry-run" ∷ codes "--Werror" ∷ []
IsMode false mode = mode ≡ codes "-i" ∷ []

-- The options of clang-format at the pinned version, with the style of the repository: only a
-- check, or a change of the files.
abbrev pub AreOptions : Formatter → Bool → List OsString → Type 0
AreOptions formatter check options =
    (mode : List OsString) × (options
      ≡ codes "--from"
        ∷ (codes "clang-format==" ++ formatter.version)
        ∷ codes "clang-format"
        ∷ (codes "--style=file:" ++ as_os_str formatter.style)
        ∷ mode)
    × IsMode check mode

module _ {World : Type 0} (processes : Processes World) where
  -- It ends with an error in the given world.
  abbrev pub Refused : World → Result ℕ × World → Type 0
  Refused w r = (e : Error) × (r ≡ (failed e, w))

  module _ (fs : FileSystem) (root : OsString) (args : FormatArgs) where
    -- The run of the version check
    abbrev pub version_check : List OsString → World → (IoError ⊎ (ExitStatus × OsString)) × World
    version_check options w = processes.output (take 3 options ++ codes "--version" ∷ []) w

    -- The version has been checked, and then the formatter runs on the batches.
    abbrev pub Verified :
        Formatter
        → List OsString
        → List PathBuf
        → List (List PathBuf)
        → World
        → Result ℕ × World
        → Type 0
    Verified formatter options files chunks w r =
        let (version, checked) = version_check options w in
        (stdout : OsString) × (version ≡ inr (code 0, stdout))
        × IsPrinted formatter.version stdout
        × Batched processes options args.check (length files) (length chunks) 0 chunks checked r

    abbrev pub Formatted : List PathBuf → World → Result ℕ × World → Type 0
    Formatted files w r =
        Refused w r
        ⊎ ((formatter : Formatter) × (options : List OsString) × (chunks : List (List PathBuf))
            × (load fs root ≡ returned formatter)
            × AreOptions formatter args.check options
            × Divided (fixed_cost_of options) argument_budget files chunks
            × (Refused (version_check options w).1 r ⊎ Verified formatter options files chunks w r))

    abbrev options_of : Formatter → List OsString
    options_of formatter = arguments formatter args.check
