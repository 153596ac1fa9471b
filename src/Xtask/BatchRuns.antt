-- ===== src/Xtask/BatchRuns.antt =====
-- The runs of the formatter on the batches of xtask/src/cpp.rs, up to the first that fails.
use kuai.Prelude.{
  zero, ◌≢◌, map, ℕ, suc, ◌+◌, ◌≡◌, refl, ap, ◌∙◌, ◌⊎◌, inl, inr, Bool, not, Option, none, some,
  List, [], ◌∷◌, ◌++◌, arith, length,
}
use kuai.Xtask.Path.{OsString, PathBuf, as_os_str}
use kuai.Xtask.Result.{
  IoError, ExitStatus, code, signal, Failure, launch_error, exited, batch_failed, Result, returned,
  failed,
}
use kuai.Xtask.Format.{Processes, failure_of, command, run_batches, after_batch}

numbered :
    {World : Type 0} (failure : Failure) (modified : Bool) (count : ℕ) (w : World) {m n : ℕ}
    → m ≡ n
    → ◌≡◌ {A = Result ℕ × World}
        (failed (batch_failed (suc m) count failure modified), w)
        (failed (batch_failed (suc n) count failure modified), w)
numbered failure modified count w e = rw e refl

-- A run that has started and has ended with code 0.
abbrev pub Succeeds : IoError ⊎ ExitStatus → Type 0
Succeeds status = status ≡ inr (code 0)

-- A run that has not been started, or has ended in another way.
abbrev pub Fails : IoError ⊎ ExitStatus → Failure → Type 0
Fails (inl error) failure = failure ≡ launch_error error
Fails (inr status) failure = (status ≢ code 0) × (failure ≡ exited status)

failure_of-none : (r : IoError ⊎ ExitStatus) → failure_of r ≡ none → Succeeds r
failure_of-none (inl error) h = cc h
failure_of-none (inr (code zero)) h = refl
failure_of-none (inr (code (suc n))) h = cc h
failure_of-none (inr (signal n)) h = cc h

failure_of-some :
    (r : IoError ⊎ ExitStatus) (failure : Failure) → failure_of r ≡ some failure → Fails r failure
failure_of-some (inl error) failure h = cc h
failure_of-some (inr (code zero)) failure h = cc h
failure_of-some (inr (code (suc n))) failure h = (λ e. cc e, cc h)
failure_of-some (inr (signal n)) failure h = (λ e. cc e, cc h)

-- The paths of files as arguments.
abbrev paths : List PathBuf → List OsString
paths [] = []
paths (file ∷ files) = as_os_str file ∷ paths files

map-as_os_str : (files : List PathBuf) → map as_os_str files ≡ paths files
map-as_os_str [] = refl
map-as_os_str (file ∷ files) = ap (◌∷◌ (as_os_str file)) (map-as_os_str files)

module _ {World : Type 0} (processes : Processes World) where
  -- What a run of the formatter with options on a batch does.
  abbrev pub runs : List OsString → List PathBuf → World → (IoError ⊎ ExitStatus) × World
  runs args chunk w = processes.status (args ++ paths chunk) w

  command-runs :
      (args : List OsString) (chunk : List PathBuf) (w : World)
      → processes.status (command processes args chunk) w ≡ runs args chunk w
  command-runs args chunk w = ap (λ files. processes.status (args ++ files) w) (map-as_os_str chunk)

  -- The formatter has run once on each batch, in their order, and has succeeded each time.
  abbrev pub Ran : List OsString → List (List PathBuf) → World → World → Type 0
  Ran args [] w w' = w ≡ w'
  Ran args (chunk ∷ chunks) w w' =
      let (status, after) = runs args chunk w in Succeeds status × Ran args chunks after w'

  -- The formatter has run on some batches and has failed on the next one.
  abbrev pub Failed :
      List OsString
      → Bool
      → (count index : ℕ) → List (List PathBuf)
      → World
      → Result ℕ × World
      → Type 0
  Failed args check count index chunks w r =
      (done : List (List PathBuf)) × (chunk : List PathBuf) × (others : List (List PathBuf))
      × (before : World) × (failure : Failure) × (chunks ≡ done ++ chunk ∷ others)
      × Ran args done w before
      × Fails (runs args chunk before).0 failure
      × (r ≡ (
        failed (batch_failed (suc (index + length done)) count failure (not check)),
        (runs args chunk before).1,
      ))

  abbrev pub Batched :
      List OsString
      → Bool
      → (file_count count index : ℕ) → List (List PathBuf)
      → World
      → Result ℕ × World
      → Type 0
  Batched args check file_count count index chunks w r =
      ((w' : World) × Ran args chunks w w' × (r ≡ (returned file_count, w')))
      ⊎ Failed args check count index chunks w r

  module _ (args : List OsString) (check : Bool) (file_count count : ℕ) where
    first_batch :
        (index : ℕ) (chunk : List PathBuf) (chunks : List (List PathBuf)) (w : World)
        → (failure : Option Failure) → failure_of (runs args chunk w).0 ≡ failure
        → (rest : World → Result ℕ × World)
        → ((after : World)
            → Batched args check file_count count (suc index) chunks after (rest after))
        → Batched args check file_count count index
            (chunk ∷ chunks)
            w
            (after_batch processes check count index failure (runs args chunk w).1 rest)
    first_batch index chunk chunks w none e rest h = elim (h (runs args chunk w).1) [
      | inl (w', ran, r) ↦ inl (w', (failure_of-none _ e, ran), r)
      | inr (done, bad, others, before, failure, parts, ran, fails, r) ↦ inr (
        chunk ∷ done,
        bad,
        others,
        before,
        failure,
        ap (◌∷◌ chunk) parts,
        (failure_of-none _ e, ran),
        fails,
        r ∙ numbered failure (not check) count _ (omega arith),
      )
    ]
    first_batch index chunk chunks w (some failure) e rest h = inr (
      [],
      chunk,
      chunks,
      w,
      failure,
      refl,
      refl,
      failure_of-some _ failure e,
      numbered failure (not check) count _ (omega arith),
    )

    pub run_batches-Batched :
        (index : ℕ) (chunks : List (List PathBuf)) (w : World)
        → Batched args check file_count count index chunks w
            (run_batches processes args check file_count count index chunks w)
    unfolding run_batches
    run_batches-Batched index [] w = inl (w, refl, refl)
    run_batches-Batched index (chunk ∷ chunks) w =
        rw (command-runs args chunk w)
          (first_batch index chunk chunks w _ refl _ (run_batches-Batched (suc index) chunks))
