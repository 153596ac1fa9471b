-- ===== src/Xtask/Tests.antt =====
-- A file system with two sources, and a formatter that is recorded by its arguments.
use kuai.Prelude.{
  ℕ, suc, ◌≡◌, refl, inr, Bool, false, some, List, [], ◌∷◌, arith, ◌==◌, if◌then◌else◌,
}
use kuai.Syntax.Text.{codes}
use kuai.Xtask.Path.{
  OsString, PathBuf, bytes_eq, as_os_str, is_source, pruned_directory, argument_cost,
}
use kuai.Xtask.Result.{code, wrong_version_file, returned, failed}
use kuai.Xtask.Version.{lengthen, parse_version, verify_version, arguments}
use kuai.Xtask.Files.{
  FileType, file, directory, Entry, FileSystem, FormatArgs, excluded, canonical, canonical_all,
  insert, add_entry, add_entries, add_targets, collect_files,
}
use kuai.Xtask.Batches.{batch_step, batches_loop, batches}
use kuai.Xtask.Chunks.{IsDivision, batches-IsDivision}
use kuai.Xtask.Format.{Processes, load, run_batches, format_files, format}

-- The components between slashes.
abbrev split_slashes : OsString → List OsString
split_slashes [] = [] ∷ []
split_slashes (c ∷ cs) =
    let rest = split_slashes cs in if c == b'/' then [] ∷ rest else lengthen c rest

abbrev components : List OsString → PathBuf
components [] = []
components ([] ∷ parts) = components parts
components ((c ∷ cs) ∷ parts) = (c ∷ cs) ∷ components parts

abbrev path : List OsString → PathBuf
path names = codes "repo" ∷ names

abbrev kept_entries : (PathBuf → FileType → Bool) → List (PathBuf × FileType) → List Entry
kept_entries keep [] = []
kept_entries keep ((p, type) ∷ entries) =
    let rest = kept_entries keep entries in if keep p type then some (p, type) ∷ rest else rest

abbrev sample : FileSystem
sample = record {
  canonicalize = λ p. inr (components (split_slashes p));
  metadata = λ p.
      if is_source p
      then inr file
      else if bytes_eq (as_os_str p) (codes "/repo/kurt-cpp/.clang-format")
      then inr file
      else inr directory;
  walk = λ keep p. kept_entries keep (
      (path (codes "b.cpp" ∷ []), file)
      ∷ (path (codes "skip" ∷ codes "c.h" ∷ []), file)
      ∷ (path (codes "notes.md" ∷ []), file)
      ∷ (path (codes "a.cu" ∷ []), file)
      ∷ []);
  read_to_string = λ p. inr (codes " 18.1.8\n");
}

abbrev args : FormatArgs
args = record {
  check = false;
  exclude = codes "/repo/skip" ∷ [];
  paths = codes "/repo" ∷ codes "/repo/b.cpp" ∷ [];
}

abbrev both : List PathBuf
both = path (codes "a.cu" ∷ []) ∷ path (codes "b.cpp" ∷ []) ∷ []

-- Two files that do not fit together.
batches-IsDivision_example : IsDivision 10 40 both (batches both 10 40)
batches-IsDivision_example = batches-IsDivision 10 40 both (omega arith)

two_batches :
    batches both 10 45
    ≡ returned ((path (codes "a.cu" ∷ []) ∷ []) ∷ (path (codes "b.cpp" ∷ []) ∷ []) ∷ [])
unfolding batches batches_loop batch_step argument_cost
two_batches = refl

-- A world is the number of runs of the formatter.
abbrev counting : Processes ℕ
counting = record {
  output = λ arguments n. (inr (code 0, codes "clang-format version 18.1.8\n"), n);
  status = λ arguments n. (inr (code 0), suc n);
}

formatted : format counting sample (codes "/repo") args 0 ≡ (returned 2, 1)
unfolding format format_files load run_batches collect_files canonical_all canonical add_targets
    add_entries add_entry insert excluded is_source pruned_directory batches batches_loop batch_step
    argument_cost parse_version verify_version arguments
formatted = refl

versions_need_three_parts : parse_version (codes "18.1") ≡ failed wrong_version_file
unfolding parse_version
versions_need_three_parts = refl
