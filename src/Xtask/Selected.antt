-- ===== src/Xtask/Selected.antt =====
-- Which files `collect_files` of xtask/src/cpp.rs gives.
use kuai.Prelude.{In, ◌≡◌, ◌↔◌, ◌⊎◌, inl, inr, true, not, ◌&&◌, none, some, List, [], ◌∷◌}
use kuai.Xtask.Path.{OsString, PathBuf, as_os_str, is_source}
use kuai.Xtask.Result.{IoError, Result, returned}
use kuai.Xtask.Files.{
  FileType, file, directory, special, Entry, FileSystem, FormatArgs, is_file, excluded, kept,
  canonical_all, targets_of,
}
use kuai.Xtask.Paths.{IsSorted, Adds}

-- A step keeps the order and adds the files with the property.
abbrev Grows : List PathBuf → (PathBuf → Type 0) → List PathBuf → Type 0
Grows before P after = (IsSorted before → IsSorted after) × Adds before P after

module _ (fs : FileSystem) where
  abbrev pub Resolves : OsString → PathBuf → Type 0
  Resolves path f = fs.canonicalize path ≡ inr f

  -- An entry of a walk is a regular source and resolves to the file.
  abbrev pub IsFound : Entry → PathBuf → Type 0
  IsFound none f = ⊥
  IsFound (some (path, type)) f =
      (is_file type && is_source path ≡ true) × Resolves (as_os_str path) f

  abbrev pub Found : List Entry → PathBuf → Type 0
  Found [] f = ⊥
  Found (entry ∷ entries) f = IsFound entry f ⊎ Found entries f

  -- The file is selected by a target with the given metadata: it is the target, or is in a
  -- directory.
  abbrev pub SelectedBy : List PathBuf → PathBuf → IoError ⊎ FileType → PathBuf → Type 0
  SelectedBy excludes target (inl error) f = ⊥
  SelectedBy excludes target (inr file) f =
      (is_source target && not (excluded excludes target) ≡ true) × (f ≡ target)
  SelectedBy excludes target (inr directory) f = Found (fs.walk (kept excludes) target) f
  SelectedBy excludes target (inr special) f = ⊥

  abbrev pub Selected : List PathBuf → List PathBuf → PathBuf → Type 0
  Selected excludes [] f = ⊥
  Selected excludes (target ∷ targets) f =
      SelectedBy excludes target (fs.metadata target) f ⊎ Selected excludes targets f

  -- What the files are, by the targets and the excluded paths once they are resolved.
  abbrev pub IsSelection : OsString → FormatArgs → List PathBuf → Type 0
  IsSelection root args files =
      (targets : List PathBuf) × (excludes : List PathBuf) × (canonical_all fs
          (targets_of fs root args.paths)
        ≡ returned targets)
      × (canonical_all fs args.exclude ≡ returned excludes)
      × IsSorted files
      × ((f : PathBuf) → In f files ↔ Selected excludes targets f)
