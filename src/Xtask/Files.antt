-- ===== src/Xtask/Files.antt =====
-- `collect_files` of xtask/src/cpp.rs. The file system, with the crate walkdir, is a parameter.
use Prim.Native.Nat.{compare, Ordering}
use kuai.Prelude.{
  Bool, true, false, not, ◌&&◌, ◌||◌, Option, none, some, List, [], ◌∷◌, ◌⊎◌, inl, inr, map, ◌==◌,
  if◌then◌else◌,
}
use kuai.Syntax.Text.{codes}
use kuai.Xtask.Path.{
  OsString, PathBuf, as_os_str, file_name, is_within, is_source, pruned_directory,
}
use kuai.Xtask.Result.{
  IoError, cannot_resolve, cannot_inspect, cannot_traverse, not_a_target, Result, returned, failed,
  try, map_err,
}

pub data FileType : Type 0 where
  file directory special : FileType

-- An entry of a directory that is walked; `none` is one that cannot be read.
abbrev pub Entry : Type 0
Entry = Option (PathBuf × FileType)

pub record FileSystem : Type 0 where
  pub canonicalize : OsString → IoError ⊎ PathBuf
  pub metadata : PathBuf → IoError ⊎ FileType
  -- `WalkDir` without links, and its `filter_entry`
  pub walk : (PathBuf → FileType → Bool) → PathBuf → List Entry
  pub read_to_string : OsString → IoError ⊎ OsString

pub record FormatArgs : Type 0 where
  pub check : Bool
  pub exclude : List OsString
  pub paths : List OsString

-- `Path::join` by whether the first path ends with a slash.
abbrev pub joined : OsString → OsString → OsString
joined [] path = path
joined (c ∷ []) path = if c == b'/' then c ∷ path else c ∷ b'/' ∷ path
joined (c ∷ d ∷ cs) path = c ∷ joined (d ∷ cs) path

-- A path that starts at the root replaces the first.
abbrev pub join : OsString → OsString → OsString
join root [] = joined root []
join root (c ∷ path) = if c == b'/' then c ∷ path else joined root (c ∷ path)

abbrev pub default_roots : List OsString
default_roots = codes "kurt-cpp/src" ∷ codes "kurt-cpp/vendor" ∷ []

abbrev pub bytes_cmp : OsString → OsString → Ordering
bytes_cmp [] [] = Ordering.eq
bytes_cmp [] (c ∷ cs) = Ordering.lt
bytes_cmp (b ∷ bs) [] = Ordering.gt
bytes_cmp (b ∷ bs) (c ∷ cs) = elim (compare b c) [
  | Ordering.lt ↦ Ordering.lt
  | Ordering.eq ↦ bytes_cmp bs cs
  | Ordering.gt ↦ Ordering.gt
]

-- `Ord` of `Path` goes by components.
abbrev pub path_cmp : PathBuf → PathBuf → Ordering
path_cmp [] [] = Ordering.eq
path_cmp [] (n ∷ q) = Ordering.lt
path_cmp (m ∷ p) [] = Ordering.gt
path_cmp (m ∷ p) (n ∷ q) = elim (bytes_cmp m n) [
  | Ordering.lt ↦ Ordering.lt
  | Ordering.eq ↦ path_cmp p q
  | Ordering.gt ↦ Ordering.gt
]

-- An insertion by how the path compares with the first item.
abbrev pub inserted : Ordering → PathBuf → PathBuf → (files more : List PathBuf) → List PathBuf
inserted Ordering.lt path f files more = path ∷ f ∷ files
inserted Ordering.eq path f files more = f ∷ files
inserted Ordering.gt path f files more = f ∷ more

-- `BTreeSet::insert`; the set is its items in order.
unfoldable pub insert : PathBuf → List PathBuf → List PathBuf
insert path [] = path ∷ []
insert path (f ∷ files) = inserted (path_cmp path f) path f files (insert path files)

abbrev pub is_file : FileType → Bool
is_file file = true
is_file directory = false
is_file special = false

abbrev pub is_dir : FileType → Bool
is_dir file = false
is_dir directory = true
is_dir special = false

-- `DirEntry::file_name`: the root has its path.
abbrev pub entry_name : PathBuf → OsString
entry_name path = elim (file_name path) [ none ↦ as_os_str path | some name ↦ name ]

unfoldable pub excluded : List PathBuf → PathBuf → Bool
excluded [] path = false
excluded (exclude ∷ excludes) path = is_within exclude path || excluded excludes path

-- The closure of `filter_entry`
abbrev pub kept : List PathBuf → PathBuf → FileType → Bool
kept excludes path type =
    not (excluded excludes path) && not (is_dir type && pruned_directory (entry_name path))

module _ (fs : FileSystem) where
  unfoldable pub canonical : OsString → Result PathBuf
  canonical path = map_err (fs.canonicalize path) (cannot_resolve path)

  unfoldable pub canonical_all : List OsString → Result (List PathBuf)
  canonical_all [] = returned []
  canonical_all (p ∷ ps) = try (canonical p) λ q. try (canonical_all ps) λ qs. returned (q ∷ qs)

  unfoldable pub add_entry : PathBuf → Entry → List PathBuf → Result (List PathBuf)
  add_entry target none files = failed (cannot_traverse target)
  add_entry target (some (path, type)) files =
      if is_file type && is_source path
      then try (canonical (as_os_str path)) (λ resolved. returned (insert resolved files))
      else returned files

  unfoldable pub add_entries : PathBuf → List Entry → List PathBuf → Result (List PathBuf)
  add_entries target [] files = returned files
  add_entries target (entry ∷ entries) files =
      try (add_entry target entry files) (add_entries target entries)

  -- A target by its metadata.
  abbrev pub add_of :
      List PathBuf → PathBuf → IoError ⊎ FileType → List PathBuf → Result (List PathBuf)
  add_of excludes target (inl error) files = failed (cannot_inspect target error)
  add_of excludes target (inr file) files =
      if is_source target && not (excluded excludes target)
      then returned (insert target files)
      else returned files
  add_of excludes target (inr directory) files =
      add_entries target (fs.walk (kept excludes) target) files
  add_of excludes target (inr special) files = failed (not_a_target target)

  unfoldable pub add_targets : List PathBuf → List PathBuf → List PathBuf → Result (List PathBuf)
  add_targets excludes [] files = returned files
  add_targets excludes (target ∷ targets) files =
      try (add_of excludes target (fs.metadata target) files) (add_targets excludes targets)

  abbrev pub targets_of : OsString → List OsString → List OsString
  targets_of root [] = map (join root) default_roots
  targets_of root (path ∷ paths) = path ∷ paths

  unfoldable pub collect_files : OsString → FormatArgs → Result (List PathBuf)
  collect_files root args =
      try (canonical_all (targets_of root args.paths))
        λ targets. try (canonical_all args.exclude) λ excludes. add_targets excludes targets []
