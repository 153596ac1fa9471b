-- ===== src/Xtask/Path.antt =====
-- Paths and arguments of xtask/src/cpp.rs, as the standard library has them on Unix: an OsString is
-- its bytes, and a path that has been resolved is the list of its components below the root.
use kuai.Prelude.{
  ℕ, ◌+◌, ◌*◌, ◌^◌, ◌-◌, Bool, true, false, ◌&&◌, ◌||◌, Option, none, some, List, [], ◌∷◌, ◌++◌,
  length, ltb, ◌==◌, if◌then◌else◌,
}
use kuai.Syntax.Text.{codes}

abbrev pub OsString : Type 0
OsString = List ℕ

abbrev pub bytes_eq : OsString → OsString → Bool
bytes_eq [] [] = true
bytes_eq [] (c ∷ cs) = false
bytes_eq (b ∷ bs) [] = false
bytes_eq (b ∷ bs) (c ∷ cs) = b == c && bytes_eq bs cs

abbrev pub starts_with : OsString → OsString → Bool
starts_with [] cs = true
starts_with (b ∷ bs) [] = false
starts_with (b ∷ bs) (c ∷ cs) = b == c && starts_with bs cs

-- What `fs::canonicalize` gives.
abbrev pub PathBuf : Type 0
PathBuf = List OsString

abbrev pub written : PathBuf → OsString
written [] = []
written (name ∷ path) = b'/' ∷ name ++ written path

abbrev pub as_os_str : PathBuf → OsString
as_os_str [] = b'/' ∷ []
as_os_str (name ∷ path) = written (name ∷ path)

-- `file_name`; the root has none.
abbrev pub file_name : PathBuf → Option OsString
file_name [] = none
file_name (name ∷ []) = some name
file_name (name ∷ next ∷ path) = file_name (next ∷ path)

-- `starts_with` of `Path` compares whole components.
abbrev pub is_within : PathBuf → PathBuf → Bool
is_within [] path = true
is_within (name ∷ dir) [] = false
is_within (name ∷ dir) (first ∷ path) = bytes_eq name first && is_within dir path

-- What stands behind the last dot, where there is a dot.
abbrev pub after_dot : OsString → Option OsString
after_dot [] = none
after_dot (c ∷ cs) = elim (after_dot cs) [
  | some rest ↦ some rest
  | none ↦ if c == b'.' then some cs else none
]

-- `extension` by the name: a dot in front is not a separator.
abbrev pub extension_of : Option OsString → Option OsString
extension_of none = none
extension_of (some []) = none
extension_of (some (c ∷ cs)) = after_dot cs

abbrev pub extension : PathBuf → Option OsString
extension path = extension_of (file_name path)

abbrev pub is_any : List OsString → OsString → Bool
is_any [] s = false
is_any (t ∷ ts) s = bytes_eq t s || is_any ts s

abbrev pub source_extensions : List OsString
source_extensions =
    codes "c"
    ∷ codes "cc"
    ∷ codes "cpp"
    ∷ codes "cxx"
    ∷ codes "h"
    ∷ codes "hh"
    ∷ codes "hpp"
    ∷ codes "hxx"
    ∷ codes "cu"
    ∷ codes "cuh"
    ∷ []

abbrev pub has_source_extension : Option OsString → Bool
has_source_extension none = false
has_source_extension (some e) = is_any source_extensions e

unfoldable pub is_source : PathBuf → Bool
is_source path = has_source_extension (extension path)

unfoldable pub pruned_directory : OsString → Bool
pruned_directory name =
    is_any (codes ".git" ∷ codes "build" ∷ codes "__pycache__" ∷ []) name
    || starts_with (codes "cmake-build-") name

abbrev pub saturating_add : ℕ → ℕ → ℕ
saturating_add a b = if ltb (a + b) (2 ^ 64) then a + b else 2 ^ 64 - 1

abbrev pub saturating_mul : ℕ → ℕ → ℕ
saturating_mul a b = if ltb (a * b) (2 ^ 64) then a * b else 2 ^ 64 - 1

abbrev pub size_of_usize : ℕ
size_of_usize = 8

unfoldable pub argument_cost : OsString → ℕ
argument_cost argument = saturating_add (saturating_mul (length argument) 2) (3 + size_of_usize)
