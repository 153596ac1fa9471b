-- ===== src/Xtask/Version.antt =====
-- The pinned version of clang-format in xtask/src/cpp.rs. A text is its code points; a version is
-- ASCII, so its code points are also its bytes.
use kuai.Prelude.{
  ℕ, Bool, true, false, not, ◌&&◌, ◌||◌, List, [], ◌∷◌, ◌++◌, length, reverse, leb, ◌==◌,
  if◌then◌else◌,
}
use kuai.Syntax.Text.{codes}
use kuai.Xtask.Path.{OsString, PathBuf, bytes_eq, as_os_str}
use kuai.Xtask.Result.{wrong_version_file, wrong_version, Result, returned, failed}

-- Unicode's White_Space
abbrev pub is_whitespace : ℕ → Bool
is_whitespace c =
    (leb 9 c && leb c 13)
    || (c == 32)
    || (c == 133)
    || (c == 160)
    || (c == 5760)
    || (leb 8192 c && leb c 8202)
    || (c == 8232)
    || (c == 8233)
    || (c == 8239)
    || (c == 8287)
    || (c == 12288)

abbrev pub trim_start : (ℕ → Bool) → OsString → OsString
trim_start is_trimmed [] = []
trim_start is_trimmed (c ∷ cs) =
    let rest = trim_start is_trimmed cs in if is_trimmed c then rest else c ∷ cs

abbrev pub trim_end : (ℕ → Bool) → OsString → OsString
trim_end is_trimmed s = reverse (trim_start is_trimmed (reverse s))

abbrev pub trim : OsString → OsString
trim s = trim_end is_whitespace (trim_start is_whitespace s)

-- A character in front of the pieces of a text.
abbrev pub lengthen : ℕ → List OsString → List OsString
lengthen c [] = (c ∷ []) ∷ []
lengthen c (part ∷ parts) = (c ∷ part) ∷ parts

abbrev pub is_digit : ℕ → Bool
is_digit c = leb b'0' c && leb c b'9'

-- `split('.')`
abbrev pub split_dots : OsString → List OsString
split_dots [] = [] ∷ []
split_dots (c ∷ cs) = let rest = split_dots cs in if c == b'.' then [] ∷ rest else lengthen c rest

abbrev pub all_digits : OsString → Bool
all_digits [] = true
all_digits (c ∷ cs) = is_digit c && all_digits cs

abbrev pub is_number : OsString → Bool
is_number [] = false
is_number (c ∷ cs) = all_digits (c ∷ cs)

abbrev pub all_numbers : List OsString → Bool
all_numbers [] = true
all_numbers (part ∷ parts) = is_number part && all_numbers parts

unfoldable pub parse_version : OsString → Result OsString
parse_version input =
    let version = trim input in
    let parts = split_dots version in
    if not (length parts == 3) || not (all_numbers parts)
    then failed wrong_version_file
    else returned version

abbrev pub is_line_end : ℕ → Bool
is_line_end c = c == 13 || c == 10

-- The output is the text of `from_utf8_lossy`.
unfoldable pub verify_version : OsString → OsString → Result (Unit {0})
verify_version expected output =
    let actual = trim_end is_line_end output in
    if not (bytes_eq actual (codes "clang-format version " ++ expected))
    then failed (wrong_version expected actual)
    else returned tt

pub record Formatter : Type 0 where
  pub version : OsString
  pub style : PathBuf

unfoldable pub arguments : Formatter → Bool → List OsString
arguments formatter check =
    codes "--from"
    ∷ (codes "clang-format==" ++ formatter.version)
    ∷ codes "clang-format"
    ∷ (codes "--style=file:" ++ as_os_str formatter.style)
    ∷ (if check then codes "--dry-run" ∷ codes "--Werror" ∷ [] else codes "-i" ∷ [])
