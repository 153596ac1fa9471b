-- ===== src/Syntax/External.antt =====
-- What the crate uses of code outside the repository: the interner of the crate lasso (wrapped by
-- crates/kuai-syntax/src/name.rs), and the parsers of 64-bit integers and floats of Rust's `str`.
-- The lexer that the crate logos generates from src/lexer.rs enters as the list of lexemes that it
-- yields (Parser/State.antt).
use kuai.Prelude.{ℤ, ℕ, ◌≡◌, Option, some, String}

pub record External : Type 1 where
  -- the interner's storage, `lasso::Rodeo`
  pub Rodeo : Type 0
  pub get_or_intern : Rodeo → String → Rodeo × ℕ
  -- `none` stands for the panic on a key that is out of bounds
  pub resolve : Rodeo → ℕ → Option String
  -- the integer that a text denotes, `none` where `parse::<i64>` is an error
  pub parse_i64 : String → Option ℤ
  -- the bits of the float that a text denotes; `none` is an error
  pub parse_f64 : String → Option ℕ

-- What lasso documents: a key resolves to the text that it was made for, and interning a text keeps
-- the other keys.
pub record IsInterner (x : External) : Type 0 where
  pub resolves :
      (r : x.Rodeo) (s : String)
      → x.resolve (x.get_or_intern r s).0 (x.get_or_intern r s).1 ≡ some s
  pub keeps :
      (r : x.Rodeo) (s t : String) (k : ℕ)
      → x.resolve r k ≡ some t
      → x.resolve (x.get_or_intern r s).0 k ≡ some t
