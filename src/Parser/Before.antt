-- ===== src/Parser/Before.antt =====
-- The parser of crates/kuai-syntax/src/parser.rs before some lexemes, and what one of its methods
-- does with the first of them.
use kuai.Prelude.{
  ℕ, ◌≤◌, ◌≡◌, refl, ap, true, Option, none, some, List, [], ◌∷◌, String, arith, length,
}
use kuai.Syntax.Token.{Token, dot, double_colon, l_paren, r_paren, l_bracket}
use kuai.Syntax.Diagnostic.{Diagnostic}
use kuai.Syntax.Ast.{BinaryOp}
use kuai.Syntax.External.{External}
use kuai.Outcome.{ok}
use kuai.Parser.State.{Parser, Lexeme, advance, size, parse_identifier}
use kuai.Parser.Expr.{consume_operator}
use kuai.Syntax.Token.{token_eq}
use kuai.Parser.State.{expect, check}
use kuai.Parser.Grammar.{Word, Name, lexeme, name_lexeme, ident, operator, IsInterned}

-- How tightly a token binds the expression before it: 0 where it ends the expression.
abbrev pub power : Option Token → ℕ
power (some Token.plus) = 3
power (some Token.minus) = 3
power (some Token.star) = 5
power (some Token.slash) = 5
power (some dot) = 7
power (some double_colon) = 7
power (some l_paren) = 7
power (some l_bracket) = 7
power _ = 0

-- Standing before some lexemes.
abbrev pub current : List Lexeme → Option Token
current [] = none
current (t ∷ ts) = t.token

module _ (x : External) (len : ℕ) (r : x.Rodeo) (ds : List Diagnostic) where
  unfoldable pub before : List Lexeme → Parser x
  before [] = record {
    lexer = record {
      rest = [];
      slice = "";
      span = record { start = len; end = len };
      source_len = len;
    };
    interner = r;
    current_token = none;
    current_slice = "";
    diagnostics = ds;
  }
  before (t ∷ ts) = record {
    lexer = record { rest = ts; slice = t.slice; span = t.span; source_len = len };
    interner = r;
    current_token = t.token;
    current_slice = t.slice;
    diagnostics = ds;
  }

  pub advance-before : (t : Lexeme) (ts : List Lexeme) → advance (before (t ∷ ts)) ≡ before ts
  unfolding before advance
  advance-before t [] = refl
  advance-before t (u ∷ ts) = refl

  pub current-before : (ts : List Lexeme) → (before ts).current_token ≡ current ts
  unfolding before
  current-before [] = refl
  current-before (t ∷ ts) = refl

  pub size-before : (ts : List Lexeme) → size (before ts) ≤ length ts
  unfolding before size
  size-before [] = omega arith
  size-before (t ∷ ts) = ground arith

  pub parse_identifier-before :
      (n : Name) (ts : List Lexeme)
      → IsInterned x r n
      → parse_identifier (before (name_lexeme n ∷ ts)) ≡ ok (ident n, before ts)
  unfolding before parse_identifier
  parse_identifier-before n [] known = rw known refl
  parse_identifier-before n (t ∷ ts) known = rw known refl

  pub expect-before :
      (msg : String) (w : Word) (ts : List Lexeme)
      → expect r_paren msg (before (lexeme r_paren w ∷ ts)) ≡ ok (true, before ts)
  unfolding expect before token_eq
  expect-before msg w ts = ap (λ p. ok (true, p)) (advance-before (lexeme r_paren w) ts)

  pub consume_operator-before :
      (op : BinaryOp) (w : Word) (ts : List Lexeme)
      → consume_operator (before (lexeme (operator op) w ∷ ts)) ≡ before ts
  unfolding consume_operator check before token_eq
  consume_operator-before BinaryOp.plus w ts = advance-before (lexeme Token.plus w) ts
  consume_operator-before BinaryOp.minus w ts = advance-before (lexeme Token.minus w) ts
  consume_operator-before BinaryOp.star w ts = advance-before (lexeme Token.star w) ts
  consume_operator-before BinaryOp.slash w ts = advance-before (lexeme Token.slash w) ts
