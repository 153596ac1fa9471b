-- ===== src/Parser/Grammar.antt =====
-- Written expressions: the expression grammar of crates/kuai-syntax/src/parser.rs, apart from the
-- parser, and without calls, turbofish, indices and array literals. A written expression says which
-- lexemes stand in the source, with what brackets, and which tree it means. Its level is that of
-- its outermost operator: `+` and `-` bind looser than `*` and `/`, these looser than a member, a
-- path or an index, and every operator groups to the left.
use kuai.Prelude.{ℕ, ℤ, ◌≤◌, ◌<◌, ◌≡◌, some, List, [], ◌∷◌, ◌++◌, String}
use kuai.Syntax.Token.{
  Token, identifier, integer_literal, float_literal, string_literal, dot, double_colon, l_paren,
  r_paren,
}
use kuai.Syntax.Diagnostic.{Span}
use kuai.Syntax.Ast
use kuai.Syntax.Ast.{Expr, Ident, BinaryOp, Literal}
use kuai.Syntax.External.{External}
use kuai.Parser.State.{Lexeme}

-- A word in the source: its text and its place.
pub record Word : Type 0 where
  pub slice : String
  pub span : Span

-- An identifier with its key.
pub record Name : Type 0 where
  pub word : Word
  pub key : ℕ

pub data Written : Type 0 where
  int : Word → ℤ → Written
  float : Word → ℕ → Written
  string : Word → Written
  variable : Name → Written
  paren : Word → Written → Word → Written
  binary : Written → BinaryOp → Word → Written → Written
  member : Written → Word → Name → Written
  path : Written → Word → Name → Written

abbrev pub lexeme : Token → Word → Lexeme
lexeme t w = record { token = some t; slice = w.slice; span = w.span }

abbrev pub name_lexeme : Name → Lexeme
name_lexeme n = lexeme identifier n.word

abbrev pub ident : Name → Ident
ident n = record { id = n.key; span = n.word.span }

abbrev pub operator : BinaryOp → Token
operator BinaryOp.plus = Token.plus
operator BinaryOp.minus = Token.minus
operator BinaryOp.star = Token.star
operator BinaryOp.slash = Token.slash

-- The lexemes of a written expression.
unfoldable pub lexemes : Written → List Lexeme
lexemes (int w n) = lexeme integer_literal w ∷ []
lexemes (float w f) = lexeme float_literal w ∷ []
lexemes (string w) = lexeme string_literal w ∷ []
lexemes (variable n) = name_lexeme n ∷ []
lexemes (paren open_word e close_word) =
    lexeme l_paren open_word ∷ (lexemes e ++ lexeme r_paren close_word ∷ [])
lexemes (binary l op w r) = lexemes l ++ lexeme (operator op) w ∷ lexemes r
lexemes (member e w n) = lexemes e ++ lexeme dot w ∷ name_lexeme n ∷ []
lexemes (path e w n) = lexemes e ++ lexeme double_colon w ∷ name_lexeme n ∷ []

-- The tree that it means.
unfoldable pub meaning : Written → Expr
meaning (int w n) = Ast.literal (Literal.int n)
meaning (float w f) = Ast.literal (Literal.float f)
meaning (string w) = Ast.literal (Literal.string w.slice)
meaning (variable n) = Ast.variable (ident n)
meaning (paren open_word e close_word) = meaning e
meaning (binary l op w r) = Ast.binary (meaning l) op (meaning r)
meaning (member e w n) = Ast.member_access (meaning e) (ident n)
meaning (path e w n) = Ast.namespace_access (meaning e) (ident n)

abbrev pub operator_level : BinaryOp → ℕ
operator_level BinaryOp.plus = 3
operator_level BinaryOp.minus = 3
operator_level BinaryOp.star = 5
operator_level BinaryOp.slash = 5

abbrev pub level : Written → ℕ
level (binary l op w r) = operator_level op
level (int w n) = 7
level (float w f) = 7
level (string w) = 7
level (variable n) = 7
level (paren open_word e close_word) = 7
level (member e w n) = 7
level (path e w n) = 7

module _ (x : External) (r : x.Rodeo) where
  -- The interner has the name under its key.
  abbrev pub IsInterned : Name → Type 0
  IsInterned n = x.get_or_intern r n.word.slice ≡ (r, n.key)

  -- Literals can be read, the interner already has the names under their keys, and an operand binds
  -- tighter than its operator: on the left at least as tight, on the right tighter.
  unfoldable pub IsGrammatical : Written → Type 0
  IsGrammatical (int w n) = x.parse_i64 w.slice ≡ some n
  IsGrammatical (float w f) = x.parse_f64 w.slice ≡ some f
  IsGrammatical (string w) = Unit
  IsGrammatical (variable n) = IsInterned n
  IsGrammatical (paren open_word e close_word) = IsGrammatical e
  IsGrammatical (binary l op w r) =
      IsGrammatical l
      × IsGrammatical r
      × (operator_level op ≤ level l)
      × (operator_level op < level r)
  IsGrammatical (member e w n) = IsGrammatical e × IsInterned n × (7 ≤ level e)
  IsGrammatical (path e w n) = IsGrammatical e × IsInterned n × (7 ≤ level e)
