-- ===== src/Syntax/Token.antt =====
-- The tokens of crates/kuai-syntax/src/lexer.rs, and the bracket count that decides whether the
-- REPL has read a whole input.
use kuai.Prelude.{
  ℕ, zero, suc, ◌≡◌, refl, sym, ap, ◌∙◌, Bool, true, List, [], ◌∷◌, String, ◌==◌, ==_iff,
}

pub data Token : Type 0 where
  kw_func kw_struct kw_import kw_return kw_let kw_dim kw_if kw_else kw_for kw_in kw_step : Token
  kw_break kw_continue : Token
  type_bool type_char type_i8 type_i16 type_i32 type_i64 type_f32 type_f64 : Token
  attribute : Token
  float_literal integer_literal string_literal : Token
  identifier : Token
  dot double_dot comma colon double_colon semi_colon assign arrow : Token
  l_paren r_paren l_bracket r_bracket l_brace r_brace : Token
  plus minus star slash : Token
  eq ne lt gt : Token
  comment : Token

-- The derived `Debug` of a token: the name of its variant. The variant's place in the enum stands
-- beside it, for the derived equality.
unfoldable pub variant : Token → ℕ × String
variant kw_func = (0, "KwFunc")
variant kw_struct = (1, "KwStruct")
variant kw_import = (2, "KwImport")
variant kw_return = (3, "KwReturn")
variant kw_let = (4, "KwLet")
variant kw_dim = (5, "KwDim")
variant kw_if = (6, "KwIf")
variant kw_else = (7, "KwElse")
variant kw_for = (8, "KwFor")
variant kw_in = (9, "KwIn")
variant kw_step = (10, "KwStep")
variant kw_break = (11, "KwBreak")
variant kw_continue = (12, "KwContinue")
variant type_bool = (13, "TypeBool")
variant type_char = (14, "TypeChar")
variant type_i8 = (15, "TypeI8")
variant type_i16 = (16, "TypeI16")
variant type_i32 = (17, "TypeI32")
variant type_i64 = (18, "TypeI64")
variant type_f32 = (19, "TypeF32")
variant type_f64 = (20, "TypeF64")
variant attribute = (21, "Attribute")
variant float_literal = (22, "FloatLiteral")
variant integer_literal = (23, "IntegerLiteral")
variant string_literal = (24, "StringLiteral")
variant identifier = (25, "Identifier")
variant dot = (26, "Dot")
variant double_dot = (27, "DoubleDot")
variant comma = (28, "Comma")
variant colon = (29, "Colon")
variant double_colon = (30, "DoubleColon")
variant semi_colon = (31, "SemiColon")
variant assign = (32, "Assign")
variant arrow = (33, "Arrow")
variant l_paren = (34, "LParen")
variant r_paren = (35, "RParen")
variant l_bracket = (36, "LBracket")
variant r_bracket = (37, "RBracket")
variant l_brace = (38, "LBrace")
variant r_brace = (39, "RBrace")
variant plus = (40, "Plus")
variant minus = (41, "Minus")
variant star = (42, "Star")
variant slash = (43, "Slash")
variant eq = (44, "Eq")
variant ne = (45, "Ne")
variant lt = (46, "Lt")
variant gt = (47, "Gt")
variant comment = (48, "Comment")

-- `==` on tokens, which the parser and the tests of a slice of tokens use.
unfoldable pub token_eq : Token → Token → Bool
unfolding variant
token_eq a b = (variant a).0 == (variant b).0

-- The tokens in the order of the enum.
abbrev tokens : List Token
tokens =
    kw_func ∷ kw_struct ∷ kw_import ∷ kw_return ∷ kw_let ∷ kw_dim ∷ kw_if ∷ kw_else ∷ kw_for ∷ kw_in
    ∷ kw_step ∷ kw_break ∷ kw_continue ∷ type_bool ∷ type_char ∷ type_i8 ∷ type_i16 ∷ type_i32
    ∷ type_i64 ∷ type_f32 ∷ type_f64 ∷ attribute ∷ float_literal ∷ integer_literal ∷ string_literal
    ∷ identifier ∷ dot ∷ double_dot ∷ comma ∷ colon ∷ double_colon ∷ semi_colon ∷ assign ∷ arrow
    ∷ l_paren ∷ r_paren ∷ l_bracket ∷ r_bracket ∷ l_brace ∷ r_brace ∷ plus ∷ minus ∷ star ∷ slash
    ∷ eq ∷ ne ∷ lt ∷ gt ∷ comment ∷ []

abbrev token_at : List Token → ℕ → Token
token_at [] i = comment
token_at (t ∷ ts) zero = t
token_at (t ∷ ts) (suc i) = token_at ts i

token_at-variant : (a : Token) → token_at tokens (variant a).0 ≡ a
unfolding variant
token_at-variant kw_func = refl
token_at-variant _ = refl

-- The equality of tokens decides their equality.
pub token_eq→eq : (a b : Token) → token_eq a b ≡ true → a ≡ b
unfolding token_eq
token_eq→eq a b h =
    sym (token_at-variant a)
    ∙ ap (token_at tokens) ((==_iff (variant a).0 (variant b).0).0 h)
    ∙ token_at-variant b

pub token_eq_refl : (a : Token) → token_eq a a ≡ true
unfolding token_eq
token_eq_refl a = (==_iff (variant a).0 (variant a).0).1 refl
