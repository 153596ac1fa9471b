-- ===== src/Parser/State.antt =====
-- The state of crates/kuai-syntax/src/parser.rs and its basic utilities. The lexer is the list of
-- lexemes that logos has still to yield, with the span and the slice of the last one.
use kuai.Prelude.{
  ℕ, suc, ◌+◌, Bool, true, false, not, ◌&&◌, ◌||◌, Option, none, some, List, [], ◌∷◌, String,
  length, push, is_some, if◌then◌else◌,
}
use kuai.Syntax.Token.{Token, variant, token_eq}
use kuai.Syntax.Text.{format}
use kuai.Syntax.Diagnostic.{Span, Diagnostic, Severity}
use kuai.Syntax.Ast.{Ident, error_ident_name}
use kuai.Syntax.External.{External}
use kuai.Syntax.Token.{semi_colon, r_brace, kw_func, kw_struct, kw_import, identifier}
use kuai.Outcome.{Outcome, ok, panicked, Flow, again, done, pure, ◌>>=◌, ◌>>◌, gets, modify, loop}

-- One item of the token stream: its token, or `none` where no token matches, and the text.
pub record Lexeme : Type 0 where
  pub token : Option Token
  pub slice : String
  pub span : Span

pub record Lexer : Type 0 where
  pub rest : List Lexeme
  pub slice : String
  pub span : Span
  -- the length of the source, where the lexer stands after the last lexeme
  pub source_len : ℕ

-- The derived `Debug` of the current token.
abbrev pub debug_token : Option Token → String
debug_token none = "None"
debug_token (some t) = format "Some(" (format (variant t).1 ")")

-- `lexer.next().and_then(|r| r.ok())`: an error of the lexer reads like the end of the input.
unfoldable pub next : Lexer → Option Token × Lexer
next l = elim l.rest [
  | [] ↦ (none, record l { slice = ""; span = record { start = l.source_len; end = l.source_len } })
  | t ∷ ts ↦ (t.token, record l { rest = ts; slice = t.slice; span = t.span })
]

pub record Parser (x : External) : Type 0 where
  pub lexer : Lexer
  pub interner : x.Rodeo
  pub current_token : Option Token
  pub current_slice : String
  pub diagnostics : List Diagnostic

module _ {x : External} where
  -- `Parser::new` on the lexemes of a source of the given length.
  unfoldable pub new : List Lexeme → ℕ → x.Rodeo → Parser x
  unfolding next
  new lexemes len interner =
      let lexer : Lexer = record {
        rest = lexemes;
        slice = "";
        span = record { start = 0; end = 0 };
        source_len = len;
      } in
      let (t, l) = next lexer in
      record {
        lexer = l;
        interner = interner;
        current_token = t;
        current_slice = l.slice;
        diagnostics = [];
      }

  unfoldable pub peek : Parser x → Option Token
  unfolding next
  peek p = (next p.lexer).0

  unfoldable pub advance : Parser x → Parser x
  unfolding next
  advance p =
      let (t, l) = next p.lexer in
      record p { lexer = l; current_token = t; current_slice = l.slice }

  unfoldable pub check : Token → Parser x → Bool
  unfolding token_eq
  check t p = elim p.current_token [ none ↦ false | some c ↦ token_eq c t ]

  -- `if let Some(T) = self.peek()`
  unfoldable pub peek_is : Token → Parser x → Bool
  unfolding token_eq peek
  peek_is t p = elim (peek p) [ none ↦ false | some c ↦ token_eq c t ]

  unfoldable pub report_error : String → Parser x → Parser x
  report_error msg p = record p {
    diagnostics =
        push p.diagnostics
          (record { severity = Severity.error; span = p.lexer.span; message = msg });
  }

  abbrev pub has_token : Parser x → Bool
  has_token p = is_some p.current_token

  -- the lexemes that `advance` can still read
  unfoldable pub unread : Parser x → ℕ
  unread p = length p.lexer.rest

  -- the same with the current token, which bounds the rounds of every loop
  unfoldable pub size : Parser x → ℕ
  unfolding unread
  size p = unread p + (if has_token p then 1 else 0)

-- The methods of the parser.
abbrev pub M : External → Type 0 → Type 0
M x A = Parser x → Outcome (A × Parser x)

module _ {x : External} where
  -- A `while` or `loop` of the source, with the rounds that its state allows.
  unfoldable pub iterate : {A : Type 0} → (A → M x (Flow A)) → A → M x A
  unfolding loop size
  iterate body a p = loop (suc (size p)) body a p

  abbrev pub intern : String → M x ℕ
  intern s p = let (r, k) = x.get_or_intern p.interner s in ok (k, record p { interner = r })

  abbrev pub here : M x Span
  here = gets λ p. p.lexer.span

  -- `start..self.lexer.span().end`
  abbrev pub since : ℕ → M x Span
  since start = gets λ p. record { start = start; end = p.lexer.span.end }

  unfoldable pub expect : Token → String → M x Bool
  unfolding check advance report_error
  expect t msg p = if check t p then ok (true, advance p) else ok (false, report_error msg p)

  unfoldable pub consume : Token → M x (Unit {0})
  unfolding check advance
  consume t p = if check t p then ok (tt, advance p) else panicked

  -- Skips to a semicolon or a closing brace and past it, or to a declaration.
  unfoldable pub sync_round : Unit {0} → M x (Flow (Unit {0}))
  unfolding check advance
  sync_round _ p =
      if has_token p
      then (if check semi_colon p || check r_brace p
          then ok (done tt, advance p)
          else if check kw_func p || (check kw_struct p || check kw_import p)
          then ok (done tt, p)
          else ok (again tt, advance p))
      else ok (done tt, p)

  unfoldable pub synchronize : M x (Unit {0})
  unfolding iterate sync_round
  synchronize = iterate sync_round tt

  -- `stop_tokens.contains(token)`
  abbrev pub check_any : List Token → Parser x → Bool
  check_any [] p = false
  check_any (t ∷ ts) p = check t p || check_any ts p

  unfoldable pub sync_until_round : List Token → Unit {0} → M x (Flow (Unit {0}))
  unfolding check advance
  sync_until_round stop _ p =
      if has_token p && not (check_any stop p) then ok (again tt, advance p) else ok (done tt, p)

  unfoldable pub synchronize_until : List Token → M x (Unit {0})
  unfolding iterate sync_until_round
  synchronize_until stop = iterate (sync_until_round stop) tt

  unfoldable pub parse_identifier : M x Ident
  unfolding check advance report_error
  parse_identifier p =
      if check identifier p
      then (do
        name ← gets λ q. q.current_slice
        span ← here
        modify advance
        id ← intern name
        pure (record { id = id; span = span }))
          p
      else (do
        modify (report_error (format "Expected identifier, got " (debug_token p.current_token)))
        span ← here
        modify advance
        id ← intern error_ident_name
        pure (record { id = id; span = span }))
          p
