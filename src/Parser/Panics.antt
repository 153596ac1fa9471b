-- ===== src/Parser/Panics.antt =====
-- Where the parser of parser.rs can panic, and that it cannot elsewhere.
use kuai.Prelude.{◌≡◌, ◌≢◌, refl, false, Option, none, some, List, [], ◌∷◌, String, All}
use kuai.Syntax.Token.{Token, integer_literal, float_literal, l_bracket, r_bracket}
use kuai.Syntax.Diagnostic.{CompileResult}
use kuai.Syntax.Ast.{Module, Expr}
use kuai.Syntax.External.{External}
use kuai.Outcome.{Outcome, ok, panicked, out_of_fuel, loop}
use kuai.Parser.State.{
  Parser, Lexeme, Lexer, next, advance, report_error, has_token, iterate, consume,
}
use kuai.Parser.Argument.{Calls, slice_from_one}
use kuai.Parser.Expr.{parse_index_access, index_round}
use kuai.Parser.Parse.{parse}
use kuai.Parser.Keeps.Rules.{Invariant, Ends-panicked, Ends-ne-out_of_fuel, trivial}
use kuai.Parser.Keeps.State.{check-current, no_token-check, expect-checked}
use kuai.Parser.Keeps.Parse.{parse-Keeps}

module _ (x : External) where
  -- A token that no method panics on: it is no `[`, and the text of a literal or an attribute is
  -- one that can be read.
  pub record SafeAt (t : Option Token) (slice : String) : Type 0 where
    pub no_bracket : t ≢ some l_bracket
    pub integer : t ≡ some integer_literal → x.parse_i64 slice ≢ none
    pub float : t ≡ some float_literal → x.parse_f64 slice ≢ none
    pub attribute : t ≡ some Token.attribute → slice_from_one slice ≢ none

  abbrev pub IsSafe : Lexeme → Type 0
  IsSafe l = SafeAt l.token l.slice

  -- The current token and all that follow are safe.
  pub record AllSafe (p : Parser x) : Type 0 where
    pub current : SafeAt p.current_token p.current_slice
    pub rest : All IsSafe p.lexer.rest

  none-SafeAt : (s : String) → SafeAt none s
  none-SafeAt s = record {
    no_bracket = λ e. cc;
    integer = λ e. cc;
    float = λ e. cc;
    attribute = λ e. cc;
  }

  next-SafeAt :
      (l : Lexer) (ls : List Lexeme)
      → l.rest ≡ ls
      → All IsSafe ls
      → SafeAt (next l).0 (next l).1.slice × All IsSafe (next l).1.rest
  unfolding next
  next-SafeAt l [] e safe = rw e (none-SafeAt "", tt)
  next-SafeAt l (t ∷ ls) e safe = rw e safe

  advance-AllSafe : (p : Parser x) → AllSafe p → AllSafe (advance p)
  unfolding advance
  advance-AllSafe p safe =
      let (current, rest) = next-SafeAt p.lexer p.lexer.rest refl safe.rest in
      record { current = current; rest = rest }

  report-AllSafe : (msg : String) (p : Parser x) → AllSafe p → AllSafe (report_error msg p)
  unfolding report_error
  report-AllSafe msg p safe = record { current = safe.current; rest = safe.rest }

  abbrev safety : Invariant x
  safety = record {
    Holds = AllSafe;
    MayPanic = ⊥;
    advance = advance-AllSafe;
    report = report-AllSafe;
    intern = λ _ _ safe. record { current = safe.current; rest = safe.rest };
    integer = λ p safe e f. safe.current.integer e f;
    float = λ p safe e f. safe.current.float e f;
    attribute = λ p safe e f. safe.current.attribute e f;
    index = λ p safe e. safe.current.no_bracket e;
  }

returns_of : {A : Type 0} (r : Outcome A) → r ≢ panicked → r ≢ out_of_fuel → (a : A) × (r ≡ ok a)
returns_of (ok a) _ _ = (a, refl)
returns_of panicked h _ = absurd (h refl)
returns_of out_of_fuel _ h = absurd (h refl)

module _ {x : External} where
  -- From a state where no token is `[` and every integer literal, float literal and attribute has a
  -- text that can be read, `parse` returns a result: it neither panics nor ends without an answer.
  pub parse_returns :
      (p : Parser x) → AllSafe x p → (a : CompileResult Module × Parser x) × (parse p ≡ ok a)
  parse_returns p safe =
      let kept = parse-Keeps (safety x) p safe in
      returns_of (parse p) (λ e. Ends-panicked kept e) (Ends-ne-out_of_fuel kept)

  -- An index that the input breaks off after its `[` panics, whatever stands before it and whatever
  -- the methods for the parts of expressions do: the parser does not report the missing bracket.
  pub unclosed_index_panics :
      (rec : Calls x) (target : Expr) (p : Parser x)
      → p.current_token ≡ some l_bracket
      → has_token (advance p) ≡ false
      → parse_index_access rec target p ≡ panicked
  unfolding parse_index_access iterate loop index_round consume
  unclosed_index_panics rec target p open_bracket stopped =
      rw
        (
          expect-checked trivial l_bracket "Expected '[' for index access" p
              (check-current l_bracket p open_bracket),
          no_token-check r_bracket (advance p) stopped,
          stopped,
        )
        (rw (no_token-check r_bracket (advance p) stopped))
