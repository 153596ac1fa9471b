-- ===== src/Parser/Pratt.antt =====
-- The Pratt loop of crates/kuai-syntax/src/parser.rs on written expressions.
use kuai.Prelude.{
  ℕ, suc, ◌≤◌, ◌<◌, ◌≡◌, refl, ◌∙◌, ap, ◌⊎◌, false, Option, some, List, ◌∷◌, arith, length, ltb,
}
use kuai.Syntax.Token.{
  Token, identifier, integer_literal, float_literal, string_literal, dot, double_colon, l_paren,
  r_paren, l_bracket,
}
use kuai.Syntax.Diagnostic.{Diagnostic}
use kuai.Syntax.Ast.{Expr, BinaryOp}
use kuai.Syntax.External.{External}
use kuai.Outcome.{ok, again, done, next_round, bind}
use kuai.Parser.State.{Parser, Lexeme, iterate}
use kuai.Parser.Expr.{
  infix_binding_power, infix_round, operator_round, operators, parse_prefix, parse_expr,
  binary_round, path_round,
}
use kuai.Syntax.Ast.{literal, variable, binary, member_access, namespace_access, Literal}
use kuai.Prelude.{ℤ}
use kuai.Syntax.Token.{token_eq}
use kuai.Parser.State.{check}
use kuai.Parser.Knot.{calls}
use kuai.Parser.Keeps.Rules.{trivial}
use kuai.Parser.Keeps.Expr.{infix_round-Rounds}
use kuai.Parser.Keeps.Knot.{calls-Good}
use kuai.Parser.Unroll.{iterate-unroll}
use kuai.Parser.Grammar.{
  Word, Name, lexeme, name_lexeme, ident, operator, operator_level, IsInterned,
}
use kuai.Parser.Before.{
  power, current, before, advance-before, current-before, size-before, parse_identifier-before,
  expect-before, consume_operator-before,
}

-- The token before which an expression that binds at least as tight as `m` ends.
abbrev pub Stops : ℕ → Option Token → Type 0
Stops m t = (power t ≡ 0) ⊎ (power t < m)

ltb-false : (a b : ℕ) → b ≤ a → ltb a b ≡ false
ltb-false a b h = ground arith

module _ (x : External) (len : ℕ) (r : x.Rodeo) (ds : List Diagnostic) where
  operators-unroll :
      (f m : ℕ) (e : Expr) (ts : List Lexeme)
      → length ts ≤ f
      → operators (calls f) m (again e) (before x len r ds ts)
        ≡ next_round
            (iterate (operator_round (calls f) m))
            (infix_round (calls f) m (current ts) e (before x len r ds ts))
  unfolding operators operator_round
  operators-unroll f m e ts le =
      iterate-unroll f (operator_round (calls f) m)
        (λ a q s.
          infix_round-Rounds trivial f (calls f) (calls-Good trivial f) m q.current_token a q s refl
            tt)
        e (before x len r ds ts) (omega (size-before x len r ds ts, arith))
      ∙ ap
          (λ t.
            next_round (iterate (operator_round (calls f) m))
              (infix_round (calls f) m t e (before x len r ds ts)))
          (current-before x len r ds ts)

  stop :
      (f m : ℕ) (e : Expr) (t : Option Token) (p : Parser x)
      → Stops m t
      → m ≤ 7
      → infix_round (calls f) m t e p ≡ ok (done e, p)
  unfolding infix_round binary_round infix_binding_power path_round
  stop f m e (some Token.plus) p h le = ground arith
  stop f m e (some Token.star) p h le = ground arith
  stop f m e (some Token.minus) p h le = ground arith
  stop f m e (some Token.slash) p h le = ground arith
  stop f m e (some dot) p h le = absurd (ground arith)
  stop f m e (some double_colon) p h le = absurd (ground arith)
  stop f m e (some l_paren) p h le = absurd (ground arith)
  stop f m e (some l_bracket) p h le = absurd (ground arith)
  stop f m e _ p h le = refl

  pub operators-stop :
      (f m : ℕ) (e : Expr) (ts : List Lexeme)
      → length ts ≤ f
      → m ≤ 7
      → Stops m (current ts)
      → operators (calls f) m (again e) (before x len r ds ts) ≡ ok (e, before x len r ds ts)
  operators-stop f m e ts le small h =
      operators-unroll f m e ts le
      ∙ ap (next_round (iterate (operator_round (calls f) m)))
          (stop f m e (current ts) (before x len r ds ts) h small)

  pub operators-round :
      (f m : ℕ) (e e' : Expr) (ts rest : List Lexeme)
      → length ts ≤ f
      → infix_round (calls f) m (current ts) e (before x len r ds ts)
        ≡ ok (again e', before x len r ds rest)
      → operators (calls f) m (again e) (before x len r ds ts)
        ≡ operators (calls f) m (again e') (before x len r ds rest)
  unfolding operators
  operators-round f m e e' ts rest le h =
      operators-unroll f m e ts le ∙ ap (next_round (iterate (operator_round (calls f) m))) h

  pub parse_expr-prefix :
      (f m : ℕ) (e : Expr) (ts rest : List Lexeme)
      → parse_prefix (calls f) (current ts) (before x len r ds ts)
        ≡ ok (again e, before x len r ds rest)
      → parse_expr (calls f) m (before x len r ds ts)
        ≡ operators (calls f) m (again e) (before x len r ds rest)
  unfolding parse_expr
  parse_expr-prefix f m e ts rest h =
      ap
        (λ t.
          bind (parse_prefix (calls f) t (before x len r ds ts))
            λ (a, p). operators (calls f) m a p)
        (current-before x len r ds ts)
      ∙ ap (λ o. bind o λ (a, p). operators (calls f) m a p) h

  pub prefix_int :
      (f : ℕ) (w : Word) (n : ℤ) (ts : List Lexeme)
      → x.parse_i64 w.slice ≡ some n
      → parse_prefix
          (calls f)
          (some integer_literal)
          (before x len r ds (lexeme integer_literal w ∷ ts))
        ≡ ok (again (literal (Literal.int n)), before x len r ds ts)
  unfolding before parse_prefix
  prefix_int f w n ts h = rw h (
      ap (λ p. ok (again (literal (Literal.int n)), p))
        (advance-before x len r ds (lexeme integer_literal w) ts))

  pub prefix_float :
      (f : ℕ) (w : Word) (n : ℕ) (ts : List Lexeme)
      → x.parse_f64 w.slice ≡ some n
      → parse_prefix
          (calls f)
          (some float_literal)
          (before x len r ds (lexeme float_literal w ∷ ts))
        ≡ ok (again (literal (Literal.float n)), before x len r ds ts)
  unfolding before parse_prefix
  prefix_float f w n ts h = rw h (
      ap (λ p. ok (again (literal (Literal.float n)), p))
        (advance-before x len r ds (lexeme float_literal w) ts))

  pub prefix_string :
      (f : ℕ) (w : Word) (ts : List Lexeme)
      → parse_prefix
          (calls f)
          (some string_literal)
          (before x len r ds (lexeme string_literal w ∷ ts))
        ≡ ok (again (literal (Literal.string w.slice)), before x len r ds ts)
  unfolding before parse_prefix
  prefix_string f w ts =
      ap (λ p. ok (again (literal (Literal.string w.slice)), p))
        (advance-before x len r ds (lexeme string_literal w) ts)

  pub prefix_variable :
      (f : ℕ) (n : Name) (ts : List Lexeme)
      → IsInterned x r n
      → parse_prefix (calls f) (some identifier) (before x len r ds (name_lexeme n ∷ ts))
        ≡ ok (again (variable (ident n)), before x len r ds ts)
  unfolding parse_prefix
  prefix_variable f n ts h = rw (parse_identifier-before x len r ds n ts h) refl

  pub prefix_paren :
      (f : ℕ) (open_word close_word : Word) (e : Expr) (inner ts : List Lexeme)
      → (calls f).expr 0 (before x len r ds inner)
        ≡ ok (e, before x len r ds (lexeme r_paren close_word ∷ ts))
      → parse_prefix (calls f) (some l_paren) (before x len r ds (lexeme l_paren open_word ∷ inner))
        ≡ ok (again e, before x len r ds ts)
  unfolding parse_prefix
  prefix_paren f open_word close_word e inner ts h =
      rw (advance-before x len r ds (lexeme l_paren open_word) inner)
        (rw h (rw (expect-before x len r ds "Expected ')' after expression" close_word ts) refl))

  pub round_binary :
      (f m : ℕ) (op : BinaryOp) (w : Word) (left right : Expr) (ts rest : List Lexeme)
      → m ≤ operator_level op
      → (calls f).expr (suc (operator_level op)) (before x len r ds ts)
        ≡ ok (right, before x len r ds rest)
      → infix_round
          (calls f)
          m
          (some (operator op))
          left
          (before x len r ds (lexeme (operator op) w ∷ ts))
        ≡ ok (again (binary left op right), before x len r ds rest)
  unfolding infix_round binary_round infix_binding_power
  round_binary f m BinaryOp.plus w left right ts rest le h =
      rw (ltb-false 3 m le) (rw (consume_operator-before x len r ds BinaryOp.plus w ts) (rw h refl))
  round_binary f m BinaryOp.minus w left right ts rest le h =
      rw (ltb-false 3 m le)
        (rw (consume_operator-before x len r ds BinaryOp.minus w ts) (rw h refl))
  round_binary f m BinaryOp.star w left right ts rest le h =
      rw (ltb-false 5 m le) (rw (consume_operator-before x len r ds BinaryOp.star w ts) (rw h refl))
  round_binary f m BinaryOp.slash w left right ts rest le h =
      rw (ltb-false 5 m le)
        (rw (consume_operator-before x len r ds BinaryOp.slash w ts) (rw h refl))

  pub round_member :
      (f m : ℕ) (w : Word) (n : Name) (left : Expr) (ts : List Lexeme)
      → IsInterned x r n
      → infix_round
          (calls f)
          m
          (some dot)
          left
          (before x len r ds (lexeme dot w ∷ name_lexeme n ∷ ts))
        ≡ ok (again (member_access left (ident n)), before x len r ds ts)
  unfolding infix_round
  round_member f m w n left ts h =
      rw (advance-before x len r ds (lexeme dot w) (name_lexeme n ∷ ts))
        (rw (parse_identifier-before x len r ds n ts h) refl)

  pub round_path :
      (f m : ℕ) (w : Word) (n : Name) (left : Expr) (ts : List Lexeme)
      → m ≤ 7
      → IsInterned x r n
      → infix_round
          (calls f)
          m
          (some double_colon)
          left
          (before x len r ds (lexeme double_colon w ∷ name_lexeme n ∷ ts))
        ≡ ok (again (namespace_access left (ident n)), before x len r ds ts)
  unfolding infix_round path_round check before token_eq
  round_path f m w n left ts le h = rw (ltb-false 9 m (omega arith)) (
      rw (advance-before x len r ds (lexeme double_colon w) (name_lexeme n ∷ ts))
        (rw (parse_identifier-before x len r ds n ts h) refl))
