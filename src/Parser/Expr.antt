-- ===== src/Parser/Expr.antt =====
-- The Pratt parser of parser.rs: parse_expr, parse_array_literal, parse_index_access.
use kuai.Prelude.{ℕ, not, ◌&&◌, ◌||◌, Option, none, some, List, [], ◌∷◌, push, ltb, if◌then◌else◌}
use kuai.Syntax.Token.{
  Token, comma, l_paren, r_paren, l_bracket, r_bracket, identifier, dot, double_colon,
  integer_literal, float_literal, string_literal,
}
use kuai.Syntax.Text.{format}
use kuai.Syntax.Ast.{
  Expr, BinaryOp, Literal, literal, variable, binary, member_access, namespace_access, index,
  vector_literal, call, expr_error, exprs, types, arguments,
}
use kuai.Syntax.External.{External}
use kuai.Outcome.{ok, Flow, again, done, pure, panic, ◌>>=◌, ◌>>◌, gets, modify}
use kuai.Parser.State.{
  Parser, M, debug_token, advance, check, has_token, report_error, here, expect, consume,
  synchronize_until, iterate, parse_identifier,
}
use kuai.Parser.Argument.{Calls, parse_argument_list}
use kuai.Parser.TypeExpr.{parse_generic_argument_list}

-- `infix_binding_power`: how tightly an operator binds on its left and on its right.
unfoldable pub infix_binding_power : BinaryOp → ℕ × ℕ
infix_binding_power BinaryOp.plus = (3, 4)
infix_binding_power BinaryOp.minus = (3, 4)
infix_binding_power BinaryOp.star = (5, 6)
infix_binding_power BinaryOp.slash = (5, 6)

module _ {x : External} where
  -- `elem.parse().unwrap()` on the current slice
  abbrev pub or_panic : {A : Type 0} → Option A → M x A
  or_panic none = panic
  or_panic (some a) = pure a

  -- `if self.check(Token::Comma) { self.advance(); }`
  abbrev pub skip_comma : {A : Type 0} → A → M x A
  skip_comma a p = if check comma p then ok (a, advance p) else ok (a, p)

  -- `self.advance()` past an operator that is no `.` and no `[`
  unfoldable pub consume_operator : Parser x → Parser x
  consume_operator p = if not (check dot p || check l_bracket p) then advance p else p

  -- `if self.current_token.is_some() { self.advance(); }`
  unfoldable pub skip_token : Parser x → Parser x
  skip_token p = if has_token p then advance p else p

module _ {x : External} (rec : Calls x) where
  unfoldable pub array_round : List Expr → M x (Flow (List Expr))
  array_round elements p =
      if not (check r_bracket p) && has_token p
      then (do e ← rec.expr 0; skip_comma (again (push elements e))) p
      else ok (done elements, p)

  unfoldable pub parse_array_literal : M x Expr
  parse_array_literal = do
    expect l_bracket "Expected '[' at start of array literal"
    elements ← iterate array_round []
    expect r_bracket "Expected ']' at end of array literal"
    pure (vector_literal (exprs elements))

  -- After an index: a comma, the closing bracket, or a skip to either.
  unfoldable pub index_separator : List Expr → M x (Flow (List Expr))
  index_separator indices p =
      if check comma p
      then ok (again indices, advance p)
      else if not (check r_bracket p)
      then (do synchronize_until (comma ∷ r_bracket ∷ []); skip_comma (again indices)) p
      else ok (again indices, p)

  unfoldable pub index_round : List Expr → M x (Flow (List Expr))
  index_round indices p =
      if not (check r_bracket p) && has_token p
      then (do e ← rec.expr 0; index_separator (push indices e)) p
      else ok (done indices, p)

  unfoldable pub parse_index_access : Expr → M x Expr
  parse_index_access target = do
    expect l_bracket "Expected '[' for index access"
    indices ← iterate index_round []
    consume r_bracket
    pure (index target (exprs indices))

  unfoldable pub binary_round : BinaryOp → ℕ → Expr → M x (Flow Expr)
  binary_round op min_bp left =
      let (l_bp, r_bp) = infix_binding_power op in
      if ltb l_bp min_bp
      then pure (done left)
      else (do modify consume_operator; right ← rec.expr r_bp; pure (again (binary left op right)))

  -- A call with type arguments, `f::<T>(x)`, from the `<` on. `done` is the early return.
  unfoldable pub turbofish : Expr → M x (Flow Expr)
  turbofish left = do
    generics ← parse_generic_argument_list rec
    is_paren ← gets (check l_paren)
    if is_paren
        then (do
          args ← parse_argument_list rec
          pure (again (call left (types generics) (arguments args))))
        else (do
          modify (report_error "Expected '(' after generic arguments")
          span ← here
          modify skip_token
          pure (done (expr_error span)))

  unfoldable pub path_round : ℕ → Expr → M x (Flow Expr)
  path_round min_bp left = if ltb 9 min_bp then pure (done left) else (do
    modify advance
    is_lt ← gets (check Token.lt)
    if is_lt
        then turbofish left
        else (do ident ← parse_identifier; pure (again (namespace_access left ident))))

  -- One round of the loop over infix and postfix operators, by the current token.
  unfoldable pub infix_round : ℕ → Option Token → Expr → M x (Flow Expr)
  infix_round min_bp (some Token.plus) left = binary_round BinaryOp.plus min_bp left
  infix_round min_bp (some Token.star) left = binary_round BinaryOp.star min_bp left
  infix_round min_bp (some Token.minus) left = binary_round BinaryOp.minus min_bp left
  infix_round min_bp (some Token.slash) left = binary_round BinaryOp.slash min_bp left
  infix_round min_bp (some dot) left = do
    modify advance
    member ← parse_identifier
    pure (again (member_access left member))
  infix_round min_bp (some double_colon) left = path_round min_bp left
  infix_round min_bp (some l_paren) left =
      if ltb 7 min_bp
      then pure (done left)
      else (do args ← parse_argument_list rec; pure (again (call left (types []) (arguments args))))
  infix_round min_bp (some l_bracket) left = do e ← parse_index_access left; pure (again e)
  infix_round min_bp _ left = pure (done left)

  -- A literal, a variable, an array literal or a parenthesised expression; `done` is the early
  -- return of an error.
  unfoldable pub parse_prefix : Option Token → M x (Flow Expr)
  parse_prefix (some integer_literal) = do
    s ← gets λ p. p.current_slice
    n ← or_panic (x.parse_i64 s)
    modify advance
    pure (again (literal (Literal.int n)))
  parse_prefix (some float_literal) = do
    s ← gets λ p. p.current_slice
    f ← or_panic (x.parse_f64 s)
    modify advance
    pure (again (literal (Literal.float f)))
  parse_prefix (some identifier) = do ident ← parse_identifier; pure (again (variable ident))
  parse_prefix (some string_literal) = do
    s ← gets λ p. p.current_slice
    modify advance
    pure (again (literal (Literal.string s)))
  parse_prefix (some l_bracket) = do e ← parse_array_literal; pure (again e)
  parse_prefix (some l_paren) = do
    modify advance
    e ← rec.expr 0
    expect r_paren "Expected ')' after expression"
    pure (again e)
  parse_prefix t = do
    modify (report_error (format "Unexpected token in expression: " (debug_token t)))
    span ← here
    modify advance
    pure (done (expr_error span))

  unfoldable pub operator_round : ℕ → Expr → M x (Flow Expr)
  operator_round min_bp left p = infix_round min_bp p.current_token left p

  unfoldable pub operators : ℕ → Flow Expr → M x Expr
  operators min_bp (again left) = iterate (operator_round min_bp) left
  operators min_bp (done e) = pure e

  unfoldable pub parse_expr : ℕ → M x Expr
  parse_expr min_bp p = (do e ← parse_prefix p.current_token; operators min_bp e) p
