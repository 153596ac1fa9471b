-- ===== src/Parser/Stmt.antt =====
-- Statements of parser.rs: parse_stmt and the methods that it dispatches to.
use kuai.Prelude.{ℕ, zero, suc, not, ◌&&◌, Option, some, List, [], String, push, if◌then◌else◌}
use kuai.Syntax.Token.{
  Token, kw_func, kw_struct, kw_import, kw_return, kw_let, kw_dim, kw_if, kw_else, kw_for, kw_in,
  kw_step, kw_break, kw_continue, double_dot, colon, semi_colon, assign, l_brace, r_brace,
}
use kuai.Syntax.Diagnostic.{Span}
use kuai.Syntax.Ast.{
  Expr, Attribute, Stmt, StmtImpl, Block, ElseBranch, OptionElse, stmt, import, function, struct,
  dim_decl, var_decl, assignment, for_loop, if_branch, break, continue, return, stmt_error, block,
  else_block, else_if, no_else, some_else, func_decl, some_block, stmts_of,
}
use kuai.Syntax.Ast
use kuai.Syntax.External.{External}
use kuai.Outcome.{ok, out_of_fuel, Flow, again, done, pure, ◌>>=◌, ◌>>◌, gets, modify}
use kuai.Parser.State.{
  M, advance, check, has_token, here, since, expect, synchronize, iterate, parse_identifier, size,
}
use kuai.Parser.Knot.{expr, type_expr, attr}
use kuai.Parser.Decl.{
  optional, expect_or_synchronize, parse_dim, parse_path, parse_func_proto, optional_generics,
  parse_field_list,
}

-- The methods that a block or an `else if` calls on a shorter input.
pub record StmtCalls (x : External) : Type 0 where
  pub statement : M x Stmt
  pub if_statement : List Attribute → M x Stmt

module _ {x : External} where
  -- The end of a statement: a semicolon, or an error statement after a skip.
  unfoldable pub ended : List Attribute → String → (Span → StmtImpl) → M x Stmt
  ended attrs msg make = do
    is_end ← expect semi_colon msg
    if is_end
        then (do span ← here; pure (stmt attrs (make span)))
        else (do synchronize; span ← here; pure (stmt attrs (stmt_error span)))

  unfoldable pub parse_import : M x Stmt
  parse_import = do
    is_import ← expect kw_import "Expected import"
    if is_import
        then (do
          path ← parse_path
          ended [] "Expected ';' at end of import statement" (λ _. import path))
        else (do span ← here; pure (stmt [] (stmt_error span)))

  unfoldable pub parse_let : List Attribute → M x Stmt
  parse_let attrs = do
    modify advance
    name ← parse_identifier
    ty ← optional colon type_expr
    init ← optional assign (expr 0)
    ended attrs "Expected ';' at end of let statement"
        (λ span. var_decl (record { name = name; ty = ty; init = init; span = span }))

  unfoldable pub parse_break : List Attribute → M x Stmt
  parse_break attrs = do
    span ← here
    modify advance
    ended attrs "Expected ';' at end of break statement" (λ _. break span)

  unfoldable pub parse_continue : List Attribute → M x Stmt
  parse_continue attrs = do
    span ← here
    modify advance
    ended attrs "Expected ';' at end of continue statement" (λ _. continue span)

  unfoldable pub parse_return : List Attribute → M x Stmt
  parse_return attrs = do
    modify advance
    e ← expr 0
    ended attrs "Expected ';' at end of return statement" (λ _. return e)

  -- `= value` after an expression makes an assignment.
  unfoldable pub assigned : Expr → M x StmtImpl
  assigned target p =
      if check assign p
      then (do modify advance; value ← expr 0; span ← here; pure (assignment target value span)) p
      else ok (Ast.expr target, p)

  unfoldable pub parse_expr_stmt : List Attribute → M x Stmt
  parse_expr_stmt attrs = do
    e ← expr 0
    made ← assigned e
    ended attrs "Expected ';' at end of expression statement" (λ _. made)

  unfoldable pub parse_struct : List Attribute → M x Stmt
  parse_struct attrs = do
    expect_or_synchronize kw_struct "Expected struct"
    name ← parse_identifier
    generics ← optional_generics
    fields ← parse_field_list
    pure (stmt attrs (struct (record { name = name; generics = generics; fields = fields })))

  unfoldable pub attribute_round : List Attribute → M x (Flow (List Attribute))
  attribute_round attrs p =
      if check Token.attribute p
      then (do a ← attr; pure (again (push attrs a))) p
      else ok (done attrs, p)

  -- The loop of `parse_with_attributes`.
  unfoldable pub parse_attributes : M x (List Attribute)
  parse_attributes = iterate attribute_round []

module _ {x : External} (rec : StmtCalls x) where
  unfoldable pub block_round : List Stmt → M x (Flow (List Stmt))
  block_round stmts p =
      if not (check r_brace p) && has_token p
      then (if check semi_colon p
          then ok (again stmts, advance p)
          else (do s ← rec.statement; pure (again (push stmts s))) p)
      else ok (done stmts, p)

  unfoldable pub parse_block : M x Block
  parse_block = do
    start ← here
    is_open ← expect l_brace "Expected '{' at beginning of block"
    if is_open
        then (do
          stmts ← iterate block_round []
          expect r_brace "Expected '}' at end of block"
          span ← since start.start
          pure (block (stmts_of stmts) span))
        else (do synchronize; span ← since start.start; pure (block (stmts_of []) span))

  unfoldable pub parse_for : List Attribute → M x Stmt
  parse_for attrs = do
    expect_or_synchronize kw_for "Expected 'for'"
    var ← parse_identifier
    expect_or_synchronize kw_in "Expected 'in' after for variable"
    range_start ← here
    start_expr ← expr 0
    expect_or_synchronize double_dot "Expected '..' in for range"
    end_expr ← expr 0
    range_span ← since range_start.start
    step_expr ← optional kw_step (expr 0)
    body ← parse_block
    span ← here
    pure (
        stmt attrs (
          for_loop var
            (record { start = start_expr; end = end_expr; step = step_expr; span = range_span })
            body span))

  unfoldable pub parse_else : M x OptionElse
  parse_else p =
      if check kw_else p
      then (do
        modify advance
        is_if ← gets (check kw_if)
        if is_if
            then (do s ← rec.if_statement []; pure (some_else (else_if s)))
            else (do b ← parse_block; pure (some_else (else_block b))))
          p
      else ok (no_else, p)

  unfoldable pub parse_if : List Attribute → M x Stmt
  parse_if attrs = do
    expect_or_synchronize kw_if "Expected 'if'"
    condition ← expr 0
    then_branch ← parse_block
    else_branch ← parse_else
    pure (stmt attrs (if_branch condition then_branch else_branch))

  unfoldable pub parse_func : List Attribute → M x Stmt
  parse_func attrs = do
    expect_or_synchronize kw_func "Expected func"
    proto ← parse_func_proto
    body ← parse_block
    pure (stmt attrs (function (func_decl proto (some_block body))))

  -- The closure that `parse_stmt` hands to `parse_with_attributes`, by the current token.
  unfoldable pub dispatch : List Attribute → Option Token → M x Stmt
  dispatch attrs (some kw_func) = parse_func attrs
  dispatch attrs (some kw_struct) = parse_struct attrs
  dispatch attrs (some kw_import) = parse_import
  dispatch attrs (some kw_dim) = do decls ← parse_dim; pure (stmt attrs (dim_decl decls))
  dispatch attrs (some kw_let) = parse_let attrs
  dispatch attrs (some kw_break) = parse_break attrs
  dispatch attrs (some kw_continue) = parse_continue attrs
  dispatch attrs (some kw_for) = parse_for attrs
  dispatch attrs (some kw_if) = parse_if attrs
  dispatch attrs (some kw_return) = parse_return attrs
  dispatch attrs _ = parse_expr_stmt attrs

  unfoldable pub parse_stmt : M x Stmt
  parse_stmt = do attrs ← parse_attributes; t ← gets λ p. p.current_token; dispatch attrs t

module _ {x : External} where
  unfoldable pub stmt_calls : ℕ → StmtCalls x
  stmt_calls zero = record { statement = λ _. out_of_fuel; if_statement = λ _ _. out_of_fuel }
  stmt_calls (suc f) = record {
    statement = parse_stmt (stmt_calls f);
    if_statement = parse_if (stmt_calls f);
  }

  unfoldable pub statement : M x Stmt
  statement p = (stmt_calls (suc (size p))).statement p
