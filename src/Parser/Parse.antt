-- ===== src/Parser/Parse.antt =====
-- The entry of parser.rs: parse and parse_impl.
use kuai.Prelude.{List, [], push, if◌then◌else◌}
use kuai.Syntax.Token.{semi_colon}
use kuai.Syntax.Diagnostic.{CompileResult, with_diagnostics}
use kuai.Syntax.Ast.{Attribute, Stmt, Module}
use kuai.Syntax.External.{External}
use kuai.Outcome.{ok, Flow, again, done, pure, ◌>>=◌, ◌>>◌, gets}
use kuai.Parser.State.{Parser, M, advance, check, has_token, iterate}
use kuai.Parser.Stmt.{statement}

module _ {x : External} where
  unfoldable pub stmt_round : List Stmt → M x (Flow (List Stmt))
  stmt_round stmts p =
      if has_token p
      then (if check semi_colon p
          then ok (again stmts, advance p)
          else (do s ← statement; pure (again (push stmts s))) p)
      else ok (done stmts, p)

  unfoldable pub parse_impl : M x (List Stmt)
  parse_impl = iterate stmt_round []

  -- Top-level attributes are not read yet.
  abbrev parse_top_level_attributes : M x (List Attribute)
  parse_top_level_attributes = pure []

  -- The module of a parse from `p` to `q`, with the diagnostics that `q` has collected.
  abbrev pub result_of : Parser x → List Stmt → Parser x → CompileResult Module
  result_of p stmts q =
      with_diagnostics
        (record {
          top_level_attributes = [];
          stmts = stmts;
          span = record { start = p.lexer.span.start; end = q.lexer.span.end };
        })
        q.diagnostics

  unfoldable pub parse : M x (CompileResult Module)
  parse p = (do parse_top_level_attributes; stmts ← parse_impl; gets (result_of p stmts)) p
