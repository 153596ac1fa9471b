-- ===== src/Parser/Keeps/Parse.antt =====
-- What a whole parse keeps.
use kuai.Prelude.{List, [], arith}
use kuai.Syntax.Token.{semi_colon}
use kuai.Syntax.Ast.{Stmt}
use kuai.Syntax.External.{External}
use kuai.Parser.State.{Parser, check, has_token, size}
use kuai.Parser.Parse.{stmt_round, parse_impl, parse}
use kuai.Parser.Keeps.Rules.{Invariant, returns, Keeps, Rounds, Ends-if, Ends-bind, iterate-Keeps}
use kuai.Parser.Keeps.State.{sizes, has_token-size}
use kuai.Parser.Keeps.Stmt.{statement-Keeps}

module _ {x : External} (inv : Invariant x) where
  stmt_round-Rounds :
      (stmts : List Stmt) (p : Parser x) → inv.Holds p → Rounds inv (size p) (stmt_round stmts p)
  unfolding stmt_round
  stmt_round-Rounds stmts p i =
      Ends-if (has_token p)
        (λ h.
          let full = has_token-size p h in
          Ends-if (check semi_colon p) (λ _. returns (omega sizes, inv.advance p i))
            (λ _. Ends-bind _ (statement-Keeps inv p i) λ s q (le, j). returns (omega sizes, j)))
        (λ _. returns (omega arith, i))

  pub parse_impl-Keeps : (p : Parser x) → inv.Holds p → Keeps inv (size p) (parse_impl p)
  unfolding parse_impl
  parse_impl-Keeps p i =
      iterate-Keeps stmt_round [] p (λ stmts q _ j. stmt_round-Rounds stmts q j) i

  pub parse-Keeps : (p : Parser x) → inv.Holds p → Keeps inv (size p) (parse p)
  unfolding parse
  parse-Keeps p i = Ends-bind _ (parse_impl-Keeps p i) λ stmts q (s, j). returns (s, j)
