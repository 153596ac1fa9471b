-- ===== src/Parser/Keeps/Stmt.antt =====
-- What the methods for statements keep, and that every statement reads a lexeme.
use kuai.Prelude.{ℕ, zero, suc, ◌≤◌, ◌<◌, ◌≡◌, refl, true, not, ◌&&◌, Option, some, List, [], arith}
use kuai.Syntax.Token.{
  Token, kw_func, kw_struct, kw_import, kw_return, kw_let, kw_dim, kw_if, kw_else, kw_for, kw_in,
  kw_step, kw_break, kw_continue, double_dot, semi_colon, l_brace, r_brace,
}
use kuai.Syntax.Ast.{Attribute, Stmt}
use kuai.Syntax.External.{External}
use kuai.Parser.State.{Parser, check, has_token, unread, size, advance}
use kuai.Parser.Knot.{expr}
use kuai.Parser.Stmt.{
  StmtCalls, block_round, parse_block, parse_for, parse_else, parse_if, parse_func, dispatch,
  parse_stmt, stmt_calls, statement,
}
use kuai.Parser.Keeps.Rules.{
  Invariant, returns, Keeps, Rounds, Ends-if, Ends-if_at, Ends-bind, Keeps-weaken, iterate-Keeps,
}
use kuai.Parser.Keeps.State.{
  sizes, check-size, check-current, has_token-size, expect-Keeps, expect-reads, synchronize-Keeps,
  parse_identifier-Keeps,
}
use kuai.Parser.Keeps.Knot.{expr-Keeps}
use kuai.Parser.Keeps.Decl.{optional-Keeps, parse_func_proto-Keeps}
use kuai.Parser.Keeps.Parts.{
  expect_or_synchronize-Keeps, expect_or_synchronize-reads, parse_dim-Keeps,
}
use kuai.Parser.Keeps.Plain.{
  parse_attributes-Ends, parse_break-Keeps, parse_continue-Keeps, parse_expr_stmt-Keeps,
  parse_import-Keeps, parse_let-Keeps, parse_return-Keeps, parse_struct-Keeps,
}

module _ {x : External} (inv : Invariant x) where
  -- Calls at fewer than `n` lexemes read a lexeme if there is one.
  record GoodStmts (n : ℕ) (rec : StmtCalls x) : Type 0 where
    statement : (p : Parser x) → size p < n → inv.Holds p → Keeps inv (unread p) (rec.statement p)
    if_statement :
        (attrs : List Attribute) (p : Parser x)
        → size p < n
        → check kw_if p ≡ true
        → inv.Holds p
        → Keeps inv (unread p) (rec.if_statement attrs p)

module _ {x : External} (inv : Invariant x) (n : ℕ) (rec : StmtCalls x)
    (good : GoodStmts inv n rec) where
  block_round-Rounds :
      (stmts : List Stmt) (p : Parser x)
      → size p < n
      → inv.Holds p
      → Rounds inv (size p) (block_round rec stmts p)
  unfolding block_round
  block_round-Rounds stmts p lt i =
      Ends-if (not (check r_brace p) && has_token p)
        (λ h.
          let full = has_token-size p (ground arith) in
          Ends-if (check semi_colon p) (λ _. returns (omega sizes, inv.advance p i))
            (λ _. Ends-bind _ (good.statement p lt i) λ s q (le, j). returns (omega sizes, j)))
        (λ _. returns (omega arith, i))

  parse_block-Keeps :
      (p : Parser x) → size p ≤ n → inv.Holds p → Keeps inv (size p) (parse_block rec p)
  unfolding parse_block
  parse_block-Keeps p le i =
      Ends-bind _ (expect-reads inv l_brace "Expected '{' at beginning of block" p i)
        λ is_open p₁ (reads, s₁, i₁).
          Ends-if_at is_open _ _ p₁
            (λ o.
              let lt = reads o in
              Ends-bind _
                (iterate-Keeps (block_round rec) [] p₁
                  (λ stmts q s j. block_round-Rounds stmts q (omega arith) j) i₁)
                λ stmts p₂ (s₂, i₂).
                  Ends-bind _ (expect-Keeps inv r_brace _ p₂ i₂)
                    λ _ p₃ (s₃, i₃). returns (omega arith, i₃))
            (λ _.
              Ends-bind _ (synchronize-Keeps inv p₁ i₁) λ _ p₂ (s₂, i₂). returns (omega arith, i₂))

  parse_for-Keeps :
      (attrs : List Attribute) (p : Parser x)
      → size p ≤ n
      → check kw_for p ≡ true
      → inv.Holds p
      → Keeps inv (unread p) (parse_for rec attrs p)
  unfolding parse_for
  parse_for-Keeps attrs p le c i =
      Ends-bind _ (expect_or_synchronize-reads inv kw_for _ p c i) λ _ p₁ (s₁, i₁).
        Ends-bind _ (parse_identifier-Keeps inv p₁ i₁) λ var p₂ (s₂, i₂).
          Ends-bind _ (expect_or_synchronize-Keeps inv kw_in _ p₂ i₂) λ _ p₃ (s₃, i₃).
            Ends-bind _ (expr-Keeps inv 0 p₃ i₃) λ start p₄ (s₄, i₄).
              Ends-bind _ (expect_or_synchronize-Keeps inv double_dot _ p₄ i₄) λ _ p₅ (s₅, i₅).
                Ends-bind _ (expr-Keeps inv 0 p₅ i₅) λ end p₆ (s₆, i₆).
                  Ends-bind _ (optional-Keeps inv kw_step (expr 0) p₆ (expr-Keeps inv 0) i₆)
                    λ step p₇ (s₇, i₇).
                      Ends-bind _ (parse_block-Keeps p₇ (omega sizes) i₇)
                        λ body p₈ (s₈, i₈). returns (omega sizes, i₈)

  parse_else-Keeps :
      (p : Parser x) → size p ≤ n → inv.Holds p → Keeps inv (size p) (parse_else rec p)
  unfolding parse_else
  parse_else-Keeps p le i =
      Ends-if (check kw_else p)
        (λ c.
          let full = check-size kw_else p c in
          let j = inv.advance p i in
          Ends-if_at (check kw_if (advance p)) _ _ (advance p)
            (λ d.
              Ends-bind _ (good.if_statement [] (advance p) (omega sizes) d j)
                λ s q (b, k). returns (omega sizes, k))
            (λ _.
              Ends-bind _ (parse_block-Keeps (advance p) (omega sizes) j)
                λ s q (b, k). returns (omega sizes, k)))
        (λ _. returns (omega arith, i))

  parse_if-Keeps :
      (attrs : List Attribute) (p : Parser x)
      → size p ≤ n
      → check kw_if p ≡ true
      → inv.Holds p
      → Keeps inv (unread p) (parse_if rec attrs p)
  unfolding parse_if
  parse_if-Keeps attrs p le c i =
      Ends-bind _ (expect_or_synchronize-reads inv kw_if _ p c i) λ _ p₁ (s₁, i₁).
        Ends-bind _ (expr-Keeps inv 0 p₁ i₁) λ condition p₂ (s₂, i₂).
          Ends-bind _ (parse_block-Keeps p₂ (omega sizes) i₂) λ then_branch p₃ (s₃, i₃).
            Ends-bind _ (parse_else-Keeps p₃ (omega sizes) i₃)
              λ else_branch p₄ (s₄, i₄). returns (omega sizes, i₄)

  parse_func-Keeps :
      (attrs : List Attribute) (p : Parser x)
      → size p ≤ n
      → check kw_func p ≡ true
      → inv.Holds p
      → Keeps inv (unread p) (parse_func rec attrs p)
  unfolding parse_func
  parse_func-Keeps attrs p le c i =
      Ends-bind _ (expect_or_synchronize-reads inv kw_func _ p c i) λ _ p₁ (s₁, i₁).
        Ends-bind _ (parse_func_proto-Keeps inv p₁ i₁) λ proto p₂ (s₂, i₂).
          Ends-bind _ (parse_block-Keeps p₂ (omega sizes) i₂)
            λ body p₃ (s₃, i₃). returns (omega sizes, i₃)

  dispatch-Keeps :
      (attrs : List Attribute) (t : Option Token) (p : Parser x)
      → size p ≤ n
      → p.current_token ≡ t
      → inv.Holds p
      → Keeps inv (unread p) (dispatch rec attrs t p)
  unfolding dispatch
  dispatch-Keeps attrs (some kw_func) p le e i =
      parse_func-Keeps attrs p le (check-current kw_func p e) i
  dispatch-Keeps attrs (some kw_struct) p le e i =
      parse_struct-Keeps inv attrs p (check-current kw_struct p e) i
  dispatch-Keeps attrs (some kw_import) p le e i =
      parse_import-Keeps inv p (check-current kw_import p e) i
  dispatch-Keeps attrs (some kw_dim) p le e i =
      Ends-bind _ (parse_dim-Keeps inv p (check-current kw_dim p e) i) λ ds q (s, j). returns (s, j)
  dispatch-Keeps attrs (some kw_let) p le e i = parse_let-Keeps inv attrs p i
  dispatch-Keeps attrs (some kw_break) p le e i = parse_break-Keeps inv attrs p i
  dispatch-Keeps attrs (some kw_continue) p le e i = parse_continue-Keeps inv attrs p i
  dispatch-Keeps attrs (some kw_for) p le e i =
      parse_for-Keeps attrs p le (check-current kw_for p e) i
  dispatch-Keeps attrs (some kw_if) p le e i = parse_if-Keeps attrs p le (check-current kw_if p e) i
  dispatch-Keeps attrs (some kw_return) p le e i = parse_return-Keeps inv attrs p i
  dispatch-Keeps attrs _ p le e i = parse_expr_stmt-Keeps inv attrs p i

  parse_stmt-Keeps :
      (p : Parser x) → size p ≤ n → inv.Holds p → Keeps inv (unread p) (parse_stmt rec p)
  unfolding parse_stmt
  parse_stmt-Keeps p le i = Ends-bind _ (parse_attributes-Ends inv p i) λ attrs q (s, u, j).
      Keeps-weaken (dispatch-Keeps attrs q.current_token q (omega arith) refl j) u

module _ {x : External} (inv : Invariant x) where
  stmt_calls-GoodStmts : (n : ℕ) → GoodStmts inv n (stmt_calls n)
  unfolding stmt_calls
  stmt_calls-GoodStmts zero = record {
    statement = λ p lt i. absurd (omega arith);
    if_statement = λ attrs p lt c i. absurd (omega arith);
  }
  stmt_calls-GoodStmts (suc n) = record {
    statement =
        λ p lt i. parse_stmt-Keeps inv n (stmt_calls n) (stmt_calls-GoodStmts n) p (omega arith) i;
    if_statement = λ attrs p lt c i.
        parse_if-Keeps inv n (stmt_calls n) (stmt_calls-GoodStmts n) attrs p (omega arith) c i;
  }

  -- A statement ends without running out of fuel, reads a lexeme if a token stands there, and
  -- keeps the invariant.
  pub statement-Keeps : (p : Parser x) → inv.Holds p → Keeps inv (unread p) (statement p)
  unfolding statement
  statement-Keeps p i = (stmt_calls-GoodStmts (suc (size p))).statement p (omega arith) i
