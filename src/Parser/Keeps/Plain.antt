-- ===== src/Parser/Keeps/Plain.antt =====
-- What the methods for statements without blocks keep, and the attributes before a statement.
use kuai.Prelude.{◌≤◌, ◌≡◌, true, List, [], String, arith}
use kuai.Syntax.Token.{Token, kw_struct, kw_import, colon, semi_colon, assign}
use kuai.Syntax.Diagnostic.{Span}
use kuai.Syntax.Ast.{Expr, Attribute, StmtImpl}
use kuai.Syntax.External.{External}
use kuai.Outcome.{Outcome}
use kuai.Parser.State.{Parser, check, unread, size, advance}
use kuai.Parser.Knot.{expr, type_expr}
use kuai.Parser.Stmt.{
  ended, parse_import, parse_let, parse_break, parse_continue, parse_return, assigned,
  parse_expr_stmt, parse_struct, attribute_round, parse_attributes,
}
use kuai.Parser.Keeps.Rules.{
  Invariant, Ends, returns, panics, Keeps, Rounds, Ends-if, Ends-if_at, Ends-bind, Ends-weaken,
  Keeps-weaken, iterate-Keeps,
}
use kuai.Parser.Keeps.State.{
  sizes, check-size, expect-Keeps, expect-checked, synchronize-Keeps, parse_identifier-Keeps,
}
use kuai.Parser.Keeps.Knot.{expr-Keeps, type_expr-Keeps, attr-Keeps}
use kuai.Parser.Keeps.Decl.{optional-Keeps, optional_generics-Keeps}
use kuai.Parser.Keeps.Parts.{expect_or_synchronize-reads, parse_path-Keeps, parse_field_list-Keeps}

-- The invariant, and that no more is unread than at `start`.
abbrev bounded : {x : External} → Invariant x → Parser x → Invariant x
bounded inv start = record {
  Holds = λ q. inv.Holds q × (unread q ≤ unread start);
  MayPanic = inv.MayPanic;
  advance = λ p (i, le). (inv.advance p i, omega sizes);
  report = λ msg p (i, le). (inv.report msg p i, omega sizes);
  intern = λ s p (i, le). (inv.intern s p i, unfold unread in le);
  integer = λ p (i, _). inv.integer p i;
  float = λ p (i, _). inv.float p i;
  attribute = λ p (i, _). inv.attribute p i;
  index = λ p (i, _). inv.index p i;
}

module _ {x : External} (inv : Invariant x) where
  ended-Keeps :
      (attrs : List Attribute) (msg : String) (make : Span → StmtImpl) (p : Parser x)
      → inv.Holds p
      → Keeps inv (size p) (ended attrs msg make p)
  unfolding ended
  ended-Keeps attrs msg make p i =
      Ends-bind _ (expect-Keeps inv semi_colon msg p i) λ is_end q (s, j).
        Ends-if_at is_end _ _ q (λ _. returns (s, j))
          (λ _. Ends-bind _ (synchronize-Keeps inv q j) λ _ q' (s', j'). returns (omega arith, j'))

  pub parse_import-Keeps :
      (p : Parser x)
      → check kw_import p ≡ true
      → inv.Holds p
      → Keeps inv (unread p) (parse_import p)
  unfolding parse_import
  parse_import-Keeps p c i = rw (expect-checked inv kw_import "Expected import" p c) (
      Ends-bind _ (parse_path-Keeps inv (advance p) (inv.advance p i))
        λ path q (s, j). Keeps-weaken (ended-Keeps [] _ _ q j) (omega sizes))

  pub parse_let-Keeps :
      (attrs : List Attribute) (p : Parser x)
      → inv.Holds p
      → Keeps inv (unread p) (parse_let attrs p)
  unfolding parse_let
  parse_let-Keeps attrs p i =
      Ends-bind _ (parse_identifier-Keeps inv (advance p) (inv.advance p i)) λ name p₁ (s₁, i₁).
        Ends-bind _ (optional-Keeps inv colon type_expr p₁ (type_expr-Keeps inv) i₁)
          λ ty p₂ (s₂, i₂).
            Ends-bind _ (optional-Keeps inv assign (expr 0) p₂ (expr-Keeps inv 0) i₂)
              λ init p₃ (s₃, i₃). Keeps-weaken (ended-Keeps attrs _ _ p₃ i₃) (omega sizes)

  pub parse_break-Keeps :
      (attrs : List Attribute) (p : Parser x)
      → inv.Holds p
      → Keeps inv (unread p) (parse_break attrs p)
  unfolding parse_break
  parse_break-Keeps attrs p i =
      Keeps-weaken (ended-Keeps attrs _ _ (advance p) (inv.advance p i)) (omega sizes)

  pub parse_continue-Keeps :
      (attrs : List Attribute) (p : Parser x)
      → inv.Holds p
      → Keeps inv (unread p) (parse_continue attrs p)
  unfolding parse_continue
  parse_continue-Keeps attrs p i =
      Keeps-weaken (ended-Keeps attrs _ _ (advance p) (inv.advance p i)) (omega sizes)

  pub parse_return-Keeps :
      (attrs : List Attribute) (p : Parser x)
      → inv.Holds p
      → Keeps inv (unread p) (parse_return attrs p)
  unfolding parse_return
  parse_return-Keeps attrs p i =
      Ends-bind _ (expr-Keeps inv 0 (advance p) (inv.advance p i))
        λ e q (s, j). Keeps-weaken (ended-Keeps attrs _ _ q j) (omega sizes)

  assigned-Keeps : (e : Expr) (p : Parser x) → inv.Holds p → Keeps inv (size p) (assigned e p)
  unfolding assigned
  assigned-Keeps e p i =
      Ends-if (check assign p)
        (λ _.
          Ends-bind _ (expr-Keeps inv 0 (advance p) (inv.advance p i))
            λ v q (s, j). returns (omega sizes, j))
        (λ _. returns (omega arith, i))

  pub parse_expr_stmt-Keeps :
      (attrs : List Attribute) (p : Parser x)
      → inv.Holds p
      → Keeps inv (unread p) (parse_expr_stmt attrs p)
  unfolding parse_expr_stmt
  parse_expr_stmt-Keeps attrs p i = Ends-bind _ (expr-Keeps inv 0 p i) λ e p₁ (s₁, i₁).
      Ends-bind _ (assigned-Keeps e p₁ i₁)
        λ made p₂ (s₂, i₂). Keeps-weaken (ended-Keeps attrs _ _ p₂ i₂) (omega sizes)

  pub parse_struct-Keeps :
      (attrs : List Attribute) (p : Parser x)
      → check kw_struct p ≡ true
      → inv.Holds p
      → Keeps inv (unread p) (parse_struct attrs p)
  unfolding parse_struct
  parse_struct-Keeps attrs p c i =
      Ends-bind _ (expect_or_synchronize-reads inv kw_struct _ p c i) λ _ p₁ (s₁, i₁).
        Ends-bind _ (parse_identifier-Keeps inv p₁ i₁) λ name p₂ (s₂, i₂).
          Ends-bind _ (optional_generics-Keeps inv p₂ i₂) λ generics p₃ (s₃, i₃).
            Ends-bind _ (parse_field_list-Keeps inv p₃ i₃)
              λ fields p₄ (s₄, i₄). returns (omega sizes, i₄)

  attribute_round-Rounds :
      (attrs : List Attribute) (p : Parser x)
      → inv.Holds p
      → Rounds inv (size p) (attribute_round attrs p)
  unfolding attribute_round
  attribute_round-Rounds attrs p i =
      Ends-if (check Token.attribute p)
        (λ c.
          Ends-bind _ (attr-Keeps inv p c i)
            λ a q (s, j). returns (omega (sizes, check-size Token.attribute p c), j))
        (λ _. returns (omega arith, i))

module _ {x : External} (inv : Invariant x) where
  unbounded :
      {A : Type 0} (start : Parser x) {Q : A → Parser x → Type 0} {r : Outcome (A × Parser x)}
      → Ends (bounded inv start) Q r
      → Ends inv Q r
  unbounded start (returns h) = returns h
  unbounded start (panics z) = panics z

  -- The attributes before a declaration: what is unread does not grow either.
  pub parse_attributes-Ends :
      (p : Parser x)
      → inv.Holds p
      → Ends inv
          (λ _ q. (size q ≤ size p) × (unread q ≤ unread p) × inv.Holds q)
          (parse_attributes p)
  unfolding parse_attributes
  parse_attributes-Ends p i =
      Ends-weaken
        (unbounded p (
          iterate-Keeps {inv = bounded inv p} attribute_round [] p
            (λ attrs q _ j. attribute_round-Rounds (bounded inv p) attrs q j) (i, omega arith)))
        λ _ q (s, (j, le)). (s, le, j)
