-- ===== src/Parser/Keeps/Knot.antt =====
-- Expressions, type expressions and attributes with the recursion tied: the fuel suffices.
use kuai.Prelude.{ℕ, zero, suc, ◌≡◌, true, arith}
use kuai.Syntax.Token.{Token}
use kuai.Syntax.External.{External}
use kuai.Parser.State.{Parser, check, unread, size}
use kuai.Parser.Knot.{calls, expr, type_expr, attr}
use kuai.Parser.Keeps.Rules.{Invariant, Keeps}
use kuai.Parser.Keeps.Argument.{Good, parse_attribute-Keeps}
use kuai.Parser.Keeps.TypeExpr.{parse_type_expr-Keeps}
use kuai.Parser.Keeps.Expr.{parse_expr-Keeps}

module _ {x : External} (inv : Invariant x) where
  pub calls-Good : (n : ℕ) → Good inv n (calls n)
  unfolding calls
  calls-Good zero = record {
    expr = λ min_bp p lt i. absurd (omega arith);
    type_expr = λ p lt i. absurd (omega arith);
    attr = λ p lt c i. absurd (omega arith);
  }
  calls-Good (suc n) = record {
    expr =
        λ min_bp p lt i. parse_expr-Keeps inv n (calls n) (calls-Good n) min_bp p (omega arith) i;
    type_expr = λ p lt i. parse_type_expr-Keeps inv n (calls n) (calls-Good n) p (omega arith) i;
    attr = λ p lt c i. parse_attribute-Keeps inv n (calls n) (calls-Good n) p (omega arith) c i;
  }

  pub expr-Keeps : (min_bp : ℕ) (p : Parser x) → inv.Holds p → Keeps inv (unread p) (expr min_bp p)
  unfolding expr
  expr-Keeps min_bp p i = (calls-Good (suc (size p))).expr min_bp p (omega arith) i

  pub type_expr-Keeps : (p : Parser x) → inv.Holds p → Keeps inv (unread p) (type_expr p)
  unfolding type_expr
  type_expr-Keeps p i = (calls-Good (suc (size p))).type_expr p (omega arith) i

  pub attr-Keeps :
      (p : Parser x) → check Token.attribute p ≡ true → inv.Holds p → Keeps inv (unread p) (attr p)
  unfolding attr
  attr-Keeps p c i = (calls-Good (suc (size p))).attr p (omega arith) c i
