-- ===== src/Parser/Knot.antt =====
-- The recursion of parser.rs between expressions, type expressions and attributes. Every call of
-- one of them from another stands behind a token that was read, so the number of lexemes left and
-- one more bounds the depth.
use kuai.Prelude.{ℕ, zero, suc}
use kuai.Syntax.Ast.{Expr, TypeExpr, Attribute}
use kuai.Syntax.External.{External}
use kuai.Outcome.{out_of_fuel}
use kuai.Parser.State.{M, size}
use kuai.Parser.Argument.{Calls, parse_attribute}
use kuai.Parser.TypeExpr.{parse_type_expr}
use kuai.Parser.Expr.{parse_expr}

module _ {x : External} where
  unfoldable pub calls : ℕ → Calls x
  calls zero = record {
    expr = λ _ _. out_of_fuel;
    type_expr = λ _. out_of_fuel;
    attr = λ _. out_of_fuel;
  }
  calls (suc f) = record {
    expr = parse_expr (calls f);
    type_expr = parse_type_expr (calls f);
    attr = parse_attribute (calls f);
  }

  unfoldable pub expr : ℕ → M x Expr
  expr min_bp p = (calls (suc (size p))).expr min_bp p

  unfoldable pub type_expr : M x TypeExpr
  type_expr p = (calls (suc (size p))).type_expr p

  unfoldable pub attr : M x Attribute
  attr p = (calls (suc (size p))).attr p
