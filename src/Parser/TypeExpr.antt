-- ===== src/Parser/TypeExpr.antt =====
-- Type expressions of parser.rs: parse_type_expr, parse_generic_argument_list, parse_shape_expr.
use kuai.Prelude.{
  Bool, true, false, not, ◌&&◌, Option, none, some, List, [], ◌∷◌, push, if◌then◌else◌,
}
use kuai.Syntax.Token.{
  Token, comma, l_bracket, r_bracket, identifier, type_bool, type_char, type_i8, type_i16, type_i32,
  type_i64, type_f32, type_f64,
}
use kuai.Syntax.Ast.{
  Expr, TypeExpr, PrimitiveType, primitive, named_type, tensor, type_error, exprs, types,
}
use kuai.Syntax.External.{External}
use kuai.Outcome.{ok, Flow, again, done, pure, ◌>>=◌, ◌>>◌, gets, modify}
use kuai.Parser.State.{
  M, advance, check, has_token, report_error, here, expect, synchronize_until, iterate,
  parse_identifier,
}
use kuai.Parser.Argument.{Calls, is_expr_error}

-- `PrimitiveType::from_token`
abbrev pub from_token : Token → Option PrimitiveType
from_token type_bool = some PrimitiveType.bool
from_token type_char = some PrimitiveType.char
from_token type_i8 = some PrimitiveType.i8
from_token type_i16 = some PrimitiveType.i16
from_token type_i32 = some PrimitiveType.i32
from_token type_i64 = some PrimitiveType.i64
from_token type_f32 = some PrimitiveType.f32
from_token type_f64 = some PrimitiveType.f64
from_token _ = none

abbrev pub primitive_of : Option Token → Option PrimitiveType
primitive_of none = none
primitive_of (some t) = from_token t

abbrev pub is_type_error : TypeExpr → Bool
is_type_error (type_error _) = true
is_type_error _ = false

module _ {x : External} (rec : Calls x) where
  -- A type argument that is an error is dropped.
  unfoldable pub add_type : List TypeExpr → TypeExpr → M x (List TypeExpr)
  add_type args ty =
      if is_type_error ty
      then (do synchronize_until (comma ∷ Token.gt ∷ []); pure args)
      else pure (push args ty)

  unfoldable pub generic_argument_round : List TypeExpr → M x (Flow (List TypeExpr))
  generic_argument_round args p =
      if not (check Token.gt p) && has_token p
      then (do
        ty ← rec.type_expr
        args' ← add_type args ty
        is_comma ← gets (check comma)
        is_gt ← gets (check Token.gt)
        if is_comma
            then (do modify advance; pure (again args'))
            else if is_gt
            then pure (again args')
            else pure (done args'))
          p
      else ok (done args, p)

  unfoldable pub parse_generic_argument_list : M x (List TypeExpr)
  parse_generic_argument_list = do
    is_open ← expect Token.lt "Expected '<' at start of generic arguments"
    if is_open
        then (do
          args ← iterate generic_argument_round []
          expect Token.gt "Expected '>' after generic arguments"
          pure args)
        else pure []

  unfoldable pub add_dim : List Expr → Expr → M x (List Expr)
  add_dim shape e =
      if is_expr_error e
      then (do synchronize_until (comma ∷ r_bracket ∷ []); pure shape)
      else pure (push shape e)

  unfoldable pub shape_round : List Expr → M x (Flow (List Expr))
  shape_round shape p =
      if not (check r_bracket p) && has_token p
      then (do
        e ← rec.expr 0
        shape' ← add_dim shape e
        is_comma ← gets (check comma)
        is_close ← gets (check r_bracket)
        if is_comma
            then (do modify advance; pure (again shape'))
            else if is_close
            then pure (again shape')
            else pure (done shape'))
          p
      else ok (done shape, p)

  unfoldable pub parse_shape_expr : M x (List Expr)
  parse_shape_expr = do
    is_open ← expect l_bracket "Expected '[' at start of shape expression"
    if is_open
        then (do
          shape ← iterate shape_round []
          expect r_bracket "Expected ']' at end of shape expression"
          pure shape)
        else pure []

  unfoldable pub named_generics : M x (List TypeExpr)
  named_generics p = if check Token.lt p then parse_generic_argument_list p else ok ([], p)

  unfoldable pub base_type : Option PrimitiveType → M x TypeExpr
  base_type (some t) p = ok (primitive t, advance p)
  base_type none p =
      if check identifier p
      then (do
        name ← parse_identifier
        generics ← named_generics
        pure (named_type name (types generics)))
          p
      else if has_token p
      then (do
        modify (report_error "Expected type expression")
        span ← here
        modify advance
        pure (type_error span))
          p
      else (do modify (report_error "Invalid token"); span ← here; pure (type_error span)) p

  -- The shape after a base type, if there is one.
  unfoldable pub shaped : TypeExpr → M x TypeExpr
  shaped ty p =
      if check l_bracket p
      then (do shape ← parse_shape_expr; pure (tensor ty (exprs shape))) p
      else ok (ty, p)

  unfoldable pub parse_type_expr : M x TypeExpr
  parse_type_expr p = (do ty ← base_type (primitive_of p.current_token); shaped ty) p
