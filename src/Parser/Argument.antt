-- ===== src/Parser/Argument.antt =====
-- Arguments and attributes of parser.rs: parse_argument, parse_argument_list, parse_attribute.
use Prim.Native.Char.{code}
use kuai.Prelude.{
  ℕ, Bool, not, ◌&&◌, Option, none, some, List, [], ◌∷◌, String, push, ltb, if◌then◌else◌,
}
use kuai.Syntax.Token.{Token, comma, l_paren, r_paren, assign, identifier}
use kuai.Syntax.Ast.{
  Expr, TypeExpr, Argument, Attribute, expr_error, positional, named, attribute_argument, attribute,
  arguments, error_ident_name,
}
use kuai.Syntax.External.{External}
use kuai.Outcome.{ok, Flow, again, done, pure, panic, ◌>>=◌, ◌>>◌, gets, modify}
use kuai.Parser.State.{
  M, advance, check, peek_is, has_token, report_error, expect, synchronize_until, iterate,
  parse_identifier,
}

-- The methods that an expression's grammar calls on a shorter input. Parser/Knot.antt ties them.
pub record Calls (x : External) : Type 0 where
  pub expr : ℕ → M x Expr
  pub type_expr : M x TypeExpr
  pub attr : M x Attribute

-- `&s[1..]`, which panics inside a character or past the end.
abbrev pub slice_from_one : String → Option String
slice_from_one String.[] = none
slice_from_one (String.◌∷◌ c s) = if ltb (code c) 128 then some s else none

abbrev pub is_expr_error : Expr → Bool
is_expr_error (expr_error _) = Bool.true
is_expr_error _ = Bool.false

module _ {x : External} (rec : Calls x) where
  unfoldable pub argument_value : Expr → M x (Option Argument)
  argument_value e = if is_expr_error e then pure none else pure (some (positional e))

  unfoldable pub named_argument : M x (Option Argument)
  named_argument = do
    name ← parse_identifier
    is_assign ← expect assign "Expected '=' in named argument"
    is_attribute ← gets (check Token.attribute)
    if is_assign
        then (if is_attribute
            then (do a ← rec.attr; pure (some (attribute_argument a)))
            else (do value ← rec.expr 0; pure (some (named name value))))
        else pure none

  -- `none` is `Err(())`.
  unfoldable pub parse_argument : M x (Option Argument)
  parse_argument p =
      if check identifier p && peek_is assign p
      then named_argument p
      else if check Token.attribute p
      then (do a ← rec.attr; pure (some (attribute_argument a))) p
      else (do e ← rec.expr 0; argument_value e) p

  unfoldable pub add_argument : List Argument → Option Argument → M x (List Argument)
  add_argument args (some a) = pure (push args a)
  add_argument args none = do synchronize_until (comma ∷ r_paren ∷ []); pure args

  unfoldable pub argument_round : List Argument → M x (Flow (List Argument))
  argument_round args p =
      if not (check r_paren p) && has_token p
      then (do
        a ← parse_argument
        args' ← add_argument args a
        is_comma ← gets (check comma)
        if is_comma then (do modify advance; pure (again args')) else pure (done args'))
          p
      else ok (done args, p)

  unfoldable pub parse_argument_list : M x (List Argument)
  parse_argument_list = do
    is_open ← expect l_paren "Expected '(' at begin of argument list"
    if is_open
        then (do
          args ← iterate argument_round []
          expect r_paren "Expected ')' at end of argument list"
          pure args)
        else pure []

  unfoldable pub attribute_arguments : String → M x Attribute
  attribute_arguments name p =
      if check l_paren p
      then (do args ← parse_argument_list; pure (attribute name (arguments args))) p
      else ok (attribute name (arguments []), p)

  unfoldable pub attribute_named : Option String → M x Attribute
  attribute_named none = panic
  attribute_named (some name) = do modify advance; attribute_arguments name

  unfoldable pub parse_attribute : M x Attribute
  parse_attribute p =
      if check Token.attribute p
      then attribute_named (slice_from_one p.current_slice) p
      else ok (attribute error_ident_name (arguments []), report_error "Expected attribute" p)
