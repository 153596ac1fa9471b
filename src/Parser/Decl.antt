-- ===== src/Parser/Decl.antt =====
-- The parts of declarations in parser.rs that hold no statements: parameters, generic parameters,
-- fields, dimensions, paths and function prototypes.
use kuai.Prelude.{not, ◌&&◌, Option, none, some, List, [], ◌∷◌, String, push, if◌then◌else◌}
use kuai.Syntax.Token.{
  Token, kw_dim, comma, colon, double_colon, semi_colon, assign, arrow, l_paren, r_paren, l_brace,
  r_brace,
}
use kuai.Syntax.Ast.{
  TypeExpr, Ident, ImportPath, DimDecl, Param, GenericParam, FuncProto, FieldDecl,
}
use kuai.Syntax.External.{External}
use kuai.Outcome.{ok, Flow, again, done, pure, ◌>>=◌, ◌>>◌, gets, modify}
use kuai.Parser.State.{
  Parser, M, advance, check, has_token, report_error, here, since, expect, synchronize,
  synchronize_until, iterate, parse_identifier,
}
use kuai.Parser.TypeExpr.{is_type_error}
use kuai.Parser.Knot.{expr, type_expr}

module _ {x : External} where
  -- `if self.check(t) { self.advance(); Some(m) } else { None }`
  unfoldable pub optional : {A : Type 0} → Token → M x A → M x (Option A)
  optional t m p = if check t p then (do modify advance; a ← m; pure (some a)) p else ok (none, p)

  -- After an item of a list: `again` behind a comma, else `break`.
  unfoldable pub comma_or_break : {A : Type 0} → A → M x (Flow A)
  comma_or_break a p = if check comma p then ok (again a, advance p) else ok (done a, p)

  -- `none` is `Err(())`.
  unfoldable pub parse_param : M x (Option Param)
  parse_param = do
    start ← here
    name ← parse_identifier
    is_colon ← expect colon "Expected ':' after parameter name"
    if is_colon
        then (do
          ty ← type_expr
          span ← since start.start
          if is_type_error ty
              then pure none
              else pure (some (record { name = name; ty = ty; default_value = none; span = span })))
        else pure none

  unfoldable pub add_param : List Param → Option Param → M x (List Param)
  add_param params (some a) = pure (push params a)
  add_param params none = do synchronize_until (comma ∷ r_paren ∷ []); pure params

  unfoldable pub param_round : List Param → M x (Flow (List Param))
  param_round params p =
      if not (check r_paren p) && has_token p
      then (do a ← parse_param; params' ← add_param params a; comma_or_break params') p
      else ok (done params, p)

  unfoldable pub parse_param_list : M x (List Param)
  parse_param_list = do
    is_open ← expect l_paren "Expected '(' at start of parameter list"
    if is_open
        then (do
          params ← iterate param_round []
          expect r_paren "Expected ')' at end of parameter list"
          pure params)
        else pure []

  abbrev generic : Ident → Option TypeExpr → Option TypeExpr → M x GenericParam
  generic name bound default_type = do
    span ← here
    pure (record { name = name; bound = bound; default_type = default_type; span = span })

  -- A bound or a default, never both.
  unfoldable pub generic_rest : Ident → M x GenericParam
  generic_rest name p =
      if not (check colon p) && not (check assign p)
      then generic name none none p
      else if check colon p
      then (do modify advance; bound ← type_expr; generic name (some bound) none) p
      else (do modify advance; ty ← type_expr; generic name none (some ty)) p

  unfoldable pub parse_generic_param : M x GenericParam
  parse_generic_param = do name ← parse_identifier; generic_rest name

  unfoldable pub generic_round : List GenericParam → M x (Flow (List GenericParam))
  generic_round generics p =
      if not (check Token.gt p) && has_token p
      then (do g ← parse_generic_param; comma_or_break (push generics g)) p
      else ok (done generics, p)

  unfoldable pub parse_generic_param_list : M x (List GenericParam)
  parse_generic_param_list = do
    is_open ← expect Token.lt "Expected '<' at start of generic parameters"
    if is_open
        then (do
          generics ← iterate generic_round []
          expect Token.gt "Expected '>' after generic parameters"
          pure generics)
        else pure []

  -- `if self.check(Token::Lt) { self.parse_generic_param_list() } else { Vec::new() }`
  unfoldable pub optional_generics : M x (List GenericParam)
  optional_generics p = if check Token.lt p then parse_generic_param_list p else ok ([], p)

  unfoldable pub parse_func_proto : M x FuncProto
  parse_func_proto = do
    name ← parse_identifier
    generics ← optional_generics
    params ← parse_param_list
    return_type ← optional arrow type_expr
    span ← here
    pure (record {
      name = name;
      generics = generics;
      params = params;
      return_type = return_type;
      span = span;
    })

  -- `if !self.expect(t, msg) { self.synchronize(); }`
  unfoldable pub expect_or_synchronize : Token → String → M x (Unit {0})
  expect_or_synchronize t msg = do found ← expect t msg; if found then pure tt else synchronize

  unfoldable pub parse_field_decl : M x FieldDecl
  parse_field_decl = do
    start ← here
    name ← parse_identifier
    expect_or_synchronize colon "Expected ':' after field name"
    ty ← type_expr
    span ← since start.start
    pure (record { name = name; ty = ty; span = span })

  -- `if self.check(Token::Comma) { self.advance(); }`
  unfoldable pub skip_comma : Parser x → Parser x
  skip_comma p = if check comma p then advance p else p

  unfoldable pub field_separator : List FieldDecl → M x (Flow (List FieldDecl))
  field_separator fields p =
      if check comma p
      then ok (again fields, advance p)
      else if not (check r_brace p)
      then (do synchronize_until (comma ∷ r_brace ∷ []); modify skip_comma; pure (again fields)) p
      else ok (again fields, p)

  unfoldable pub field_round : List FieldDecl → M x (Flow (List FieldDecl))
  field_round fields p =
      if not (check r_brace p) && has_token p
      then (do f ← parse_field_decl; field_separator (push fields f)) p
      else ok (done fields, p)

  unfoldable pub parse_field_list : M x (List FieldDecl)
  parse_field_list = do
    expect_or_synchronize l_brace "Expected '{' at start of struct body"
    fields ← iterate field_round []
    expect r_brace "Expected '}' at end of struct body"
    pure fields

  unfoldable pub dim_round : List DimDecl → M x (Flow (List DimDecl))
  dim_round decls = do
    start ← here
    name ← parse_identifier
    bound ← optional colon (expr 0)
    value ← optional assign (expr 0)
    span ← since start.start
    comma_or_break (push decls (record { name = name; bound = bound; value = value; span = span }))

  unfoldable pub parse_dim : M x (List DimDecl)
  parse_dim = do
    is_dim ← expect kw_dim "Expected 'dim'"
    if is_dim
        then (do
          decls ← iterate dim_round []
          expect semi_colon "Expected ';' after dim declaration"
          pure decls)
        else (do modify (report_error "Expected 'dim' keyword"); synchronize; pure [])

  unfoldable pub path_segment_round : List Ident → M x (Flow (List Ident))
  path_segment_round segments = do
    ident ← parse_identifier
    is_more ← gets (check double_colon)
    if is_more
        then (do modify advance; pure (again (push segments ident)))
        else pure (done (push segments ident))

  unfoldable pub parse_path : M x ImportPath
  parse_path = do
    start ← here
    segments ← iterate path_segment_round []
    span ← since start.start
    pure (record { segments = segments; span = span })
