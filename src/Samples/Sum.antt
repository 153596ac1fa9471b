-- ===== src/Samples/Sum.antt =====
-- The source `let x = 1 + 2;` and its parse.
use kuai.Prelude.{◌≡◌, refl, pos, none, some, List, [], ◌∷◌}
use kuai.Syntax.Token.{Token, variant, token_eq}
use kuai.Syntax.Text.{decimal_of, decimal}
use kuai.Syntax.Diagnostic.{CompileResult}
use kuai.Syntax.Ast
use kuai.Outcome.{ok, loop}
use kuai.Samples.{plain, lexeme}
use kuai.Parser.State.{
  Parser, Lexeme, next, new, peek, advance, check, peek_is, report_error, unread, size, iterate,
  expect, consume, sync_round, synchronize, sync_until_round, synchronize_until, parse_identifier,
}
use kuai.Parser.Argument.{
  argument_value, named_argument, parse_argument, add_argument, argument_round, parse_argument_list,
  attribute_arguments, attribute_named, parse_attribute,
}
use kuai.Parser.TypeExpr.{
  add_type, generic_argument_round, parse_generic_argument_list, add_dim, shape_round,
  parse_shape_expr, named_generics, base_type, shaped, parse_type_expr,
}
use kuai.Parser.Expr.{
  infix_binding_power, consume_operator, skip_token, array_round, parse_array_literal,
  index_separator, index_round, parse_index_access, binary_round, turbofish, path_round,
  infix_round, parse_prefix, operator_round, operators, parse_expr,
}
use kuai.Parser.Knot.{calls, expr, type_expr, attr}
use kuai.Parser.Decl.{
  optional, comma_or_break, parse_param, add_param, param_round, parse_param_list, generic_rest,
  parse_generic_param, generic_round, parse_generic_param_list, optional_generics, parse_func_proto,
  expect_or_synchronize, parse_field_decl, skip_comma, field_separator, field_round,
  parse_field_list, dim_round, parse_dim, path_segment_round, parse_path,
}
use kuai.Parser.Stmt.{
  ended, parse_import, parse_let, parse_break, parse_continue, parse_return, assigned,
  parse_expr_stmt, parse_struct, attribute_round, parse_attributes, block_round, parse_block,
  parse_for, parse_else, parse_if, parse_func, dispatch, parse_stmt, stmt_calls, statement,
}
use kuai.Parser.Parse.{stmt_round, parse_impl, parse}

-- `let x = 1 + 2;`
abbrev pub sum : List Lexeme
sum =
    lexeme Token.kw_let "let" 0 3
    ∷ lexeme Token.identifier "x" 4 5
    ∷ lexeme Token.assign "=" 6 7
    ∷ lexeme Token.integer_literal "1" 8 9
    ∷ lexeme Token.plus "+" 10 11
    ∷ lexeme Token.integer_literal "2" 12 13
    ∷ lexeme Token.semi_colon ";" 13 14
    ∷ []

abbrev pub start : Parser plain
start = new sum 14 []

abbrev pub let_sum : Ast.Stmt
let_sum = Ast.stmt [] (
    Ast.var_decl (record {
      name = record { id = 0; span = record { start = 4; end = 5 } };
      ty = none;
      init =
          some
            (Ast.binary (Ast.literal (Ast.int (pos 1))) Ast.plus (Ast.literal (Ast.int (pos 2))));
      span = record { start = 14; end = 14 };
    }))

abbrev pub finish : Parser plain
finish = record {
  lexer = record { rest = []; slice = ""; span = record { start = 14; end = 14 }; source_len = 14 };
  interner = "x" ∷ [];
  current_token = none;
  current_slice = "";
  diagnostics = [];
}

abbrev pub result : CompileResult Ast.Module
result = record {
  output = some (record {
    top_level_attributes = [];
    stmts = let_sum ∷ [];
    span = record { start = 0; end = 14 };
  });
  diagnostics = [];
}

pub sum_parses : parse start ≡ ok (result, finish)
unfolding loop token_eq variant decimal_of decimal next new peek advance check peek_is report_error
    unread size iterate expect consume sync_round synchronize sync_until_round synchronize_until
    parse_identifier argument_value named_argument parse_argument add_argument argument_round
    parse_argument_list attribute_arguments attribute_named parse_attribute add_type
    generic_argument_round parse_generic_argument_list add_dim shape_round parse_shape_expr
    named_generics base_type shaped parse_type_expr infix_binding_power consume_operator skip_token
    array_round parse_array_literal index_separator index_round parse_index_access binary_round
    turbofish path_round infix_round parse_prefix operator_round operators parse_expr calls expr
    type_expr attr optional comma_or_break parse_param add_param param_round parse_param_list
    generic_rest parse_generic_param generic_round parse_generic_param_list optional_generics
    parse_func_proto expect_or_synchronize parse_field_decl skip_comma field_separator field_round
    parse_field_list dim_round parse_dim path_segment_round parse_path ended parse_import parse_let
    parse_break parse_continue parse_return assigned parse_expr_stmt parse_struct attribute_round
    parse_attributes block_round parse_block parse_for parse_else parse_if parse_func dispatch
    parse_stmt stmt_calls statement stmt_round parse_impl parse
sum_parses = refl

-- The same source where `x` has been interned before.
pub sum_parses_again : parse (new {x = plain} sum 14 ("x" ∷ [])) ≡ ok (result, finish)
unfolding loop token_eq variant decimal_of decimal next new peek advance check peek_is report_error
    unread size iterate expect consume sync_round synchronize sync_until_round synchronize_until
    parse_identifier argument_value named_argument parse_argument add_argument argument_round
    parse_argument_list attribute_arguments attribute_named parse_attribute add_type
    generic_argument_round parse_generic_argument_list add_dim shape_round parse_shape_expr
    named_generics base_type shaped parse_type_expr infix_binding_power consume_operator skip_token
    array_round parse_array_literal index_separator index_round parse_index_access binary_round
    turbofish path_round infix_round parse_prefix operator_round operators parse_expr calls expr
    type_expr attr optional comma_or_break parse_param add_param param_round parse_param_list
    generic_rest parse_generic_param generic_round parse_generic_param_list optional_generics
    parse_func_proto expect_or_synchronize parse_field_decl skip_comma field_separator field_round
    parse_field_list dim_round parse_dim path_segment_round parse_path ended parse_import parse_let
    parse_break parse_continue parse_return assigned parse_expr_stmt parse_struct attribute_round
    parse_attributes block_round parse_block parse_for parse_else parse_if parse_func dispatch
    parse_stmt stmt_calls statement stmt_round parse_impl parse
sum_parses_again = refl
