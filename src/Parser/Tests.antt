-- ===== src/Parser/Tests.antt =====
-- Runs of the parser on concrete lexemes.
use kuai.Prelude.{◌≡◌, ◌≢◌, ◌↔◌, ◌<◌, is_some, refl, pos, true, false, some, List, [], ◌∷◌}
use kuai.Syntax.Token.{Token, variant, token_eq}
use kuai.Syntax.Text.{decimal_of, decimal}
use kuai.Syntax.Diagnostic.{CompileResult, is_ok}
use kuai.Syntax.Ast
use kuai.Outcome.{ok, panicked, out_of_fuel, loop}
use kuai.Prelude.{ℕ, String, ◌++◌, arith}
use kuai.Parser.Grammar
use kuai.Parser.Grammar.{Word, Written, binary, lexemes, meaning, IsGrammatical}
use kuai.Parser.Reads.{expr-meaning}
use kuai.Samples.Sum.{sum, start, let_sum, finish, result, sum_parses, sum_parses_again}
use kuai.Samples.{plain, plain-IsInterner, lexeme, unknown}
use kuai.Parser.State.{
  Parser, Lexeme, has_token, next, new, peek, advance, check, peek_is, report_error, unread, size,
  iterate, expect, consume, sync_round, synchronize, sync_until_round, synchronize_until,
  parse_identifier,
}
use kuai.Parser.Argument.{
  argument_value, named_argument, parse_argument, add_argument, argument_round, parse_argument_list,
  attribute_arguments, attribute_named, parse_attribute,
}
use kuai.Parser.TypeExpr.{
  add_type, generic_argument_round, parse_generic_argument_list, add_dim, shape_round,
  parse_shape_expr, named_generics, base_type, shaped, parse_type_expr,
}
use kuai.Parser.Expr.{
  infix_binding_power, consume_operator, skip_token, array_round, parse_array_literal,
  index_separator, index_round, parse_index_access, binary_round, turbofish, path_round,
  infix_round, parse_prefix, operator_round, operators, parse_expr,
}
use kuai.Parser.Knot.{calls, expr, type_expr, attr}
use kuai.Parser.Decl.{
  optional, comma_or_break, parse_param, add_param, param_round, parse_param_list, generic_rest,
  parse_generic_param, generic_round, parse_generic_param_list, optional_generics, parse_func_proto,
  expect_or_synchronize, parse_field_decl, skip_comma, field_separator, field_round,
  parse_field_list, dim_round, parse_dim, path_segment_round, parse_path,
}
use kuai.Parser.Stmt.{
  ended, parse_import, parse_let, parse_break, parse_continue, parse_return, assigned,
  parse_expr_stmt, parse_struct, attribute_round, parse_attributes, block_round, parse_block,
  parse_for, parse_else, parse_if, parse_func, dispatch, parse_stmt, stmt_calls, statement,
}
use kuai.Parser.Parse.{result_of, parse}
use kuai.Parser.Total.{parse-ne-out_of_fuel, statement_progress, parse_reads_all}
use kuai.Parser.Reports.{Extends, parse-Extends, parse-is_ok_iff, parse_keeps_names, parse_stops}
use kuai.Parser.Panics.{AllSafe, parse_returns, unclosed_index_panics}

sum_statement : statement start ≡ ok (let_sum, finish)
unfolding loop token_eq variant decimal_of decimal next new peek advance check peek_is report_error
    unread size iterate expect consume sync_round synchronize sync_until_round synchronize_until
    parse_identifier argument_value named_argument parse_argument add_argument argument_round
    parse_argument_list attribute_arguments attribute_named parse_attribute add_type
    generic_argument_round parse_generic_argument_list add_dim shape_round parse_shape_expr
    named_generics base_type shaped parse_type_expr infix_binding_power consume_operator skip_token
    array_round parse_array_literal index_separator index_round parse_index_access binary_round
    turbofish path_round infix_round parse_prefix operator_round operators parse_expr calls expr
    type_expr attr optional comma_or_break parse_param add_param param_round parse_param_list
    generic_rest parse_generic_param generic_round parse_generic_param_list optional_generics
    parse_func_proto expect_or_synchronize parse_field_decl skip_comma field_separator field_round
    parse_field_list dim_round parse_dim path_segment_round parse_path ended parse_import parse_let
    parse_break parse_continue parse_return assigned parse_expr_stmt parse_struct attribute_round
    parse_attributes block_round parse_block parse_for parse_else parse_if parse_func dispatch
    parse_stmt stmt_calls statement
sum_statement = refl

-- `return 7;`
abbrev return_seven : List Lexeme
return_seven =
    lexeme Token.kw_return "return" 0 6
    ∷ lexeme Token.integer_literal "7" 7 8
    ∷ lexeme Token.semi_colon ";" 8 9
    ∷ []

return_seven-AllSafe : AllSafe plain (new return_seven 9 [])
unfolding new
return_seven-AllSafe = record {
  current = record {
    no_bracket = λ e. cc;
    integer = λ e. cc;
    float = λ e. cc;
    attribute = λ e. cc;
  };
  rest = (
    record { no_bracket = λ e. cc; integer = λ _ e. cc; float = λ e. cc; attribute = λ e. cc },
    (record { no_bracket = λ e. cc; integer = λ e. cc; float = λ e. cc; attribute = λ e. cc }, tt),
  );
}

-- `[`
abbrev open_bracket : Parser plain
unfolding new
open_bracket = new (lexeme Token.l_bracket "[" 0 1 ∷ []) 1 []

parse-ne-out_of_fuel_example : parse start ≢ out_of_fuel
parse-ne-out_of_fuel_example = parse-ne-out_of_fuel start

parse_returns_example :
    (a : CompileResult Ast.Module × Parser plain) × (parse (new return_seven 9 []) ≡ ok a)
parse_returns_example = parse_returns (new return_seven 9 []) return_seven-AllSafe

statement_progress_example : size finish < size start
statement_progress_example =
    statement_progress start finish let_sum (unfold new in refl) sum_statement

parse_reads_all_example : (has_token finish ≡ false) × (is_some result.output ≡ true)
parse_reads_all_example = parse_reads_all start finish result sum_parses

parse-is_ok_iff_example : (is_ok result ≡ true) ↔ (result.diagnostics ≡ [])
unfolding new
parse-is_ok_iff_example = parse-is_ok_iff sum 14 [] finish result sum_parses

parse-Extends_example :
    (result.diagnostics ≡ finish.diagnostics) × Extends start.diagnostics result.diagnostics
parse-Extends_example = parse-Extends start finish result sum_parses

parse_keeps_names_example : plain.resolve finish.interner 0 ≡ some "x"
parse_keeps_names_example =
    parse_keeps_names plain-IsInterner 0 "x" (new sum 14 ("x" ∷ [])) finish result
      (unfold new in refl) sum_parses_again

-- An unknown text before `sum`: the parse ends at once.
parse_stops_example :
    let p = new {x = plain} (unknown "$" 0 1 ∷ sum) 15 [] in parse p ≡ ok (result_of p [] p, p)
parse_stops_example = parse_stops (unknown "$" 0 1) sum 15 [] refl

unclosed_index_panics_example :
    parse_index_access
      (calls 1)
      (Ast.variable (record { id = 0; span = record { start = 0; end = 1 } }))
      open_bracket
    ≡ panicked
unfolding open_bracket
unclosed_index_panics_example =
    unclosed_index_panics (calls 1)
      (Ast.variable (record { id = 0; span = record { start = 0; end = 1 } })) open_bracket refl
      (unfold advance in refl)

abbrev word : String → ℕ → ℕ → Word
word s a b = record { slice = s; span = record { start = a; end = b } }

-- `1 + x * 2`
abbrev one_plus_double : Written
one_plus_double = binary (Grammar.int (word "1" 0 1) (pos 1)) Ast.plus (word "+" 2 3) (
    binary (Grammar.variable (record { word = word "x" 4 5; key = 0 })) Ast.star (word "*" 6 7)
      (Grammar.int (word "2" 8 9) (pos 2)))

one_plus_double-IsGrammatical : IsGrammatical plain ("x" ∷ []) one_plus_double
unfolding IsGrammatical
one_plus_double-IsGrammatical =
    (refl, (refl, refl, omega arith, omega arith), omega arith, omega arith)

-- Behind it stands a semicolon.
expr-meaning_example :
    expr 0 (
      new {x = plain}
        (lexemes one_plus_double ++ lexeme Token.semi_colon ";" 9 10 ∷ [])
        10
        ("x" ∷ []))
    ≡ ok (
      meaning one_plus_double,
      new {x = plain} (lexeme Token.semi_colon ";" 9 10 ∷ []) 10 ("x" ∷ []),
    )
expr-meaning_example =
    expr-meaning plain 10 ("x" ∷ []) one_plus_double (lexeme Token.semi_colon ";" 9 10 ∷ [])
      one_plus_double-IsGrammatical refl
