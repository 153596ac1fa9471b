-- ===== src/Printer/Tests.antt =====
-- A printed module, with documents that are texts on one line.
use kuai.Prelude.{ℤ, pos, negsuc, ◌≡◌, refl, ap, ◌∙◌, some, List, [], ◌∷◌, ◌++◌, String, map}
use kuai.Syntax.Text.{format}
use kuai.Syntax.Ast
use kuai.Outcome.{ok}
use kuai.Samples.{plain}
use kuai.Samples.Sum.{let_sum}
use kuai.Printer.Doc.{Docs, wrap_list, ident_to_doc}
use kuai.Printer.Expr.{expr_to_doc}
use kuai.Printer.Stmt.{stmt_to_doc, module_to_doc, print_ast}
use kuai.Printer.Nested.{IsLayout, edges, edges-format, between, Closed}
use kuai.Printer.Printable.{ModulePrintable, ExprPrintable, StmtPrintable}
use kuai.Printer.Stmts.{print_ast-Closed}

abbrev joined : List String → String → String
joined [] sep = ""
joined (s ∷ []) sep = s
joined (s ∷ t ∷ ss) sep = format s (format sep (joined (t ∷ ss) sep))

abbrev shown : ℤ → String
shown (pos n) = "1"
shown (negsuc n) = "-1"

abbrev lines : Docs
lines = record {
  Doc = String;
  text = λ s. s;
  append = format;
  nil = "";
  space = " ";
  softline = " ";
  hardline = "\n";
  nest = λ n s. s;
  group = λ s. s;
  intersperse = joined;
  render = λ width s. some s;
  show_int = shown;
  show_float = λ f. "1.5";
  show_string = λ s. "\"\"";
}

joined-between :
    (ss : List String) (sep : String) → edges (joined ss sep) ≡ between (edges sep) (map edges ss)
joined-between [] sep = refl
joined-between (s ∷ []) sep = refl
joined-between (s ∷ t ∷ ss) sep =
    edges-format s (format sep (joined (t ∷ ss) sep))
    ∙ ap (λ es. edges s ++ es)
        (edges-format sep (joined (t ∷ ss) sep)
          ∙ ap (λ es. edges sep ++ es) (joined-between (t ∷ ss) sep))

edges-shown : (i : ℤ) → edges (shown i) ≡ []
edges-shown (pos n) = refl
edges-shown (negsuc n) = refl

lines-IsLayout : IsLayout lines
lines-IsLayout = record {
  inside = edges;
  text = λ s. refl;
  append = edges-format;
  nil = refl;
  space = refl;
  softline = refl;
  hardline = refl;
  nest = λ n s. refl;
  group = λ s. refl;
  intersperse = joined-between;
  render = λ width s t e. cc;
  show_int = edges-shown;
  show_float = λ f. refl;
}

-- `let x = 1 + 2;` under an attribute.
abbrev sum_module : Ast.Module
sum_module = record {
  top_level_attributes = Ast.attribute "main" Ast.no_arguments ∷ [];
  stmts = let_sum ∷ [];
  span = record { start = 0; end = 14 };
}

sum_module-ModulePrintable : ModulePrintable lines (plain.resolve ("x" ∷ [])) sum_module
unfolding ExprPrintable StmtPrintable
sum_module-ModulePrintable =
    ((((λ st. refl), tt), tt), ((tt, (("x", refl, λ st. refl), tt, (tt, tt))), tt))

print_ast-Closed_example :
    (s : String) × (print_ast plain lines sum_module ("x" ∷ []) ≡ ok s) × Closed s
print_ast-Closed_example =
    print_ast-Closed plain lines-IsLayout sum_module ("x" ∷ []) sum_module-ModulePrintable

sum_printed :
    print_ast plain lines sum_module ("x" ∷ [])
    ≡ ok "(<module_attrs> @main)\n(<let> x = (<+> (<i64> 1), (<i64> 1)))"
unfolding print_ast module_to_doc stmt_to_doc expr_to_doc ident_to_doc wrap_list
sum_printed = refl
