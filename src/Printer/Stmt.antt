-- ===== src/Printer/Stmt.antt =====
-- Statements, blocks, functions and modules in crates/kuai-syntax/src/pretty.rs, and print_ast.
use kuai.Prelude.{ℕ, Option, none, some, List, [], ◌∷◌, String, map}
use kuai.Syntax.Ast
use kuai.Syntax.Ast.{
  Attribute, Stmt, StmtImpl, Block, Stmts, ElseBranch, OptionElse, FuncDecl, OptionBlock, Module,
}
use kuai.Syntax.External.{External}
use kuai.Outcome.{Outcome, ok}
use kuai.Printer.Doc.{
  Docs, Printed, printed, panicked, ◌<>◌, word, space, hardline, grouped, nested, interspersed,
  wrap_list, append_some, append_items, ident_to_doc,
}
use kuai.Printer.Expr.{path_to_doc, expr_to_doc, type_to_doc, attribute_to_doc}
use kuai.Printer.Decl.{proto_to_doc, struct_to_doc, range_to_doc, dim_to_doc}

module _ {d : Docs} (name_of : ℕ → Option String) where
  -- The attributes of a statement, in brackets, where it has any.
  abbrev pub append_attributes : List Attribute → Printed d → Printed d
  append_attributes attrs =
      append_items (map (attribute_to_doc name_of) attrs)
        (λ items doc. doc <> wrap_list "[" items "]" <> space)

  unfoldable mutual
    -- By its attributes.
    pub impl_to_doc : List Attribute → StmtImpl → Printed d
    impl_to_doc attrs (Ast.import path) = word "(<import> " <> path_to_doc name_of path <> word ")"
    impl_to_doc attrs (Ast.function (Ast.func_decl proto body)) = grouped (
        append_body body
          (append_attributes attrs (word "(<func> ") <> proto_to_doc name_of proto <> space)
        <> word ")")
    impl_to_doc attrs (Ast.struct decl) =
        append_attributes attrs (word "(<struct> ") <> struct_to_doc name_of decl
    impl_to_doc attrs (Ast.expr e) = expr_to_doc name_of e
    impl_to_doc attrs (Ast.return e) =
        grouped (word "(<return> " <> expr_to_doc name_of e <> word ")")
    impl_to_doc attrs (Ast.dim_decl decls) =
        wrap_list "(<dim_group> " (map (dim_to_doc name_of) decls) ")"
    impl_to_doc attrs (Ast.var_decl decl) =
        let doc : Printed d = word "(<let> " <> ident_to_doc name_of decl.name in
        let typed : Printed d =
          append_some decl.ty (λ ty doc. doc <> word ": " <> type_to_doc name_of ty) doc in
        grouped (
          append_some decl.init (λ init doc. doc <> word " = " <> expr_to_doc name_of init) typed
          <> word ")")
    impl_to_doc attrs (Ast.assignment target value span) = grouped (
        word "(<set> "
        <> expr_to_doc name_of target
        <> word " = "
        <> expr_to_doc name_of value
        <> word ")")
    impl_to_doc attrs (Ast.if_branch condition then_branch else_branch) = grouped (
        append_else else_branch (
          append_attributes attrs (word "(<if> ")
          <> expr_to_doc name_of condition
          <> space
          <> block_to_doc then_branch)
        <> word ")")
    impl_to_doc attrs (Ast.for_loop var range body span) = grouped (
        append_attributes attrs (word "(<for> ")
        <> ident_to_doc name_of var
        <> space
        <> range_to_doc name_of range
        <> space
        <> block_to_doc body
        <> word ")")
    impl_to_doc attrs (Ast.break span) = word "<break>"
    impl_to_doc attrs (Ast.continue span) = word "<continue>"
    impl_to_doc attrs (Ast.stmt_error span) = word "<stmt_error>"

    pub stmt_to_doc : Stmt → Printed d
    stmt_to_doc (Ast.stmt attrs s) = impl_to_doc attrs s

    pub stmts_to_docs : Stmts → List (Printed d)
    stmts_to_docs Ast.no_stmts = []
    stmts_to_docs (Ast.more_stmts s ss) = stmt_to_doc s ∷ stmts_to_docs ss

    pub block_to_doc : Block → Printed d
    block_to_doc (Ast.block stmts span) = grouped (
        word "(<block>"
        <> nested (hardline <> interspersed (stmts_to_docs stmts) d.hardline)
        <> hardline
        <> word ")")

    -- `if let Some(ref body) = f.body`
    pub append_body : OptionBlock → Printed d → Printed d
    append_body Ast.no_block doc = doc
    append_body (Ast.some_block b) doc = doc <> block_to_doc b

    -- `if let Some(eb) = else_branch`
    pub append_else : OptionElse → Printed d → Printed d
    append_else Ast.no_else doc = doc
    append_else (Ast.some_else e) doc = doc <> space <> else_to_doc e

    pub else_to_doc : ElseBranch → Printed d
    else_to_doc (Ast.else_block b) = block_to_doc b
    else_to_doc (Ast.else_if s) = stmt_to_doc s

  -- `FuncDecl::to_doc`, which the printer of statements does not use.
  unfoldable pub func_to_doc : FuncDecl → Printed d
  func_to_doc (Ast.func_decl proto Ast.no_block) =
      grouped (word "(<func> " <> proto_to_doc name_of proto <> word ")")
  func_to_doc (Ast.func_decl proto (Ast.some_block b)) =
      grouped (word "(<func> " <> proto_to_doc name_of proto <> space <> block_to_doc b <> word ")")

  abbrev pub top_level_to_doc : List (Printed d) → Printed d
  top_level_to_doc [] = printed d.nil
  top_level_to_doc (attr ∷ attrs) = wrap_list "(<module_attrs> " (attr ∷ attrs) ")" <> hardline

  unfoldable pub module_to_doc : Module → Printed d
  module_to_doc m =
      top_level_to_doc (map (attribute_to_doc name_of) m.top_level_attributes)
      <> interspersed (map stmt_to_doc m.stmts) d.hardline

-- What `print_ast` makes of a rendering.
abbrev pub rendered : Option String → String
rendered none = "<rendering error>"
rendered (some s) = s

-- The text of a document in lines of 80 columns.
abbrev pub print_doc : (d : Docs) → Printed d → Outcome String
print_doc d (printed doc) = ok (rendered (d.render 80 doc))
print_doc d panicked = Outcome.panicked

unfoldable pub print_ast : (x : External) → Docs → Module → x.Rodeo → Outcome String
print_ast x d m interner = print_doc d (module_to_doc (x.resolve interner) m)
