-- ===== src/Printer/Stmts.antt =====
-- The brackets of a printed module.
use kuai.Prelude.{ℕ, ◌≡◌, refl, ap, Option, none, some, List, [], ◌∷◌, String, All, map}
use kuai.Syntax.Ast
use kuai.Syntax.Ast.{
  Attribute, Stmt, StmtImpl, Block, Stmts, ElseBranch, OptionElse, OptionBlock, Module,
}
use kuai.Syntax.External.{External}
use kuai.Outcome.{ok}
use kuai.Printer.Doc.{Docs, Printed}
use kuai.Printer.Expr.{attribute_to_doc}
use kuai.Printer.Stmt.{
  append_attributes, impl_to_doc, stmt_to_doc, stmts_to_docs, block_to_doc, append_body,
  append_else, else_to_doc, top_level_to_doc, module_to_doc, print_ast, print_doc, rendered,
}
use kuai.Printer.Nested.{
  IsLayout, Takes, Even, word-Even, space-Even, hardline-Even, nil-Even, grouped-Takes,
  nested-Takes, stay, in_round, walk, Closed, Bracket,
}
use kuai.Printer.Lists.{
  interspersed-Even, append_some-Takes, append_items-Takes, map-Even, wrap_list-Takes,
}
use kuai.Printer.Exprs.{
  ◌▸◌, opens, closes, inner, square_list, ident-Even, path-Even, expr-Even, type-Even,
  attribute-Even,
}
use kuai.Printer.Decls.{proto-Even, struct-Takes, range-Even, dim-Even}
use kuai.Printer.Printable.{
  AttributePrintable, ImplPrintable, StmtPrintable, StmtsPrintable, BlockPrintable, BodyPrintable,
  ElsePrintable, ElseBranchPrintable, ModulePrintable,
}

module _ {d : Docs} (laws : IsLayout d) (name_of : ℕ → Option String) where
  attributes-Even :
      (attrs : List Attribute)
      → All (AttributePrintable d name_of) attrs
      → All (Even laws) (map (attribute_to_doc name_of) attrs)
  attributes-Even attrs h = map-Even laws _ _ attrs (attribute-Even laws name_of) h

  -- The tag of a statement and its attributes.
  tag :
      (attrs : List Attribute) {p : Printed d}
      → All (AttributePrintable d name_of) attrs
      → Takes laws stay in_round p
      → Takes laws stay in_round (append_attributes name_of attrs p)
  tag attrs h t =
      append_items-Takes laws stay in_round _ _ _
        (λ hs t. t ▸ inner laws (square_list laws _ hs) ▸ inner laws (space-Even laws))
        (attributes-Even attrs h) t

  mutual
    unfolding impl_to_doc ImplPrintable

    impl-Even :
        (attrs : List Attribute) (s : StmtImpl)
        → All (AttributePrintable d name_of) attrs
        → ImplPrintable d name_of s
        → Even laws (impl_to_doc name_of attrs s)
    impl-Even attrs (Ast.import path) h i =
        opens laws "(<import> " (λ st. refl)
        ▸ inner laws (path-Even laws name_of path i)
        ▸ closes laws
    impl-Even attrs (Ast.function (Ast.func_decl proto body)) h (p, b) = grouped-Takes laws (
        append_body-Takes body b (
          tag attrs h (opens laws "(<func> " λ st. refl)
          ▸ inner laws (proto-Even laws name_of proto p)
          ▸ inner laws (space-Even laws))
        ▸ closes laws)
    impl-Even attrs (Ast.struct decl) h i =
        tag attrs h (opens laws "(<struct> " λ st. refl) ▸ struct-Takes laws name_of decl i
    impl-Even attrs (Ast.expr e) h i = expr-Even laws name_of e i
    impl-Even attrs (Ast.return e) h i = grouped-Takes laws (
        opens laws "(<return> " (λ st. refl)
        ▸ inner laws (expr-Even laws name_of e i)
        ▸ closes laws)
    impl-Even attrs (Ast.dim_decl decls) h i =
        wrap_list-Takes laws stay in_round "(<dim_group> " ")" _ (λ st. refl) (λ st. refl)
          (map-Even laws _ _ decls (dim-Even laws name_of) i)
    impl-Even attrs (Ast.var_decl decl) h (n, t, o) = grouped-Takes laws (
        append_some-Takes laws stay in_round _ decl.init _ _
          (λ e h t.
            t
            ▸ inner laws (word-Even laws " = " λ st. refl)
            ▸ inner laws (expr-Even laws name_of e h))
          o
          (append_some-Takes laws stay in_round _ decl.ty _ _
            (λ e h t.
              t
              ▸ inner laws (word-Even laws ": " λ st. refl)
              ▸ inner laws (type-Even laws name_of e h))
            t
            (opens laws "(<let> " (λ st. refl) ▸ inner laws (ident-Even laws name_of decl.name n)))
        ▸ closes laws)
    impl-Even attrs (Ast.assignment target value span) h (t, v) = grouped-Takes laws (
        opens laws "(<set> " (λ st. refl)
        ▸ inner laws (expr-Even laws name_of target t)
        ▸ inner laws (word-Even laws " = " λ st. refl)
        ▸ inner laws (expr-Even laws name_of value v)
        ▸ closes laws)
    impl-Even attrs (Ast.if_branch condition then_branch else_branch) h (c, t, e) =
        grouped-Takes laws (
          append_else-Takes else_branch e (
            tag attrs h (opens laws "(<if> " λ st. refl)
            ▸ inner laws (expr-Even laws name_of condition c)
            ▸ inner laws (space-Even laws)
            ▸ inner laws (block-Even then_branch t))
          ▸ closes laws)
    impl-Even attrs (Ast.for_loop var range body span) h (v, r, b) = grouped-Takes laws (
        tag attrs h (opens laws "(<for> " λ st. refl)
        ▸ inner laws (ident-Even laws name_of var v)
        ▸ inner laws (space-Even laws)
        ▸ inner laws (range-Even laws name_of range r)
        ▸ inner laws (space-Even laws)
        ▸ inner laws (block-Even body b)
        ▸ closes laws)
    impl-Even attrs (Ast.break span) h i = word-Even laws "<break>" λ st. refl
    impl-Even attrs (Ast.continue span) h i = word-Even laws "<continue>" λ st. refl
    impl-Even attrs (Ast.stmt_error span) h i = word-Even laws "<stmt_error>" λ st. refl

    stmt-Even : (s : Stmt) → StmtPrintable d name_of s → Even laws (stmt_to_doc name_of s)
    stmt-Even (Ast.stmt attrs s) (h, i) = impl-Even attrs s h i

    stmts-Even :
        (ss : Stmts) → StmtsPrintable d name_of ss → All (Even laws) (stmts_to_docs name_of ss)
    stmts-Even Ast.no_stmts h = tt
    stmts-Even (Ast.more_stmts s ss) (h, hs) = (stmt-Even s h, stmts-Even ss hs)

    block-Even : (b : Block) → BlockPrintable d name_of b → Even laws (block_to_doc name_of b)
    block-Even (Ast.block stmts span) h = grouped-Takes laws (
        opens laws "(<block>" (λ st. refl)
        ▸ inner laws (
            nested-Takes laws (
              hardline-Even laws
              ▸ interspersed-Even laws _ d.hardline laws.hardline (stmts-Even stmts h)))
        ▸ inner laws (hardline-Even laws)
        ▸ closes laws)

    append_body-Takes :
        (body : OptionBlock) {p : Printed d}
        → BodyPrintable d name_of body
        → Takes laws stay in_round p
        → Takes laws stay in_round (append_body name_of body p)
    append_body-Takes Ast.no_block h t = t
    append_body-Takes (Ast.some_block b) h t = t ▸ inner laws (block-Even b h)

    append_else-Takes :
        (branch : OptionElse) {p : Printed d}
        → ElsePrintable d name_of branch
        → Takes laws stay in_round p
        → Takes laws stay in_round (append_else name_of branch p)
    append_else-Takes Ast.no_else h t = t
    append_else-Takes (Ast.some_else e) h t =
        t ▸ inner laws (space-Even laws) ▸ inner laws (else-Even e h)

    else-Even :
        (e : ElseBranch) → ElseBranchPrintable d name_of e → Even laws (else_to_doc name_of e)
    else-Even (Ast.else_block b) h = block-Even b h
    else-Even (Ast.else_if s) h = stmt-Even s h

  top_level-Even :
      (ps : List (Printed d)) → All (Even laws) ps → Even laws (top_level_to_doc name_of ps)
  top_level-Even [] h = nil-Even laws
  top_level-Even (p ∷ ps) h =
      wrap_list-Takes laws stay in_round "(<module_attrs> " ")" (p ∷ ps) (λ st. refl) (λ st. refl) h
      ▸ hardline-Even laws

  module-Even : (m : Module) → ModulePrintable d name_of m → Even laws (module_to_doc name_of m)
  unfolding module_to_doc
  module-Even m (attrs, stmts) =
      top_level-Even _ (attributes-Even m.top_level_attributes attrs)
      ▸ interspersed-Even laws _ d.hardline laws.hardline
          (map-Even laws _ _ m.stmts stmt-Even stmts)

-- A rendering of a document that closes what it opens.
rendered-Closed :
    {d : Docs} (laws : IsLayout d) (doc : d.Doc) (o : Option String)
    → d.render 80 doc ≡ o
    → ((st : List Bracket) → walk st (laws.inside doc) ≡ some st)
    → Closed (rendered o)
rendered-Closed laws doc none e h st = refl
rendered-Closed laws doc (some s) e h st = rw (laws.render 80 doc s e) (h st)

-- If documents are laid out as the crate `pretty` documents, the interner has every name of a
-- module and the module's names and text literals close the brackets that they open, then print_ast
-- returns a text, without a panic, and in this text every round and square bracket is closed by one
-- of its kind, innermost first.
pub print_ast-Closed :
    (x : External) {d : Docs} (laws : IsLayout d) (m : Module) (interner : x.Rodeo)
    → ModulePrintable d (x.resolve interner) m
    → (s : String) × (print_ast x d m interner ≡ ok s) × Closed s
unfolding print_ast
print_ast-Closed x {d = d} laws m interner h =
    let even = module-Even laws (x.resolve interner) m h in
    (
      rendered (d.render 80 even.doc),
      ap (print_doc d) even.is_printed,
      rendered-Closed laws even.doc (d.render 80 even.doc) refl even.walks,
    )
