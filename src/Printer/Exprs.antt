-- ===== src/Printer/Exprs.antt =====
-- The brackets of printed expressions, types and attributes.
use kuai.Prelude.{ℕ, ◌≡◌, refl, ◌∙◌, Option, some, List, String, All}
use kuai.Syntax.Text.{format}
use kuai.Syntax.Ast
use kuai.Syntax.Ast.{
  Ident, Literal, BinaryOp, PrimitiveType, Expr, Exprs, TypeExpr, TypeExprs, Argument, Arguments,
  Attribute, ImportPath,
}
use kuai.Printer.Doc.{Docs, Printed, ◌<>◌, word, wrap_list, ident_to_doc}
use kuai.Printer.Expr.{
  primitive_to_doc, literal_to_doc, operator_to_doc, path_to_doc, expr_to_doc, exprs_to_docs,
  type_to_doc, types_to_docs, argument_to_doc, arguments_to_docs, attribute_to_doc,
}
use kuai.Printer.Nested.{
  Bracket, edges, edges-format, walk, walk-append, IsLayout, Takes, Even, within, append-Takes,
  word-Takes, word-Even, space-Even, softline-Even, grouped-Takes, stay, in_round, in_square,
  Closed,
}
use kuai.Printer.Lists.{interspersed-Even, wrap_list-Takes, append_items-Takes, map-Even}
use kuai.Printer.Printable.{
  IdentPrintable, LiteralPrintable, ExprPrintable, ExprsPrintable, TypePrintable, TypesPrintable,
  ArgumentPrintable, ArgumentsPrintable, AttributePrintable, PathPrintable,
}

-- One document behind another.
infixl 4 ◌▸◌
abbrev pub ◌▸◌ :
    {d : Docs} {laws : IsLayout d} {f g h : List Bracket → List Bracket} {p q : Printed d}
    → Takes laws f g p
    → Takes laws g h q
    → Takes laws f h (p <> q)
◌▸◌ {laws = laws} a b = append-Takes laws a b

module _ {d : Docs} (laws : IsLayout d) where
  abbrev pub opens :
      (s : String)
      → ((st : List Bracket) → walk st (edges s) ≡ some (in_round st))
      → Takes laws stay in_round (word s)
  opens s h = word-Takes laws stay in_round s h

  pub closes : Takes laws in_round stay (word ")")
  closes = word-Takes laws in_round stay ")" (λ st. refl)

  -- What stands in the brackets.
  abbrev pub inner : {p : Printed d} → Even laws p → Takes laws in_round in_round p
  inner = within laws in_round

  pub square_list : (ps : List (Printed d)) → All (Even laws) ps → Even laws (wrap_list "[" ps "]")
  square_list ps h = wrap_list-Takes laws stay in_square "[" "]" ps (λ st. refl) (λ st. refl) h

  pub round_list : (ps : List (Printed d)) → All (Even laws) ps → Even laws (wrap_list "(" ps ")")
  round_list ps h = wrap_list-Takes laws stay in_round "(" ")" ps (λ st. refl) (λ st. refl) h

  pub angle_list : (ps : List (Printed d)) → All (Even laws) ps → Even laws (wrap_list "<" ps ">")
  angle_list ps h = wrap_list-Takes laws stay stay "<" ">" ps (λ st. refl) (λ st. refl) h

  generics_list : (ps : List (Printed d)) → All (Even laws) ps → Even laws (wrap_list " <" ps ">")
  generics_list ps h = wrap_list-Takes laws stay stay " <" ">" ps (λ st. refl) (λ st. refl) h

  primitive-Even : (p : PrimitiveType) → Even laws (primitive_to_doc p)
  primitive-Even PrimitiveType.bool = word-Even laws "<bool>" λ st. refl
  primitive-Even PrimitiveType.char = word-Even laws "<char>" λ st. refl
  primitive-Even PrimitiveType.i8 = word-Even laws "<i8>" λ st. refl
  primitive-Even PrimitiveType.i16 = word-Even laws "<i16>" λ st. refl
  primitive-Even PrimitiveType.i32 = word-Even laws "<i32>" λ st. refl
  primitive-Even PrimitiveType.i64 = word-Even laws "<i64>" λ st. refl
  primitive-Even PrimitiveType.f32 = word-Even laws "<f32>" λ st. refl
  primitive-Even PrimitiveType.f64 = word-Even laws "<f64>" λ st. refl

  operator-Even : (op : BinaryOp) → Even laws (operator_to_doc op)
  operator-Even BinaryOp.plus = word-Even laws "<+>" λ st. refl
  operator-Even BinaryOp.minus = word-Even laws "<->" λ st. refl
  operator-Even BinaryOp.star = word-Even laws "<*>" λ st. refl
  operator-Even BinaryOp.slash = word-Even laws "</>" λ st. refl

  -- A literal between its tag and a bracket.
  tagged-Closed :
      (tag s : String)
      → ((st : List Bracket) → walk st (edges tag) ≡ some (in_round st))
      → Closed s
      → Closed (format tag (format s ")"))
  tagged-Closed tag s h k st = rw (edges-format tag (format s ")")) (
      walk-append st (edges tag) (edges (format s ")")) (h st)
      ∙ rw (edges-format s ")") (walk-append (in_round st) (edges s) (edges ")") (k (in_round st))))

  literal-Even :
      (name_of : ℕ → Option String) (l : Literal)
      → LiteralPrintable d name_of l
      → Even laws (literal_to_doc l)
  literal-Even name_of (Literal.float f) h =
      word-Even laws _
        (tagged-Closed "(<f64> " (d.show_float f) (λ st. refl) λ st. rw (laws.show_float f) refl)
  literal-Even name_of (Literal.int i) h =
      word-Even laws _
        (tagged-Closed "(<i64> " (d.show_int i) (λ st. refl) λ st. rw (laws.show_int i) refl)
  literal-Even name_of (Literal.string s) h =
      word-Even laws _ (tagged-Closed "(<str> " (d.show_string s) (λ st. refl) h)

module _ {d : Docs} (laws : IsLayout d) (name_of : ℕ → Option String) where
  pub ident-Even :
      (ident : Ident) → IdentPrintable d name_of ident → Even laws (ident_to_doc name_of ident)
  unfolding ident_to_doc
  ident-Even ident (s, known, closed) = rw known (word-Even laws s closed)

  pub path-Even :
      (path : ImportPath) → PathPrintable d name_of path → Even laws (path_to_doc name_of path)
  unfolding path_to_doc
  path-Even path h =
      interspersed-Even laws _ (d.text "::") (laws.text "::")
        (map-Even laws _ _ path.segments ident-Even h)

  mutual
    unfolding expr_to_doc ExprPrintable

    pub expr-Even : (e : Expr) → ExprPrintable d name_of e → Even laws (expr_to_doc name_of e)
    expr-Even (Ast.literal l) h = literal-Even laws name_of l h
    expr-Even (Ast.variable ident) h = ident-Even ident h
    expr-Even (Ast.binary left op right) (l, r) = grouped-Takes laws (
        opens laws "(" (λ st. refl)
        ▸ inner laws (operator-Even laws op)
        ▸ inner laws (space-Even laws)
        ▸ inner laws (
            expr-Even left l
            ▸ word-Even laws "," (λ st. refl)
            ▸ softline-Even laws
            ▸ expr-Even right r)
        ▸ closes laws)
    expr-Even (Ast.member_access target member) (t, m) = grouped-Takes laws (
        opens laws "(<dot> " (λ st. refl)
        ▸ inner laws (expr-Even target t)
        ▸ inner laws (word-Even laws ", " λ st. refl)
        ▸ inner laws (ident-Even member m)
        ▸ closes laws)
    expr-Even (Ast.namespace_access namespace member) (t, m) = grouped-Takes laws (
        opens laws "(<::> " (λ st. refl)
        ▸ inner laws (expr-Even namespace t)
        ▸ inner laws (word-Even laws ", " λ st. refl)
        ▸ inner laws (ident-Even member m)
        ▸ closes laws)
    expr-Even (Ast.index target indices) (t, es) = grouped-Takes laws (
        opens laws "(<index> " (λ st. refl)
        ▸ inner laws (expr-Even target t)
        ▸ inner laws (space-Even laws)
        ▸ inner laws (square_list laws _ (exprs-Even indices es))
        ▸ closes laws)
    expr-Even (Ast.vector_literal es) h = square_list laws _ (exprs-Even es h)
    expr-Even (Ast.call func generics args) (f, ts, as') = grouped-Takes laws (
        append_items-Takes laws stay in_round _ _ _
          (λ hs t. t ▸ inner laws (generics_list laws _ hs)) (types-Even generics ts)
          (opens laws "(<call> " (λ st. refl) ▸ inner laws (expr-Even func f))
        ▸ inner laws (space-Even laws)
        ▸ inner laws (round_list laws _ (arguments-Even args as'))
        ▸ closes laws)
    expr-Even (Ast.expr_error span) h = word-Even laws "<error>" λ st. refl

    pub exprs-Even :
        (es : Exprs) → ExprsPrintable d name_of es → All (Even laws) (exprs_to_docs name_of es)
    exprs-Even Ast.no_exprs h = tt
    exprs-Even (Ast.more_exprs e es) (h, hs) = (expr-Even e h, exprs-Even es hs)

    pub type-Even : (t : TypeExpr) → TypePrintable d name_of t → Even laws (type_to_doc name_of t)
    type-Even (Ast.primitive p) h = primitive-Even laws p
    type-Even (Ast.named_type name generics) (n, ts) = grouped-Takes laws (
        append_items-Takes laws stay in_round _ _ _
          (λ hs t. t ▸ inner laws (generics_list laws _ hs)) (types-Even generics ts)
          (opens laws "(<type> " (λ st. refl) ▸ inner laws (ident-Even name n))
        ▸ closes laws)
    type-Even (Ast.tensor base shape) (t, es) = grouped-Takes laws (
        opens laws "(<tensor> " (λ st. refl)
        ▸ inner laws (type-Even base t)
        ▸ inner laws (space-Even laws)
        ▸ inner laws (square_list laws _ (exprs-Even shape es))
        ▸ closes laws)
    type-Even (Ast.type_error span) h = word-Even laws "<type_error>" λ st. refl

    pub types-Even :
        (ts : TypeExprs) → TypesPrintable d name_of ts → All (Even laws) (types_to_docs name_of ts)
    types-Even Ast.no_types h = tt
    types-Even (Ast.more_types t ts) (h, hs) = (type-Even t h, types-Even ts hs)

    pub argument-Even :
        (a : Argument) → ArgumentPrintable d name_of a → Even laws (argument_to_doc name_of a)
    argument-Even (Ast.positional e) h = expr-Even e h
    argument-Even (Ast.named name value) (n, v) =
        ident-Even name n ▸ word-Even laws " = " (λ st. refl) ▸ expr-Even value v
    argument-Even (Ast.attribute_argument attr) h = attribute-Even attr h

    pub arguments-Even :
        (as' : Arguments)
        → ArgumentsPrintable d name_of as'
        → All (Even laws) (arguments_to_docs name_of as')
    arguments-Even Ast.no_arguments h = tt
    arguments-Even (Ast.more_arguments a as') (h, hs) = (argument-Even a h, arguments-Even as' hs)

    pub attribute-Even :
        (attr : Attribute)
        → AttributePrintable d name_of attr
        → Even laws (attribute_to_doc name_of attr)
    attribute-Even (Ast.attribute name args) (closed, as') =
        append_items-Takes laws stay stay _ _ _ (λ hs t. t ▸ round_list laws _ hs)
          (arguments-Even args as') (word-Even laws "@" (λ st. refl) ▸ word-Even laws name closed)
