-- ===== src/Printer/Decls.antt =====
-- The brackets of printed parameters, prototypes, fields, structs, ranges and dimensions.
use kuai.Prelude.{ℕ, refl, Option, String}
use kuai.Syntax.Ast.{Param, GenericParam, FuncProto, FieldDecl, StructDecl, Range, DimDecl}
use kuai.Printer.Doc.{Docs}
use kuai.Printer.Decl.{
  param_to_doc, generic_to_doc, proto_to_doc, field_to_doc, struct_to_doc, range_to_doc, dim_to_doc,
}
use kuai.Printer.Nested.{
  IsLayout, Takes, Even, word-Even, space-Even, hardline-Even, grouped-Takes, nested-Takes, stay,
  in_round,
}
use kuai.Printer.Lists.{interspersed-Even, append_some-Takes, append_items-Takes, map-Even}
use kuai.Printer.Exprs.{
  ◌▸◌, opens, closes, inner, round_list, angle_list, ident-Even, expr-Even, type-Even,
}
use kuai.Printer.Printable.{
  ParamPrintable, GenericPrintable, ProtoPrintable, FieldPrintable, StructPrintable, RangePrintable,
  DimPrintable,
}

module _ {d : Docs} (laws : IsLayout d) (name_of : ℕ → Option String) where
  pub param-Even : (p : Param) → ParamPrintable d name_of p → Even laws (param_to_doc name_of p)
  unfolding param_to_doc
  param-Even p (n, t, o) = grouped-Takes laws (
      append_some-Takes laws stay in_round _ p.default_value _ _
        (λ e h t.
          t
          ▸ inner laws (word-Even laws " = " λ st. refl)
          ▸ inner laws (expr-Even laws name_of e h))
        o
        (opens laws "(<param> " (λ st. refl)
          ▸ inner laws (ident-Even laws name_of p.name n)
          ▸ inner laws (word-Even laws ": " λ st. refl)
          ▸ inner laws (type-Even laws name_of p.ty t))
      ▸ closes laws)

  pub generic-Even :
      (p : GenericParam) → GenericPrintable d name_of p → Even laws (generic_to_doc name_of p)
  unfolding generic_to_doc
  generic-Even p (n, b, o) = grouped-Takes laws (
      append_some-Takes laws stay in_round _ p.default_type _ _
        (λ e h t.
          t
          ▸ inner laws (word-Even laws " = " λ st. refl)
          ▸ inner laws (type-Even laws name_of e h))
        o
        (append_some-Takes laws stay in_round _ p.bound _ _
          (λ e h t.
            t
            ▸ inner laws (word-Even laws ": " λ st. refl)
            ▸ inner laws (type-Even laws name_of e h))
          b (opens laws "(<generic> " (λ st. refl) ▸ inner laws (ident-Even laws name_of p.name n)))
      ▸ closes laws)

  pub proto-Even : (p : FuncProto) → ProtoPrintable d name_of p → Even laws (proto_to_doc name_of p)
  unfolding proto_to_doc
  proto-Even p (n, gs, ps, r) = grouped-Takes laws (
      append_some-Takes laws stay in_round _ p.return_type _ _
        (λ e h t.
          t
          ▸ inner laws (word-Even laws " -> " λ st. refl)
          ▸ inner laws (type-Even laws name_of e h))
        r
        (append_items-Takes laws stay in_round _ _ _
            (λ hs t. t ▸ inner laws (space-Even laws) ▸ inner laws (angle_list laws _ hs))
            (map-Even laws _ _ p.generics generic-Even gs)
            (opens laws "(<proto> " (λ st. refl) ▸ inner laws (ident-Even laws name_of p.name n))
          ▸ inner laws (space-Even laws)
          ▸ inner laws (round_list laws _ (map-Even laws _ _ p.params param-Even ps)))
      ▸ closes laws)

  field-Even : (f : FieldDecl) → FieldPrintable d name_of f → Even laws (field_to_doc name_of f)
  unfolding field_to_doc
  field-Even f (n, t) = grouped-Takes laws (
      opens laws "(<field> " (λ st. refl)
      ▸ inner laws (ident-Even laws name_of f.name n)
      ▸ inner laws (word-Even laws ": " λ st. refl)
      ▸ inner laws (type-Even laws name_of f.ty t)
      ▸ closes laws)

  -- It closes the bracket that the statement has opened.
  pub struct-Takes :
      (s : StructDecl)
      → StructPrintable d name_of s
      → Takes laws in_round stay (struct_to_doc name_of s)
  unfolding struct_to_doc
  struct-Takes s (n, gs, fs) = grouped-Takes laws (
      append_items-Takes laws in_round in_round _ _ _
        (λ hs t. t ▸ inner laws (space-Even laws) ▸ inner laws (angle_list laws _ hs))
        (map-Even laws _ _ s.generics generic-Even gs)
        (inner laws (word-Even laws "" λ st. refl) ▸ inner laws (ident-Even laws name_of s.name n))
      ▸ inner laws (
          nested-Takes laws (
            hardline-Even laws
            ▸ interspersed-Even laws _ d.hardline laws.hardline
                (map-Even laws _ _ s.fields field-Even fs)))
      ▸ inner laws (hardline-Even laws)
      ▸ closes laws)

  pub range-Even : (r : Range) → RangePrintable d name_of r → Even laws (range_to_doc name_of r)
  unfolding range_to_doc
  range-Even r (s, e, o) =
      append_some-Takes laws stay in_round _ r.step _ _
        (λ e h t.
          t
          ▸ inner laws (word-Even laws " step " λ st. refl)
          ▸ inner laws (expr-Even laws name_of e h))
        o
        (opens laws "(<range> " (λ st. refl)
          ▸ inner laws (expr-Even laws name_of r.start s)
          ▸ inner laws (word-Even laws ".." λ st. refl)
          ▸ inner laws (expr-Even laws name_of r.end e))
      ▸ closes laws

  pub dim-Even : (dim : DimDecl) → DimPrintable d name_of dim → Even laws (dim_to_doc name_of dim)
  unfolding dim_to_doc
  dim-Even dim (n, b, v) =
      append_some-Takes laws stay in_round _ dim.value _ _
        (λ e h t.
          t
          ▸ inner laws (word-Even laws " = " λ st. refl)
          ▸ inner laws (expr-Even laws name_of e h))
        v
        (append_some-Takes laws stay in_round _ dim.bound _ _
          (λ e h t.
            t
            ▸ inner laws (word-Even laws ": " λ st. refl)
            ▸ inner laws (expr-Even laws name_of e h))
          b (opens laws "(<dim> " (λ st. refl) ▸ inner laws (ident-Even laws name_of dim.name n)))
      ▸ closes laws
