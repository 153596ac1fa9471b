-- ===== src/Printer/Decl.antt =====
-- Parameters, prototypes, fields, structs, ranges and dimensions in
-- crates/kuai-syntax/src/pretty.rs.
use kuai.Prelude.{ℕ, Option, String, map}
use kuai.Syntax.Ast.{Param, GenericParam, FuncProto, FieldDecl, StructDecl, Range, DimDecl}
use kuai.Printer.Doc.{
  Docs, Printed, ◌<>◌, word, space, hardline, grouped, nested, interspersed, wrap_list, append_some,
  append_items, ident_to_doc,
}
use kuai.Printer.Expr.{expr_to_doc, type_to_doc}

module _ {d : Docs} (name_of : ℕ → Option String) where
  unfoldable pub param_to_doc : Param → Printed d
  param_to_doc param =
      let doc : Printed d =
        word "(<param> "
        <> ident_to_doc name_of param.name
        <> word ": "
        <> type_to_doc name_of param.ty in
      grouped (
        append_some param.default_value
          (λ default doc. doc <> word " = " <> expr_to_doc name_of default) doc
        <> word ")")

  unfoldable pub generic_to_doc : GenericParam → Printed d
  generic_to_doc param =
      let doc : Printed d = word "(<generic> " <> ident_to_doc name_of param.name in
      let bounded : Printed d =
        append_some param.bound (λ bound doc. doc <> word ": " <> type_to_doc name_of bound) doc in
      grouped (
        append_some param.default_type
          (λ default doc. doc <> word " = " <> type_to_doc name_of default) bounded
        <> word ")")

  unfoldable pub proto_to_doc : FuncProto → Printed d
  proto_to_doc proto =
      let doc : Printed d = word "(<proto> " <> ident_to_doc name_of proto.name in
      let generic : Printed d =
        append_items (map generic_to_doc proto.generics)
          (λ items doc. doc <> space <> wrap_list "<" items ">") doc in
      grouped (
        append_some proto.return_type (λ ret doc. doc <> word " -> " <> type_to_doc name_of ret)
          (generic <> space <> wrap_list "(" (map param_to_doc proto.params) ")")
        <> word ")")

  unfoldable pub field_to_doc : FieldDecl → Printed d
  field_to_doc field = grouped (
      word "(<field> "
      <> ident_to_doc name_of field.name
      <> word ": "
      <> type_to_doc name_of field.ty
      <> word ")")

  unfoldable pub struct_to_doc : StructDecl → Printed d
  struct_to_doc decl =
      let generic : Printed d =
        append_items (map generic_to_doc decl.generics)
          (λ items doc. doc <> space <> wrap_list "<" items ">")
          (word "" <> ident_to_doc name_of decl.name) in
      grouped (
        generic
        <> nested (hardline <> interspersed (map field_to_doc decl.fields) d.hardline)
        <> hardline
        <> word ")")

  unfoldable pub range_to_doc : Range → Printed d
  range_to_doc range =
      append_some range.step (λ step doc. doc <> word " step " <> expr_to_doc name_of step)
        (word "(<range> "
          <> expr_to_doc name_of range.start
          <> word ".."
          <> expr_to_doc name_of range.end)
      <> word ")"

  unfoldable pub dim_to_doc : DimDecl → Printed d
  dim_to_doc dim =
      let doc : Printed d = word "(<dim> " <> ident_to_doc name_of dim.name in
      let bounded : Printed d =
        append_some dim.bound (λ bound doc. doc <> word ": " <> expr_to_doc name_of bound) doc in
      append_some dim.value (λ value doc. doc <> word " = " <> expr_to_doc name_of value) bounded
      <> word ")"
