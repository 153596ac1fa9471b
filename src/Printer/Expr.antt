-- ===== src/Printer/Expr.antt =====
-- Expressions, type expressions and attributes in crates/kuai-syntax/src/pretty.rs.
use kuai.Prelude.{ℕ, Option, List, [], ◌∷◌, String, map}
use kuai.Syntax.Text.{format}
use kuai.Syntax.Ast
use kuai.Syntax.Ast.{
  Literal, BinaryOp, PrimitiveType, Expr, Exprs, TypeExpr, TypeExprs, Argument, Arguments,
  Attribute, ImportPath,
}
use kuai.Printer.Doc.{
  Docs, Printed, ◌<>◌, word, space, softline, grouped, interspersed, wrap_list, append_items,
  ident_to_doc,
}

module _ {d : Docs} where
  abbrev pub primitive_to_doc : PrimitiveType → Printed d
  primitive_to_doc PrimitiveType.bool = word "<bool>"
  primitive_to_doc PrimitiveType.char = word "<char>"
  primitive_to_doc PrimitiveType.i8 = word "<i8>"
  primitive_to_doc PrimitiveType.i16 = word "<i16>"
  primitive_to_doc PrimitiveType.i32 = word "<i32>"
  primitive_to_doc PrimitiveType.i64 = word "<i64>"
  primitive_to_doc PrimitiveType.f32 = word "<f32>"
  primitive_to_doc PrimitiveType.f64 = word "<f64>"

  abbrev pub literal_to_doc : Literal → Printed d
  literal_to_doc (Literal.float f) = word (format "(<f64> " (format (d.show_float f) ")"))
  literal_to_doc (Literal.int i) = word (format "(<i64> " (format (d.show_int i) ")"))
  literal_to_doc (Literal.string s) = word (format "(<str> " (format (d.show_string s) ")"))

  abbrev pub operator_to_doc : BinaryOp → Printed d
  operator_to_doc BinaryOp.plus = word "<+>"
  operator_to_doc BinaryOp.minus = word "<->"
  operator_to_doc BinaryOp.star = word "<*>"
  operator_to_doc BinaryOp.slash = word "</>"

module _ {d : Docs} (name_of : ℕ → Option String) where
  unfoldable pub path_to_doc : ImportPath → Printed d
  path_to_doc path = interspersed (map (ident_to_doc name_of) path.segments) (d.text "::")

  unfoldable mutual
    pub expr_to_doc : Expr → Printed d
    expr_to_doc (Ast.literal l) = literal_to_doc l
    expr_to_doc (Ast.variable ident) = ident_to_doc name_of ident
    expr_to_doc (Ast.binary left op right) = grouped (
        word "("
        <> operator_to_doc op
        <> space
        <> (expr_to_doc left <> word "," <> softline <> expr_to_doc right)
        <> word ")")
    expr_to_doc (Ast.member_access target member) = grouped (
        word "(<dot> "
        <> expr_to_doc target
        <> word ", "
        <> ident_to_doc name_of member
        <> word ")")
    expr_to_doc (Ast.namespace_access namespace member) = grouped (
        word "(<::> "
        <> expr_to_doc namespace
        <> word ", "
        <> ident_to_doc name_of member
        <> word ")")
    expr_to_doc (Ast.index target indices) = grouped (
        word "(<index> "
        <> expr_to_doc target
        <> space
        <> wrap_list "[" (exprs_to_docs indices) "]"
        <> word ")")
    expr_to_doc (Ast.vector_literal es) = wrap_list "[" (exprs_to_docs es) "]"
    expr_to_doc (Ast.call func generics args) = grouped (
        append_items (types_to_docs generics) (λ items doc. doc <> wrap_list " <" items ">")
          (word "(<call> " <> expr_to_doc func)
        <> space
        <> wrap_list "(" (arguments_to_docs args) ")"
        <> word ")")
    expr_to_doc (Ast.expr_error span) = word "<error>"

    pub exprs_to_docs : Exprs → List (Printed d)
    exprs_to_docs Ast.no_exprs = []
    exprs_to_docs (Ast.more_exprs e es) = expr_to_doc e ∷ exprs_to_docs es

    pub type_to_doc : TypeExpr → Printed d
    type_to_doc (Ast.primitive p) = primitive_to_doc p
    type_to_doc (Ast.named_type name generics) = grouped (
        append_items (types_to_docs generics) (λ items doc. doc <> wrap_list " <" items ">")
          (word "(<type> " <> ident_to_doc name_of name)
        <> word ")")
    type_to_doc (Ast.tensor base shape) = grouped (
        word "(<tensor> "
        <> type_to_doc base
        <> space
        <> wrap_list "[" (exprs_to_docs shape) "]"
        <> word ")")
    type_to_doc (Ast.type_error span) = word "<type_error>"

    pub types_to_docs : TypeExprs → List (Printed d)
    types_to_docs Ast.no_types = []
    types_to_docs (Ast.more_types t ts) = type_to_doc t ∷ types_to_docs ts

    pub argument_to_doc : Argument → Printed d
    argument_to_doc (Ast.positional e) = expr_to_doc e
    argument_to_doc (Ast.named name value) =
        ident_to_doc name_of name <> word " = " <> expr_to_doc value
    argument_to_doc (Ast.attribute_argument attr) = attribute_to_doc attr

    pub arguments_to_docs : Arguments → List (Printed d)
    arguments_to_docs Ast.no_arguments = []
    arguments_to_docs (Ast.more_arguments a as') = argument_to_doc a ∷ arguments_to_docs as'

    pub attribute_to_doc : Attribute → Printed d
    attribute_to_doc (Ast.attribute name args) =
        append_items (arguments_to_docs args) (λ items doc. doc <> wrap_list "(" items ")")
          (word "@" <> word name)
