-- ===== src/Printer/Printable.antt =====
-- The trees that crates/kuai-syntax/src/pretty.rs can print with nested brackets: the interner has
-- every name, and the names and the text literals close the brackets that they open.
use kuai.Prelude.{ℕ, ◌≡◌, Option, some, String, All}
use kuai.Syntax.Ast
use kuai.Syntax.Ast.{
  Ident, Literal, Expr, Exprs, TypeExpr, TypeExprs, Argument, Arguments, Attribute, ImportPath,
  Param, GenericParam, FuncProto, FieldDecl, StructDecl, Range, DimDecl, Stmt, StmtImpl, Block,
  Stmts, ElseBranch, OptionElse, OptionBlock, Module,
}
use kuai.Printer.Doc.{Docs}
use kuai.Printer.Nested.{Closed}
use kuai.Printer.Lists.{OptionAll}

module _ (d : Docs) (name_of : ℕ → Option String) where
  abbrev pub IdentPrintable : Ident → Type 0
  IdentPrintable ident = (s : String) × (name_of ident.id ≡ some s) × Closed s

  abbrev pub LiteralPrintable : Literal → Type 0
  LiteralPrintable (Literal.float f) = Unit
  LiteralPrintable (Literal.int i) = Unit
  LiteralPrintable (Literal.string s) = Closed (d.show_string s)

  unfoldable mutual
    pub ExprPrintable : Expr → Type 0
    ExprPrintable (Ast.literal l) = LiteralPrintable l
    ExprPrintable (Ast.variable ident) = IdentPrintable ident
    ExprPrintable (Ast.binary left op right) = ExprPrintable left × ExprPrintable right
    ExprPrintable (Ast.member_access target member) = ExprPrintable target × IdentPrintable member
    ExprPrintable (Ast.namespace_access namespace member) =
        ExprPrintable namespace × IdentPrintable member
    ExprPrintable (Ast.index target indices) = ExprPrintable target × ExprsPrintable indices
    ExprPrintable (Ast.vector_literal es) = ExprsPrintable es
    ExprPrintable (Ast.call func generics args) =
        ExprPrintable func × TypesPrintable generics × ArgumentsPrintable args
    ExprPrintable (Ast.expr_error span) = Unit

    pub ExprsPrintable : Exprs → Type 0
    ExprsPrintable Ast.no_exprs = Unit
    ExprsPrintable (Ast.more_exprs e es) = ExprPrintable e × ExprsPrintable es

    pub TypePrintable : TypeExpr → Type 0
    TypePrintable (Ast.primitive p) = Unit
    TypePrintable (Ast.named_type name generics) = IdentPrintable name × TypesPrintable generics
    TypePrintable (Ast.tensor base shape) = TypePrintable base × ExprsPrintable shape
    TypePrintable (Ast.type_error span) = Unit

    pub TypesPrintable : TypeExprs → Type 0
    TypesPrintable Ast.no_types = Unit
    TypesPrintable (Ast.more_types t ts) = TypePrintable t × TypesPrintable ts

    pub ArgumentPrintable : Argument → Type 0
    ArgumentPrintable (Ast.positional e) = ExprPrintable e
    ArgumentPrintable (Ast.named name value) = IdentPrintable name × ExprPrintable value
    ArgumentPrintable (Ast.attribute_argument attr) = AttributePrintable attr

    pub ArgumentsPrintable : Arguments → Type 0
    ArgumentsPrintable Ast.no_arguments = Unit
    ArgumentsPrintable (Ast.more_arguments a as') = ArgumentPrintable a × ArgumentsPrintable as'

    pub AttributePrintable : Attribute → Type 0
    AttributePrintable (Ast.attribute name args) = Closed name × ArgumentsPrintable args

  abbrev pub PathPrintable : ImportPath → Type 0
  PathPrintable path = All IdentPrintable path.segments

  abbrev pub ParamPrintable : Param → Type 0
  ParamPrintable p =
      IdentPrintable p.name × TypePrintable p.ty × OptionAll ExprPrintable p.default_value

  abbrev pub GenericPrintable : GenericParam → Type 0
  GenericPrintable p =
      IdentPrintable p.name
      × OptionAll TypePrintable p.bound
      × OptionAll TypePrintable p.default_type

  abbrev pub ProtoPrintable : FuncProto → Type 0
  ProtoPrintable p =
      IdentPrintable p.name
      × All GenericPrintable p.generics
      × All ParamPrintable p.params
      × OptionAll TypePrintable p.return_type

  abbrev pub FieldPrintable : FieldDecl → Type 0
  FieldPrintable f = IdentPrintable f.name × TypePrintable f.ty

  abbrev pub StructPrintable : StructDecl → Type 0
  StructPrintable s =
      IdentPrintable s.name × All GenericPrintable s.generics × All FieldPrintable s.fields

  abbrev pub RangePrintable : Range → Type 0
  RangePrintable r = ExprPrintable r.start × ExprPrintable r.end × OptionAll ExprPrintable r.step

  abbrev pub DimPrintable : DimDecl → Type 0
  DimPrintable dim =
      IdentPrintable dim.name
      × OptionAll ExprPrintable dim.bound
      × OptionAll ExprPrintable dim.value

  unfoldable mutual
    pub StmtPrintable : Stmt → Type 0
    StmtPrintable (Ast.stmt attrs s) = All AttributePrintable attrs × ImplPrintable s

    pub ImplPrintable : StmtImpl → Type 0
    ImplPrintable (Ast.import path) = PathPrintable path
    ImplPrintable (Ast.function (Ast.func_decl proto body)) =
        ProtoPrintable proto × BodyPrintable body
    ImplPrintable (Ast.struct decl) = StructPrintable decl
    ImplPrintable (Ast.dim_decl decls) = All DimPrintable decls
    ImplPrintable (Ast.var_decl decl) =
        IdentPrintable decl.name
        × OptionAll TypePrintable decl.ty
        × OptionAll ExprPrintable decl.init
    ImplPrintable (Ast.assignment target value span) = ExprPrintable target × ExprPrintable value
    ImplPrintable (Ast.for_loop var range body span) =
        IdentPrintable var × RangePrintable range × BlockPrintable body
    ImplPrintable (Ast.if_branch condition then_branch else_branch) =
        ExprPrintable condition × BlockPrintable then_branch × ElsePrintable else_branch
    ImplPrintable (Ast.break span) = Unit
    ImplPrintable (Ast.continue span) = Unit
    ImplPrintable (Ast.return e) = ExprPrintable e
    ImplPrintable (Ast.expr e) = ExprPrintable e
    ImplPrintable (Ast.stmt_error span) = Unit

    pub BlockPrintable : Block → Type 0
    BlockPrintable (Ast.block stmts span) = StmtsPrintable stmts

    pub StmtsPrintable : Stmts → Type 0
    StmtsPrintable Ast.no_stmts = Unit
    StmtsPrintable (Ast.more_stmts s ss) = StmtPrintable s × StmtsPrintable ss

    pub BodyPrintable : OptionBlock → Type 0
    BodyPrintable Ast.no_block = Unit
    BodyPrintable (Ast.some_block b) = BlockPrintable b

    pub ElsePrintable : OptionElse → Type 0
    ElsePrintable Ast.no_else = Unit
    ElsePrintable (Ast.some_else e) = ElseBranchPrintable e

    pub ElseBranchPrintable : ElseBranch → Type 0
    ElseBranchPrintable (Ast.else_block b) = BlockPrintable b
    ElseBranchPrintable (Ast.else_if s) = StmtPrintable s

  abbrev pub ModulePrintable : Module → Type 0
  ModulePrintable m = All AttributePrintable m.top_level_attributes × All StmtPrintable m.stmts
