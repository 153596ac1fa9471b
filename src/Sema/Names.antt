-- ===== src/Sema/Names.antt =====
-- The names that a tree gives the resolver of crates/kuai-sema/src/resolver.rs to look up or to
-- define, as a condition on their keys.
use kuai.Prelude.{ℕ, Option, none, some, String, All}
use kuai.Syntax.Ast
use kuai.Syntax.Ast.{
  Expr, TypeExpr, Param, FieldDecl, DimDecl, Stmt, StmtImpl, Block, Stmts, ElseBranch, OptionElse,
  FuncDecl, OptionBlock, stmt, import, struct, dim_decl, var_decl, assignment, for_loop, if_branch,
  break, continue, return, stmt_error, block, no_stmts, more_stmts, else_block, else_if, no_else,
  some_else, func_decl, no_block, some_block,
}
use kuai.Sema.Mentions.{HasText, mentions, type_mentions}
use kuai.Sema.Runs.{Known}

module _ (text : ℕ → String) (name_of : ℕ → Option String) where
  abbrev pub ExprNamed : Expr → Type 0
  ExprNamed e = All (HasText text name_of) (mentions e)

  abbrev pub TypeNamed : TypeExpr → Type 0
  TypeNamed t = All (HasText text name_of) (type_mentions t)

  abbrev pub OptionExprNamed : Option Expr → Type 0
  OptionExprNamed none = Unit
  OptionExprNamed (some e) = ExprNamed e

  abbrev pub OptionTypeNamed : Option TypeExpr → Type 0
  OptionTypeNamed none = Unit
  OptionTypeNamed (some t) = TypeNamed t

  abbrev pub DimNamed : DimDecl → Type 0
  DimNamed d = OptionExprNamed d.bound × OptionExprNamed d.value × Known text name_of d.name.id

  abbrev pub ParamNamed : Param → Type 0
  ParamNamed p = Known text name_of p.name.id × TypeNamed p.ty

  -- The interner has the keys of all names of a statement.
  unfoldable mutual
    pub StmtNamed : Stmt → Type 0
    StmtNamed (stmt attrs s) = ImplNamed s

    pub ImplNamed : StmtImpl → Type 0
    ImplNamed (dim_decl decls) = All DimNamed decls
    ImplNamed (var_decl decl) =
        OptionTypeNamed decl.ty × OptionExprNamed decl.init × Known text name_of decl.name.id
    ImplNamed (Ast.function decl) = FuncNamed decl
    ImplNamed (struct decl) =
        Known text name_of decl.name.id × All (λ f. TypeNamed f.ty) decl.fields
    ImplNamed (assignment target value span) = ExprNamed target × ExprNamed value
    ImplNamed (for_loop var range body span) =
        Known text name_of var.id
        × ExprNamed range.start
        × ExprNamed range.end
        × OptionExprNamed range.step
        × BlockNamed body
    ImplNamed (if_branch condition then_branch else_branch) =
        ExprNamed condition × BlockNamed then_branch × ElseNamed else_branch
    ImplNamed (return e) = ExprNamed e
    ImplNamed (Ast.expr e) = ExprNamed e
    ImplNamed (break span) = Unit
    ImplNamed (continue span) = Unit
    ImplNamed (import path) = Unit
    ImplNamed (stmt_error span) = Unit

    pub BlockNamed : Block → Type 0
    BlockNamed (block stmts span) = StmtsNamed stmts

    pub StmtsNamed : Stmts → Type 0
    StmtsNamed no_stmts = Unit
    StmtsNamed (more_stmts s ss) = StmtNamed s × StmtsNamed ss

    pub ElseNamed : OptionElse → Type 0
    ElseNamed no_else = Unit
    ElseNamed (some_else e) = ElseBranchNamed e

    pub ElseBranchNamed : ElseBranch → Type 0
    ElseBranchNamed (else_block b) = BlockNamed b
    ElseBranchNamed (else_if s) = StmtNamed s

    pub FuncNamed : FuncDecl → Type 0
    FuncNamed (func_decl proto body) =
        Known text name_of proto.name.id
        × All ParamNamed proto.params
        × OptionTypeNamed proto.return_type
        × BodyNamed body

    pub BodyNamed : OptionBlock → Type 0
    BodyNamed no_block = Unit
    BodyNamed (some_block b) = BlockNamed b
