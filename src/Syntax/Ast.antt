-- ===== src/Syntax/Ast.antt =====
-- The syntax tree of crates/kuai-syntax/src/ast.rs, with the source's types and constructors.
-- A `Vec` or an `Option` of a type inside that type's own declaration is a list or an option type
-- of the same block. A name is the number of its key in the interner, and a float its 64 bits.
use kuai.Prelude.{ℕ, ℤ, Option, List, [], ◌∷◌, String}
use kuai.Syntax.Diagnostic.{Span}

abbrev pub error_ident_name : String
error_ident_name = "<error_ident>"

pub record Ident : Type 0 where
  pub id : ℕ
  pub span : Span

pub data Literal : Type 0 where
  float : ℕ → Literal
  int : ℤ → Literal
  string : String → Literal

pub data BinaryOp : Type 0 where
  plus minus star slash : BinaryOp

pub data PrimitiveType : Type 0 where
  bool char i8 i16 i32 i64 f32 f64 : PrimitiveType

mutual
  pub data Expr : Type 0 where
    literal : Literal → Expr
    variable : Ident → Expr
    binary : Expr → BinaryOp → Expr → Expr
    member_access : Expr → Ident → Expr
    namespace_access : Expr → Ident → Expr
    index : Expr → Exprs → Expr
    vector_literal : Exprs → Expr
    call : Expr → TypeExprs → Arguments → Expr
    expr_error : Span → Expr

  pub data Exprs : Type 0 where
    no_exprs : Exprs
    more_exprs : Expr → Exprs → Exprs

  pub data TypeExpr : Type 0 where
    primitive : PrimitiveType → TypeExpr
    named_type : Ident → TypeExprs → TypeExpr
    tensor : TypeExpr → Exprs → TypeExpr
    type_error : Span → TypeExpr

  pub data TypeExprs : Type 0 where
    no_types : TypeExprs
    more_types : TypeExpr → TypeExprs → TypeExprs

  pub data Argument : Type 0 where
    positional : Expr → Argument
    named : Ident → Expr → Argument
    attribute_argument : Attribute → Argument

  pub data Arguments : Type 0 where
    no_arguments : Arguments
    more_arguments : Argument → Arguments → Arguments

  -- its name and its arguments
  pub data Attribute : Type 0 where
    attribute : String → Arguments → Attribute

pub record Range : Type 0 where
  pub start : Expr
  pub end : Expr
  pub step : Option Expr
  pub span : Span

-- `Path` of the source: the segments of an import.
pub record ImportPath : Type 0 where
  pub segments : List Ident
  pub span : Span

pub record DimDecl : Type 0 where
  pub name : Ident
  pub bound : Option Expr
  pub value : Option Expr
  pub span : Span

pub record VarDecl : Type 0 where
  pub name : Ident
  pub ty : Option TypeExpr
  pub init : Option Expr
  pub span : Span

pub record Param : Type 0 where
  pub name : Ident
  pub ty : TypeExpr
  pub default_value : Option Expr
  pub span : Span

pub record GenericParam : Type 0 where
  pub name : Ident
  pub bound : Option TypeExpr
  pub default_type : Option TypeExpr
  pub span : Span

pub record FuncProto : Type 0 where
  pub name : Ident
  pub generics : List GenericParam
  pub params : List Param
  pub return_type : Option TypeExpr
  pub span : Span

pub record FieldDecl : Type 0 where
  pub name : Ident
  pub ty : TypeExpr
  pub span : Span

pub record StructDecl : Type 0 where
  pub name : Ident
  pub generics : List GenericParam
  pub fields : List FieldDecl

mutual
  -- its attributes, and what it does
  pub data Stmt : Type 0 where
    stmt : List Attribute → StmtImpl → Stmt

  pub data StmtImpl : Type 0 where
    import : ImportPath → StmtImpl
    function : FuncDecl → StmtImpl
    struct : StructDecl → StmtImpl
    dim_decl : List DimDecl → StmtImpl
    var_decl : VarDecl → StmtImpl
    assignment : Expr → Expr → Span → StmtImpl
    for_loop : Ident → Range → Block → Span → StmtImpl
    if_branch : Expr → Block → OptionElse → StmtImpl
    break continue : Span → StmtImpl
    return : Expr → StmtImpl
    expr : Expr → StmtImpl
    stmt_error : Span → StmtImpl

  pub data Block : Type 0 where
    block : Stmts → Span → Block

  pub data Stmts : Type 0 where
    no_stmts : Stmts
    more_stmts : Stmt → Stmts → Stmts

  pub data ElseBranch : Type 0 where
    else_block : Block → ElseBranch
    else_if : Stmt → ElseBranch

  pub data OptionElse : Type 0 where
    no_else : OptionElse
    some_else : ElseBranch → OptionElse

  pub data FuncDecl : Type 0 where
    func_decl : FuncProto → OptionBlock → FuncDecl

  pub data OptionBlock : Type 0 where
    no_block : OptionBlock
    some_block : Block → OptionBlock

pub record Module : Type 0 where
  pub top_level_attributes : List Attribute
  pub stmts : List Stmt
  pub span : Span

-- A finished `Vec`, as the list type of the block that it stands in.
abbrev pub exprs : List Expr → Exprs
exprs [] = no_exprs
exprs (e ∷ es) = more_exprs e (exprs es)

abbrev pub types : List TypeExpr → TypeExprs
types [] = no_types
types (t ∷ ts) = more_types t (types ts)

abbrev pub arguments : List Argument → Arguments
arguments [] = no_arguments
arguments (a ∷ as') = more_arguments a (arguments as')

abbrev pub stmts_of : List Stmt → Stmts
stmts_of [] = no_stmts
stmts_of (s ∷ ss) = more_stmts s (stmts_of ss)
