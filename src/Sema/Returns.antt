-- ===== src/Sema/Returns.antt =====
-- Every statement under the resolver of crates/kuai-sema/src/resolver.rs: it returns, and the stack
-- of scopes is the one that it found.
use kuai.Prelude.{All, ℕ, ◌≡◌, Option, none, some, List, [], ◌∷◌, String}
use kuai.Syntax.Ast
use kuai.Syntax.Ast.{
  Ident, Expr, Exprs, TypeExpr, TypeExprs, Param, FieldDecl, StructDecl, DimDecl, VarDecl, Stmt,
  StmtImpl, Block, Stmts, ElseBranch, OptionElse, FuncDecl, OptionBlock, Range, stmt, import,
  struct, dim_decl, var_decl, assignment, for_loop, if_branch, break, continue, return, stmt_error,
  block, no_stmts, more_stmts, else_block, else_if, no_else, some_else, func_decl, no_block,
  some_block,
}
use kuai.Syntax.Diagnostic.{Span}
use kuai.Outcome.{ok}
use kuai.Sema.Scope.{SymbolKind, ScopeKind}
use kuai.Sema.Resolver.{
  Resolver, R, ⊤, define_dim, define_variable, define_param, resolve_expr, resolve_type_expr,
  resolve_optional_expr, resolve_optional_type, resolve_dims, resolve_params, resolve_fields,
  resolve_struct, resolve_stmt, resolve_stmt_impl, resolve_block, resolve_stmts, resolve_else,
  resolve_else_branch, resolve_func, resolve_body,
}
use kuai.Sema.Mentions.{resolve_expr_lem, resolve_type_expr_lem, mentions, type_mentions}
use kuai.Sema.Names.{
  ExprNamed, TypeNamed, OptionExprNamed, OptionTypeNamed, DimNamed, ParamNamed, StmtNamed,
  ImplNamed, BlockNamed, StmtsNamed, ElseNamed, ElseBranchNamed, FuncNamed, BodyNamed,
}
use kuai.Sema.Runs.{
  Known, Safe, Runs, Restores, Extends, Runs-pure, Runs-seq, Closes-pop, Closes-seq, Restores-push,
  Restores-Runs, Walks-Runs, define_or_report-Runs, define_silently-Runs,
}

module _ (text : ℕ → String) (name_of : ℕ → Option String) where
  abbrev pub Returns : R ⊤ → Type 0
  Returns m = Runs (Known text name_of) m

  pub resolve_expr-Runs : (e : Expr) → ExprNamed text name_of e → Returns (resolve_expr name_of e)
  resolve_expr-Runs e named =
      Walks-Runs text name_of (resolve_expr name_of e) (mentions e) named
        λ known s. resolve_expr_lem text name_of e s known

  resolve_type_expr-Runs :
      (t : TypeExpr) → TypeNamed text name_of t → Returns (resolve_type_expr name_of t)
  resolve_type_expr-Runs t named =
      Walks-Runs text name_of (resolve_type_expr name_of t) (type_mentions t) named
        λ known s. resolve_type_expr_lem text name_of t s known

  pub resolve_optional_expr-Runs :
      (e : Option Expr) → OptionExprNamed text name_of e → Returns (resolve_optional_expr name_of e)
  unfolding resolve_optional_expr
  resolve_optional_expr-Runs none named = Runs-pure
  resolve_optional_expr-Runs (some e) named = resolve_expr-Runs e named

  pub resolve_optional_type-Runs :
      (t : Option TypeExpr)
      → OptionTypeNamed text name_of t
      → Returns (resolve_optional_type name_of t)
  unfolding resolve_optional_type
  resolve_optional_type-Runs none named = Runs-pure
  resolve_optional_type-Runs (some t) named = resolve_type_expr-Runs t named

  define_dim-Runs : (d : DimDecl) → Known text name_of d.name.id → Returns (define_dim name_of d)
  unfolding define_dim
  define_dim-Runs d known = define_or_report-Runs text name_of SymbolKind.dimension _ known

  resolve_dims-Runs :
      (ds : List DimDecl) → All (DimNamed text name_of) ds → Returns (resolve_dims name_of ds)
  unfolding resolve_dims
  resolve_dims-Runs [] named = Runs-pure
  resolve_dims-Runs (d ∷ ds) ((bound, value, name), named) =
      Runs-seq
        (Runs-seq (resolve_optional_expr-Runs d.bound bound)
          (Runs-seq (resolve_optional_expr-Runs d.value value) (define_dim-Runs d name)))
        (resolve_dims-Runs ds named)

  define_param-Runs : (p : Param) → Known text name_of p.name.id → Returns (define_param name_of p)
  unfolding define_param
  define_param-Runs p known = define_or_report-Runs text name_of SymbolKind.param _ known

  pub resolve_params-Runs :
      (ps : List Param) → All (ParamNamed text name_of) ps → Returns (resolve_params name_of ps)
  unfolding resolve_params
  resolve_params-Runs [] named = Runs-pure
  resolve_params-Runs (p ∷ ps) ((name, ty), named) =
      Runs-seq (Runs-seq (define_param-Runs p name) (resolve_type_expr-Runs p.ty ty))
        (resolve_params-Runs ps named)

  pub resolve_fields-Runs :
      (fs : List FieldDecl)
      → All (λ f. TypeNamed text name_of f.ty) fs
      → Returns (resolve_fields name_of fs)
  unfolding resolve_fields
  resolve_fields-Runs [] named = Runs-pure
  resolve_fields-Runs (f ∷ fs) (ty, named) =
      Runs-seq (resolve_type_expr-Runs f.ty ty) (resolve_fields-Runs fs named)

  resolve_struct-Runs :
      (d : StructDecl)
      → Known text name_of d.name.id
      → All (λ f. TypeNamed text name_of f.ty) d.fields
      → Returns (resolve_struct name_of d)
  unfolding resolve_struct
  resolve_struct-Runs d name fields =
      Runs-seq (define_or_report-Runs text name_of SymbolKind.struct _ name)
        (resolve_fields-Runs d.fields fields)

  define_variable-Runs :
      (d : VarDecl) → Known text name_of d.name.id → Returns (define_variable name_of d)
  unfolding define_variable
  define_variable-Runs d known = define_or_report-Runs text name_of SymbolKind.variable _ known

  loop-Restores :
      (var : Ident) (range : Range) (body : Block) (span : Span)
      → ImplNamed text name_of (for_loop var range body span)
      → Returns (resolve_block name_of body)
      → Restores (resolve_stmt_impl name_of (for_loop var range body span))
  unfolding resolve_stmt StmtNamed
  loop-Restores var range body span (name, in_start, in_end, in_step, in_body) returns =
      Restores-push ScopeKind.block (
        Closes-seq (define_silently-Runs text name_of _ name) (
          Closes-seq (resolve_expr-Runs range.start in_start) (
            Closes-seq (resolve_expr-Runs range.end in_end) (
              Closes-seq (resolve_optional_expr-Runs range.step in_step)
                (Closes-seq returns Closes-pop)))))

  mutual
    unfolding resolve_stmt StmtNamed

    stmt-Runs : (s : Stmt) → StmtNamed text name_of s → Returns (resolve_stmt name_of s)
    stmt-Runs (stmt attrs s) named = impl-Runs s named

    pub impl-Runs :
        (s : StmtImpl) → ImplNamed text name_of s → Returns (resolve_stmt_impl name_of s)
    impl-Runs (dim_decl decls) named = resolve_dims-Runs decls named
    impl-Runs (var_decl decl) (ty, init, name) =
        Runs-seq (resolve_optional_type-Runs decl.ty ty)
          (Runs-seq (resolve_optional_expr-Runs decl.init init) (define_variable-Runs decl name))
    impl-Runs (Ast.function decl) named = func-Runs decl named
    impl-Runs (struct decl) (name, fields) = resolve_struct-Runs decl name fields
    impl-Runs (assignment target value span) (in_target, in_value) =
        Runs-seq (resolve_expr-Runs target in_target) (resolve_expr-Runs value in_value)
    impl-Runs (for_loop var range body span) (name, in_start, in_end, in_step, in_body) =
        Restores-Runs (
          loop-Restores var range body span (name, in_start, in_end, in_step, in_body)
            (block-Runs body in_body))
    impl-Runs (if_branch condition then_branch else_branch) (in_condition, in_then, in_else) =
        Runs-seq (resolve_expr-Runs condition in_condition) (
          Runs-seq
            (Restores-Runs (
              Restores-push ScopeKind.block
                (Closes-seq (block-Runs then_branch in_then) Closes-pop)))
            (else-Runs else_branch in_else))
    impl-Runs (return e) named = resolve_expr-Runs e named
    impl-Runs (Ast.expr e) named = resolve_expr-Runs e named
    impl-Runs (break span) named = Runs-pure
    impl-Runs (continue span) named = Runs-pure
    impl-Runs (import path) named = Runs-pure
    impl-Runs (stmt_error span) named = Runs-pure

    block-Runs : (b : Block) → BlockNamed text name_of b → Returns (resolve_block name_of b)
    block-Runs (block stmts span) named = stmts-Runs stmts named

    stmts-Runs : (ss : Stmts) → StmtsNamed text name_of ss → Returns (resolve_stmts name_of ss)
    stmts-Runs no_stmts named = Runs-pure
    stmts-Runs (more_stmts s ss) (first, named) = Runs-seq (stmt-Runs s first) (stmts-Runs ss named)

    else-Runs : (e : OptionElse) → ElseNamed text name_of e → Returns (resolve_else name_of e)
    else-Runs no_else named = Runs-pure
    else-Runs (some_else e) named = else_branch-Runs e named

    else_branch-Runs :
        (e : ElseBranch) → ElseBranchNamed text name_of e → Returns (resolve_else_branch name_of e)
    else_branch-Runs (else_block b) named =
        Restores-Runs (Restores-push ScopeKind.block (Closes-seq (block-Runs b named) Closes-pop))
    else_branch-Runs (else_if s) named = stmt-Runs s named

    func-Runs : (f : FuncDecl) → FuncNamed text name_of f → Returns (resolve_func name_of f)
    func-Runs (func_decl proto body) (name, params, return_type, in_body) =
        Runs-seq (define_or_report-Runs text name_of SymbolKind.function _ name) (
          body-Runs (resolve_params-Runs proto.params params)
            (resolve_optional_type-Runs proto.return_type return_type) body in_body)

    pub body-Runs :
        {params return_type : R ⊤}
        → Returns params
        → Returns return_type
        → (b : OptionBlock) → BodyNamed text name_of b
        → Returns (resolve_body name_of params return_type b)
    body-Runs p r no_block named = Runs-pure
    body-Runs p r (some_block b) named = Restores-Runs (
        Restores-push ScopeKind.function
          (Closes-seq p (Closes-seq r (Closes-seq (block-Runs b named) Closes-pop))))

  -- Where the interner has the keys of all names of a statement and of all symbols of the innermost
  -- scope, resolving the statement returns, so the panic of `pop_scope` does not happen. The
  -- parents of the innermost scope are the same; the innermost scope keeps its kind and every
  -- symbol that it has, and its new symbols have keys of the interner too; reports are only added
  -- behind those that are there.
  pub resolve_stmt-Extends :
      (x : Stmt) (s : Resolver)
      → StmtNamed text name_of x
      → Safe (Known text name_of) s.scope
      → (t : Resolver) × (resolve_stmt name_of x s ≡ ok (tt, t))
        × Extends s t
        × Safe (Known text name_of) t.scope
  resolve_stmt-Extends x s named safe = stmt-Runs x named s safe

  -- Where the interner has the keys of all names of a `for` statement, it returns with exactly the
  -- scopes that it found: its variable and the definitions of its body are gone. Reports are only
  -- added.
  pub for_loop-Restores :
      (var : Ident) (range : Range) (body : Block) (span : Span)
      → ImplNamed text name_of (for_loop var range body span)
      → Restores (resolve_stmt_impl name_of (for_loop var range body span))
  unfolding StmtNamed
  for_loop-Restores var range body span (name, in_start, in_end, in_step, in_body) =
      loop-Restores var range body span (name, in_start, in_end, in_step, in_body)
        (block-Runs body in_body)
