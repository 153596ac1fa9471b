-- ===== src/Sema/Ends.antt =====
-- How each method of crates/kuai-sema/src/resolver.rs ends.
use kuai.Prelude.{
  ◌≢◌, ◌⊎◌, ℕ, ◌≡◌, refl, inl, inr, Bool-cases, Option, none, some, Option-cases, List, [], ◌∷◌,
  String,
}
use kuai.Syntax.Diagnostic.{Diagnostic}
use kuai.Outcome.{Outcome, ok, panicked, out_of_fuel, bind, ◌>>◌}
use kuai.Syntax.Ast
use kuai.Syntax.Ast.{
  Ident, Expr, Exprs, TypeExpr, TypeExprs, Argument, Arguments, Param, FieldDecl, StructDecl,
  DimDecl, VarDecl, Stmt, StmtImpl, Block, Stmts, ElseBranch, OptionElse, FuncDecl, OptionBlock,
  Module, literal, variable, binary, member_access, namespace_access, call, index, vector_literal,
  expr_error, no_exprs, more_exprs, named_type, tensor, primitive, type_error, no_types, more_types,
  positional, named, attribute_argument, no_arguments, more_arguments, stmt, import, struct,
  dim_decl, var_decl, assignment, for_loop, if_branch, break, continue, return, stmt_error, block,
  no_stmts, more_stmts, else_block, else_if, no_else, some_else, func_decl, no_block, some_block,
}
use kuai.Sema.Scope.{Scope, Symbol, SymbolKind, ScopeKind, define, Defined, fresh, conflict}
use kuai.Sema.Resolver.{
  Resolver, R, ⊤, is_defined, is_primitive_type, report, report_undefine, push_scope, pop_scope,
  text_of, report_redefine, define_or_report, define_dim, define_variable, define_param,
  resolve_variable, resolve_type_name, resolve_expr, resolve_exprs, resolve_type_expr,
  resolve_types, resolve_argument, resolve_arguments, resolve_optional_expr, resolve_optional_type,
  resolve_dims, resolve_params, resolve_fields, resolve_struct, define_silently, resolve_stmt,
  resolve_stmt_impl, resolve_block, resolve_stmts, resolve_else, resolve_else_branch, resolve_func,
  resolve_body, resolve_module, resolve,
}

Defined-cases :
    (d : Defined) → ((scope : Scope) × (d ≡ fresh scope)) ⊎ ((old : Symbol) × (d ≡ conflict old))
Defined-cases (fresh scope) = inl (scope, refl)
Defined-cases (conflict old) = inr (old, refl)

abbrev pub Ends : R ⊤ → Type 0
Ends m = (s : Resolver) → m s ≢ out_of_fuel

Ends-seq : (m k : R ⊤) → Ends m → Ends k → Ends (m >> k)
Ends-seq m k hm hk s = behind (m s) (hm s)
  where
    behind : (r : Outcome (⊤ × Resolver)) → r ≢ out_of_fuel → bind r (λ (_, s'). k s') ≢ out_of_fuel
    behind (ok (_, s')) h e = hk s' e
    behind panicked h e = cc e
    behind out_of_fuel h e = h refl

popped :
    (scope : Scope) (parents : List Scope) (ds : List Diagnostic)
    → pop_scope (record { scope = scope; parents = parents; diagnostics = ds }) ≢ out_of_fuel
unfolding pop_scope
popped scope [] ds e = cc e
popped scope (p ∷ ps) ds e = cc e

Ends-pop : Ends pop_scope
Ends-pop s = popped s.scope s.parents s.diagnostics

Ends-push : (kind : ScopeKind) → Ends (push_scope kind)
unfolding push_scope
Ends-push kind s e = cc e

Ends-pure : Ends (λ s. ok (tt, s))
Ends-pure s e = cc e

module _ (name_of : ℕ → Option String) where
  report_redefine-Ends :
      (kind : SymbolKind) (old : Symbol) → Ends (report_redefine name_of kind old)
  unfolding report_redefine text_of report
  report_redefine-Ends kind old s h = elim (Option-cases (name_of old.id)) [
    | inl e ↦ cc (rw (e, report_redefine, text_of) at h)
    | inr (n, e) ↦ cc (rw (e, report_redefine, text_of) at h)
  ]

  define_or_report-Ends : (kind : SymbolKind) (x : Symbol) → Ends (define_or_report name_of kind x)
  unfolding define_or_report
  define_or_report-Ends kind x s h = elim (Defined-cases (define x s.scope)) [
    | inl (scope, e) ↦ cc (rw (e, define_or_report) at h)
    | inr (old, e) ↦ report_redefine-Ends kind old s (rw (e, define_or_report) at h)
  ]

  define_silently-Ends : (x : Symbol) → Ends (define_silently name_of x)
  unfolding define_silently
  define_silently-Ends x s h = elim (Defined-cases (define x s.scope)) [
    | inl (scope, e) ↦ cc (rw (e, define_silently) at h)
    | inr (old, e) ↦ cc (rw (e, define_silently) at h)
  ]

  resolve_variable-Ends : (i : Ident) → Ends (resolve_variable name_of i)
  unfolding resolve_variable text_of report_undefine report
  resolve_variable-Ends i s h = elim (Bool-cases (is_defined i.id s)) [
    | inl g ↦ cc (rw g at h)
    | inr g ↦ elim (Option-cases (name_of i.id)) [
      | inl e ↦ cc (rw (g, e, text_of) at h)
      | inr (n, e) ↦ cc (rw (g, e, text_of) at h)
    ]
  ]

  resolve_type_name-Ends : (i : Ident) → Ends (resolve_type_name name_of i)
  unfolding resolve_type_name text_of report_undefine report
  resolve_type_name-Ends i s h = elim (Bool-cases (is_defined i.id s)) [
    | inl g ↦ cc (rw g at h)
    | inr g ↦ elim (Option-cases (name_of i.id)) [
      | inl e ↦ cc (rw (g, e, text_of) at h)
      | inr (n, e) ↦ elim (Bool-cases (is_primitive_type n)) [
        | inl p ↦ cc (rw (g, e, text_of, p) at h)
        | inr p ↦ cc (rw (g, e, text_of, p) at h)
      ]
    ]
  ]

  -- Two methods, one after the other.
  seq : {m k : R ⊤} → Ends m → Ends k → Ends (m >> k)
  seq {m} {k} = Ends-seq m k

  mutual
    unfolding resolve_expr

    resolve_expr-Ends : (e : Expr) → Ends (resolve_expr name_of e)
    resolve_expr-Ends (literal lit) = Ends-pure
    resolve_expr-Ends (variable ident) = resolve_variable-Ends ident
    resolve_expr-Ends (binary left op right) =
        seq (resolve_expr-Ends left) (resolve_expr-Ends right)
    resolve_expr-Ends (member_access target member) = resolve_expr-Ends target
    resolve_expr-Ends (namespace_access namespace member) = resolve_expr-Ends namespace
    resolve_expr-Ends (call func generics args) =
        seq (resolve_expr-Ends func)
          (seq (resolve_types-Ends generics) (resolve_arguments-Ends args))
    resolve_expr-Ends (index target indices) =
        seq (resolve_expr-Ends target) (resolve_exprs-Ends indices)
    resolve_expr-Ends (vector_literal elements) = resolve_exprs-Ends elements
    resolve_expr-Ends (expr_error span) = Ends-pure

    resolve_exprs-Ends : (es : Exprs) → Ends (resolve_exprs name_of es)
    resolve_exprs-Ends no_exprs = Ends-pure
    resolve_exprs-Ends (more_exprs e es) = seq (resolve_expr-Ends e) (resolve_exprs-Ends es)

    resolve_type_expr-Ends : (t : TypeExpr) → Ends (resolve_type_expr name_of t)
    resolve_type_expr-Ends (named_type name generics) =
        seq (resolve_type_name-Ends name) (resolve_types-Ends generics)
    resolve_type_expr-Ends (tensor base shape) =
        seq (resolve_type_expr-Ends base) (resolve_exprs-Ends shape)
    resolve_type_expr-Ends (primitive p) = Ends-pure
    resolve_type_expr-Ends (type_error span) = Ends-pure

    resolve_types-Ends : (ts : TypeExprs) → Ends (resolve_types name_of ts)
    resolve_types-Ends no_types = Ends-pure
    resolve_types-Ends (more_types t ts) = seq (resolve_type_expr-Ends t) (resolve_types-Ends ts)

    resolve_argument-Ends : (a : Argument) → Ends (resolve_argument name_of a)
    resolve_argument-Ends (positional e) = resolve_expr-Ends e
    resolve_argument-Ends (named name value) = resolve_expr-Ends value
    resolve_argument-Ends (attribute_argument a) = Ends-pure

    resolve_arguments-Ends : (as' : Arguments) → Ends (resolve_arguments name_of as')
    resolve_arguments-Ends no_arguments = Ends-pure
    resolve_arguments-Ends (more_arguments a as') =
        seq (resolve_argument-Ends a) (resolve_arguments-Ends as')

  resolve_optional_expr-Ends : (e : Option Expr) → Ends (resolve_optional_expr name_of e)
  unfolding resolve_optional_expr
  resolve_optional_expr-Ends none = Ends-pure
  resolve_optional_expr-Ends (some e) = resolve_expr-Ends e

  resolve_optional_type-Ends : (t : Option TypeExpr) → Ends (resolve_optional_type name_of t)
  unfolding resolve_optional_type
  resolve_optional_type-Ends none = Ends-pure
  resolve_optional_type-Ends (some t) = resolve_type_expr-Ends t

  resolve_dims-Ends : (ds : List DimDecl) → Ends (resolve_dims name_of ds)
  unfolding resolve_dims define_dim
  resolve_dims-Ends [] = Ends-pure
  resolve_dims-Ends (d ∷ ds) =
      seq
        (seq (resolve_optional_expr-Ends d.bound)
          (seq (resolve_optional_expr-Ends d.value) (define_or_report-Ends SymbolKind.dimension _)))
        (resolve_dims-Ends ds)

  resolve_params-Ends : (ps : List Param) → Ends (resolve_params name_of ps)
  unfolding resolve_params define_param
  resolve_params-Ends [] = Ends-pure
  resolve_params-Ends (p ∷ ps) =
      seq (seq (define_or_report-Ends SymbolKind.param _) (resolve_type_expr-Ends p.ty))
        (resolve_params-Ends ps)

  resolve_fields-Ends : (fs : List FieldDecl) → Ends (resolve_fields name_of fs)
  unfolding resolve_fields
  resolve_fields-Ends [] = Ends-pure
  resolve_fields-Ends (f ∷ fs) = seq (resolve_type_expr-Ends f.ty) (resolve_fields-Ends fs)

  resolve_struct-Ends : (d : StructDecl) → Ends (resolve_struct name_of d)
  unfolding resolve_struct
  resolve_struct-Ends d =
      seq (define_or_report-Ends SymbolKind.struct _) (resolve_fields-Ends d.fields)

  define_variable-Ends : (d : VarDecl) → Ends (define_variable name_of d)
  unfolding define_variable
  define_variable-Ends d = define_or_report-Ends SymbolKind.variable _

  -- A scope around a method.
  within : (kind : ScopeKind) {m : R ⊤} → Ends m → Ends (push_scope kind >> (m >> pop_scope))
  within kind {m} h = seq (Ends-push kind) (seq h Ends-pop)

  mutual
    unfolding resolve_stmt

    resolve_stmt-Ends : (s : Stmt) → Ends (resolve_stmt name_of s)
    resolve_stmt-Ends (stmt attrs s) = resolve_stmt_impl-Ends s

    resolve_stmt_impl-Ends : (s : StmtImpl) → Ends (resolve_stmt_impl name_of s)
    resolve_stmt_impl-Ends (dim_decl decls) = resolve_dims-Ends decls
    resolve_stmt_impl-Ends (var_decl decl) =
        seq (resolve_optional_type-Ends decl.ty)
          (seq (resolve_optional_expr-Ends decl.init) (define_variable-Ends decl))
    resolve_stmt_impl-Ends (Ast.function decl) = resolve_func-Ends decl
    resolve_stmt_impl-Ends (struct decl) = resolve_struct-Ends decl
    resolve_stmt_impl-Ends (assignment target value span) =
        seq (resolve_expr-Ends target) (resolve_expr-Ends value)
    resolve_stmt_impl-Ends (for_loop var range body span) = seq (Ends-push ScopeKind.block) (
        seq (define_silently-Ends _) (
          seq (resolve_expr-Ends range.start) (
            seq (resolve_expr-Ends range.end) (
              seq (resolve_optional_expr-Ends range.step)
                (seq (resolve_block-Ends body) Ends-pop)))))
    resolve_stmt_impl-Ends (if_branch condition then_branch else_branch) =
        seq (resolve_expr-Ends condition) (
          seq (within ScopeKind.block (resolve_block-Ends then_branch))
            (resolve_else-Ends else_branch))
    resolve_stmt_impl-Ends (return e) = resolve_expr-Ends e
    resolve_stmt_impl-Ends (Ast.expr e) = resolve_expr-Ends e
    resolve_stmt_impl-Ends (break span) = Ends-pure
    resolve_stmt_impl-Ends (continue span) = Ends-pure
    resolve_stmt_impl-Ends (import path) = Ends-pure
    resolve_stmt_impl-Ends (stmt_error span) = Ends-pure

    resolve_block-Ends : (b : Block) → Ends (resolve_block name_of b)
    resolve_block-Ends (block stmts span) = resolve_stmts-Ends stmts

    resolve_stmts-Ends : (ss : Stmts) → Ends (resolve_stmts name_of ss)
    resolve_stmts-Ends no_stmts = Ends-pure
    resolve_stmts-Ends (more_stmts s ss) = seq (resolve_stmt-Ends s) (resolve_stmts-Ends ss)

    resolve_else-Ends : (e : OptionElse) → Ends (resolve_else name_of e)
    resolve_else-Ends no_else = Ends-pure
    resolve_else-Ends (some_else e) = resolve_else_branch-Ends e

    resolve_else_branch-Ends : (e : ElseBranch) → Ends (resolve_else_branch name_of e)
    resolve_else_branch-Ends (else_block b) = within ScopeKind.block (resolve_block-Ends b)
    resolve_else_branch-Ends (else_if s) = resolve_stmt-Ends s

    resolve_func-Ends : (f : FuncDecl) → Ends (resolve_func name_of f)
    resolve_func-Ends (func_decl proto body) = seq (define_or_report-Ends SymbolKind.function _) (
        resolve_body-Ends _ _ (resolve_params-Ends proto.params)
          (resolve_optional_type-Ends proto.return_type) body)

    resolve_body-Ends :
        (params return_type : R ⊤)
        → Ends params
        → Ends return_type
        → (b : OptionBlock) → Ends (resolve_body name_of params return_type b)
    resolve_body-Ends params return_type hp hr no_block = Ends-pure
    resolve_body-Ends params return_type hp hr (some_block b) =
        seq (Ends-push ScopeKind.function) (seq hp (seq hr (seq (resolve_block-Ends b) Ends-pop)))

  resolve_module-Ends : (ss : List Stmt) → Ends (resolve_module name_of ss)
  unfolding resolve_module
  resolve_module-Ends [] = Ends-pure
  resolve_module-Ends (s ∷ ss) = seq (resolve_stmt-Ends s) (resolve_module-Ends ss)

-- The resolver returns or panics on every module and every interner.
pub resolve-ne-out_of_fuel :
    (name_of : ℕ → Option String) (global : Scope) (m : Module)
    → resolve name_of global m ≢ out_of_fuel
unfolding resolve
resolve-ne-out_of_fuel name_of global m = resolve_module-Ends name_of m.stmts _
