-- ===== src/Sema/Resolver.antt =====
-- crates/kuai-sema/src/resolver.rs: the walk over the syntax tree that defines names in scopes and
-- reports undefined and redefined ones.
use kuai.Prelude.{
  ℕ, Bool, ◌||◌, Option, none, some, List, [], ◌∷◌, String, push, is_some, if◌then◌else◌,
}
use kuai.Syntax.Text.{str_eq, format, decimal}
use kuai.Syntax.Diagnostic.{Span, Diagnostic, Severity}
use kuai.Syntax.Ast.{
  Ident, Expr, Exprs, TypeExpr, TypeExprs, Argument, Arguments, Param, FieldDecl, StructDecl,
  DimDecl, VarDecl, Stmt, StmtImpl, Block, Stmts, ElseBranch, OptionElse, FuncDecl, OptionBlock,
  Module, literal, variable, binary, member_access, namespace_access, index, vector_literal, call,
  expr_error, no_exprs, more_exprs, primitive, named_type, tensor, type_error, no_types, more_types,
  positional, named, attribute_argument, no_arguments, more_arguments, stmt, import, struct,
  dim_decl, var_decl, assignment, for_loop, if_branch, break, continue, return, stmt_error, block,
  no_stmts, more_stmts, else_block, else_if, no_else, some_else, func_decl, no_block, some_block,
}
use kuai.Syntax.Ast
use kuai.Outcome.{Outcome, ok, panicked, pure, ◌>>=◌, ◌>>◌}
use kuai.Sema.Scope
use kuai.Sema.Scope.{Symbol, SymbolKind, ScopeKind, Scope, Defined, fresh, conflict, define}

pub record Resolver : Type 0 where
  pub scope : Scope
  pub parents : List Scope
  pub diagnostics : List Diagnostic

abbrev pub R : Type 0 → Type 0
R A = Resolver → Outcome (A × Resolver)

abbrev pub ⊤ : Type 0
⊤ = Unit

-- The derived `Debug` of a kind and of a span.
abbrev pub debug_kind : SymbolKind → String
debug_kind SymbolKind.dimension = "Dimension"
debug_kind SymbolKind.variable = "Variable"
debug_kind SymbolKind.function = "Function"
debug_kind SymbolKind.builtin_function = "BuiltinFunction"
debug_kind SymbolKind.struct = "Struct"
debug_kind SymbolKind.param = "Param"

abbrev pub debug_span : Span → String
debug_span s = format (decimal s.start) (format ".." (decimal s.end))

unfoldable pub is_defined : ℕ → Resolver → Bool
is_defined k s = is_some (Scope.resolve k s.scope s.parents)

abbrev pub is_primitive_type : String → Bool
is_primitive_type n =
    str_eq n "i8"
    || (str_eq n "i16"
        || (str_eq n "i32"
            || (str_eq n "i64"
                || (str_eq n "f32" || (str_eq n "f64" || (str_eq n "bool" || str_eq n "char"))))))

unfoldable pub report : Span → String → R ⊤
report span msg s = ok (
  tt,
  record s {
    diagnostics =
        push s.diagnostics (record { severity = Severity.error; span = span; message = msg });
  },
)

unfoldable pub report_undefine : String → Span → R ⊤
report_undefine name span = report span (format "Variable '" (format name "' is not defined"))

unfoldable pub push_scope : ScopeKind → R ⊤
push_scope kind s =
    ok (tt, record s { scope = Scope.new_scope kind; parents = s.scope ∷ s.parents })

unfoldable pub pop_scope : R ⊤
pop_scope s = elim s.parents [
  | [] ↦ panicked
  | p ∷ ps ↦ ok (tt, record s { scope = p; parents = ps })
]

-- The names of the interner: `none` is its panic on an unknown key.
module _ (name_of : ℕ → Option String) where
  unfoldable pub text_of : ℕ → R String
  text_of k s = elim (name_of k) [ none ↦ panicked | some n ↦ ok (n, s) ]

  unfoldable pub report_redefine : SymbolKind → Symbol → R ⊤
  report_redefine kind old = do
    name ← text_of old.id
    report old.span (
        format (debug_kind kind) (
          format " symbol '"
            (format name (format "' is already defined at " (debug_span old.span)))))

  -- `if let Err(old) = scope.define(symbol) { report_redefine(...) }`
  unfoldable pub define_or_report : SymbolKind → Symbol → R ⊤
  define_or_report kind sym s = elim (define sym s.scope) [
    | fresh scope ↦ ok (tt, record s { scope = scope })
    | conflict old ↦ report_redefine kind old s
  ]

  unfoldable pub define_dim : DimDecl → R ⊤
  define_dim decl =
      define_or_report SymbolKind.dimension (record {
        id = decl.name.id;
        kind = SymbolKind.dimension;
        ty = none;
        span = decl.name.span;
      })

  unfoldable pub define_variable : VarDecl → R ⊤
  define_variable decl = define_or_report SymbolKind.variable (record {
    id = decl.name.id;
    kind = SymbolKind.variable;
    ty = decl.ty;
    span = decl.name.span;
  })

  unfoldable pub define_param : Param → R ⊤
  define_param p =
      define_or_report SymbolKind.param
        (record { id = p.name.id; kind = SymbolKind.param; ty = some p.ty; span = p.span })

  -- A variable that is nowhere defined is reported.
  unfoldable pub resolve_variable : Ident → R ⊤
  resolve_variable ident s =
      if is_defined ident.id s
      then ok (tt, s)
      else (do name ← text_of ident.id; report_undefine name ident.span) s

  -- So is the name of a type, unless it is that of a primitive type.
  unfoldable pub resolve_type_name : Ident → R ⊤
  resolve_type_name name s =
      if is_defined name.id s
      then ok (tt, s)
      else (do
        n ← text_of name.id
        if is_primitive_type n then pure tt else report_undefine n name.span)
          s

  unfoldable mutual
    pub resolve_expr : Expr → R ⊤
    resolve_expr (literal lit) = pure tt
    resolve_expr (variable ident) = resolve_variable ident
    resolve_expr (binary left op right) = resolve_expr left >> resolve_expr right
    resolve_expr (member_access target member) = resolve_expr target
    resolve_expr (namespace_access namespace member) = resolve_expr namespace
    resolve_expr (call func generics args) =
        resolve_expr func >> (resolve_types generics >> resolve_arguments args)
    resolve_expr (index target indices) = resolve_expr target >> resolve_exprs indices
    resolve_expr (vector_literal elements) = resolve_exprs elements
    resolve_expr (expr_error span) = pure tt

    pub resolve_exprs : Exprs → R ⊤
    resolve_exprs no_exprs = pure tt
    resolve_exprs (more_exprs e es) = resolve_expr e >> resolve_exprs es

    pub resolve_type_expr : TypeExpr → R ⊤
    resolve_type_expr (named_type name generics) = resolve_type_name name >> resolve_types generics
    resolve_type_expr (tensor base shape) = resolve_type_expr base >> resolve_exprs shape
    resolve_type_expr (primitive p) = pure tt
    resolve_type_expr (type_error span) = pure tt

    pub resolve_types : TypeExprs → R ⊤
    resolve_types no_types = pure tt
    resolve_types (more_types t ts) = resolve_type_expr t >> resolve_types ts

    pub resolve_argument : Argument → R ⊤
    resolve_argument (positional e) = resolve_expr e
    resolve_argument (named name value) = resolve_expr value
    resolve_argument (attribute_argument a) = pure tt

    pub resolve_arguments : Arguments → R ⊤
    resolve_arguments no_arguments = pure tt
    resolve_arguments (more_arguments a as') = resolve_argument a >> resolve_arguments as'

  -- `if let Some(e) = e { self.resolve_expr(e) }`
  unfoldable pub resolve_optional_expr : Option Expr → R ⊤
  resolve_optional_expr none = pure tt
  resolve_optional_expr (some e) = resolve_expr e

  unfoldable pub resolve_optional_type : Option TypeExpr → R ⊤
  resolve_optional_type none = pure tt
  resolve_optional_type (some t) = resolve_type_expr t

  unfoldable pub resolve_dims : List DimDecl → R ⊤
  resolve_dims [] = pure tt
  resolve_dims (d ∷ ds) =
      (resolve_optional_expr d.bound >> (resolve_optional_expr d.value >> define_dim d))
      >> resolve_dims ds

  unfoldable pub resolve_params : List Param → R ⊤
  resolve_params [] = pure tt
  resolve_params (p ∷ ps) = (define_param p >> resolve_type_expr p.ty) >> resolve_params ps

  unfoldable pub resolve_fields : List FieldDecl → R ⊤
  resolve_fields [] = pure tt
  resolve_fields (f ∷ fs) = resolve_type_expr f.ty >> resolve_fields fs

  unfoldable pub resolve_struct : StructDecl → R ⊤
  resolve_struct decl =
      define_or_report SymbolKind.struct
        (record { id = decl.name.id; kind = SymbolKind.struct; ty = none; span = decl.name.span })
      >> resolve_fields decl.fields

  -- `let _ = scope.define(symbol)` for the variable of a loop.
  unfoldable pub define_silently : Symbol → R ⊤
  define_silently sym s = elim (define sym s.scope) [
    | fresh scope ↦ ok (tt, record s { scope = scope })
    | conflict old ↦ ok (tt, s)
  ]

  unfoldable mutual
    pub resolve_stmt : Stmt → R ⊤
    resolve_stmt (stmt attrs s) = resolve_stmt_impl s

    pub resolve_stmt_impl : StmtImpl → R ⊤
    resolve_stmt_impl (dim_decl decls) = resolve_dims decls
    resolve_stmt_impl (var_decl decl) =
        resolve_optional_type decl.ty >> (resolve_optional_expr decl.init >> define_variable decl)
    resolve_stmt_impl (Ast.function decl) = resolve_func decl
    resolve_stmt_impl (struct decl) = resolve_struct decl
    resolve_stmt_impl (assignment target value span) = resolve_expr target >> resolve_expr value
    resolve_stmt_impl (for_loop var range body span) = do
      push_scope ScopeKind.block
      define_silently
          (record { id = var.id; kind = SymbolKind.variable; ty = none; span = var.span })
      resolve_expr range.start
      resolve_expr range.end
      resolve_optional_expr range.step
      resolve_block body
      pop_scope
    resolve_stmt_impl (if_branch condition then_branch else_branch) =
        resolve_expr condition
        >> ((push_scope ScopeKind.block >> (resolve_block then_branch >> pop_scope))
            >> resolve_else else_branch)
    resolve_stmt_impl (return e) = resolve_expr e
    resolve_stmt_impl (Ast.expr e) = resolve_expr e
    resolve_stmt_impl (break span) = pure tt
    resolve_stmt_impl (continue span) = pure tt
    resolve_stmt_impl (import path) = pure tt
    resolve_stmt_impl (stmt_error span) = pure tt

    pub resolve_block : Block → R ⊤
    resolve_block (block stmts span) = resolve_stmts stmts

    pub resolve_stmts : Stmts → R ⊤
    resolve_stmts no_stmts = pure tt
    resolve_stmts (more_stmts s ss) = resolve_stmt s >> resolve_stmts ss

    pub resolve_else : OptionElse → R ⊤
    resolve_else no_else = pure tt
    resolve_else (some_else e) = resolve_else_branch e

    pub resolve_else_branch : ElseBranch → R ⊤
    resolve_else_branch (else_block b) =
        push_scope ScopeKind.block >> (resolve_block b >> pop_scope)
    resolve_else_branch (else_if s) = resolve_stmt s

    pub resolve_func : FuncDecl → R ⊤
    resolve_func (func_decl proto body) =
        define_or_report SymbolKind.function (record {
          id = proto.name.id;
          kind = SymbolKind.function;
          ty = none;
          span = proto.name.span;
        })
        >> resolve_body (resolve_params proto.params) (resolve_optional_type proto.return_type) body

    -- The body of a function behind its parameters and its return type, if there is one.
    pub resolve_body : R ⊤ → R ⊤ → OptionBlock → R ⊤
    resolve_body params return_type no_block = pure tt
    resolve_body params return_type (some_block b) = do
      push_scope ScopeKind.function
      params
      return_type
      resolve_block b
      pop_scope

  unfoldable pub resolve_module : List Stmt → R ⊤
  resolve_module [] = pure tt
  resolve_module (s ∷ ss) = resolve_stmt s >> resolve_module ss

-- `Resolver::new` on the global scope, `resolve`, and what it leaves: the scope and the
-- diagnostics.
unfoldable pub resolve : (ℕ → Option String) → Scope → Module → Outcome (⊤ × Resolver)
resolve name_of global m =
    resolve_module name_of m.stmts (record { scope = global; parents = []; diagnostics = [] })
