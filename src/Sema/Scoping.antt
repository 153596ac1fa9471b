-- ===== src/Sema/Scoping.antt =====
-- The names that statements define, under the resolver of crates/kuai-sema/src/resolver.rs.
use kuai.Prelude.{
  ◌⊎◌, In, subst, sym, ap, ◌∙◌, ℕ, ◌≡◌, refl, Option, none, some, List, [], ◌∷◌, ◌++◌, String, All,
  All-append, map, ==_iff, Option-cases, inl, inr,
}
use kuai.Syntax.Ast
use kuai.Syntax.Ast.{
  FuncProto, Module, DimDecl, VarDecl, Stmt, StmtImpl, FuncDecl, StructDecl, stmt, import, struct,
  dim_decl, var_decl, assignment, for_loop, if_branch, break, continue, return, stmt_error,
  func_decl,
}
use kuai.Syntax.Diagnostic.{AreErrors}
use kuai.Outcome.{ok, ◌>>◌}
use kuai.Sema.Scope.{Symbol, SymbolKind, Scope, get, define}
use kuai.Sema.Resolver
use kuai.Sema.Resolver.{
  Resolver, R, ⊤, define_or_report, define_dim, define_variable, resolve_dims,
  resolve_optional_expr, resolve_optional_type, resolve_struct, report_redefine, text_of, report,
  resolve_stmt, resolve_stmt_impl, resolve_module,
}
use kuai.Sema.Names.{DimNamed, StmtNamed, ImplNamed}
use kuai.Sema.Runs.{
  added-Safe, Known, Safe, Keeps, Runs, Runs-pure, Extends, Extends-trans, Extends-define,
  Grows-one, added, noted, redefined,
}
use kuai.Sema.Returns.{
  resolve_optional_expr-Runs, resolve_optional_type-Runs, body-Runs, resolve_params-Runs,
  resolve_fields-Runs, impl-Runs,
}

abbrev dim_symbol : DimDecl → Symbol
dim_symbol d = record { id = d.name.id; kind = SymbolKind.dimension; ty = none; span = d.name.span }

abbrev variable_symbol : VarDecl → Symbol
variable_symbol d = record {
  id = d.name.id;
  kind = SymbolKind.variable;
  ty = d.ty;
  span = d.name.span;
}

abbrev function_symbol : FuncProto → Symbol
function_symbol p = record {
  id = p.name.id;
  kind = SymbolKind.function;
  ty = none;
  span = p.name.span;
}

abbrev struct_symbol : StructDecl → Symbol
struct_symbol d = record { id = d.name.id; kind = SymbolKind.struct; ty = none; span = d.name.span }

-- The symbols of what a statement declares in the scope that it stands in: each with its kind and
-- its place, a variable also with its type.
abbrev pub impl_declared : StmtImpl → List Symbol
impl_declared (dim_decl decls) = map dim_symbol decls
impl_declared (var_decl decl) = variable_symbol decl ∷ []
impl_declared (Ast.function (func_decl proto body)) = function_symbol proto ∷ []
impl_declared (struct decl) = struct_symbol decl ∷ []
impl_declared (assignment target value span) = []
impl_declared (for_loop var range body span) = []
impl_declared (if_branch condition then_branch else_branch) = []
impl_declared (return e) = []
impl_declared (Ast.expr e) = []
impl_declared (break span) = []
impl_declared (continue span) = []
impl_declared (import path) = []
impl_declared (stmt_error span) = []

abbrev pub stmt_declared : Stmt → List Symbol
stmt_declared (stmt attrs s) = impl_declared s

abbrev pub declared : List Stmt → List Symbol
declared [] = []
declared (s ∷ ss) = stmt_declared s ++ declared ss

-- The scope has the symbol under its key; or it has another one there, and there is a report that
-- the name is defined twice, with the kind of the symbol and the place of the other one.
abbrev pub Has : (ℕ → String) → Resolver → Symbol → Type 0
Has text t x =
    (get x.id t.scope.symbols ≡ some x)
    ⊎ ((old : Symbol) × (get x.id t.scope.symbols ≡ some old)
        × In (redefined text x.kind old) t.diagnostics)

In-append : {A : Type 0} (a : A) (xs ys : List A) → In a xs → In a (xs ++ ys)
In-append a [] ys h = absurd h
In-append a (x ∷ xs) ys (inl e) = inl e
In-append a (x ∷ xs) ys (inr h) = inr (In-append a xs ys h)

In-last : {A : Type 0} (a : A) (xs : List A) → In a (xs ++ a ∷ [])
In-last a [] = inl refl
In-last a (x ∷ xs) = inr (In-last a xs)

-- A method returns as it does by `Runs`, and the innermost scope then has the symbols.
abbrev Declares : (ℕ → String) → (ℕ → Type 0) → R ⊤ → List Symbol → Type 0
Declares text K m xs =
    (s : Resolver)
    → Safe K s.scope
    → (t : Resolver) × (m s ≡ ok (tt, t)) × Extends s t × Safe K t.scope × All (Has text t) xs

Has-Extends :
    (text : ℕ → String) (s t : Resolver) (x : Symbol) → Extends s t → Has text s x → Has text t x
Has-Extends text s t x g (inl e) = inl (g.symbols x.id x e)
Has-Extends text s t x g (inr (old, e, h)) =
    let (ds, same, errors) = g.reports in
    inr (
      old,
      g.symbols x.id old e,
      subst (In (redefined text x.kind old)) (sym same)
          (In-append (redefined text x.kind old) s.diagnostics ds h),
    )

All-Has :
    (text : ℕ → String) (s t : Resolver) (xs : List Symbol)
    → Extends s t
    → All (Has text s) xs
    → All (Has text t) xs
All-Has text s t [] g h = tt
All-Has text s t (x ∷ xs) g (h, hs) = (Has-Extends text s t x g h, All-Has text s t xs g hs)

get-added : (x : Symbol) (s : Resolver) → get x.id (added x s).scope.symbols ≡ some x
get-added x s = rw ((==_iff x.id x.id).1 refl) refl

define-fresh :
    (name_of : ℕ → Option String) (kind : SymbolKind) (x : Symbol) (s : Resolver)
    → get x.id s.scope.symbols ≡ none
    → define_or_report name_of kind x s ≡ ok (tt, added x s)
unfolding define_or_report define
define-fresh name_of kind x s e = rw (e, define_or_report, define) refl

define-conflict :
    (text : ℕ → String) (name_of : ℕ → Option String) (kind : SymbolKind) (x old : Symbol)
    (s : Resolver)
    → get x.id s.scope.symbols ≡ some old
    → name_of old.id ≡ some (text old.id)
    → define_or_report name_of kind x s ≡ ok (tt, noted (redefined text kind old) s)
unfolding define_or_report define report_redefine text_of report
define-conflict text name_of kind x old s e known =
    rw (e, define_or_report, define) (rw (known, report_redefine, text_of) refl)

-- Where the innermost scope does not have a name and the interner has its key, two definitions of
-- the name one after the other return: the scope has the first symbol and not the second, and there
-- is one new report, at the place of the first symbol, with the kind of the second.
pub define_or_report_twice :
    (text : ℕ → String) (name_of : ℕ → Option String) (kind kind' : SymbolKind) (x y : Symbol)
    (s : Resolver)
    → get x.id s.scope.symbols ≡ none
    → y.id ≡ x.id
    → name_of x.id ≡ some (text x.id)
    → (define_or_report name_of kind x >> define_or_report name_of kind' y) s
      ≡ ok (tt, noted (redefined text kind' x) (added x s))
define_or_report_twice text name_of kind kind' x y s fresh same known =
    rw (define-fresh name_of kind x s fresh) (
      define-conflict text name_of kind' y x (added x s)
        (ap (λ k. get k (added x s).scope.symbols) same ∙ get-added x s) known)

module _ (text : ℕ → String) (name_of : ℕ → Option String) where
  Runs-Declares : {m : R ⊤} → Runs (Known text name_of) m → Declares text (Known text name_of) m []
  Runs-Declares h s safe = let (t, e, x, safe_t) = h s safe in (t, e, x, safe_t, tt)

  Declares-seq :
      {m n : R ⊤} (xs ys : List Symbol)
      → Declares text (Known text name_of) m xs
      → Declares text (Known text name_of) n ys
      → Declares text (Known text name_of) (m >> n) (xs ++ ys)
  Declares-seq xs ys h k s safe =
      let (t, e, x, safe_t, a) = h s safe in
      let (u, f, y, safe_u, b) = k t safe_t in
      (
        u,
        rw e f,
        Extends-trans s t u x y,
        safe_u,
        All-append (Has text u) xs ys (All-Has text t u xs y a) b,
      )

  define_or_report-Declares :
      (x : Symbol)
      → Known text name_of x.id
      → Declares text (Known text name_of) (define_or_report name_of x.kind x) (x ∷ [])
  define_or_report-Declares x known s safe = elim (Option-cases (get x.id s.scope.symbols)) [
    | inl e ↦ (
      added x s,
      define-fresh name_of x.kind x s e,
      Extends-define x s e,
      added-Safe (Known text name_of) x s known safe,
      (inl (get-added x s), tt),
    )
    | inr (old, e) ↦ (
      noted (redefined text x.kind old) s,
      define-conflict text name_of x.kind x old s e (safe.known x.id old e),
      Grows-one s (redefined text x.kind old) refl,
      safe,
      (inr (old, e, In-last (redefined text x.kind old) s.diagnostics), tt),
    )
  ]

  resolve_dims-Declares :
      (ds : List DimDecl)
      → All (DimNamed text name_of) ds
      → Declares text (Known text name_of) (resolve_dims name_of ds) (map dim_symbol ds)
  unfolding resolve_dims define_dim
  resolve_dims-Declares [] named = Runs-Declares Runs-pure
  resolve_dims-Declares (d ∷ ds) ((bound, value, name), named) =
      Declares-seq (dim_symbol d ∷ []) (map dim_symbol ds)
        (Declares-seq [] (dim_symbol d ∷ [])
          (Runs-Declares (resolve_optional_expr-Runs text name_of d.bound bound))
          (Declares-seq [] (dim_symbol d ∷ [])
            (Runs-Declares (resolve_optional_expr-Runs text name_of d.value value))
            (define_or_report-Declares (dim_symbol d) name)))
        (resolve_dims-Declares ds named)

  impl-Declares :
      (s : StmtImpl)
      → ImplNamed text name_of s
      → Declares text (Known text name_of) (resolve_stmt_impl name_of s) (impl_declared s)
  unfolding resolve_stmt define_variable resolve_struct StmtNamed
  impl-Declares (dim_decl decls) named = resolve_dims-Declares decls named
  impl-Declares (var_decl decl) (ty, init, name) =
      Declares-seq [] (variable_symbol decl ∷ [])
        (Runs-Declares (resolve_optional_type-Runs text name_of decl.ty ty))
        (Declares-seq [] (variable_symbol decl ∷ [])
          (Runs-Declares (resolve_optional_expr-Runs text name_of decl.init init))
          (define_or_report-Declares (variable_symbol decl) name))
  impl-Declares (Ast.function (func_decl proto body)) (name, params, return_type, in_body) =
      Declares-seq (function_symbol proto ∷ []) []
        (define_or_report-Declares (function_symbol proto) name)
        (Runs-Declares (
          body-Runs text name_of (resolve_params-Runs text name_of proto.params params)
            (resolve_optional_type-Runs text name_of proto.return_type return_type) body in_body))
  impl-Declares (struct decl) (name, fields) =
      Declares-seq (struct_symbol decl ∷ []) []
        (define_or_report-Declares (struct_symbol decl) name)
        (Runs-Declares (resolve_fields-Runs text name_of decl.fields fields))
  impl-Declares (assignment target value span) named =
      Runs-Declares (impl-Runs text name_of (assignment target value span) named)
  impl-Declares (for_loop var range body span) named =
      Runs-Declares (impl-Runs text name_of (for_loop var range body span) named)
  impl-Declares (if_branch c t e) named =
      Runs-Declares (impl-Runs text name_of (if_branch c t e) named)
  impl-Declares (return e) named = Runs-Declares (impl-Runs text name_of (return e) named)
  impl-Declares (Ast.expr e) named = Runs-Declares (impl-Runs text name_of (Ast.expr e) named)
  impl-Declares (break span) named = Runs-Declares Runs-pure
  impl-Declares (continue span) named = Runs-Declares Runs-pure
  impl-Declares (import path) named = Runs-Declares Runs-pure
  impl-Declares (stmt_error span) named = Runs-Declares Runs-pure

  module-Declares :
      (ss : List Stmt)
      → All (StmtNamed text name_of) ss
      → Declares text (Known text name_of) (resolve_module name_of ss) (declared ss)
  unfolding resolve_module resolve_stmt StmtNamed
  module-Declares [] named = Runs-Declares Runs-pure
  module-Declares (stmt attrs s ∷ ss) (first, named) =
      Declares-seq (impl_declared s) (declared ss) (impl-Declares s first)
        (module-Declares ss named)

  -- Where the interner has the keys of all names of a module and of all symbols of the global
  -- scope, resolving the module returns to the global scope, which keeps every symbol that it had.
  -- Of every function, struct, variable and dimension that the module's own statements declare, the
  -- scope has the symbol, with its kind, type and place, under its key; or it has another symbol
  -- there, and there is a report that the name is defined twice. All reports are errors.
  pub resolve_declares :
      (global : Scope) (m : Module)
      → All (StmtNamed text name_of) m.stmts
      → Safe (Known text name_of) global
      → (t : Resolver) × (Resolver.resolve name_of global m ≡ ok (tt, t))
        × (t.parents ≡ [])
        × Keeps global.symbols t.scope.symbols
        × All (Has text t) (declared m.stmts)
        × AreErrors t.diagnostics
  unfolding Resolver.resolve
  resolve_declares global m named safe =
      let (t, e, x, safe_t, h) =
        module-Declares m.stmts named (record { scope = global; parents = []; diagnostics = [] })
          safe in
      let (ds, same, errors) = x.reports in (t, e, x.parents, x.symbols, h, rw same errors)
