-- ===== src/Sema/Tests.antt =====
-- Runs of the resolver on concrete trees.
use kuai.Prelude.{
  if◌then◌else◌, ◌==◌, Bool-cases, inl, inr, subst, ℕ, zero, suc, pos, ◌≡◌, refl, Option, none,
  some, [], ◌∷◌, String, All,
}
use kuai.Syntax.Diagnostic.{AreErrors, Span, Severity}
use kuai.Syntax.Ast
use kuai.Outcome.{◌>>◌, ok}
use kuai.Sema.Scope
use kuai.Sema.Lookup.{resolve-define}
use kuai.Sema.Scope.{Symbol, SymbolKind, ScopeKind, Scope, get, define}
use kuai.Sema.Resolver
use kuai.Sema.Resolver.{Resolver}
use kuai.Sema.Mentions.{
  complaints, after, mentions, type_mentions, resolve_expr_lem, resolve_type_expr_lem,
}
use kuai.Sema.Names.{StmtNamed}
use kuai.Sema.Runs.{Safe, Known, Extends, Restores, Keeps, added, noted, redefined}
use kuai.Sema.Returns.{resolve_stmt-Extends, for_loop-Restores}
use kuai.Sema.Scoping.{Has, declared, define_or_report_twice, resolve_declares}

-- Names for every key: `x` for 0, `y` for the others.
abbrev text : ℕ → String
text zero = "x"
text (suc k) = "y"

-- An interner with two names.
abbrev two_names : ℕ → Option String
two_names zero = some "x"
two_names (suc zero) = some "y"
two_names (suc (suc k)) = none

abbrev at : ℕ → Span
at n = record { start = n; end = n }

abbrev ident : ℕ → ℕ → Ast.Ident
ident k n = record { id = k; span = at n }

abbrev x_symbol : Symbol
x_symbol = record { id = 0; kind = SymbolKind.variable; ty = none; span = at 1 }

-- `x` is defined, `y` is not.
abbrev known : Resolver
known = record {
  scope = record { symbols = (0, x_symbol) ∷ []; kind = ScopeKind.global };
  parents = [];
  diagnostics = [];
}

abbrev x_plus_y : Ast.Expr
x_plus_y = Ast.binary (Ast.variable (ident 0 4)) Ast.plus (Ast.variable (ident 1 8))

-- `y<f64>` with a tensor's shape `[x]`
abbrev tensor_of_y : Ast.TypeExpr
tensor_of_y =
    Ast.tensor (Ast.named_type (ident 1 2) (Ast.more_types (Ast.primitive Ast.f64) Ast.no_types))
      (Ast.more_exprs (Ast.variable (ident 0 9)) Ast.no_exprs)

resolve_expr_lem_example :
    Resolver.resolve_expr two_names x_plus_y known
    ≡ ok (
      tt,
      after text known (complaints text (λ k. Resolver.is_defined k known) (mentions x_plus_y)),
    )
unfolding mentions
resolve_expr_lem_example = resolve_expr_lem text two_names x_plus_y known (refl, (refl, tt))

-- One report, for `y`.
one_complaint :
    complaints text (λ k. Resolver.is_defined k known) (mentions x_plus_y)
    ≡ record { severity = Severity.error; span = at 8; message = "Variable 'y' is not defined" }
      ∷ []
unfolding Resolver.is_defined Scope.resolve mentions
one_complaint = refl

resolve_type_expr_lem_example :
    Resolver.resolve_type_expr two_names tensor_of_y known
    ≡ ok (
      tt,
      after text known
          (complaints text (λ k. Resolver.is_defined k known) (type_mentions tensor_of_y)),
    )
unfolding mentions
resolve_type_expr_lem_example =
    resolve_type_expr_lem text two_names tensor_of_y known (refl, (refl, tt))

-- `for y in 0..x { return y; }`
abbrev zero_to_x : Ast.Range
zero_to_x = record {
  start = Ast.literal (Ast.int (pos 0));
  end = Ast.variable (ident 0 11);
  step = none;
  span = at 12;
}

abbrev body : Ast.Block
body =
    Ast.block (Ast.more_stmts (Ast.stmt [] (Ast.return (Ast.variable (ident 1 15)))) Ast.no_stmts)
      (at 20)

abbrev loop_over_x : Ast.StmtImpl
loop_over_x = Ast.for_loop (ident 1 5) zero_to_x body (at 21)

known_symbols :
    (k : ℕ) (y : Symbol) → get k known.scope.symbols ≡ some y → two_names y.id ≡ some (text y.id)
known_symbols k y e = elim (Bool-cases (0 == k)) [
  | inl g ↦
      let same : x_symbol ≡ y = cc (rw g at e) in
      subst (λ (z : Symbol). two_names z.id ≡ some (text z.id)) same refl
  | inr g ↦ absurd (cc (rw g at e))
]

global_scope-Safe : Safe (Known text two_names) known.scope
global_scope-Safe = record { known = known_symbols }

resolve_stmt-Extends_example :
    (t : Resolver) × (Resolver.resolve_stmt two_names (Ast.stmt [] loop_over_x) known ≡ ok (tt, t))
    × Extends known t
    × Safe (Known text two_names) t.scope
unfolding StmtNamed mentions
resolve_stmt-Extends_example =
    resolve_stmt-Extends text two_names (Ast.stmt [] loop_over_x) known
      (refl, tt, (refl, tt), tt, ((refl, tt), tt)) global_scope-Safe

for_loop-Restores_example : Restores (Resolver.resolve_stmt_impl two_names loop_over_x)
unfolding StmtNamed mentions
for_loop-Restores_example =
    for_loop-Restores text two_names (ident 1 5) zero_to_x body (at 21)
      (refl, tt, (refl, tt), tt, ((refl, tt), tt))

abbrev y_variable : Symbol
y_variable = record { id = 1; kind = SymbolKind.variable; ty = none; span = at 2 }

abbrev y_function : Symbol
y_function = record { id = 1; kind = SymbolKind.function; ty = none; span = at 7 }

define_or_report_twice_example :
    (Resolver.define_or_report two_names SymbolKind.variable y_variable
        >> Resolver.define_or_report two_names SymbolKind.function y_function)
      known
    ≡ ok (tt, noted (redefined text SymbolKind.function y_variable) (added y_variable known))
define_or_report_twice_example =
    define_or_report_twice text two_names SymbolKind.variable SymbolKind.function y_variable
      y_function known refl refl refl

-- `let y = x + y;` over a global scope that has `x`.
abbrev let_y : Ast.Module
let_y = record {
  top_level_attributes = [];
  stmts =
      Ast.stmt []
        (Ast.var_decl (record { name = ident 1 3; ty = none; init = some x_plus_y; span = at 9 }))
      ∷ [];
  span = at 9;
}

resolve_declares_example :
    (t : Resolver) × (Resolver.resolve two_names known.scope let_y ≡ ok (tt, t))
    × (t.parents ≡ [])
    × Keeps known.scope.symbols t.scope.symbols
    × All (Has text t) (declared let_y.stmts)
    × AreErrors t.diagnostics
unfolding StmtNamed mentions
resolve_declares_example =
    resolve_declares text two_names known.scope let_y ((tt, (refl, (refl, tt)), refl), tt)
      global_scope-Safe

-- `x` is in a parent, and a parameter of the same name hides it.
abbrev x_param : Symbol
x_param = record { id = 0; kind = SymbolKind.param; ty = none; span = at 6 }

abbrev inner : Scope
inner = record { symbols = (0, x_param) ∷ []; kind = ScopeKind.function }

resolve-define_example : Scope.resolve 0 inner (known.scope ∷ []) ≡ (
    if 0 == 0
    then some x_param
    else Scope.resolve 0 (Scope.new_scope ScopeKind.function) (known.scope ∷ []))
unfolding define
resolve-define_example =
    resolve-define x_param (Scope.new_scope ScopeKind.function) inner (known.scope ∷ []) 0 refl
