-- ===== src/Sema/Scope.antt =====
-- crates/kuai-sema/src/symbol.rs: symbols and scopes. The source links a scope to its parent by a
-- shared pointer. The parents of a scope change only while it is not the current one, so the chain
-- is a list here: the current scope and its parents, innermost first. The last of them is the
-- global scope of the driver's context, which one resolver hands on to the next.
use kuai.Prelude.{ℕ, Option, none, some, List, [], ◌∷◌, ◌==◌, if◌then◌else◌}
use kuai.Syntax.Diagnostic.{Span}
use kuai.Syntax.Ast.{TypeExpr}

pub data SymbolKind : Type 0 where
  dimension variable function builtin_function struct param : SymbolKind

pub data ScopeKind : Type 0 where
  global function block : ScopeKind

pub record Symbol : Type 0 where
  pub id : ℕ
  pub kind : SymbolKind
  pub ty : Option TypeExpr
  pub span : Span

-- A `HashMap<NameId, Symbol>`: only lookups and insertions of new keys are made.
abbrev pub Symbols : Type 0
Symbols = List (ℕ × Symbol)

pub record Scope : Type 0 where
  pub symbols : Symbols
  pub kind : ScopeKind

abbrev pub get : ℕ → Symbols → Option Symbol
get k [] = none
get k ((j, s) ∷ m) = if j == k then some s else get k m

-- `Scope::new` without its parent.
abbrev pub new_scope : ScopeKind → Scope
new_scope kind = record { symbols = []; kind = kind }

-- `Scope::resolve`: here, or in a parent.
unfoldable pub resolve : ℕ → Scope → List Scope → Option Symbol
resolve k s [] = get k s.symbols
resolve k s (p ∷ ps) =
    let outer = resolve k p ps in elim (get k s.symbols) [ some sym ↦ some sym | none ↦ outer ]

pub data Defined : Type 0 where
  fresh : Scope → Defined
  conflict : Symbol → Defined

-- `Scope::define`: the scope with the symbol (`Ok`), or the symbol that has the name (`Err`).
unfoldable pub define : Symbol → Scope → Defined
define sym s = elim (get sym.id s.symbols) [
  | some old ↦ conflict old
  | none ↦ fresh (record s { symbols = (sym.id, sym) ∷ s.symbols })
]
