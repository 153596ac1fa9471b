-- ===== src/Sema/Lookup.antt =====
-- Definitions and lookups in the chain of scopes of crates/kuai-sema/src/symbol.rs.
use kuai.Prelude.{
  ℕ, ◌≡◌, refl, ap, ◌∙◌, sym, none, some, List, [], ◌∷◌, ◌==◌, Bool-cases, Option-cases, inl, inr,
  if◌then◌else◌,
}
use kuai.Sema.Scope
use kuai.Sema.Scope.{Symbol, Scope, Defined, fresh, conflict, get, define}

abbrev extended : Symbol → Scope → Scope
extended x s = record s { symbols = (x.id, x) ∷ s.symbols }

define-eq-fresh :
    (x : Symbol) (s t : Scope)
    → define x s ≡ fresh t
    → (get x.id s.symbols ≡ none) × (t ≡ extended x s)
unfolding define
define-eq-fresh x s t e = elim (Option-cases (get x.id s.symbols)) [
  | inl f ↦ let same : extended x s ≡ t = cc (rw (f, define) at e) in (f, sym same)
  | inr (old, f) ↦ absurd (cc (rw (f, define) at e))
]

resolve-extended :
    (k : ℕ) (x : Symbol) (s : Scope) (ps : List Scope)
    → Scope.resolve k (extended x s) ps ≡ (if x.id == k then some x else Scope.resolve k s ps)
unfolding Scope.resolve
resolve-extended k x s [] = refl
resolve-extended k x s (p ∷ ps) = elim (Bool-cases (x.id == k)) [
  | inl e ↦ rw (e, Scope.resolve) refl
  | inr e ↦ rw (e, Scope.resolve) refl
]

-- After a definition that succeeds, looking up its name from the innermost scope finds the new
-- symbol, also where a parent has a symbol of the name, and looking up any other name finds what it
-- found before.
pub resolve-define :
    (x : Symbol) (s t : Scope) (ps : List Scope) (k : ℕ)
    → define x s ≡ fresh t
    → Scope.resolve k t ps ≡ (if x.id == k then some x else Scope.resolve k s ps)
resolve-define x s t ps k e =
    let (absent, same) = define-eq-fresh x s t e in
    ap (λ u. Scope.resolve k u ps) same ∙ resolve-extended k x s ps
