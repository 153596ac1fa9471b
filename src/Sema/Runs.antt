-- ===== src/Sema/Runs.antt =====
-- Whole statements under the resolver of crates/kuai-sema/src/resolver.rs: how its methods return,
-- and what happens to the stack of scopes.
use kuai.Prelude.{
  Bool, All-append, subst, All, ℕ, ◌≡◌, refl, sym, ap, ◌∙◌, Option, none, some, List, [], ◌∷◌, ◌++◌,
  String, append_assoc, append-nil, ◌==◌, ==_iff, Bool-cases, Option-cases, inl, inr,
}
use kuai.Syntax.Diagnostic.{AreErrors, Diagnostic, Severity}
use kuai.Syntax.Text.{format}
use kuai.Outcome.{ok, pure, ◌>>◌}
use kuai.Sema.Scope
use kuai.Sema.Scope.{Symbol, SymbolKind, Symbols, ScopeKind, Scope, get, define}
use kuai.Sema.Resolver
use kuai.Sema.Resolver.{
  Resolver, R, ⊤, is_defined, text_of, report, report_redefine, define_or_report, define_silently,
  define_dim, define_variable, define_param, push_scope, pop_scope, resolve_expr, resolve_type_expr,
  resolve_types, resolve_optional_expr, resolve_optional_type, resolve_dims, resolve_params,
  resolve_fields, resolve_struct, resolve_stmt, resolve_stmt_impl, resolve_block, resolve_stmts,
  resolve_else, resolve_else_branch, resolve_func, resolve_body, resolve_module,
}
use kuai.Sema.Mentions.{is_known, Mention, HasText, Walks, after, complaints}

-- A symbol that a scope has stays where it is.
abbrev pub Keeps : Symbols → Symbols → Type 0
Keeps xs ys = (k : ℕ) (x : Symbol) → get k xs ≡ some x → get k ys ≡ some x

abbrev pub Grows : Resolver → Resolver → Type 0
Grows s t = (ds : List Diagnostic) × (t.diagnostics ≡ s.diagnostics ++ ds) × AreErrors ds

-- The same stack of scopes, with more symbols in the innermost one at most, and more
-- reports, all of them errors.
pub record Extends (s t : Resolver) : Type 0 where
  pub parents : t.parents ≡ s.parents
  pub kind : t.scope.kind ≡ s.scope.kind
  pub symbols : Keeps s.scope.symbols t.scope.symbols
  pub reports : Grows s t

pub Grows-refl : (s : Resolver) → Grows s s
Grows-refl s = ([], sym (append-nil s.diagnostics), tt)

pub Grows-trans : (s t u : Resolver) → Grows s t → Grows t u → Grows s u
Grows-trans s t u (xs, p, h) (ys, q, k) =
    (xs ++ ys, q ∙ ap (λ ds. ds ++ ys) p ∙ append_assoc s.diagnostics xs ys, All-append _ xs ys h k)

pub Extends-refl : (s : Resolver) → Extends s s
Extends-refl s = record {
  parents = refl;
  kind = refl;
  symbols = λ k x e. e;
  reports = Grows-refl s;
}

pub Extends-trans : (s t u : Resolver) → Extends s t → Extends t u → Extends s u
Extends-trans s t u h i = record {
  parents = i.parents ∙ h.parents;
  kind = i.kind ∙ h.kind;
  symbols = λ k x e. i.symbols k x (h.symbols k x e);
  reports = Grows-trans s t u h.reports i.reports;
}

-- The keys of the symbols of a scope have a property.
pub record Safe (K : ℕ → Type 0) (s : Scope) : Type 0 where
  pub known : (k : ℕ) (x : Symbol) → get k s.symbols ≡ some x → K x.id

-- A method returns where the symbols of the innermost scope have known keys; it only extends the
-- state, by symbols with known keys.
abbrev pub Runs : (ℕ → Type 0) → R ⊤ → Type 0
Runs K m =
    (s : Resolver)
    → Safe K s.scope
    → (t : Resolver) × (m s ≡ ok (tt, t)) × Extends s t × Safe K t.scope

-- A method returns with the innermost scope left, and only reports behind the others.
abbrev pub Closes : (ℕ → Type 0) → R ⊤ → Type 0
Closes K m =
    (s : Resolver) (p : Scope) (ps : List Scope)
    → s.parents ≡ p ∷ ps
    → Safe K s.scope
    → (t : Resolver) × (m s ≡ ok (tt, t)) × (t.scope ≡ p) × (t.parents ≡ ps) × Grows s t

-- A method returns with the scopes that it found.
abbrev pub Restores : R ⊤ → Type 0
Restores m =
    (s : Resolver)
    → (t : Resolver) × (m s ≡ ok (tt, t))
      × (t.scope ≡ s.scope)
      × (t.parents ≡ s.parents)
      × Grows s t

empty-Safe : (K : ℕ → Type 0) (kind : ScopeKind) → Safe K (Scope.new_scope kind)
empty-Safe K kind = record { known = λ k x e. cc }

module _ {K : ℕ → Type 0} where
  pub Runs-pure : Runs K (pure tt)
  Runs-pure s safe = (s, refl, Extends-refl s, safe)

  pub Runs-seq : {m n : R ⊤} → Runs K m → Runs K n → Runs K (m >> n)
  Runs-seq h k s safe =
      let (t, e, x, safe_t) = h s safe in
      let (u, f, y, safe_u) = k t safe_t in (u, rw e f, Extends-trans s t u x y, safe_u)

  pub Closes-pop : Closes K pop_scope
  unfolding pop_scope
  Closes-pop s p ps e safe =
      (record s { scope = p; parents = ps }, rw e refl, refl, refl, Grows-refl s)

  pub Closes-seq : {m n : R ⊤} → Runs K m → Closes K n → Closes K (m >> n)
  Closes-seq h k s p ps e safe =
      let (t, f, x, safe_t) = h s safe in
      let (u, g, a, b, c) = k t p ps (x.parents ∙ e) safe_t in
      (u, rw f g, a, b, Grows-trans s t u x.reports c)

  pub Restores-push : (kind : ScopeKind) {m : R ⊤} → Closes K m → Restores (push_scope kind >> m)
  unfolding push_scope
  Restores-push kind h s =
      let (t, e, a, b, c) =
        h (record s { scope = Scope.new_scope kind; parents = s.scope ∷ s.parents }) s.scope
          s.parents refl (empty-Safe K kind) in
      (t, e, a, b, c)

  pub Restores-Runs : {m : R ⊤} → Restores m → Runs K m
  Restores-Runs h s safe =
      let (t, e, a, b, c) = h s in
      (
        t,
        e,
        record {
          parents = b;
          kind = ap (λ x. x.kind) a;
          symbols = λ k x f. ap (λ y. get k y.symbols) a ∙ f;
          reports = c;
        },
        subst (Safe K) (sym a) safe,
      )

-- The state with one more symbol, and with one more report.
abbrev pub added : Symbol → Resolver → Resolver
added x s = record s { scope = record s.scope { symbols = (x.id, x) ∷ s.scope.symbols } }

abbrev pub noted : Diagnostic → Resolver → Resolver
noted d s = record s { diagnostics = s.diagnostics ++ d ∷ [] }

-- A new symbol hides no symbol that the scope has.
pub get-cons : (k : ℕ) (x : Symbol) (m : Symbols) → get k m ≡ none → Keeps m ((k, x) ∷ m)
get-cons k x m e j y f = elim (Bool-cases (k == j)) [
  | inl g ↦ cc ((==_iff k j).0 g)
  | inr g ↦ rw g f
]

complaints-AreErrors :
    (text : ℕ → String) (defined : ℕ → Bool) (ms : List Mention)
    → AreErrors (complaints text defined ms)
complaints-AreErrors text defined [] = tt
complaints-AreErrors text defined (m ∷ ms) = elim (Bool-cases (is_known text defined m)) [
  | inl e ↦ rw e (complaints-AreErrors text defined ms)
  | inr e ↦ rw e (refl, complaints-AreErrors text defined ms)
]

pub Walks-Runs :
    {K : ℕ → Type 0} (text : ℕ → String) (name_of : ℕ → Option String) (m : R ⊤) (ms : List Mention)
    → All (HasText text name_of) ms
    → Walks text name_of m ms
    → Runs K m
Walks-Runs text name_of m ms known h s safe =
    let ds = complaints text (λ k. is_defined k s) ms in
    (
      after text s ds,
      h known s,
      record {
        parents = refl;
        kind = refl;
        symbols = λ k x e. e;
        reports = (ds, refl, complaints-AreErrors text _ ms);
      },
      safe,
    )

-- The report of a name that is defined twice, at the place of its first symbol.
abbrev pub redefined : (ℕ → String) → SymbolKind → Symbol → Diagnostic
redefined text kind old = record {
  severity = Severity.error;
  span = old.span;
  message = format (Resolver.debug_kind kind) (
      format " symbol '"
        (format (text old.id) (format "' is already defined at " (Resolver.debug_span old.span))));
}

pub Grows-one :
    (s : Resolver) (d : Diagnostic) → d.severity ≡ Severity.error → Extends s (noted d s)
Grows-one s d e = record {
  parents = refl;
  kind = refl;
  symbols = λ k x e. e;
  reports = (d ∷ [], refl, (e, tt));
}

pub Extends-define :
    (x : Symbol) (s : Resolver) → get x.id s.scope.symbols ≡ none → Extends s (added x s)
Extends-define x s e = record {
  parents = refl;
  kind = refl;
  symbols = get-cons x.id x s.scope.symbols e;
  reports = Grows-refl s;
}

pub added-Safe :
    (K : ℕ → Type 0) (x : Symbol) (s : Resolver)
    → K x.id
    → Safe K s.scope
    → Safe K (added x s).scope
added-Safe K x s known safe = record {
  known = λ j y f. elim (Bool-cases (x.id == j)) [
    | inl g ↦ let e : x ≡ y = cc (rw g at f) in subst (λ (z : Symbol). K z.id) e known
    | inr g ↦ safe.known j y (rw g at f)
  ];
}

module _ (text : ℕ → String) (name_of : ℕ → Option String) where
  -- The interner has a key.
  abbrev pub Known : ℕ → Type 0
  Known k = name_of k ≡ some (text k)

  pub define_or_report-Runs :
      (kind : SymbolKind) (x : Symbol) → Known x.id → Runs Known (define_or_report name_of kind x)
  unfolding define_or_report define report_redefine text_of report
  define_or_report-Runs kind x known s safe = elim (Option-cases (get x.id s.scope.symbols)) [
    | inl e ↦ (
      added x s,
      rw (e, define_or_report, define) refl,
      Extends-define x s e,
      added-Safe Known x s known safe,
    )
    | inr (old, e) ↦ (
      noted (redefined text kind old) s,
      rw (e, define_or_report, define) (rw (safe.known x.id old e, report_redefine, text_of) refl),
      Grows-one s (redefined text kind old) refl,
      safe,
    )
  ]

  pub define_silently-Runs : (x : Symbol) → Known x.id → Runs Known (define_silently name_of x)
  unfolding define_silently define
  define_silently-Runs x known s safe = elim (Option-cases (get x.id s.scope.symbols)) [
    | inl e ↦ (
      added x s,
      rw (e, define_silently, define) refl,
      Extends-define x s e,
      added-Safe Known x s known safe,
    )
    | inr (old, e) ↦ (s, rw (e, define_silently, define) refl, Extends-refl s, safe)
  ]
