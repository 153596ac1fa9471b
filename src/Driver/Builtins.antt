-- ===== src/Driver/Builtins.antt =====
-- The builtin functions that crates/kuai-driver/src/context.rs puts into the global scope.
use kuai.Prelude.{
  ◌⊎◌, ap, sym as inverse, ◌==◌, Bool-cases, ℕ, ◌≡◌, refl, none, some, List, [], ◌∷◌, String, All,
  ==_iff, Option-cases, inl, inr,
}
use kuai.Syntax.External.{External, IsInterner}
use kuai.Sema.Scope.{Symbol, SymbolKind, get, define}
use kuai.Sema.Runs.{get-cons}
use kuai.Driver.Context.{
  Context, inject_builtin, inject_all, inject_builtins, builtins, builtin_symbol,
}

module _ {x : External} {Object : Type 0} (laws : IsInterner x) where
  -- The interner has the name under a key, and the global scope a symbol.
  abbrev pub HasSymbol : Context x Object → String → ℕ → Symbol → Type 0
  HasSymbol ctx name k sym =
      (x.resolve ctx.interner k ≡ some name) × (get k ctx.global_scope.symbols ≡ some sym)

  -- A symbol of the second context is a builtin function, or stands in the first one.
  abbrev IsBuiltinOr : Context x Object → ℕ → Symbol → Type 0
  IsBuiltinOr ctx k sym =
      (sym.kind ≡ SymbolKind.builtin_function) ⊎ (get k ctx.global_scope.symbols ≡ some sym)

  -- The second context has the name, with a builtin function or with a symbol of the first one.
  abbrev pub HasBuiltin : Context x Object → Context x Object → String → Type 0
  HasBuiltin before after name =
      (k : ℕ) × (sym : Symbol) × HasSymbol after name k sym × IsBuiltinOr before k sym

  abbrev interned : String → Context x Object → Context x Object
  interned name ctx = record ctx { interner = (x.get_or_intern ctx.interner name).0 }

  abbrev key : String → Context x Object → ℕ
  key name ctx = (x.get_or_intern ctx.interner name).1

  abbrev with_builtin : String → Context x Object → Context x Object
  with_builtin name ctx = record (interned name ctx) {
    global_scope = record ctx.global_scope {
      symbols = (key name ctx, builtin_symbol (key name ctx)) ∷ ctx.global_scope.symbols;
    };
  }

  inject_builtin-new :
      (name : String) (ctx : Context x Object)
      → get (key name ctx) ctx.global_scope.symbols ≡ none
      → inject_builtin name ctx ≡ with_builtin name ctx
  unfolding inject_builtin define
  inject_builtin-new name ctx e = rw (e, inject_builtin, define) refl

  inject_builtin-old :
      (name : String) (ctx : Context x Object) (old : Symbol)
      → get (key name ctx) ctx.global_scope.symbols ≡ some old
      → inject_builtin name ctx ≡ interned name ctx
  unfolding inject_builtin define
  inject_builtin-old name ctx old e = rw (e, inject_builtin, define) refl

  -- The name is there, and what was there stays.
  inject_builtin-HasBuiltin :
      (name : String) (ctx : Context x Object) → HasBuiltin ctx (inject_builtin name ctx) name
  inject_builtin-HasBuiltin name ctx =
      let resolved = laws.resolves ctx.interner name in
      elim (Option-cases (get (key name ctx) ctx.global_scope.symbols)) [
        | inl e ↦ rw (inject_builtin-new name ctx e) (
          key name ctx,
          builtin_symbol (key name ctx),
          (resolved, rw ((==_iff (key name ctx) (key name ctx)).1 refl) refl),
          inl refl,
        )
        | inr (old, e) ↦
            rw (inject_builtin-old name ctx old e) (key name ctx, old, (resolved, e), inr e)
      ]

  inject_builtin-keeps :
      (name : String) (ctx : Context x Object) (other : String) (k : ℕ) (sym : Symbol)
      → HasSymbol ctx other k sym
      → HasSymbol (inject_builtin name ctx) other k sym
  inject_builtin-keeps name ctx other k sym (known, found) =
      elim (Option-cases (get (key name ctx) ctx.global_scope.symbols)) [
        | inl e ↦ rw (inject_builtin-new name ctx e) (
          laws.keeps ctx.interner name other k known,
          get-cons (key name ctx) (builtin_symbol (key name ctx)) ctx.global_scope.symbols e k sym
              found,
        )
        | inr (old, e) ↦
            rw (inject_builtin-old name ctx old e)
              (laws.keeps ctx.interner name other k known, found)
      ]

  -- What is there is new, or was there.
  inject_builtin-IsBuiltinOr :
      (name : String) (ctx : Context x Object) (k : ℕ) (sym : Symbol)
      → get k (inject_builtin name ctx).global_scope.symbols ≡ some sym
      → IsBuiltinOr ctx k sym
  inject_builtin-IsBuiltinOr name ctx k sym h =
      elim (Option-cases (get (key name ctx) ctx.global_scope.symbols)) [
        | inr (old, e) ↦ inr (rw (inject_builtin-old name ctx old e) at h)
        | inl e ↦ in_new name ctx k sym (rw (inject_builtin-new name ctx e) at h)
      ]
    where
      in_new :
          (name : String) (ctx : Context x Object) (k : ℕ) (sym : Symbol)
          → get k (with_builtin name ctx).global_scope.symbols ≡ some sym
          → IsBuiltinOr ctx k sym
      in_new name ctx k sym h = elim (Bool-cases (key name ctx == k)) [
        | inl e ↦
            let same : builtin_symbol (key name ctx) ≡ sym = cc (rw e at h) in
            inl (ap (λ (s : Symbol). s.kind) (inverse same))
        | inr e ↦ inr (rw e at h)
      ]

  inject_all-keeps :
      (names : List String) (ctx : Context x Object) (other : String) (k : ℕ) (sym : Symbol)
      → HasSymbol ctx other k sym
      → HasSymbol (inject_all names ctx) other k sym
  unfolding inject_all
  inject_all-keeps [] ctx other k sym h = h
  inject_all-keeps (name ∷ names) ctx other k sym h =
      inject_all-keeps names (inject_builtin name ctx) other k sym
        (inject_builtin-keeps name ctx other k sym h)

  -- From the context behind one name to the context before it.
  earlier :
      (name : String) (ctx after : Context x Object) (other : String)
      → HasBuiltin (inject_builtin name ctx) after other
      → HasBuiltin ctx after other
  earlier name ctx after other (k, sym, has, inl e) = (k, sym, has, inl e)
  earlier name ctx after other (k, sym, has, inr e) =
      (k, sym, has, inject_builtin-IsBuiltinOr name ctx k sym e)

  names_earlier :
      (name : String) (ctx after : Context x Object) (names : List String)
      → All (HasBuiltin (inject_builtin name ctx) after) names
      → All (HasBuiltin ctx after) names
  names_earlier name ctx after [] h = tt
  names_earlier name ctx after (other ∷ names) (h, hs) =
      (earlier name ctx after other h, names_earlier name ctx after names hs)

  inject_all-HasBuiltin :
      (names : List String) (ctx : Context x Object)
      → All (HasBuiltin ctx (inject_all names ctx)) names
  unfolding inject_all
  inject_all-HasBuiltin [] ctx = tt
  inject_all-HasBuiltin (name ∷ names) ctx =
      let (k, sym, has, source) = inject_builtin-HasBuiltin name ctx in
      (
        (k, sym, inject_all-keeps names (inject_builtin name ctx) name k sym has, source),
        names_earlier name ctx (inject_all names (inject_builtin name ctx)) names
            (inject_all-HasBuiltin names (inject_builtin name ctx)),
      )

  -- If the interner is one as lasso documents, then behind `inject_builtins` the interner has the
  -- names `print`, `exit` and `help`, and the global scope has for each a builtin function, or the
  -- symbol that stood under its key before. Every name with a symbol in the global scope keeps its
  -- key and this symbol.
  pub inject_builtins-HasBuiltin :
      (ctx : Context x Object)
      → HasBuiltin ctx (inject_builtins ctx) "print"
        × HasBuiltin ctx (inject_builtins ctx) "exit"
        × HasBuiltin ctx (inject_builtins ctx) "help"
        × ((other : String) (k : ℕ) (sym : Symbol)
            → HasSymbol ctx other k sym
            → HasSymbol (inject_builtins ctx) other k sym)
  unfolding inject_builtins
  inject_builtins-HasBuiltin ctx =
      let (print, (exit, (help, _))) = inject_all-HasBuiltin builtins ctx in
      (print, exit, help, λ other k sym h. inject_all-keeps builtins ctx other k sym h)
