-- ===== src/Driver/Context.antt =====
-- crates/kuai-driver/src/context.rs and session.rs.
use kuai.Prelude.{ℕ, Option, none, List, [], ◌∷◌, String}
use kuai.Syntax.External.{External}
use kuai.Sema.Scope
use kuai.Sema.Scope.{Scope, ScopeKind, SymbolKind, Symbol, fresh, conflict, define}
use kuai.Driver.Attr.{Artifact, AttributeRegistry}

pub record Context (x : External) (Object : Type 0) : Type 0 where
  pub interner : x.Rodeo
  pub global_scope : Scope
  pub artifacts : List (Artifact Object)

pub data TargetArch : Type 0 where
  x86_64 aarch64 : TargetArch

pub record Session (x : External) (Object : Type 0) : Type 0 where
  pub target_arch : TargetArch
  pub attr_registry : AttributeRegistry (Context x Object) Object

abbrev pub builtins : List String
builtins = "print" ∷ "exit" ∷ "help" ∷ []

abbrev pub builtin_symbol : ℕ → Symbol
builtin_symbol id = record {
  id = id;
  kind = SymbolKind.builtin_function;
  ty = none;
  span = record { start = 0; end = 0 };
}

module _ {x : External} {Object : Type 0} where
  -- `Context::new` on the new interner of lasso.
  unfoldable pub new_context : x.Rodeo → Context x Object
  new_context rodeo = record {
    interner = rodeo;
    global_scope = Scope.new_scope ScopeKind.global;
    artifacts = [];
  }

  -- `none` is the interner's panic.
  unfoldable pub lookup : Context x Object → ℕ → Option String
  lookup ctx id = x.resolve ctx.interner id

  unfoldable pub inject_builtin : String → Context x Object → Context x Object
  inject_builtin name ctx =
      let (interner, id) = x.get_or_intern ctx.interner name in
      elim (define (builtin_symbol id) ctx.global_scope) [
        | fresh scope ↦ record ctx { interner = interner; global_scope = scope }
        | conflict old ↦ record ctx { interner = interner }
      ]

  unfoldable pub inject_all : List String → Context x Object → Context x Object
  inject_all [] ctx = ctx
  inject_all (name ∷ names) ctx = inject_all names (inject_builtin name ctx)

  unfoldable pub inject_builtins : Context x Object → Context x Object
  inject_builtins ctx = inject_all builtins ctx
