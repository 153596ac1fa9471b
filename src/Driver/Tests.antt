-- ===== src/Driver/Tests.antt =====
-- Runs of the driver on concrete sources, handlers and contexts.
use kuai.Prelude.{
  reverse, ℕ, ◌≡◌, ◌↔◌, refl, true, false, none, some, List, [], ◌∷◌, String, Bool-cases, inl, inr,
}
use kuai.Syntax.Text.{str_eq}
use kuai.Syntax.Ast
use kuai.Outcome.{ok, panicked}
use kuai.Samples.{plain, plain-IsInterner}
use kuai.Samples.Sum.{sum, let_sum, finish, result, sum_parses}
use kuai.Sema.Scope.{Symbol, define, SymbolKind, ScopeKind}
use kuai.Sema.Resolver
use kuai.Sema.Resolver.{Resolver}
use kuai.Sema.Mentions.{mentions}
use kuai.Sema.Names.{StmtNamed}
use kuai.Sema.Runs.{Known, Safe}
use kuai.Driver.Diagnostic.{CompileResult, is_ok}
use kuai.Driver.Attr.{
  CompileStage, raw, HandlerType, Result, returned, continue_with, terminal, lowered, AttrBase,
  AttributeRegistry, AttrEngine, new_registry, get_handlers, source,
}
use kuai.Driver.Pipeline.{get_attributes, apply, empty_frame}
use kuai.Driver.Context.{Context, Session, TargetArch, new_context, inject_builtins}
use kuai.Driver.Compiler.{apply_stage, compile}
use kuai.Driver.Hidden.{IsHidden, handled, evaluated, left_alone, apply-IsHidden}
use kuai.Driver.Stage.{IsResult, apply_stage-reached}
use kuai.Driver.Compile.{AreSame, IsQuiet, compile-IsQuiet, compile-is_ok_iff}
use kuai.Driver.Builtins.{HasSymbol, HasBuiltin, inject_builtins-HasBuiltin}

abbrev Ctx : Type 0
Ctx = Context plain ℕ

-- A handler of `@drop`, which would lower its statement to an artifact.
abbrev drop : AttrBase Ctx ℕ
drop = record {
  name = "drop";
  handler_type = HandlerType.transformer;
  stage = raw;
  is_recursive = false;
  evaluate = λ ctx attr meta. some (meta, ctx);
  transform = λ ctx engine attr input meta. ok (returned (lowered (source "")), ctx);
}

abbrev drops : AttributeRegistry Ctx ℕ
drops = record { handlers = ("drop", drop ∷ []) ∷ [] }

abbrev break_statement : List Ast.Attribute → Ast.Stmt
break_statement attrs = Ast.stmt attrs (Ast.break (record { start = 0; end = 5 }))

abbrev empty_context : Ctx
unfolding new_context
empty_context = new_context []

drops-IsHidden : IsHidden drops raw
unfolding get_handlers
drops-IsHidden name = elim (Bool-cases (str_eq "drop" name)) [
  | inl e ↦ rw e (refl, tt)
  | inr e ↦ rw e tt
]

abbrev dropped : Ast.Stmt
dropped = break_statement (Ast.attribute "drop" Ast.no_arguments ∷ [])

apply-IsHidden_example :
    apply 1 drops empty_context dropped raw (empty_frame ∷ [])
    ≡ left_alone dropped
        (evaluated (handled drops raw (reverse (get_attributes dropped))) [] empty_context)
apply-IsHidden_example = apply-IsHidden 0 drops empty_context dropped raw drops-IsHidden

dropped_stays :
    left_alone {Object = ℕ} dropped
      (evaluated (handled drops raw (reverse (get_attributes dropped))) [] empty_context)
    ≡ ok (returned (continue_with dropped), empty_context)
unfolding get_handlers
dropped_stays = refl

-- A pipeline that keeps the first statement, stops at the second, and would panic on the third.
abbrev stops : AttrEngine Ctx ℕ
stops ctx (Ast.stmt [] s) stage env = ok (returned (continue_with (Ast.stmt [] s)), ctx)
stops ctx (Ast.stmt (a ∷ []) s) stage env = ok (returned (terminal (Ast.stmt [] s)), ctx)
stops ctx (Ast.stmt (a ∷ b ∷ attrs) s) stage env = panicked

abbrev mark : Ast.Attribute
mark = Ast.attribute "mark" Ast.no_arguments

abbrev three : List Ast.Stmt
three = break_statement [] ∷ break_statement (mark ∷ []) ∷ break_statement (mark ∷ mark ∷ []) ∷ []

apply_stage-reached_example :
    (r : Result (List Ast.Stmt)) × (apply_stage stops empty_context three raw
      ≡ ok (r, empty_context))
    × IsResult (break_statement [] ∷ break_statement [] ∷ []) [] r
apply_stage-reached_example =
    apply_stage-reached stops empty_context empty_context raw three
      (returned (continue_with (break_statement []))
        ∷ returned (terminal (break_statement []))
        ∷ [])
      (empty_context, refl, (refl, refl))

abbrev empty_session : Session plain ℕ
unfolding new_registry
empty_session = record { target_arch = TargetArch.x86_64; attr_registry = new_registry }

empty_session-IsQuiet : (stage : CompileStage) → IsQuiet empty_session.attr_registry stage
unfolding get_handlers empty_session
empty_session-IsQuiet stage = (λ name. tt, λ name. tt)

abbrev sum_module : Ast.Module
sum_module = record {
  top_level_attributes = [];
  stmts = let_sum ∷ [];
  span = record { start = 0; end = 14 };
}

abbrev resolved_sum : Resolver
resolved_sum = record {
  scope = record {
    symbols =
        (
          0,
          record {
            id = 0;
            kind = SymbolKind.variable;
            ty = none;
            span = record { start = 4; end = 5 };
          },
        )
        ∷ [];
    kind = ScopeKind.global;
  };
  parents = [];
  diagnostics = [];
}

sum_resolves :
    Resolver.resolve (plain.resolve finish.interner) empty_context.global_scope sum_module
    ≡ ok (tt, resolved_sum)
unfolding empty_context new_context define Resolver.resolve Resolver.resolve_module
    Resolver.resolve_stmt Resolver.resolve_optional_expr Resolver.resolve_optional_type
    Resolver.resolve_expr Resolver.define_variable Resolver.define_or_report
sum_resolves = refl

compile-IsQuiet_example :
    (c : CompileResult Ast.Module) × (compile 1 empty_session sum 14 empty_context
      ≡ ok (c, record empty_context { interner = "x" ∷ []; global_scope = resolved_sum.scope }))
    × (c.output ≡ some sum_module)
    × AreSame [] c.diagnostics
unfolding empty_context new_context
compile-IsQuiet_example =
    compile-IsQuiet 0 empty_session sum 14 empty_context finish result sum_module resolved_sum
      empty_session-IsQuiet sum_parses refl sum_resolves

abbrev text : ℕ → String
text k = "x"

sum-StmtNamed : StmtNamed text (plain.resolve finish.interner) let_sum
unfolding StmtNamed mentions
sum-StmtNamed = (tt, tt, refl)

empty_scope-Safe : Safe (Known text (plain.resolve finish.interner)) empty_context.global_scope
unfolding empty_context new_context
empty_scope-Safe = record { known = λ k y e. cc }

compile-is_ok_iff_example :
    (t : Resolver) × (Resolver.resolve
        (plain.resolve finish.interner)
        empty_context.global_scope
        sum_module
      ≡ ok (tt, t))
    × (c : CompileResult Ast.Module) × (ctx : Ctx) × (compile 1 empty_session sum 14 empty_context
        ≡ ok (c, ctx))
    × ((is_ok c ≡ true) ↔ ((result.diagnostics ≡ []) × (t.diagnostics ≡ [])))
unfolding empty_context new_context
compile-is_ok_iff_example =
    compile-is_ok_iff 0 empty_session sum 14 empty_context finish result sum_module text
      empty_session-IsQuiet sum_parses refl (sum-StmtNamed, tt) empty_scope-Safe

inject_builtins-HasBuiltin_example :
    HasBuiltin plain-IsInterner empty_context (inject_builtins empty_context) "print"
    × HasBuiltin plain-IsInterner empty_context (inject_builtins empty_context) "exit"
    × HasBuiltin plain-IsInterner empty_context (inject_builtins empty_context) "help"
    × ((other : String) (k : ℕ) (sym : Symbol)
        → HasSymbol plain-IsInterner empty_context other k sym
        → HasSymbol plain-IsInterner (inject_builtins empty_context) other k sym)
inject_builtins-HasBuiltin_example = inject_builtins-HasBuiltin plain-IsInterner empty_context
