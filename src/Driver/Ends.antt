-- ===== src/Driver/Ends.antt =====
-- How a compilation of crates/kuai-driver/src/compiler.rs ends without recursive handlers.
use kuai.Prelude.{sym, ◌∙◌, ℕ, suc, ◌≢◌, refl, Option, none, some, List, [], ◌∷◌}
use kuai.Syntax.Ast.{Stmt, Module}
use kuai.Syntax.External.{External}
use kuai.Outcome.{Outcome, ok, panicked, out_of_fuel, bind}
use kuai.Parser.State.{Lexeme}
use kuai.Parser.Total.{parse-ne-out_of_fuel}
use kuai.Sema.Ends.{resolve-ne-out_of_fuel}
use kuai.Driver.Diagnostic.{Diagnostic}
use kuai.Driver.Attr.{
  CompileStage, raw, resolved, analyzed, Result, returned, failed, AttrAction, continue_with,
  skip_children, terminal, lowered, AttributeRegistry, AttrEngine,
}
use kuai.Driver.Pipeline.{apply, empty_frame}
use kuai.Driver.Compiler.{
  Collected, Compiled, collect, stage_loop, apply_stage, next_stage, compile_resolved,
  compile_resolve, compile_module, compile,
}
use kuai.Driver.Hidden.{IsHidden, left_alone, apply-IsHidden}
use kuai.Driver.Context.{Context, Session}

-- A sequence whose parts end.
bind-ne-out_of_fuel :
    {A B : Type 0} (r : Outcome A) (f : A → Outcome B)
    → r ≢ out_of_fuel
    → ((a : A) → f a ≢ out_of_fuel)
    → bind r f ≢ out_of_fuel
bind-ne-out_of_fuel (ok a) f h k e = k a e
bind-ne-out_of_fuel panicked f h k e = cc e
bind-ne-out_of_fuel out_of_fuel f h k e = h refl

module _ {x : External} {Object : Type 0} where
  -- A pipeline that does not run out of fuel.
  abbrev IsEnding : AttrEngine (Context x Object) Object → CompileStage → Type 0
  IsEnding engine stage =
      (ctx : Context x Object) (s : Stmt) → engine ctx s stage (empty_frame ∷ []) ≢ out_of_fuel

  left_alone-ne-out_of_fuel :
      (s : Stmt) (o : Option (Context x Object)) → left_alone {Object = Object} s o ≢ out_of_fuel
  left_alone-ne-out_of_fuel s none e = cc e
  left_alone-ne-out_of_fuel s (some ctx) e = cc e

  apply-IsEnding :
      (fuel : ℕ) (registry : AttributeRegistry (Context x Object) Object) (stage : CompileStage)
      → IsHidden registry stage
      → IsEnding (apply (suc fuel) registry) stage
  apply-IsEnding fuel registry stage hidden ctx s e =
      left_alone-ne-out_of_fuel s _ (sym (apply-IsHidden fuel registry ctx s stage hidden) ∙ e)

  module _ (engine : AttrEngine (Context x Object) Object) where
    collect-ne-out_of_fuel :
        (more : Collected → Context x Object → Outcome (Collected × Context x Object))
        (acc : Collected) (r : Result (AttrAction Object) × Context x Object)
        → ((next : Collected) (c : Context x Object) → more next c ≢ out_of_fuel)
        → collect more acc r ≢ out_of_fuel
    collect-ne-out_of_fuel more (xs, ds) (returned (continue_with s), c) h = h _ c
    collect-ne-out_of_fuel more (xs, ds) (returned (skip_children s), c) h = h _ c
    collect-ne-out_of_fuel more (xs, ds) (returned (terminal s), c) h = λ e. cc e
    collect-ne-out_of_fuel more (xs, ds) (returned (lowered a), c) h = h _ c
    collect-ne-out_of_fuel more (xs, ds) (failed errs, c) h = h _ c

    stage_loop-ne-out_of_fuel :
        (stage : CompileStage) (ss : List Stmt) (acc : Collected) (ctx : Context x Object)
        → IsEnding engine stage
        → stage_loop engine stage ss acc ctx ≢ out_of_fuel
    unfolding stage_loop
    stage_loop-ne-out_of_fuel stage [] acc ctx ending = λ e. cc e
    stage_loop-ne-out_of_fuel stage (s ∷ ss) acc ctx ending =
        bind-ne-out_of_fuel (engine ctx s stage (empty_frame ∷ [])) _ (ending ctx s) λ r.
          collect-ne-out_of_fuel (stage_loop engine stage ss) acc r
            λ next c. stage_loop-ne-out_of_fuel stage ss next c ending

    apply_stage-ne-out_of_fuel :
        (ctx : Context x Object) (ss : List Stmt) (stage : CompileStage)
        → IsEnding engine stage
        → apply_stage engine ctx ss stage ≢ out_of_fuel
    unfolding apply_stage
    apply_stage-ne-out_of_fuel ctx ss stage ending =
        bind-ne-out_of_fuel _ _ (stage_loop-ne-out_of_fuel stage ss ([], []) ctx ending) λ r e. cc e

    next_stage-ne-out_of_fuel :
        (m : Module) (ds : List Diagnostic)
        (more : List Stmt → Context x Object → Compiled x Object)
        (r : Result (List Stmt) × Context x Object)
        → ((ss : List Stmt) (c : Context x Object) → more ss c ≢ out_of_fuel)
        → next_stage m ds more r ≢ out_of_fuel
    next_stage-ne-out_of_fuel m ds more (returned ss, c) h = h ss c
    next_stage-ne-out_of_fuel m ds more (failed errs, c) h = λ e. cc e

    -- A stage, and then others.
    staged :
        (m : Module) (ds : List Diagnostic)
        (more : List Stmt → Context x Object → Compiled x Object) (ctx : Context x Object)
        (ss : List Stmt) (stage : CompileStage)
        → IsEnding engine stage
        → ((next : List Stmt) (c : Context x Object) → more next c ≢ out_of_fuel)
        → bind (apply_stage engine ctx ss stage) (next_stage m ds more) ≢ out_of_fuel
    staged m ds more ctx ss stage ending h =
        bind-ne-out_of_fuel _ _ (apply_stage-ne-out_of_fuel ctx ss stage ending)
          λ r. next_stage-ne-out_of_fuel m ds more r h

    module _ (ending : (stage : CompileStage) → IsEnding engine stage) where
      compile_resolved-ne-out_of_fuel :
          (m : Module) (stmts : List Stmt) (ctx : Context x Object) (ds : List Diagnostic)
          → compile_resolved engine m stmts ctx ds ≢ out_of_fuel
      unfolding compile_resolved
      compile_resolved-ne-out_of_fuel m stmts ctx ds =
          staged m ds _ ctx stmts resolved (ending resolved)
            λ lower after. staged m ds _ after lower analyzed (ending analyzed) λ final last e. cc e

      compile_resolve-ne-out_of_fuel :
          (m : Module) (stmts : List Stmt) (ctx : Context x Object) (ds : List Diagnostic)
          → compile_resolve engine m stmts ctx ds ≢ out_of_fuel
      unfolding compile_resolve
      compile_resolve-ne-out_of_fuel m stmts ctx ds =
          bind-ne-out_of_fuel _ _
            (resolve-ne-out_of_fuel (x.resolve ctx.interner) ctx.global_scope _)
            λ (u, r). compile_resolved-ne-out_of_fuel m stmts _ _

      compile_module-ne-out_of_fuel :
          (output : Option Module) (ctx : Context x Object) (ds : List Diagnostic)
          → compile_module engine output ctx ds ≢ out_of_fuel
      unfolding compile_module
      compile_module-ne-out_of_fuel none ctx ds = λ e. cc e
      compile_module-ne-out_of_fuel (some m) ctx ds =
          staged m ds _ ctx m.stmts raw (ending raw)
            λ stmts after. compile_resolve-ne-out_of_fuel m stmts after ds

module _ {x : External} {Object : Type 0} (fuel : ℕ) (sess : Session x Object)
    (hidden : (stage : CompileStage) → IsHidden sess.attr_registry stage) where
  pub compile-ne-out_of_fuel :
      (lexemes : List Lexeme) (len : ℕ) (ctx : Context x Object)
      → compile (suc fuel) sess lexemes len ctx ≢ out_of_fuel
  unfolding compile
  compile-ne-out_of_fuel lexemes len ctx =
      bind-ne-out_of_fuel _ _ (parse-ne-out_of_fuel _) λ (result, p).
        compile_module-ne-out_of_fuel (apply (suc fuel) sess.attr_registry)
          (λ stage. apply-IsEnding fuel sess.attr_registry stage (hidden stage)) result.output _ _
