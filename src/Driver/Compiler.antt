-- ===== src/Driver/Compiler.antt =====
-- crates/kuai-driver/src/compiler.rs: a source through the parser, the pipeline of attribute
-- handlers and the resolver. A source is given by the items of its lexer and its length. The
-- resolver shares the global scope with the context, so what it defines there stays after a
-- compilation.
use kuai.Prelude.{ℕ, Option, none, some, List, [], ◌∷◌, ◌++◌, push, map}
use kuai.Syntax.Ast.{Stmt, Module}
use kuai.Syntax.External.{External}
use kuai.Outcome.{Outcome, ok, bind}
use kuai.Parser.State.{Lexeme, Parser}
use kuai.Parser.State
use kuai.Parser.Parse
use kuai.Sema.Resolver
use kuai.Sema.Resolver.{Resolver, ⊤}
use kuai.Driver.Diagnostic.{Diagnostic, CompileResult, with_diagnostics, err, from}
use kuai.Driver.Attr.{
  CompileStage, raw, resolved, analyzed, Result, returned, failed, AttrAction, continue_with,
  skip_children, terminal, lowered, AttrEngine,
}
use kuai.Driver.Pipeline.{apply, empty_frame}
use kuai.Driver.Context.{Context, Session}

-- The statements and the reports that the loop of `apply_stage` has collected.
abbrev pub Collected : Type 0
Collected = List Stmt × List Diagnostic

-- What is done with the action of one statement: on with the loop, or a `break`.
abbrev pub collect :
    {C Object : Type 0}
    → (Collected → C → Outcome (Collected × C))
    → Collected
    → Result (AttrAction Object) × C
    → Outcome (Collected × C)
collect more (result, ds) (returned (continue_with s), c) = more (push result s, ds) c
collect more (result, ds) (returned (skip_children s), c) = more (push result s, ds) c
collect more (result, ds) (returned (terminal s), c) = ok ((push result s, ds), c)
collect more (result, ds) (returned (lowered a), c) = more (result, ds) c
collect more (result, ds) (failed errs, c) = more (result, ds ++ errs) c

-- `Err` if there is any report.
abbrev pub stage_result : Collected → Result (List Stmt)
stage_result (result, []) = returned result
stage_result (result, d ∷ ds) = failed (d ∷ ds)

-- The module with other statements.
abbrev pub with_stmts : Module → List Stmt → Module
with_stmts m stmts = record m { stmts = stmts }

abbrev pub Compiled : External → Type 0 → Type 0
Compiled x Object = Outcome (CompileResult Module × Context x Object)

module _ {x : External} {Object : Type 0} where
  unfoldable pub stage_loop :
      AttrEngine (Context x Object) Object
      → CompileStage
      → List Stmt
      → Collected
      → Context x Object
      → Outcome (Collected × Context x Object)
  stage_loop engine stage [] acc ctx = ok (acc, ctx)
  stage_loop engine stage (s ∷ ss) acc ctx =
      bind (engine ctx s stage (empty_frame ∷ [])) (collect (stage_loop engine stage ss) acc)

  unfoldable pub apply_stage :
      AttrEngine (Context x Object) Object
      → Context x Object
      → List Stmt
      → CompileStage
      → Outcome (Result (List Stmt) × Context x Object)
  apply_stage engine ctx stmts stage =
      bind (stage_loop engine stage stmts ([], []) ctx) λ (acc, after). ok (stage_result acc, after)

  -- A stage of the pipeline; an error ends the compilation with an empty module.
  abbrev pub next_stage :
      Module
      → List Diagnostic
      → (List Stmt → Context x Object → Compiled x Object)
      → Result (List Stmt) × Context x Object
      → Compiled x Object
  next_stage m ds more (returned stmts, ctx) = more stmts ctx
  next_stage m ds more (failed errs, ctx) =
      ok (with_diagnostics (with_stmts m []) (ds ++ errs), ctx)

  -- The stages behind the resolver.
  unfoldable pub compile_resolved :
      AttrEngine (Context x Object) Object
      → Module
      → List Stmt
      → Context x Object
      → List Diagnostic
      → Compiled x Object
  compile_resolved engine m stmts ctx ds = bind (apply_stage engine ctx stmts resolved) (
      next_stage m ds λ lower after.
        bind (apply_stage engine after lower analyzed)
          (next_stage m ds λ final last. ok (with_diagnostics (with_stmts m final) ds, last)))

  -- The resolver on the global scope of the context, and what it leaves there.
  unfoldable pub compile_resolve :
      AttrEngine (Context x Object) Object
      → Module
      → List Stmt
      → Context x Object
      → List Diagnostic
      → Compiled x Object
  compile_resolve engine m stmts ctx ds =
      bind (Resolver.resolve (x.resolve ctx.interner) ctx.global_scope (with_stmts m stmts))
        λ (_, r).
          compile_resolved engine m stmts (record ctx { global_scope = r.scope })
            (ds ++ map from r.diagnostics)

  -- The stages behind the parser.
  unfoldable pub compile_module :
      AttrEngine (Context x Object) Object
      → Option Module
      → Context x Object
      → List Diagnostic
      → Compiled x Object
  compile_module engine none ctx ds = ok (err ds, ctx)
  compile_module engine (some m) ctx ds =
      bind (apply_stage engine ctx m.stmts raw)
        (next_stage m ds λ stmts after. compile_resolve engine m stmts after ds)

  -- `Compiler::compile`, with fuel for the nesting of handlers that call the engine.
  unfoldable pub compile :
      ℕ → Session x Object → List Lexeme → ℕ → Context x Object → Compiled x Object
  compile fuel sess lexemes len ctx =
      bind (Parse.parse (State.new {x = x} lexemes len ctx.interner)) λ (result, p).
        compile_module (apply fuel sess.attr_registry) result.output
          (record ctx { interner = p.interner }) (map from result.diagnostics)
