-- ===== src/Driver/Compile.antt =====
-- A whole compilation of crates/kuai-driver/src/compiler.rs where no handler transforms anything,
-- as with the empty registry of the command line (kuai/src/main.rs).
use kuai.Prelude.{
  ap, reverse, ◌↔◌, true, not, All, String, ℕ, suc, ◌≡◌, refl, ◌∙◌, some, List, [], ◌∷◌, ◌++◌,
  append_assoc, append-nil, map,
}
use kuai.Syntax.Diagnostic.{
  CompileResult as ParseResult, Diagnostic as SyntaxDiagnostic, Severity as SyntaxSeverity,
  AreErrors, any,
}
use kuai.Syntax.Ast.{Attribute, Stmt, Module}
use kuai.Syntax.External.{External}
use kuai.Outcome.{ok}
use kuai.Parser.State
use kuai.Parser.State.{Parser, Lexeme}
use kuai.Parser.Parse
use kuai.Sema.Resolver
use kuai.Sema.Resolver.{Resolver}
use kuai.Parser.Reports.{parse-Extends}
use kuai.Sema.Names.{StmtNamed}
use kuai.Sema.Runs.{Known, Safe}
use kuai.Sema.Scoping.{resolve_declares}
use kuai.Driver.Diagnostic.{
  Diagnostic, Severity, from_severity, CompileResult, is_error, is_ok, with_diagnostics, from,
}
use kuai.Driver.Attr.{
  CompileStage, raw, resolved, analyzed, returned, continue_with, attribute_name, AttrMetadata,
  AttrBase, AttributeRegistry, get_handlers, AttrEngine,
}
use kuai.Driver.Pipeline.{get_attributes, apply, empty_frame}
use kuai.Driver.Context.{Context, Session}
use kuai.Driver.Compiler.{
  stage_loop, apply_stage, compile_resolved, compile_resolve, compile_module, compile,
}
use kuai.Driver.Hidden.{IsHidden, handled, evaluated, left_alone, apply-IsHidden}

-- No handler of the stage is recursive, and `evaluate` of each returns and leaves the context as it
-- is.
abbrev pub IsQuiet : {C Object : Type 0} → AttributeRegistry C Object → CompileStage → Type 0
IsQuiet {C} {Object} registry stage =
    IsHidden registry stage
    × ((name : String)
        → All
            (λ h.
              (ctx : C) (attr : Attribute) (meta : AttrMetadata Object)
              → (next : AttrMetadata Object) × (h.evaluate ctx attr meta ≡ some (next, ctx)))
            (get_handlers registry name stage))

-- Reports of the parser or the resolver, and those of the driver with the same severity, place and
-- message.
abbrev pub IsSeverity : SyntaxSeverity → Severity → Type 0
IsSeverity SyntaxSeverity.error s = s ≡ Severity.error
IsSeverity SyntaxSeverity.warning s = s ≡ Severity.warning
IsSeverity SyntaxSeverity.hint s = s ≡ Severity.hint

abbrev pub AreSame : List SyntaxDiagnostic → List Diagnostic → Type 0
AreSame [] [] = Unit
AreSame [] (d ∷ ds) = ⊥
AreSame (e ∷ es) [] = ⊥
AreSame (e ∷ es) (d ∷ ds) =
    (IsSeverity e.severity d.severity × (d.span ≡ e.span) × (d.message ≡ e.message)) × AreSame es ds

from_severity-IsSeverity : (s : SyntaxSeverity) → IsSeverity s (from_severity s)
from_severity-IsSeverity SyntaxSeverity.error = refl
from_severity-IsSeverity SyntaxSeverity.warning = refl
from_severity-IsSeverity SyntaxSeverity.hint = refl

AreSame-append : (xs ys : List SyntaxDiagnostic) → AreSame (xs ++ ys) (map from xs ++ map from ys)
AreSame-append [] [] = tt
AreSame-append [] (y ∷ ys) =
    ((from_severity-IsSeverity y.severity, refl, refl), AreSame-append [] ys)
AreSame-append (x ∷ xs) ys =
    ((from_severity-IsSeverity x.severity, refl, refl), AreSame-append xs ys)

module _ {C Object : Type 0} (registry : AttributeRegistry C Object) (stage : CompileStage)
    (quiet : IsQuiet registry stage) where
  quiet_handlers :
      (attr : Attribute) (hs : List (AttrBase C Object)) (es : List (Attribute × AttrBase C Object))
      (meta : AttrMetadata Object) (ctx : C)
      → All
          (λ h.
            (c : C) (a : Attribute) (m : AttrMetadata Object)
            → (next : AttrMetadata Object) × (h.evaluate c a m ≡ some (next, c)))
          hs
      → ((m : AttrMetadata Object) → evaluated es m ctx ≡ some ctx)
      → evaluated (map (λ h. (attr, h)) hs ++ es) meta ctx ≡ some ctx
  quiet_handlers attr [] es meta ctx h others = others meta
  quiet_handlers attr (handler ∷ hs) es meta ctx (q, h) others =
      let (next, e) = q ctx attr meta in rw e (quiet_handlers attr hs es next ctx h others)

  evaluated-IsQuiet :
      (attrs : List Attribute) (meta : AttrMetadata Object) (ctx : C)
      → evaluated (handled registry stage attrs) meta ctx ≡ some ctx
  evaluated-IsQuiet [] meta ctx = refl
  evaluated-IsQuiet (attr ∷ attrs) meta ctx =
      quiet_handlers attr (get_handlers registry (attribute_name attr) stage)
        (handled registry stage attrs) meta ctx (quiet.1 (attribute_name attr))
        (λ m. evaluated-IsQuiet attrs m ctx)

module _ {x : External} {Object : Type 0} where
  -- A pipeline that gives every statement and every context back.
  abbrev IsIdle : AttrEngine (Context x Object) Object → CompileStage → Type 0
  IsIdle engine stage =
      (ctx : Context x Object) (s : Stmt)
      → engine ctx s stage (empty_frame ∷ []) ≡ ok (returned (continue_with s), ctx)

  apply-IsQuiet :
      (fuel : ℕ) (registry : AttributeRegistry (Context x Object) Object) (stage : CompileStage)
      → IsQuiet registry stage
      → IsIdle (apply (suc fuel) registry) stage
  apply-IsQuiet fuel registry stage quiet ctx s =
      apply-IsHidden fuel registry ctx s stage quiet.0
      ∙ ap (left_alone s)
          (evaluated-IsQuiet registry stage quiet (reverse (get_attributes s)) [] ctx)

  stage_loop-IsIdle :
      (engine : AttrEngine (Context x Object) Object) (ctx : Context x Object)
      (stage : CompileStage) (ss xs : List Stmt)
      → IsIdle engine stage
      → stage_loop engine stage ss (xs, []) ctx ≡ ok ((xs ++ ss, []), ctx)
  unfolding stage_loop
  stage_loop-IsIdle engine ctx stage [] xs idle = simp append-nil
  stage_loop-IsIdle engine ctx stage (s ∷ ss) xs idle =
      rw (idle ctx s)
        (stage_loop-IsIdle engine ctx stage ss (xs ++ s ∷ []) idle ∙ simp append_assoc)

  apply_stage-IsIdle :
      (engine : AttrEngine (Context x Object) Object) (ctx : Context x Object)
      (stage : CompileStage) (ss : List Stmt)
      → IsIdle engine stage
      → apply_stage engine ctx ss stage ≡ ok (returned ss, ctx)
  unfolding apply_stage
  apply_stage-IsIdle engine ctx stage ss idle = rw (stage_loop-IsIdle engine ctx stage ss [] idle)

  compile-from :
      (fuel : ℕ) (sess : Session x Object) (lexemes : List Lexeme) (len : ℕ)
      (ctx : Context x Object) (p : Parser x) (r : ParseResult Module) (m : Module) (t : Resolver)
      → ((stage : CompileStage) → IsQuiet sess.attr_registry stage)
      → Parse.parse (State.new lexemes len ctx.interner) ≡ ok (r, p)
      → r.output ≡ some m
      → Resolver.resolve (x.resolve p.interner) ctx.global_scope m ≡ ok (tt, t)
      → compile (suc fuel) sess lexemes len ctx
        ≡ ok (
          with_diagnostics m (map from r.diagnostics ++ map from t.diagnostics),
          record ctx { interner = p.interner; global_scope = t.scope },
        )
  unfolding compile compile_module compile_resolve compile_resolved
  compile-from fuel sess lexemes len ctx p r m t quiet parsed output resolved_to =
      let idle : (stage : CompileStage) → IsIdle (apply (suc fuel) sess.attr_registry) stage =
        λ stage. apply-IsQuiet fuel sess.attr_registry stage (quiet stage) in
      rw (parsed, output)
        (rw (apply_stage-IsIdle _ _ raw m.stmts (idle raw)) (
          rw resolved_to (
            rw (apply_stage-IsIdle _ _ resolved m.stmts (idle resolved))
              (rw (apply_stage-IsIdle _ _ analyzed m.stmts (idle analyzed)) refl))))

  -- Where no handler of the session is recursive and the `evaluate` of each returns and leaves the
  -- context as it is, whatever the fuel for nested handlers: a source whose parse and whose
  -- resolution return compiles to the module of the parser as it is. Its reports are those of the
  -- parser and behind them those of the resolver, in their order, each with its severity, place and
  -- message. The context keeps the names of the parser and the definitions of the resolver.
  pub compile-IsQuiet :
      (fuel : ℕ) (sess : Session x Object) (lexemes : List Lexeme) (len : ℕ)
      (ctx : Context x Object) (p : Parser x) (r : ParseResult Module) (m : Module) (t : Resolver)
      → ((stage : CompileStage) → IsQuiet sess.attr_registry stage)
      → Parse.parse (State.new lexemes len ctx.interner) ≡ ok (r, p)
      → r.output ≡ some m
      → Resolver.resolve (x.resolve p.interner) ctx.global_scope m ≡ ok (tt, t)
      → (result : CompileResult Module) × (compile (suc fuel) sess lexemes len ctx
          ≡ ok (result, record ctx { interner = p.interner; global_scope = t.scope }))
        × (result.output ≡ some m)
        × AreSame (r.diagnostics ++ t.diagnostics) result.diagnostics
  compile-IsQuiet fuel sess lexemes len ctx p r m t quiet parsed output resolved_to = (
    _,
    compile-from fuel sess lexemes len ctx p r m t quiet parsed output resolved_to,
    refl,
    AreSame-append r.diagnostics t.diagnostics,
  )

no_errors :
    (ds es : List SyntaxDiagnostic)
    → AreErrors ds
    → AreErrors es
    → (not (any is_error (map from ds ++ map from es)) ≡ true) ↔ ((ds ≡ []) × (es ≡ []))
no_errors [] [] h k = (λ _. (refl, refl), λ _. refl)
no_errors [] (e ∷ es) h (k, ks) = (λ f. cc (rw k at f), λ f. absurd (cc (f.1)))
no_errors (d ∷ ds) es (h, hs) k = (λ f. cc (rw h at f), λ f. absurd (cc (f.0)))

module _ {x : External} {Object : Type 0} where
  -- Where no handler of the session is recursive, the `evaluate` of each returns and leaves the
  -- context as it is, and the interner has the keys of all names of the parsed module and of the
  -- global scope: a compilation of a source whose parse returns is successful exactly when neither
  -- the parser nor the resolver has reported anything.
  pub compile-is_ok_iff :
      (fuel : ℕ) (sess : Session x Object) (lexemes : List Lexeme) (len : ℕ)
      (ctx : Context x Object) (p : Parser x) (r : ParseResult Module) (m : Module)
      (text : ℕ → String)
      → ((stage : CompileStage) → IsQuiet sess.attr_registry stage)
      → Parse.parse (State.new lexemes len ctx.interner) ≡ ok (r, p)
      → r.output ≡ some m
      → All (StmtNamed text (x.resolve p.interner)) m.stmts
      → Safe (Known text (x.resolve p.interner)) ctx.global_scope
      → (t : Resolver) × (Resolver.resolve (x.resolve p.interner) ctx.global_scope m ≡ ok (tt, t))
        × (c : CompileResult Module) × (ctx' : Context x Object) × (compile
              (suc fuel)
              sess
              lexemes
              len
              ctx
            ≡ ok (c, ctx'))
        × ((is_ok c ≡ true) ↔ ((r.diagnostics ≡ []) × (t.diagnostics ≡ [])))
  compile-is_ok_iff fuel sess lexemes len ctx p r m text quiet parsed output named safe =
      let (t, resolved_to, _, _, _, resolver_errors) =
        resolve_declares text (x.resolve p.interner) ctx.global_scope m named safe in
      let (same, (new, all, parser_errors)) =
        parse-Extends (State.new lexemes len ctx.interner) p r parsed in
      (
        t,
        resolved_to,
        _,
        _,
        compile-from fuel sess lexemes len ctx p r m t quiet parsed output resolved_to,
        no_errors r.diagnostics t.diagnostics (unfold State.new in rw all parser_errors)
            resolver_errors,
      )
