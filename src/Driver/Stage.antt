-- ===== src/Driver/Stage.antt =====
-- One stage of crates/kuai-driver/src/compiler.rs over the statements of a module, against a
-- description by the statements that the stage reaches.
use kuai.Prelude.{◌≡◌, ◌≢◌, refl, ◌∙◌, List, [], ◌∷◌, ◌++◌, append_assoc, append-nil}
use kuai.Syntax.Ast.{Stmt}
use kuai.Syntax.External.{External}
use kuai.Outcome.{ok}
use kuai.Driver.Diagnostic.{Diagnostic}
use kuai.Driver.Attr.{
  CompileStage, Result, returned, failed, AttrAction, continue_with, skip_children, terminal,
  lowered, AttrEngine,
}
use kuai.Driver.Pipeline.{empty_frame}
use kuai.Driver.Context.{Context}
use kuai.Driver.Compiler.{stage_loop, stage_result, apply_stage}

module _ {Object : Type 0} where
  -- The statements that results leave, and their reports.
  abbrev pub kept : List (Result (AttrAction Object)) → List Stmt
  kept [] = []
  kept (returned (terminal s) ∷ rs) = s ∷ kept rs
  kept (returned (continue_with s) ∷ rs) = s ∷ kept rs
  kept (returned (skip_children s) ∷ rs) = s ∷ kept rs
  kept (returned (lowered a) ∷ rs) = kept rs
  kept (failed ds ∷ rs) = kept rs

  abbrev pub reports : List (Result (AttrAction Object)) → List Diagnostic
  reports [] = []
  reports (returned a ∷ rs) = reports rs
  reports (failed ds ∷ rs) = ds ++ reports rs

module _ {x : External} {Object : Type 0} (engine : AttrEngine (Context x Object) Object)
    (stage : CompileStage) where
  -- From a context, the pipeline gives these results on a list of statements up to and with the
  -- first terminal one, each on the context that the one before has left, and then this context.
  abbrev pub Acts :
      Context x Object → List Stmt → List (Result (AttrAction Object)) → Context x Object → Type 0
  Acts ctx [] [] last = ctx ≡ last
  Acts ctx [] (r ∷ rs) last = ⊥
  Acts ctx (s ∷ ss) [] last = ⊥
  Acts ctx (s ∷ ss) (returned (terminal t) ∷ rs) last =
      (engine ctx s stage (empty_frame ∷ []) ≡ ok (returned (terminal t), last)) × (rs ≡ [])
  Acts ctx (s ∷ ss) (returned (continue_with t) ∷ rs) last =
      (after : Context x Object) × (engine ctx s stage (empty_frame ∷ [])
        ≡ ok (returned (continue_with t), after))
      × Acts after ss rs last
  Acts ctx (s ∷ ss) (returned (skip_children t) ∷ rs) last =
      (after : Context x Object) × (engine ctx s stage (empty_frame ∷ [])
        ≡ ok (returned (skip_children t), after))
      × Acts after ss rs last
  Acts ctx (s ∷ ss) (returned (lowered a) ∷ rs) last =
      (after : Context x Object) × (engine ctx s stage (empty_frame ∷ [])
        ≡ ok (returned (lowered a), after))
      × Acts after ss rs last
  Acts ctx (s ∷ ss) (failed ds ∷ rs) last =
      (after : Context x Object) × (engine ctx s stage (empty_frame ∷ []) ≡ ok (failed ds, after))
      × Acts after ss rs last

  stage_loop-Acts :
      (ctx last : Context x Object) (ss : List Stmt) (rs : List (Result (AttrAction Object)))
      (xs : List Stmt) (ds : List Diagnostic)
      → Acts ctx ss rs last
      → stage_loop engine stage ss (xs, ds) ctx ≡ ok ((xs ++ kept rs, ds ++ reports rs), last)
  unfolding stage_loop
  stage_loop-Acts ctx last [] [] xs ds h = rw h (simp append-nil)
  stage_loop-Acts ctx last [] (r ∷ rs) xs ds h = elim h [ ]
  stage_loop-Acts ctx last (s ∷ ss) [] xs ds h = elim h [ ]
  stage_loop-Acts ctx last (s ∷ ss) (returned (terminal t) ∷ rs) xs ds (e, none_more) =
      rw e (rw none_more (simp append-nil))
  stage_loop-Acts ctx last (s ∷ ss) (returned (continue_with t) ∷ rs) xs ds (after, e, h) =
      rw e (stage_loop-Acts after last ss rs (xs ++ t ∷ []) ds h ∙ simp append_assoc)
  stage_loop-Acts ctx last (s ∷ ss) (returned (skip_children t) ∷ rs) xs ds (after, e, h) =
      rw e (stage_loop-Acts after last ss rs (xs ++ t ∷ []) ds h ∙ simp append_assoc)
  stage_loop-Acts ctx last (s ∷ ss) (returned (lowered a) ∷ rs) xs ds (after, e, h) =
      rw e (stage_loop-Acts after last ss rs xs ds h)
  stage_loop-Acts ctx last (s ∷ ss) (failed errs ∷ rs) xs ds (after, e, h) =
      rw e (stage_loop-Acts after last ss rs xs (ds ++ errs) h ∙ simp append_assoc)

-- A stage gives the statements where there is no report, and else all the reports.
abbrev pub IsResult : List Stmt → List Diagnostic → Result (List Stmt) → Type 0
IsResult stmts ds (returned result) = (ds ≡ []) × (result ≡ stmts)
IsResult stmts ds (failed errs) = (ds ≢ []) × (errs ≡ ds)

stage_result-IsResult :
    (stmts : List Stmt) (ds : List Diagnostic) → IsResult stmts ds (stage_result (stmts, ds))
stage_result-IsResult stmts [] = (refl, refl)
stage_result-IsResult stmts (d ∷ ds) = (λ e. cc e, refl)

module _ {x : External} {Object : Type 0} (engine : AttrEngine (Context x Object) Object)
    (ctx last : Context x Object) (stage : CompileStage) where
  -- Where the pipeline does not panic on any statement up to and with the first terminal one, a
  -- stage returns with the context that it leaves. Only these statements count. If any of them has
  -- a report, the stage fails with all their reports in order; else it gives their statements in
  -- order, without those that were lowered.
  pub apply_stage-reached :
      (ss : List Stmt) (rs : List (Result (AttrAction Object)))
      → Acts engine stage ctx ss rs last
      → (r : Result (List Stmt)) × (apply_stage engine ctx ss stage ≡ ok (r, last))
        × IsResult (kept rs) (reports rs) r
  unfolding apply_stage
  apply_stage-reached ss rs h = (
    stage_result (kept rs, reports rs),
    rw (stage_loop-Acts engine stage ctx last ss rs [] [] h) refl,
    stage_result-IsResult (kept rs) (reports rs),
  )
