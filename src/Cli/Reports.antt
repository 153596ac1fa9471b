-- ===== src/Cli/Reports.antt =====
-- What compile_and_run of kuai/src/main.rs reports: its end, and the reports of several runs.
use kuai.Prelude.{
  ap, ◌++◌, true, false, ◌≢◌, Option, none, some, is_some, length, ◌-◌, ◌≡◌, refl, ◌⊎◌, inl, inr,
  Bool-cases, List, [], ◌∷◌, String, push, ltb,
}
use kuai.Outcome.{Outcome, ok, panicked, out_of_fuel}
use kuai.Driver.Diagnostic.{Diagnostic, CompileResult, is_ok, errors, warnings}
use kuai.Cli.{
  is_empty, Summary, successful, successful_with_warnings, completed_with_errors,
  failed_with_errors, Rendered, render_as_miette, render_all, summary, Report, compiled, unread,
  connection_failed, compile_and_run,
}

-- The reports of compilations among what has been printed.
abbrev pub reported : List Report → List Report
reported [] = []
reported (compiled labels s ∷ rs) = compiled labels s ∷ reported rs
reported (unread ∷ rs) = reported rs
reported (connection_failed ∷ rs) = reported rs

pub reported-push :
    (rs : List Report) (r : Report) → reported (push rs r) ≡ reported rs ++ reported (r ∷ [])
reported-push [] (compiled labels s) = refl
reported-push [] unread = refl
reported-push [] connection_failed = refl
reported-push (compiled labels s ∷ rs) r = ap (◌∷◌ (compiled labels s)) (reported-push rs r)
reported-push (unread ∷ rs) r = reported-push rs r
reported-push (connection_failed ∷ rs) r = reported-push rs r

-- What a diagnostic is rendered as.
abbrev rendered : Diagnostic → String → Rendered
rendered d source = record {
  message = d.message;
  offset = d.span.start;
  len = d.span.end - d.span.start;
  name = "stdin";
  source = source;
}

-- All diagnostics, in their order.
abbrev pub labels_of : String → List Diagnostic → List Rendered
labels_of source [] = []
labels_of source (d ∷ ds) = rendered d source ∷ labels_of source ds

render_all_ends :
    (ds : List Diagnostic) (source : String)
    → (render_all ds source ≡ ok (labels_of source ds)) ⊎ (render_all ds source ≡ panicked)
unfolding render_all render_as_miette
render_all_ends [] source = inl refl
render_all_ends (d ∷ ds) source = elim (Bool-cases (ltb d.span.end d.span.start)) [
  | inl g ↦ inr (rw g refl)
  | inr g ↦ elim (render_all_ends ds source) [
    | inl e ↦ inl (rw (g, e) refl)
    | inr e ↦ inr (rw (g, e) refl)
  ]
]

-- The last line that a result deserves.
abbrev pub IsSummary : {A : Type 0} → CompileResult A → Summary → Type 0
IsSummary r successful = (is_ok r ≡ true) × (r.diagnostics ≡ [])
IsSummary r (successful_with_warnings n) =
    (is_ok r ≡ true) × (r.diagnostics ≢ []) × (n ≡ length (warnings r))
IsSummary r (completed_with_errors n) =
    (is_ok r ≡ false) × (r.output ≢ none) × (n ≡ length (errors r))
IsSummary r (failed_with_errors n) = (is_ok r ≡ false) × (r.output ≡ none) × (n ≡ length (errors r))

is_empty-true : {B : Type 0} (xs : List B) → is_empty xs ≡ true → xs ≡ []
is_empty-true [] h = refl
is_empty-true (x ∷ xs) h = cc h

is_empty-false : {B : Type 0} (xs : List B) → is_empty xs ≡ false → xs ≢ []
is_empty-false [] h = cc h
is_empty-false (x ∷ xs) h = λ e. cc e

is_some-true : {B : Type 0} (o : Option B) → is_some o ≡ true → o ≢ none
is_some-true none h = cc h
is_some-true (some b) h = λ e. cc e

is_some-false : {B : Type 0} (o : Option B) → is_some o ≡ false → o ≡ none
is_some-false none h = refl
is_some-false (some b) h = cc h

summary-IsSummary : {A : Type 0} (r : CompileResult A) → IsSummary r (summary r)
unfolding summary
summary-IsSummary r = elim (Bool-cases (is_ok r)) [
  | inl g ↦ elim (Bool-cases (is_empty r.diagnostics)) [
    | inl e ↦ rw (g, e, IsSummary) (g, is_empty-true _ e)
    | inr e ↦ rw (g, e, IsSummary) (g, is_empty-false _ e, refl)
  ]
  | inr g ↦ elim (Bool-cases (is_some r.output)) [
    | inl e ↦ rw (g, e, IsSummary) (g, is_some-true _ e, refl)
    | inr e ↦ rw (g, e, IsSummary) (g, is_some-false _ e, refl)
  ]
]

module _ {A C : Type 0} (compile : String → C → Outcome (CompileResult A × C)) where
  -- A source compiles to a result and a context, and this is what is printed of it: its
  -- diagnostics, and the last line.
  abbrev pub Compiles : String → C → Report → C → Type 0
  Compiles source c report after =
      (result : CompileResult A) × (line : Summary) × (compile source c ≡ ok (result, after))
      × IsSummary result line
      × (report ≡ compiled (labels_of source result.diagnostics) line)
      × (compile_and_run compile source c ≡ ok (report, after))

  -- The sources compile one after another, each on the context that the one before has left, with
  -- these reports.
  abbrev pub Replays : List String → C → C → List Report → Type 0
  Replays [] c c' rs = (c ≡ c') × (rs ≡ [])
  Replays (s ∷ ss) c c' rs =
      (report : Report) × (after : C) × (others : List Report) × Compiles s c report after
      × (rs ≡ report ∷ others)
      × Replays ss after c' others

  pub compile_and_run_ends :
      (source : String) (c : C)
      → ¬ (compile source c ≡ out_of_fuel)
      → ((report : Report) × (after : C) × Compiles source c report after)
        ⊎ (compile_and_run compile source c ≡ panicked)
  unfolding compile_and_run
  compile_and_run_ends source c fuel = by_result (compile source c) refl fuel
    where
      by_result :
          (r : Outcome (CompileResult A × C))
          → compile source c ≡ r
          → ¬ (r ≡ out_of_fuel)
          → ((report : Report) × (after : C) × Compiles source c report after)
            ⊎ (compile_and_run compile source c ≡ panicked)
      by_result panicked same h = inr (rw same refl)
      by_result out_of_fuel same h = absurd (h refl)
      by_result (ok (result, after)) same h = elim (render_all_ends result.diagnostics source) [
        | inl e ↦ inl (
          compiled (labels_of source result.diagnostics) (summary result),
          after,
          (result, summary result, same, summary-IsSummary result, refl, rw same (rw e refl)),
        )
        | inr e ↦ inr (rw same (rw e refl))
      ]
