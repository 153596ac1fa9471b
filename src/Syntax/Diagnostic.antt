-- ===== src/Syntax/Diagnostic.antt =====
-- crates/kuai-syntax/src/diagnostic.rs and crates/kuai-sema/src/diagnostic.rs: diagnostics and
-- partial results. The two crates declare the same record of a diagnostic; the model has one type
-- for both.
use kuai.Prelude.{
  All, ◌≡◌, ℕ, Bool, true, false, not, ◌&&◌, ◌||◌, Option, none, some, List, [], ◌∷◌, ◌++◌, String,
  is_some, if◌then◌else◌,
}

-- `std::ops::Range<usize>`
pub record Span : Type 0 where
  pub start : ℕ
  pub end : ℕ

pub data Severity : Type 0 where
  error warning hint : Severity

pub record Diagnostic : Type 0 where
  pub severity : Severity
  pub span : Span
  pub message : String

abbrev pub is_error : Diagnostic → Bool
is_error d = elim d.severity [ error ↦ true | _ ↦ false ]

abbrev pub is_warning : Diagnostic → Bool
is_warning d = elim d.severity [ warning ↦ true | _ ↦ false ]

pub record CompileResult (A : Type 0) : Type 0 where
  pub output : Option A
  pub diagnostics : List Diagnostic

abbrev pub keep {ℓ} : {A : Type ℓ} → (A → Bool) → List A → List A
keep p [] = []
keep p (d ∷ ds) = if p d then d ∷ keep p ds else keep p ds

abbrev pub any {ℓ} : {A : Type ℓ} → (A → Bool) → List A → Bool
any p [] = false
any p (d ∷ ds) = p d || any p ds

-- `Diagnostic::error`, which takes the severity as an argument.
abbrev pub error_of : Severity → Span → String → Diagnostic
error_of severity span message = record { severity = severity; span = span; message = message }

module _ {A : Type 0} where
  abbrev pub ok_result : A → CompileResult A
  ok_result output = record { output = some output; diagnostics = [] }

  abbrev pub with_diagnostics : A → List Diagnostic → CompileResult A
  with_diagnostics output diagnostics = record { output = some output; diagnostics = diagnostics }

  abbrev pub err : List Diagnostic → CompileResult A
  err diagnostics = record { output = none; diagnostics = diagnostics }

  abbrev pub has_errors : CompileResult A → Bool
  has_errors r = any is_error r.diagnostics

  abbrev pub is_ok : CompileResult A → Bool
  is_ok r = is_some r.output && not (has_errors r)

  abbrev pub errors : CompileResult A → List Diagnostic
  errors r = keep is_error r.diagnostics

  abbrev pub warnings : CompileResult A → List Diagnostic
  warnings r = keep is_warning r.diagnostics

  -- `merge_diagnostics`
  abbrev pub merge_diagnostics : List Diagnostic → CompileResult A → CompileResult A
  merge_diagnostics other r = record r { diagnostics = r.diagnostics ++ other }

  -- `CompileResult::default`
  abbrev pub default_result : CompileResult A
  default_result = record { output = none; diagnostics = [] }

-- `CompileResult::map`
abbrev pub map_result : {A B : Type 0} → (A → B) → CompileResult A → CompileResult B
map_result f r = record {
  output = elim r.output [ none ↦ none | some a ↦ some (f a) ];
  diagnostics = r.diagnostics;
}

abbrev pub AreErrors : List Diagnostic → Type 0
AreErrors = All (λ d. d.severity ≡ Severity.error)
