-- ===== src/Driver/Diagnostic.antt =====
-- crates/kuai-driver/src/diagnostic.rs: the driver's own diagnostics, and the conversion of those
-- of the syntax crate. The diagnostics of the crate kuai-sema are those of the syntax crate in this
-- model, so one conversion stands for both.
use kuai.Prelude.{Bool, true, false, ◌&&◌, not, Option, none, some, List, [], ◌++◌, String, is_some}
use kuai.Syntax.Diagnostic.{
  Span, keep, any, Diagnostic as SyntaxDiagnostic, Severity as SyntaxSeverity,
}

pub data Severity : Type 0 where
  error warning hint : Severity

pub record Diagnostic : Type 0 where
  pub severity : Severity
  pub span : Span
  pub message : String

-- `Diagnostic::error`, which takes the severity as an argument.
abbrev pub error_of : Severity → Span → String → Diagnostic
error_of severity span message = record { severity = severity; span = span; message = message }

abbrev pub is_error : Diagnostic → Bool
is_error d = elim d.severity [ error ↦ true | _ ↦ false ]

abbrev pub is_warning : Diagnostic → Bool
is_warning d = elim d.severity [ warning ↦ true | _ ↦ false ]

abbrev pub from_severity : SyntaxSeverity → Severity
from_severity SyntaxSeverity.error = error
from_severity SyntaxSeverity.warning = warning
from_severity SyntaxSeverity.hint = hint

-- `Diagnostic::from`
abbrev pub from : SyntaxDiagnostic → Diagnostic
from d = record { severity = from_severity d.severity; span = d.span; message = d.message }

pub record CompileResult (A : Type 0) : Type 0 where
  pub output : Option A
  pub diagnostics : List Diagnostic

module _ {A : Type 0} where
  abbrev pub ok_result : A → CompileResult A
  ok_result output = record { output = some output; diagnostics = [] }

  abbrev pub with_diagnostics : A → List Diagnostic → CompileResult A
  with_diagnostics output ds = record { output = some output; diagnostics = ds }

  abbrev pub err : List Diagnostic → CompileResult A
  err ds = record { output = none; diagnostics = ds }

  abbrev pub has_errors : CompileResult A → Bool
  has_errors r = any is_error r.diagnostics

  abbrev pub is_ok : CompileResult A → Bool
  is_ok r = is_some r.output && not (has_errors r)

  abbrev pub errors : CompileResult A → List Diagnostic
  errors r = keep is_error r.diagnostics

  abbrev pub warnings : CompileResult A → List Diagnostic
  warnings r = keep is_warning r.diagnostics

  abbrev pub merge_diagnostics : List Diagnostic → CompileResult A → CompileResult A
  merge_diagnostics other r = record r { diagnostics = r.diagnostics ++ other }

-- `CompileResult::default`
abbrev pub default_result : {A : Type 0} → CompileResult A
default_result = record { output = none; diagnostics = [] }

abbrev pub map_result : {A B : Type 0} → (A → B) → CompileResult A → CompileResult B
map_result f r = record {
  output = elim r.output [ none ↦ none | some a ↦ some (f a) ];
  diagnostics = r.diagnostics;
}
