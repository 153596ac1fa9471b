-- ===== src/Cli/Tests.antt =====
-- A compiler that counts its sources, and panics on `a[`.
use kuai.Prelude.{ℕ, suc, ◌≡◌, refl, inl, inr, Bool, true, false, some, List, [], ◌∷◌, String}
use kuai.Outcome.{Outcome, ok, panicked, out_of_fuel}
use kuai.Syntax.Text.{str_eq}
use kuai.Driver.Diagnostic.{CompileResult, Severity}
use kuai.Cli.{
  successful, compiled, poisoned, text, broken, Turn, connection, input, render_as_miette,
  render_all, summary, compile_and_run, turn, turns, started, main,
}
use kuai.Cli.Turns.{sources, IsServed, turns-IsServed}

abbrev counted : Bool → ℕ → Outcome (CompileResult ℕ × ℕ)
counted true n = panicked
counted false n = ok (record { output = some n; diagnostics = [] }, suc n)

abbrev counting : String → ℕ → Outcome (CompileResult ℕ × ℕ)
counting source n = counted (str_eq source "a[") n

counted_ends : (b : Bool) (n : ℕ) → ¬ (counted b n ≡ out_of_fuel)
counted_ends true n h = cc h
counted_ends false n h = cc h

-- The second connection panics the server, and so the REPL at its next input.
abbrev shared : List Turn
shared = input "x" ∷ connection broken ∷ connection (text "a[") ∷ input "y" ∷ input "z" ∷ []

turns-IsServed_example :
    IsServed counting true
      (sources true shared)
      0
      []
      (turns counting shared (started counting true 0))
turns-IsServed_example =
    turns-IsServed counting (λ source n. counted_ends (str_eq source "a[") n) shared true 0

repl_dies :
    turns counting (input "x" ∷ connection (text "a[") ∷ input "y" ∷ []) (started counting true 0)
    ≡ ok (record {
      lock = poisoned;
      server_runs = false;
      repl_runs = false;
      printed = compiled [] successful ∷ [];
    })
unfolding turns turn compile_and_run render_all summary
repl_dies = refl

runs_code :
    main counting {E = ℕ}
      (λ path. inl 0)
      (record { execute = some "x"; file = some "f"; listen = true })
      []
      0
    ≡ inr (ok (compiled [] successful ∷ []))
unfolding main compile_and_run render_all summary
runs_code = refl

spans_are_lengths :
    render_as_miette
      (record {
        severity = Severity.error;
        span = record { start = 4; end = 5 };
        message = "unknown name";
      })
      "input.ku"
      "let x = 1;"
    ≡ ok (record {
      message = "unknown name";
      offset = 4;
      len = 1;
      name = "input.ku";
      source = "let x = 1;";
    })
unfolding render_as_miette
spans_are_lengths = refl
