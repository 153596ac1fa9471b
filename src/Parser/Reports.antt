-- ===== src/Parser/Reports.antt =====
-- The diagnostics and the interner over a whole parse of parser.rs.
use mathlib.Core.List.{append_assoc}
use kuai.Prelude.{
  ℕ, ◌≡◌, ◌↔◌, refl, sym, true, Option, none, some, List, [], ◌∷◌, ◌++◌, String, All-append,
  append-nil, is_some,
}
use kuai.Syntax.Diagnostic.{AreErrors, Diagnostic, Severity, CompileResult, is_ok, any, is_error}
use kuai.Syntax.Ast.{Module}
use kuai.Syntax.External.{External, IsInterner}
use kuai.Outcome.{ok, loop}
use kuai.Parser.State.{Parser, Lexeme, new, advance, report_error, iterate}
use kuai.Parser.Parse.{parse, parse_impl, stmt_round, result_of}
use kuai.Parser.Keeps.Rules.{Invariant, Ends-ok}
use kuai.Parser.Keeps.Parse.{parse_impl-Keeps, parse-Keeps}
use kuai.Parser.Total.{parse-eq-ok, parse_reads_all}

-- `after` holds the diagnostics of `before`, and behind them errors only.
abbrev pub Extends : List Diagnostic → List Diagnostic → Type 0
Extends before after = (new : List Diagnostic) × (after ≡ before ++ new) × AreErrors new

module _ {x : External} where
  report-Extends :
      (before : List Diagnostic) (msg : String) (p : Parser x)
      → Extends before p.diagnostics
      → Extends before (report_error msg p).diagnostics
  unfolding report_error
  report-Extends before msg p (added, e, errors) =
      let last : List Diagnostic =
        record { severity = Severity.error; span = p.lexer.span; message = msg } ∷ [] in
      (
        added ++ last,
        rw e (append_assoc before added last),
        All-append _ added last errors (refl, tt),
      )

  -- More reports than at the start, all of them errors.
  abbrev reporting : List Diagnostic → Invariant x
  unfolding advance
  reporting before = record {
    Holds = λ q. Extends before q.diagnostics;
    MayPanic = Unit;
    advance = λ _ i. i;
    report = report-Extends before;
    intern = λ _ _ i. i;
    integer = λ _ _ _ _. tt;
    float = λ _ _ _ _. tt;
    attribute = λ _ _ _ _. tt;
    index = λ _ _ _. tt;
  }

  -- A parse that returns keeps the diagnostics that were there and adds errors only; its result
  -- holds them all.
  pub parse-Extends :
      (p q : Parser x) (r : CompileResult Module)
      → parse p ≡ ok (r, q)
      → (r.diagnostics ≡ q.diagnostics) × Extends p.diagnostics r.diagnostics
  unfolding reporting
  parse-Extends p q r e =
      let (stmts, returned, made) = parse-eq-ok p q r e in
      let start : Extends p.diagnostics p.diagnostics = ([], sym (append-nil p.diagnostics), tt) in
      let kept = Ends-ok stmts q (parse_impl-Keeps (reporting p.diagnostics) p start) returned in
      (rw made refl, rw made (kept.1))

any_error :
    (d : Diagnostic) (ds : List Diagnostic) → AreErrors (d ∷ ds) → any is_error (d ∷ ds) ≡ true
any_error d ds h = rw (h.0)

ok_iff :
    (m : Option Module) (ds : List Diagnostic)
    → is_some m ≡ true
    → AreErrors ds
    → (is_ok {A = Module} (record { output = m; diagnostics = ds }) ≡ true) ↔ (ds ≡ [])
ok_iff none ds h errors = cc
ok_iff (some m) [] h errors = (λ _. refl, λ _. refl)
ok_iff (some m) (d ∷ ds) h errors = (λ e. cc (rw (any_error d ds errors) at e), λ e. cc)

module _ {x : External} where
  -- The parse of a source succeeds, `is_ok`, exactly when it has reported nothing: no warning or
  -- hint of the parser can accompany a success.
  pub parse-is_ok_iff :
      (lexemes : List Lexeme) (len : ℕ) (interner : x.Rodeo) (q : Parser x)
      (r : CompileResult Module)
      → parse (new lexemes len interner) ≡ ok (r, q)
      → (is_ok r ≡ true) ↔ (r.diagnostics ≡ [])
  unfolding new
  parse-is_ok_iff lexemes len interner q r e =
      let (same, (added, all, errors)) = parse-Extends (new lexemes len interner) q r e in
      ok_iff r.output r.diagnostics (parse_reads_all (new lexemes len interner) q r e).1
        (rw all errors)

  -- Interning: a key that resolved before the parse resolves to the same text after it.
  abbrev interning : IsInterner x → ℕ → String → Invariant x
  interning laws k t = record {
    Holds = λ q. x.resolve q.interner k ≡ some t;
    MayPanic = Unit;
    advance = λ q i. unfold advance in i;
    report = λ msg q i. unfold report_error in i;
    intern = λ s q i. laws.keeps q.interner s t k i;
    integer = λ _ _ _ _. tt;
    float = λ _ _ _ _. tt;
    attribute = λ _ _ _ _. tt;
    index = λ _ _ _. tt;
  }

  -- If interning keeps the keys handed out before, as lasso documents, so does a parse that
  -- returns: names of earlier inputs stay resolvable.
  pub parse_keeps_names :
      (laws : IsInterner x) (k : ℕ) (t : String) (p q : Parser x) (r : CompileResult Module)
      → x.resolve p.interner k ≡ some t
      → parse p ≡ ok (r, q)
      → x.resolve q.interner k ≡ some t
  parse_keeps_names laws k t p q r i e = (Ends-ok r q (parse-Keeps (interning laws k t) p i) e).1

  -- Where the lexer gives no token, at the end of the input or at a text that it cannot match,
  -- a parse stops with no statement and no report, whatever follows.
  pub parse_stops :
      (l : Lexeme) (rest : List Lexeme) (len : ℕ) (interner : x.Rodeo)
      → l.token ≡ none
      → let p = new {x = x} (l ∷ rest) len interner in parse p ≡ ok (result_of p [] p, p)
  unfolding parse parse_impl iterate loop stmt_round new
  parse_stops l rest len interner e = rw e
