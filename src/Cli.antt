-- ===== src/Cli.antt =====
-- The command line of kuai/src: main.rs and diagnostic.rs. The compiler, the file system and the
-- connections are parameters; what is printed is data.
use kuai.Prelude.{
  ℕ, ◌-◌, Bool, true, false, not, ◌⊎◌, inl, inr, Option, none, some, List, [], ◌∷◌, String, length,
  push, is_some, ltb, if◌then◌else◌,
}
use kuai.Outcome.{Outcome, ok, panicked, out_of_fuel, bind}
use kuai.Driver.Diagnostic.{Diagnostic, CompileResult, is_ok, errors, warnings}
use kuai.Syntax.External.{External}
use kuai.Parser.State.{Lexeme}
use kuai.Driver.Attr.{new_registry}
use kuai.Driver.Context.{Context, x86_64, Session, new_context, inject_builtins}
use kuai.Driver.Compiler.{Compiled, compile}
pub mod Reports
pub mod Poisoned
pub mod Turns
mod Fuel
mod Tests

-- `MietteDiagnostic`; its span is an offset and a length.
pub record Rendered : Type 0 where
  pub message : String
  pub offset : ℕ
  pub len : ℕ
  pub name : String
  pub source : String

-- A span that ends before it starts panics, as with the overflow checks of a debug build.
unfoldable pub render_as_miette : Diagnostic → String → String → Outcome Rendered
render_as_miette d filename source =
    if ltb d.span.end d.span.start
    then panicked
    else ok (record {
      message = d.message;
      offset = d.span.start;
      len = d.span.end - d.span.start;
      name = filename;
      source = source;
    })

-- The last line that `compile_and_run` prints.
pub data Summary : Type 0 where
  successful : Summary
  successful_with_warnings completed_with_errors failed_with_errors : ℕ → Summary

abbrev pub is_empty : {A : Type 0} → List A → Bool
is_empty [] = true
is_empty (x ∷ xs) = false

unfoldable pub summary : {A : Type 0} → CompileResult A → Summary
summary result =
    if is_ok result
    then (if is_empty result.diagnostics
        then successful
        else successful_with_warnings (length (warnings result)))
    else if is_some result.output
    then completed_with_errors (length (errors result))
    else failed_with_errors (length (errors result))

unfoldable pub render_all : List Diagnostic → String → Outcome (List Rendered)
render_all [] input = ok []
render_all (d ∷ ds) input =
    bind (render_as_miette d "stdin" input) λ r. bind (render_all ds input) λ rs. ok (r ∷ rs)

-- What the program prints, in its order; the echo of a connection's text is left out.
pub data Report : Type 0 where
  compiled : List Rendered → Summary → Report
  unread connection_failed : Report

-- `Arc<Mutex<Context>>`: a panic of the thread that holds it poisons it.
pub data Lock (C : Type 0) : Type 0 where
  free : C → Lock C
  poisoned : Lock C

-- What a connection gives to the server: its text, or an error.
pub data Incoming : Type 0 where
  text : String → Incoming
  broken refused : Incoming

-- Which of the two threads goes on: the server with its next connection, or the REPL with a whole
-- input.
pub data Turn : Type 0 where
  connection : Incoming → Turn
  input : String → Turn

-- The context, whether the threads still run, and what has been printed. The program ends with the
-- thread of the REPL.
pub record Program (C : Type 0) : Type 0 where
  pub lock : Lock C
  pub server_runs : Bool
  pub repl_runs : Bool
  pub printed : List Report

-- `listen` is an address that is given and can be bound.
pub record Args : Type 0 where
  pub execute : Option String
  pub file : Option String
  pub listen : Bool

module _ {A C : Type 0} (compile : String → C → Outcome (CompileResult A × C)) where
  unfoldable pub compile_and_run : String → C → Outcome (Report × C)
  compile_and_run source ctx = bind (compile source ctx) λ (result, after).
      bind (render_all result.diagnostics source)
        λ rendered. ok (compiled rendered (summary result), after)

  -- What a thread does with the locked context: `panics` is the thread's own end.
  abbrev pub ran : Outcome (Report × C) → (Program C → Program C) → Program C → Outcome (Program C)
  ran (ok (report, ctx)) panics p =
      ok (record p { lock = free ctx; printed = push p.printed report })
  ran panicked panics p = ok (panics (record p { lock = poisoned }))
  ran out_of_fuel panics p = out_of_fuel

  -- `lock().unwrap()` and `compile_and_run`
  abbrev pub with_lock : Lock C → String → (Program C → Program C) → Program C → Outcome (Program C)
  with_lock poisoned source panics p = ok (panics p)
  with_lock (free ctx) source panics p = ran (compile_and_run source ctx) panics p

  abbrev pub server_panics : Program C → Program C
  server_panics p = record p { server_runs = false }

  abbrev pub repl_panics : Program C → Program C
  repl_panics p = record p { server_runs = false; repl_runs = false }

  -- One round of the loop of `start_tcp_server`
  abbrev pub serve : Incoming → Program C → Outcome (Program C)
  serve (text source) p = with_lock p.lock source server_panics p
  serve broken p = ok (record p { printed = push p.printed unread })
  serve refused p = ok (record p { printed = push p.printed connection_failed })

  unfoldable pub turn : Turn → Program C → Outcome (Program C)
  turn (connection c) p = if p.server_runs then serve c p else ok p
  turn (input source) p = if p.repl_runs then with_lock p.lock source repl_panics p else ok p

  unfoldable pub turns : List Turn → Program C → Outcome (Program C)
  turns [] p = ok p
  turns (t ∷ ts) p = bind (turn t p) (turns ts)

  -- The threads that `main` starts, when it has no code to run.
  abbrev pub started : Bool → C → Program C
  started listen ctx = record {
    lock = free ctx;
    server_runs = listen;
    repl_runs = true;
    printed = [];
  }

  -- A run of given code: what it prints.
  abbrev pub executed : Outcome (Report × C) → Outcome (List Report)
  executed r = bind r λ (report, ctx). ok (report ∷ [])

  -- A file that has been read or not; an error of `main` prints no report.
  abbrev pub of_file : {E : Type 0} → E ⊎ String → C → E ⊎ Outcome (List Report)
  of_file (inl e) ctx = inl e
  of_file (inr code) ctx = inr (executed (compile_and_run code ctx))

  -- `main` with a file system, and what happens to the threads if it starts them.
  abbrev pub started_all : List Turn → Bool → C → Outcome (List Report)
  started_all ts listen ctx = bind (turns ts (started listen ctx)) λ p. ok p.printed

  unfoldable pub main :
      {E : Type 0} → (String → E ⊎ String) → Args → List Turn → C → E ⊎ Outcome (List Report)
  main read_to_string args ts ctx = elim args.execute [
    | some code ↦ inr (executed (compile_and_run code ctx))
    | none ↦ elim args.file [
      | some path ↦ of_file (read_to_string path) ctx
      | none ↦ inr (started_all ts args.listen ctx)
    ]
  ]

module _ (x : External) (Object : Type 0) where
  -- The session of the command line: no attribute has a handler.
  abbrev pub session_of : Session x Object
  session_of = record { target_arch = x86_64; attr_registry = new_registry }

  -- The compiler of the command line on a source, by the lexer's items with the length of the
  -- source; without handlers nothing nests.
  unfoldable pub compile_source :
      (String → List Lexeme × ℕ) → String → Context x Object → Compiled x Object
  compile_source lexer source ctx =
      let (lexemes, len) = lexer source in compile 1 session_of lexemes len ctx

  -- `main` on a new interner
  unfoldable pub kuai_main :
      {E : Type 0}
      → (String → List Lexeme × ℕ)
      → (String → E ⊎ String)
      → x.Rodeo
      → Args
      → List Turn
      → E ⊎ Outcome (List Report)
  kuai_main lexer read_to_string rodeo args ts =
      main (compile_source lexer) read_to_string args ts (inject_builtins (new_context rodeo))
