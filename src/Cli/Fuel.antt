-- ===== src/Cli/Fuel.antt =====
-- The server and the REPL of kuai/src/main.rs with the compiler of
-- crates/kuai-driver/src/compiler.rs.
use kuai.Prelude.{Bool, ℕ, ◌≢◌, List, [], String}
use kuai.Outcome.{out_of_fuel}
use kuai.Syntax.External.{External}
use kuai.Parser.State.{Lexeme}
use kuai.Driver.Attr.{CompileStage, new_registry, get_handlers}
use kuai.Driver.Context.{Context}
use kuai.Driver.Hidden.{IsHidden}
use kuai.Driver.Ends.{compile-ne-out_of_fuel}
use kuai.Cli.{Turn, turns, started, session_of, compile_source}
use kuai.Cli.Turns.{IsServed, sources, turns-IsServed}

module _ (x : External) (Object : Type 0) (lexer : String → List Lexeme × ℕ) where
  session_of-IsHidden : (stage : CompileStage) → IsHidden (session_of x Object).attr_registry stage
  unfolding new_registry get_handlers
  session_of-IsHidden stage name = tt

  -- Whatever the lexer gives, a source compiles to a result or to a panic.
  compile_source-ne-out_of_fuel :
      (source : String) (ctx : Context x Object)
      → compile_source x Object lexer source ctx ≢ out_of_fuel
  unfolding compile_source
  compile_source-ne-out_of_fuel source ctx =
      compile-ne-out_of_fuel 0 (session_of x Object) session_of-IsHidden (lexer source).0
        (lexer source).1 ctx

  -- The server and the REPL serve all their sources with the compiler of the command line, in the
  -- order of their turns, until one of them panics.
  turns-IsServed_by_compiler :
      (ts : List Turn) (listen : Bool) (ctx : Context x Object)
      → IsServed (compile_source x Object lexer) listen (sources listen ts) ctx [] (
          turns
            (compile_source x Object lexer)
            ts
            (started (compile_source x Object lexer) listen ctx))
  turns-IsServed_by_compiler ts listen ctx =
      turns-IsServed (compile_source x Object lexer) compile_source-ne-out_of_fuel ts listen ctx
