-- ===== src/Cli/Poisoned.antt =====
-- The server and the REPL of kuai/src/main.rs once the lock of the context is poisoned.
use kuai.Prelude.{◌≡◌, refl, ◌∙◌, Bool, true, false, List, [], ◌∷◌, String, append-nil}
use kuai.Outcome.{Outcome, ok}
use kuai.Driver.Diagnostic.{CompileResult}
use kuai.Cli.{
  Report, unread, connection_failed, poisoned, text, broken, refused, Turn, connection, input,
  Program, turn, turns,
}
use kuai.Cli.Reports.{reported, reported-push}

module _ {A C : Type 0} (compile : String → C → Outcome (CompileResult A × C)) where
  -- A poisoned lock stays poisoned, and nothing more is compiled.
  abbrev pub dead : Bool → Bool → List Report → Program C
  dead server repl printed = record {
    lock = poisoned;
    server_runs = server;
    repl_runs = repl;
    printed = printed;
  }

  abbrev pub IsDead : List Report → Outcome (Program C) → Type 0
  IsDead rs r =
      (server : Bool) × (repl : Bool) × (printed : List Report) × (r
        ≡ ok (dead server repl printed))
      × (reported printed ≡ rs)

  turn-dead :
      (t : Turn) (server repl : Bool) (printed : List Report)
      → IsDead (reported printed) (turn compile t (dead server repl printed))
  unfolding turn
  turn-dead (input source) server true printed = (_, _, _, refl, refl)
  turn-dead (input source) server false printed = (_, _, _, refl, refl)
  turn-dead (connection c) false repl printed = (_, _, _, refl, refl)
  turn-dead (connection (text source)) true repl printed = (_, _, _, refl, refl)
  turn-dead (connection broken) true repl printed =
      (_, _, _, refl, reported-push printed unread ∙ append-nil (reported printed))
  turn-dead (connection refused) true repl printed =
      (_, _, _, refl, reported-push printed connection_failed ∙ append-nil (reported printed))

  pub turns-dead :
      (ts : List Turn) (server repl : Bool) (printed : List Report)
      → IsDead (reported printed) (turns compile ts (dead server repl printed))
  unfolding turns
  turns-dead [] server repl printed = (_, _, _, refl, refl)
  turns-dead (t ∷ ts) server repl printed =
      let (server', repl', printed', e, count) = turn-dead t server repl printed in
      let (server'', repl'', printed'', e', count') = turns-dead ts server' repl' printed' in
      rw e (server'', repl'', printed'', e', count' ∙ count)
