-- ===== src/Repl.antt =====
-- The REPL of kuai/src/main.rs: lines that are typed, gathered to whole inputs and compiled. The
-- lexer (logos), `trim` (of the standard library) and what a compilation makes of the session are
-- parameters; an event is what the line editor (rustyline) returns.
use kuai.Prelude.{
  ℕ, ℤ, pos, negsuc, Bool, true, false, not, ◌&&◌, ◌||◌, Option, List, [], ◌∷◌, String, ◌==◌,
  if◌then◌else◌,
}
use kuai.Syntax.Token.{Token}
use kuai.Syntax.Text.{format, codes}
use kuai.Syntax.Balance.{check_balanced}
pub mod Events
mod Tests

pub data Event : Type 0 where
  line : String → Event
  interrupted eof read_error : Event

-- The state of the inner loop.
pub record Reading : Type 0 where
  pub is_first_line : Bool
  pub buffer : String

-- `break` with the flag `terminate` and the buffer, or another line.
pub data Decision : Type 0 where
  more : Reading → Decision
  stop : Bool → String → Decision

abbrev pub is_empty : String → Bool
is_empty String.[] = true
is_empty (String.◌∷◌ c s) = false

abbrev pub last_is : ℕ → List ℕ → Bool
last_is c [] = false
last_is c (d ∷ []) = c == d
last_is c (d ∷ e ∷ cs) = last_is c (e ∷ cs)

-- `ends_with` of a character by its code
abbrev pub ends_with : String → ℕ → Bool
ends_with s c = last_is c (codes s)

abbrev pub is_negative : ℤ → Bool
is_negative (pos n) = false
is_negative (negsuc n) = true

abbrev pub new_reading : Reading
new_reading = record { is_first_line = true; buffer = "" }

-- The buffer with a line.
abbrev pub with_line : String → String → String
with_line buffer l = format buffer (format l "\n")

module _ (lexer : String → List (Option Token)) (trim : String → String) where
  -- What is done with a line behind `buffer.push('\n')`.
  unfoldable pub read_more : String → Bool → String → Decision
  read_more trimmed is_first_line buffer =
      let (is_balanced, depth) = check_balanced (lexer buffer) in
      if is_balanced
      then (if is_first_line
            || (is_empty trimmed
                && not
                    (ends_with trimmed b',' || (ends_with trimmed b'.' || ends_with trimmed b'=')))
          then stop false buffer
          else more (record { is_first_line = false; buffer = buffer }))
      else if is_negative depth
      then stop false buffer
      else more (record { is_first_line = false; buffer = buffer })

  unfoldable pub read_event : Event → Reading → Decision
  read_event (line l) r =
      if r.is_first_line && is_empty (trim l)
      then stop false r.buffer
      else read_more (trim l) r.is_first_line (with_line r.buffer l)
  read_event interrupted r = stop (is_empty r.buffer) ""
  read_event eof r = stop (is_empty r.buffer) ""
  read_event read_error r = stop false r.buffer

  module _ {C : Type 0} (compile_and_run : String → C → C) where
    -- Behind the inner loop: the end, or an input that is compiled if it is not empty.
    abbrev pub after_input : (C → C × Bool) → C → Bool → String → C × Bool
    after_input next c terminate buffer =
        if terminate
        then (c, true)
        else if is_empty (trim buffer)
        then next c
        else next (compile_and_run (trim buffer) c)

    abbrev pub decided : Decision → (Reading → C → C × Bool) → C → C × Bool
    decided (more r) next c = next r c
    decided (stop terminate buffer) next c = after_input (next new_reading) c terminate buffer

    -- The REPL on some events, with whether it has ended; else it waits for another event.
    unfoldable pub run_repl : List Event → Reading → C → C × Bool
    run_repl [] r c = (c, false)
    run_repl (e ∷ es) r c =
        let next : Reading → C → C × Bool = run_repl es in decided (read_event e r) next c
