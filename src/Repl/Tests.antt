-- ===== src/Repl/Tests.antt =====
-- Events of the REPL, with a lexer of two tokens and a session that counts its inputs.
use kuai.Prelude.{
  ℕ, suc, ◌≡◌, refl, true, false, Option, some, List, [], ◌∷◌, String, if◌then◌else◌,
}
use kuai.Syntax.Token.{Token, l_brace, integer_literal}
use kuai.Syntax.Text.{str_eq}
use kuai.Syntax.Balance.{check_balanced, depth_loop, depth_step}
use kuai.Repl.{line, interrupted, eof, more, new_reading, read_event, read_more, run_repl}
use kuai.Repl.Events.{decision, read_event-decision, interrupts_end}

-- A `{` alone, and a number for any other text.
abbrev lexer : String → List (Option Token)
lexer s = if str_eq s "{\n" then some l_brace ∷ [] else some integer_literal ∷ []

abbrev trim : String → String
trim s = s

abbrev counting : String → ℕ → ℕ
counting input n = suc n

read_event-decision_example :
    read_event lexer trim (line "{") new_reading ≡ decision lexer trim "{" new_reading
read_event-decision_example = read_event-decision lexer trim "{" new_reading

interrupts_end_example :
    run_repl lexer trim counting
      (interrupted ∷ eof ∷ line "1" ∷ [])
      (record { is_first_line = false; buffer = "{\n" })
      4
    ≡ (4, true)
interrupts_end_example =
    interrupts_end lexer trim counting interrupted eof (line "1" ∷ [])
      (record { is_first_line = false; buffer = "{\n" }) 4 refl tt tt

open_brace :
    read_event lexer trim (line "{") new_reading
    ≡ more (record { is_first_line = false; buffer = "{\n" })
unfolding read_event read_more check_balanced depth_loop depth_step
open_brace = refl

one_input : run_repl lexer trim counting (line "1" ∷ eof ∷ []) new_reading 0 ≡ (1, true)
unfolding run_repl read_event read_more check_balanced depth_loop depth_step
one_input = refl
