-- ===== src/Syntax/Tests.antt =====
-- The bracket count of the lexer on concrete inputs.
use kuai.Prelude.{◌≡◌, refl, pos, false, not, ◌&&◌, leb, Option, none, some, List, [], ◌∷◌}
use kuai.Syntax.Token.{Token, l_bracket, r_bracket, l_brace, identifier}
use kuai.Syntax.Balance.{
  depth_step, depth_loop, check_balanced, count, opening, closing, difference, is_empty,
  check_balanced_lem,
}

-- `{ x[ ] $`, the last of which is no token
abbrev open_block : List (Option Token)
open_block = some l_brace ∷ some identifier ∷ some l_bracket ∷ some r_bracket ∷ none ∷ []

check_balanced_lem_example : check_balanced open_block ≡ (
  not (is_empty open_block) && leb (count opening open_block) (count closing open_block),
  difference (count opening open_block) (count closing open_block),
)
check_balanced_lem_example = check_balanced_lem open_block

open_block_runs : check_balanced open_block ≡ (false, pos 1)
unfolding check_balanced depth_loop depth_step
open_block_runs = refl
