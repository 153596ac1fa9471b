-- ===== src/Parser/Keeps/State.antt =====
-- The number of lexemes left under the basic steps, and what the utilities of parser.rs keep.
use kuai.Prelude.{
  ℕ, suc, ◌+◌, ◌≤◌, ◌<◌, ◌≡◌, refl, Bool, true, false, not, ◌&&◌, ◌||◌, Option, none, some, List,
  [], ◌∷◌, String, arith, is_some, if◌then◌else◌, inl, inr, Bool-cases, Option-cases,
}
use kuai.Syntax.Token.{
  Token, token_eq→eq, token_eq_refl, semi_colon, r_brace, kw_func, kw_struct, kw_import, identifier,
}
use mathlib.Core.Bool.{false≢true}
use kuai.Syntax.External.{External}
use kuai.Outcome.{ok}
use kuai.Parser.State.{
  Parser, advance, check, check_any, has_token, report_error, unread, size, expect, sync_round,
  synchronize, sync_until_round, synchronize_until, parse_identifier,
}
use kuai.Parser.Keeps.Rules.{Invariant, Ends, returns, Keeps, Rounds, Ends-if, iterate-Keeps}

module _ {x : External} where
  pub unread-le-size : (p : Parser x) → unread p ≤ size p
  unfolding size
  unread-le-size p = omega arith

  pub size-advance : (p : Parser x) → size (advance p) ≤ unread p
  unfolding size advance
  size-advance p = ground arith

  pub size-report : (msg : String) (p : Parser x) → size (report_error msg p) ≡ size p
  unfolding size report_error
  size-report msg p = refl

  pub unread-report : (msg : String) (p : Parser x) → unread (report_error msg p) ≡ unread p
  unfolding unread report_error
  unread-report msg p = refl

  pub size-intern : (r : x.Rodeo) (p : Parser x) → size (record p { interner = r }) ≡ size p
  unfolding size
  size-intern r p = refl

  pub has_token-size : (p : Parser x) → has_token p ≡ true → size p ≡ suc (unread p)
  unfolding size
  has_token-size p h = rw h (omega arith)

  pub no_token-size : (p : Parser x) → has_token p ≡ false → size p ≡ unread p
  unfolding size
  no_token-size p h = rw h (omega arith)

  pub check-has_token : (t : Token) (p : Parser x) → check t p ≡ true → has_token p ≡ true
  unfolding check
  check-has_token t p h = elim (Option-cases p.current_token) [
    | inl e ↦ ground arith
    | inr (c, e) ↦ rw e
  ]

  pub no_token-check : (t : Token) (p : Parser x) → has_token p ≡ false → check t p ≡ false
  unfolding check
  no_token-check t p h = elim (Option-cases p.current_token) [
    | inl e ↦ rw e
    | inr (c, e) ↦ absurd (cc (rw e at h))
  ]

  pub check-size : (t : Token) (p : Parser x) → check t p ≡ true → size p ≡ suc (unread p)
  check-size t p h = has_token-size p (check-has_token t p h)

  pub check-eq : (t : Token) (p : Parser x) → check t p ≡ true → p.current_token ≡ some t
  unfolding check
  check-eq t p h = elim (Option-cases p.current_token) [
    | inl e ↦ ground arith
    | inr (c, e) ↦ cc (e, token_eq→eq c t (rw (e, check) at h))
  ]

  -- The other way round.
  pub check-current : (t : Token) (p : Parser x) → p.current_token ≡ some t → check t p ≡ true
  unfolding check
  check-current t p e = rw e (token_eq_refl t)

-- for `omega` and `grind`
pub ruleset sizes = (arith, unread-le-size, size-advance, size-report, unread-report, size-intern)

module _ {x : External} (inv : Invariant x) where
  pub expect-Keeps :
      (t : Token) (msg : String) (p : Parser x) → inv.Holds p → Keeps inv (size p) (expect t msg p)
  unfolding expect
  expect-Keeps t msg p i =
      Ends-if (check t p) (λ h. returns (omega sizes, inv.advance p i))
        (λ h. returns (omega sizes, inv.report msg p i))

  -- Success of `expect` has read a lexeme.
  pub expect-reads :
      (t : Token) (msg : String) (p : Parser x)
      → inv.Holds p
      → Ends inv
          (λ found q. (found ≡ true → size q < size p) × (size q ≤ size p) × inv.Holds q)
          (expect t msg p)
  unfolding expect
  expect-reads t msg p i =
      Ends-if (check t p)
        (λ c. returns (λ _. omega (sizes, check-size t p c), omega sizes, inv.advance p i))
        (λ _. returns (λ e. absurd (false≢true e), omega sizes, inv.report msg p i))

  -- The token that stands there is read.
  pub expect-checked :
      (t : Token) (msg : String) (p : Parser x)
      → check t p ≡ true
      → expect t msg p ≡ ok (true, advance p)
  unfolding expect
  expect-checked t msg p h = rw h

  sync_round-Rounds :
      (u : Unit {0}) (p : Parser x) → inv.Holds p → Rounds inv (size p) (sync_round u p)
  unfolding sync_round
  sync_round-Rounds u p i =
      Ends-if (has_token p)
        (λ h.
          Ends-if (check semi_colon p || check r_brace p)
            (λ _. returns (omega sizes, inv.advance p i))
            (λ _.
              Ends-if (check kw_func p || (check kw_struct p || check kw_import p))
                (λ _. returns (omega arith, i))
                (λ _. returns (omega (sizes, has_token-size p h), inv.advance p i))))
        (λ _. returns (omega arith, i))

  pub synchronize-Keeps : (p : Parser x) → inv.Holds p → Keeps inv (size p) (synchronize p)
  unfolding synchronize
  synchronize-Keeps p i = iterate-Keeps sync_round tt p (λ u q _ j. sync_round-Rounds u q j) i

  and_left : (a b : Bool) → (a && b) ≡ true → a ≡ true
  and_left a b h = ground arith

  sync_until_round-Rounds :
      (stop : List Token) (u : Unit {0}) (p : Parser x)
      → inv.Holds p
      → Rounds inv (size p) (sync_until_round stop u p)
  unfolding sync_until_round
  sync_until_round-Rounds stop u p i =
      Ends-if (has_token p && not (check_any stop p))
        (λ h.
          returns (omega (sizes, has_token-size p (and_left (has_token p) _ h)), inv.advance p i))
        (λ _. returns (omega arith, i))

  pub synchronize_until-Keeps :
      (stop : List Token) (p : Parser x)
      → inv.Holds p
      → Keeps inv (size p) (synchronize_until stop p)
  unfolding synchronize_until
  synchronize_until-Keeps stop p i =
      iterate-Keeps (sync_until_round stop) tt p (λ u q _ j. sync_until_round-Rounds stop u q j) i

  pub parse_identifier-Keeps :
      (p : Parser x) → inv.Holds p → Keeps inv (unread p) (parse_identifier p)
  unfolding parse_identifier size unread
  parse_identifier-Keeps p i =
      Ends-if (check identifier p)
        (λ _. returns (omega sizes, inv.intern _ (advance p) (inv.advance p i)))
        (λ _. returns (omega sizes, inv.intern _ _ (inv.advance _ (inv.report _ p i))))
