-- ===== src/Parser/Total.antt =====
-- The parser of parser.rs ends on every token stream: no loop and no recursion of it can go on
-- without reading a lexeme.
use kuai.Prelude.{
  ℕ, zero, suc, ◌<◌, ◌≡◌, ◌≢◌, refl, true, false, Bool-cases, inl, inr, List, [], push, is_some,
}
use kuai.Syntax.Token.{semi_colon}
use kuai.Syntax.Diagnostic.{CompileResult}
use kuai.Syntax.Ast.{Stmt, Module}
use kuai.Syntax.External.{External}
use kuai.Outcome.{
  bind-eq-ok, Outcome, ok, panicked, out_of_fuel, bind, next_round, Flow, again, done, loop,
}
use kuai.Parser.State.{Parser, check, has_token, size, iterate}
use kuai.Parser.Stmt.{statement}
use kuai.Parser.Parse.{result_of, stmt_round, parse_impl, parse}
use kuai.Parser.Keeps.Rules.{Ends-ok, Ends-ne-out_of_fuel, trivial}
use kuai.Parser.Keeps.State.{sizes, has_token-size}
use kuai.Parser.Keeps.Stmt.{statement-Keeps}
use kuai.Parser.Keeps.Parse.{parse-Keeps}

module _ {x : External} where
  -- On every state, and so on every token stream, `parse` returns or panics: the bounds on the
  -- rounds of its loops and on the depth of its recursion, which the model takes from the number
  -- of lexemes left, are never reached.
  pub parse-ne-out_of_fuel : (p : Parser x) → parse p ≢ out_of_fuel
  parse-ne-out_of_fuel p = Ends-ne-out_of_fuel (parse-Keeps trivial p tt)

  -- Where a token stands, a statement that returns leaves fewer lexemes than it found.
  pub statement_progress :
      (p q : Parser x) (s : Stmt) → has_token p ≡ true → statement p ≡ ok (s, q) → size q < size p
  statement_progress p q s h e =
      let k = Ends-ok s q (statement-Keeps trivial p tt) e in omega (sizes, has_token-size p h, k.0)

  next_round_ends :
      {A : Type 0} (P : Parser x → Type 0) (more : A → Parser x → Outcome (A × Parser x)) (b : A)
      (q : Parser x) (r : Outcome (Flow A × Parser x))
      → ((a : A) (t : Parser x) → r ≡ ok (done a, t) → P t)
      → ((a : A) (s : Parser x) → more a s ≡ ok (b, q) → P q)
      → next_round more r ≡ ok (b, q)
      → P q
  next_round_ends P more b q (ok (again a, s)) last step e = step a s e
  next_round_ends P more b q (ok (done a, s)) last step e = last b q (cc)
  next_round_ends P more b q panicked last step e = cc
  next_round_ends P more b q out_of_fuel last step e = cc

  -- A loop that returns does so from a round that breaks.
  loop_ends :
      {A : Type 0} (P : Parser x → Type 0) (body : A → Parser x → Outcome (Flow A × Parser x))
      → ((a b : A) (s t : Parser x) → body a s ≡ ok (done b, t) → P t)
      → (n : ℕ) (a b : A) (p q : Parser x) → loop n body a p ≡ ok (b, q)
      → P q
  unfolding loop
  loop_ends P body h zero a b p q e = cc
  loop_ends P body h (suc n) a b p q e =
      next_round_ends P (loop n body) b q (body a p) (λ c t f. h a c p t f)
        (λ c s f. loop_ends P body h n c b s q f) e

  again-ne-done :
      (stmts b : List Stmt) (t : Parser x) (r : Outcome (Stmt × Parser x))
      → bind {B = Flow (List Stmt) × Parser x} r (λ (s, q). ok (again (push stmts s), q))
        ≡ ok (done b, t)
      → ⊥
  again-ne-done stmts b t (ok (s, q)) e = cc
  again-ne-done stmts b t panicked e = cc
  again-ne-done stmts b t out_of_fuel e = cc

  stmt_round_ends :
      (stmts b : List Stmt) (p t : Parser x)
      → stmt_round stmts p ≡ ok (done b, t)
      → has_token t ≡ false
  unfolding stmt_round
  stmt_round_ends stmts b p t e = elim (Bool-cases (has_token p)) [
    | inl h ↦ elim (Bool-cases (check semi_colon p)) [
      | inl c ↦ absurd (cc (rw (h, c) at e))
      | inr c ↦ absurd (again-ne-done stmts b t (statement p) (rw (h, c) at e))
    ]
    | inr h ↦ cc (h, rw h at e)
  ]

  -- The parts of a parse that returns.
  pub parse-eq-ok :
      (p q : Parser x) (r : CompileResult Module)
      → parse p ≡ ok (r, q)
      → (stmts : List Stmt) × (parse_impl p ≡ ok (stmts, q)) × (r ≡ result_of p stmts q)
  unfolding parse
  parse-eq-ok p q r e =
      let ((stmts, q'), done_impl, same) = bind-eq-ok (parse_impl p) _ e in (stmts, cc, cc)

  -- A parse that returns has come to a place where the lexer gives no token, and has an output.
  pub parse_reads_all :
      (p q : Parser x) (r : CompileResult Module)
      → parse p ≡ ok (r, q)
      → (has_token q ≡ false) × (is_some r.output ≡ true)
  unfolding parse_impl iterate
  parse_reads_all p q r e =
      let (stmts, returned, made) = parse-eq-ok p q r e in
      (
        loop_ends (λ t. has_token t ≡ false) stmt_round (λ a b s t f. stmt_round_ends a b s t f)
            (suc (size p)) [] stmts p q returned,
        rw made refl,
      )
