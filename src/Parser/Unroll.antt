-- ===== src/Parser/Unroll.antt =====
-- The rounds of a loop of parser.rs one at a time: a loop whose rounds read a lexeme or break does
-- not depend on the bound that the model gives it.
use kuai.Prelude.{ℕ, zero, suc, ◌≤◌, ◌<◌, ◌≡◌, refl, arith}
use kuai.Syntax.External.{External}
use kuai.Outcome.{Outcome, Flow, again, done, next_round, loop}
use kuai.Parser.State.{Parser, size, iterate}
use kuai.Parser.Keeps.Rules.{Rounds, returns, panics, trivial}

module _ {x : External} {A : Type 0} where
  next_round-eq :
      (k : ℕ) (f g : A → Parser x → Outcome (A × Parser x)) {r : Outcome (Flow A × Parser x)}
      → Rounds trivial k r
      → ((a : A) (q : Parser x) → size q < k → f a q ≡ g a q)
      → next_round f r ≡ next_round g r
  next_round-eq k f g (returns {a = again a} {p = q} (s, i)) h = h a q (omega arith)
  next_round-eq k f g (returns {a = done a} {p = q} (s, i)) h = refl
  next_round-eq k f g (panics z) h = refl

  loop_fuel :
      (n m k : ℕ) (body : A → Parser x → Outcome (Flow A × Parser x))
      → ((a : A) (q : Parser x) → size q ≤ k → Rounds trivial (size q) (body a q))
      → (a : A) (p : Parser x) → size p ≤ k
      → size p < n
      → size p < m
      → loop n body a p ≡ loop m body a p
  unfolding loop
  loop_fuel zero m k body h a p le lt lt' = absurd (omega arith)
  loop_fuel (suc n) zero k body h a p le lt lt' = absurd (omega arith)
  loop_fuel (suc n) (suc m) k body h a p le lt lt' =
      next_round-eq (size p) (loop n body) (loop m body) (h a p le)
        λ b q s. loop_fuel n m k body h b q (omega arith) (omega arith) (omega arith)

  -- A loop is a round and then the loop again, or a break.
  pub iterate-unroll :
      (k : ℕ) (body : A → Parser x → Outcome (Flow A × Parser x))
      → ((a : A) (q : Parser x) → size q ≤ k → Rounds trivial (size q) (body a q))
      → (a : A) (p : Parser x) → size p ≤ k
      → iterate body a p ≡ next_round (iterate body) (body a p)
  unfolding iterate loop
  iterate-unroll k body h a p le =
      next_round-eq (size p) (loop (size p) body) (iterate body) (h a p le)
        λ b q s. loop_fuel (size p) (suc (size q)) k body h b q (omega arith) s (omega arith)
