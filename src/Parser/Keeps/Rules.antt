-- ===== src/Parser/Keeps/Rules.antt =====
-- Postconditions on a run of the parser, and the rules for sequences, branches and loops.
use kuai.Prelude.{
  ℕ, zero, suc, ◌+◌, ◌≤◌, ◌<◌, ◌≡◌, ◌≢◌, refl, subst, Bool, true, false, none, some, String, arith,
  if◌then◌else◌,
}
use kuai.Syntax.Token.{Token, integer_literal, float_literal, l_bracket}
use kuai.Syntax.External.{External}
use kuai.Outcome.{Outcome, ok, panicked, out_of_fuel, Flow, again, done, bind, next_round, loop}
use kuai.Parser.State.{Parser, advance, report_error, size, iterate}
use kuai.Parser.Argument.{slice_from_one}

-- What the basic steps of the parser keep, and what a panic at each place where it can panic
-- shows.
pub record Invariant (x : External) : Type 1 where
  pub Holds : Parser x → Type 0
  pub MayPanic : Type 0
  pub advance : (p : Parser x) → Holds p → Holds (advance p)
  pub report : (msg : String) (p : Parser x) → Holds p → Holds (report_error msg p)
  pub intern :
      (s : String) (p : Parser x)
      → Holds p
      → Holds (record p { interner = (x.get_or_intern p.interner s).0 })
  pub integer :
      (p : Parser x)
      → Holds p
      → p.current_token ≡ some integer_literal
      → x.parse_i64 p.current_slice ≡ none
      → MayPanic
  pub float :
      (p : Parser x)
      → Holds p
      → p.current_token ≡ some float_literal
      → x.parse_f64 p.current_slice ≡ none
      → MayPanic
  pub attribute :
      (p : Parser x)
      → Holds p
      → p.current_token ≡ some Token.attribute
      → slice_from_one p.current_slice ≡ none
      → MayPanic
  pub index : (p : Parser x) → Holds p → p.current_token ≡ some l_bracket → MayPanic

-- A run that returns does so with `Q`; one that panics may; none runs out of fuel.
pub data Ends {x : External} (inv : Invariant x) {A : Type 0} (Q : A → Parser x → Type 0)
    : Outcome (A × Parser x) → Type 0 where
  returns : {a : A} {p : Parser x} → Q a p → Ends inv Q (ok (a, p))
  panics : inv.MayPanic → Ends inv Q panicked

-- Another round of a loop must have read a lexeme.
abbrev pub turn : {A : Type 0} → Flow A → ℕ
turn (again _) = 1
turn (done _) = 0

module _ {x : External} (inv : Invariant x) where
  -- The invariant holds, with at most `k` lexemes left.
  abbrev pub Keeps : {A : Type 0} → ℕ → Outcome (A × Parser x) → Type 0
  Keeps k = Ends inv λ a p. (size p ≤ k) × inv.Holds p

  -- The same for one round of a loop.
  abbrev pub Rounds : {A : Type 0} → ℕ → Outcome (Flow A × Parser x) → Type 0
  Rounds k = Ends inv λ f p. (size p + turn f ≤ k) × inv.Holds p

module _ {x : External} {inv : Invariant x} where
  pub Ends-bind :
      {A B : Type 0} {Q : A → Parser x → Type 0} {R : B → Parser x → Type 0}
      {r : Outcome (A × Parser x)} (f : A × Parser x → Outcome (B × Parser x))
      → Ends inv Q r
      → ((a : A) (p : Parser x) → Q a p → Ends inv R (f (a, p)))
      → Ends inv R (bind r f)
  Ends-bind f (returns {a} {p} h) k = k a p h
  Ends-bind f (panics z) k = panics z

  pub Ends-weaken :
      {A : Type 0} {Q R : A → Parser x → Type 0} {r : Outcome (A × Parser x)}
      → Ends inv Q r
      → ((a : A) (p : Parser x) → Q a p → R a p)
      → Ends inv R r
  Ends-weaken (returns {a} {p} h) k = returns (k a p h)
  Ends-weaken (panics z) k = panics z

  pub Keeps-weaken :
      {A : Type 0} {j k : ℕ} {r : Outcome (A × Parser x)} → Keeps inv j r → j ≤ k → Keeps inv k r
  Keeps-weaken h le = Ends-weaken h λ _ p (s, i). (omega arith, i)

  pub Rounds-weaken :
      {A : Type 0} {j k : ℕ} {r : Outcome (Flow A × Parser x)}
      → Rounds inv j r
      → j ≤ k
      → Rounds inv k r
  Rounds-weaken h le = Ends-weaken h λ _ p (s, i). (omega arith, i)

  pub Ends-if :
      {A : Type 0} {Q : A → Parser x → Type 0} (b : Bool) {r s : Outcome (A × Parser x)}
      → (b ≡ true → Ends inv Q r)
      → (b ≡ false → Ends inv Q s)
      → Ends inv Q (if b then r else s)
  Ends-if true hr hs = hr refl
  Ends-if false hr hs = hs refl

  -- A branch between methods, run at a state.
  pub Ends-if_at :
      {A : Type 0} {Q : A → Parser x → Type 0} (b : Bool) (m n : Parser x → Outcome (A × Parser x))
      (p : Parser x)
      → (b ≡ true → Ends inv Q (m p))
      → (b ≡ false → Ends inv Q (n p))
      → Ends inv Q ((if b then m else n) p)
  Ends-if_at true m n p hm hn = hm refl
  Ends-if_at false m n p hm hn = hn refl

  next_round-Keeps :
      {A : Type 0} (k : ℕ) (more : A → Parser x → Outcome (A × Parser x))
      {r : Outcome (Flow A × Parser x)}
      → Rounds inv k r
      → ((a : A) (q : Parser x) → size q < k → inv.Holds q → Keeps inv (size q) (more a q))
      → Keeps inv k (next_round more r)
  next_round-Keeps k more (returns {a = again a} {p = q} (s, i)) h =
      Keeps-weaken (h a q (omega arith) i) (omega arith)
  next_round-Keeps k more (returns {a = done a} {p = q} (s, i)) h = returns (omega arith, i)
  next_round-Keeps k more (panics z) h = panics z

  pub loop-Keeps :
      {A : Type 0} (n k : ℕ) (body : A → Parser x → Outcome (Flow A × Parser x))
      → ((a : A) (q : Parser x) → size q ≤ k → inv.Holds q → Rounds inv (size q) (body a q))
      → (a : A) (p : Parser x) → size p ≤ k
      → size p < n
      → inv.Holds p
      → Keeps inv (size p) (loop n body a p)
  unfolding loop
  loop-Keeps zero k body h a p le lt i = absurd (omega arith)
  loop-Keeps (suc n) k body h a p le lt i =
      next_round-Keeps (size p) (loop n body) (h a p le i)
        λ b q s j. loop-Keeps n k body h b q (omega arith) (omega arith) j

  -- A loop whose every round reads a lexeme or breaks ends within its rounds, and keeps what each
  -- round keeps.
  pub iterate-Keeps :
      {A : Type 0} (body : A → Parser x → Outcome (Flow A × Parser x)) (a : A) (p : Parser x)
      → ((b : A) (q : Parser x) → size q ≤ size p → inv.Holds q → Rounds inv (size q) (body b q))
      → inv.Holds p
      → Keeps inv (size p) (iterate body a p)
  unfolding iterate
  iterate-Keeps body a p h i =
      loop-Keeps (suc (size p)) (size p) body h a p (omega arith) (omega arith) i

-- What a postcondition says of an outcome.
abbrev Post :
    {x : External} {A : Type 0} → (A → Parser x → Type 0) → Outcome (A × Parser x) → Type 0
Post Q (ok (a, p)) = Q a p
Post Q panicked = Unit
Post Q out_of_fuel = Unit

module _ {x : External} {inv : Invariant x} {A : Type 0} {Q : A → Parser x → Type 0} where
  pub Ends-ok :
      {r : Outcome (A × Parser x)} (a : A) (p : Parser x) → Ends inv Q r → r ≡ ok (a, p) → Q a p
  Ends-ok a p (returns h) e = subst (Post Q) e h
  Ends-ok a p (panics z) e = cc

  pub Ends-panicked : {r : Outcome (A × Parser x)} → Ends inv Q r → r ≡ panicked → inv.MayPanic
  Ends-panicked (returns h) e = cc
  Ends-panicked (panics z) e = z

  pub Ends-ne-out_of_fuel : {r : Outcome (A × Parser x)} → Ends inv Q r → r ≢ out_of_fuel
  Ends-ne-out_of_fuel (returns h) = cc
  Ends-ne-out_of_fuel (panics z) = cc

-- The invariant that says nothing, and any panic.
abbrev pub trivial : {x : External} → Invariant x
trivial = record {
  Holds = λ _. Unit;
  MayPanic = Unit;
  advance = λ _ _. tt;
  report = λ _ _ _. tt;
  intern = λ _ _ _. tt;
  integer = λ _ _ _ _. tt;
  float = λ _ _ _ _. tt;
  attribute = λ _ _ _ _. tt;
  index = λ _ _ _. tt;
}
