-- ===== src/Parser/Keeps/Expr.antt =====
-- What the Pratt parser's methods keep.
use kuai.Prelude.{
  ℕ, ◌≤◌, ◌≡◌, refl, true, false, ◌||◌, Option, none, some, arith, ltb, inl, inr, Bool-cases,
}
use kuai.Syntax.Token.{
  Token, l_bracket, l_paren, r_paren, dot, double_colon, identifier, integer_literal, float_literal,
  string_literal, token_eq,
}
use kuai.Syntax.Ast.{Expr, BinaryOp}
use kuai.Syntax.External.{External}
use kuai.Outcome.{Flow, again, done}
use kuai.Parser.State.{Parser, check, has_token, unread, size, advance}
use kuai.Parser.Argument.{Calls}
use kuai.Parser.Expr.{
  infix_binding_power, or_panic, consume_operator, skip_token, binary_round, turbofish, path_round,
  infix_round, parse_prefix, operator_round, operators, parse_expr,
}
use kuai.Parser.Keeps.Rules.{
  Invariant, returns, panics, Keeps, Rounds, Ends, Ends-if_at, Ends-bind, Ends-weaken, Keeps-weaken,
  iterate-Keeps,
}
use kuai.Parser.Keeps.State.{
  sizes, size-advance, check-size, check-current, expect-Keeps, parse_identifier-Keeps,
}
use kuai.Parser.Keeps.Argument.{Good, parse_argument_list-Keeps}
use kuai.Parser.Keeps.TypeExpr.{parse_generic_argument_list-Keeps}
use kuai.Parser.Keeps.Elements.{turn_le, parse_array_literal-Keeps, parse_index_access-Keeps}

module _ {x : External} (inv : Invariant x) where
  -- An operator token is neither `.` nor `[`.
  consume_operator-eq :
      (t : Token) (p : Parser x)
      → p.current_token ≡ some t
      → (token_eq t dot || token_eq t l_bracket) ≡ false
      → consume_operator p ≡ advance p
  unfolding consume_operator check
  consume_operator-eq t p e h = rw (e, h)

  skip_token-size : (p : Parser x) → size (skip_token p) ≤ size p
  unfolding skip_token
  skip_token-size p = elim (Bool-cases (has_token p)) [
    | inl e ↦ rw e (omega sizes)
    | inr e ↦ rw e (omega arith)
  ]

  skip_token-Holds : (p : Parser x) → inv.Holds p → inv.Holds (skip_token p)
  unfolding skip_token
  skip_token-Holds p i = elim (Bool-cases (has_token p)) [
    | inl e ↦ rw e (inv.advance p i)
    | inr e ↦ rw e i
  ]

module _ {x : External} (inv : Invariant x) (n : ℕ) (rec : Calls x) (good : Good inv n rec) where
  binary_round-Rounds :
      (t : Token) (op : BinaryOp) (min_bp : ℕ) (left : Expr) (p : Parser x)
      → size p ≤ n
      → p.current_token ≡ some t
      → (token_eq t dot || token_eq t l_bracket) ≡ false
      → inv.Holds p
      → Rounds inv (size p) (binary_round rec op min_bp left p)
  unfolding binary_round
  binary_round-Rounds t op min_bp left p le e h i =
      let full = check-size t p (check-current t p e) in
      Ends-if_at (ltb (infix_binding_power op).0 min_bp) _ _ p (λ _. returns (omega arith, i))
        (λ _. rw (consume_operator-eq inv t p e h) (
          Ends-bind _ (good.expr _ (advance p) (omega sizes) (inv.advance p i))
            λ right q (s, j). returns (omega sizes, j)))

  turbofish-Keeps :
      (left : Expr) (p : Parser x)
      → size p ≤ n
      → check Token.lt p ≡ true
      → inv.Holds p
      → Keeps inv (unread p) (turbofish rec left p)
  unfolding turbofish
  turbofish-Keeps left p le c i =
      Ends-bind _ (parse_generic_argument_list-Keeps inv n rec good p le c i)
        λ generics p₁ (s₁, i₁).
          Ends-if_at (check l_paren p₁) _ _ p₁
            (λ d.
              Ends-bind _ (parse_argument_list-Keeps inv n rec good p₁ (omega sizes) d i₁)
                λ args p₂ (s₂, i₂). returns (omega sizes, i₂))
            (λ _.
              returns
                (omega (sizes, skip_token-size inv _), skip_token-Holds inv _ (inv.report _ p₁ i₁)))

  path_round-Rounds :
      (min_bp : ℕ) (left : Expr) (p : Parser x)
      → size p ≤ n
      → p.current_token ≡ some double_colon
      → inv.Holds p
      → Rounds inv (size p) (path_round rec min_bp left p)
  unfolding path_round
  path_round-Rounds min_bp left p le e i =
      let full = check-size double_colon p (check-current double_colon p e) in
      Ends-if_at (ltb 9 min_bp) _ _ p (λ _. returns (omega arith, i))
        (λ _.
          Ends-if_at (check Token.lt (advance p)) _ _ (advance p)
            (λ c.
              Ends-weaken (turbofish-Keeps left (advance p) (omega sizes) c (inv.advance p i))
                λ f q (s, j). (omega (sizes, turn_le f), j))
            (λ _.
              Ends-bind _ (parse_identifier-Keeps inv (advance p) (inv.advance p i))
                λ ident q (s, j). returns (omega sizes, j)))

  pub infix_round-Rounds :
      (min_bp : ℕ) (t : Option Token) (left : Expr) (p : Parser x)
      → size p ≤ n
      → p.current_token ≡ t
      → inv.Holds p
      → Rounds inv (size p) (infix_round rec min_bp t left p)
  unfolding infix_round
  infix_round-Rounds min_bp (some Token.plus) left p le e i =
      binary_round-Rounds _ BinaryOp.plus min_bp left p le e (unfold token_eq in refl) i
  infix_round-Rounds min_bp (some Token.star) left p le e i =
      binary_round-Rounds _ BinaryOp.star min_bp left p le e (unfold token_eq in refl) i
  infix_round-Rounds min_bp (some Token.minus) left p le e i =
      binary_round-Rounds _ BinaryOp.minus min_bp left p le e (unfold token_eq in refl) i
  infix_round-Rounds min_bp (some Token.slash) left p le e i =
      binary_round-Rounds _ BinaryOp.slash min_bp left p le e (unfold token_eq in refl) i
  infix_round-Rounds min_bp (some dot) left p le e i =
      let full = check-size dot p (check-current dot p e) in
      Ends-bind _ (parse_identifier-Keeps inv (advance p) (inv.advance p i))
        λ member q (s, j). returns (omega sizes, j)
  infix_round-Rounds min_bp (some double_colon) left p le e i =
      path_round-Rounds min_bp left p le e i
  infix_round-Rounds min_bp (some l_paren) left p le e i =
      let c = check-current l_paren p e in
      Ends-if_at (ltb 7 min_bp) _ _ p (λ _. returns (omega arith, i))
        (λ _.
          Ends-bind _ (parse_argument_list-Keeps inv n rec good p le c i)
            λ args q (s, j). returns (omega (sizes, check-size l_paren p c), j))
  infix_round-Rounds min_bp (some l_bracket) left p le e i =
      let full = check-size l_bracket p (check-current l_bracket p e) in
      Ends-bind _ (parse_index_access-Keeps inv n rec good left p le e i)
        λ r q (s, j). returns (omega sizes, j)
  infix_round-Rounds min_bp _ left p le e i = returns (omega arith, i)

  or_panic-Keeps :
      {A : Type 0} (o : Option A) (p : Parser x)
      → (o ≡ none → inv.MayPanic)
      → inv.Holds p
      → Ends inv (λ _ q. (size (advance q) ≤ unread p) × inv.Holds (advance q)) (or_panic o p)
  or_panic-Keeps none p z i = panics (z refl)
  or_panic-Keeps (some a) p z i = returns (size-advance p, inv.advance p i)

  parse_prefix-Keeps :
      (t : Option Token) (p : Parser x)
      → size p ≤ n
      → p.current_token ≡ t
      → inv.Holds p
      → Keeps inv (unread p) (parse_prefix rec t p)
  unfolding parse_prefix
  parse_prefix-Keeps (some integer_literal) p le e i =
      Ends-bind _ (or_panic-Keeps (x.parse_i64 p.current_slice) p (inv.integer p i e) i)
        λ v q (s, j). returns (s, j)
  parse_prefix-Keeps (some float_literal) p le e i =
      Ends-bind _ (or_panic-Keeps (x.parse_f64 p.current_slice) p (inv.float p i e) i)
        λ v q (s, j). returns (s, j)
  parse_prefix-Keeps (some identifier) p le e i =
      Ends-bind _ (parse_identifier-Keeps inv p i) λ ident q (s, j). returns (s, j)
  parse_prefix-Keeps (some string_literal) p le e i = returns (omega sizes, inv.advance p i)
  parse_prefix-Keeps (some l_bracket) p le e i =
      Ends-bind _ (parse_array_literal-Keeps inv n rec good p le (check-current l_bracket p e) i)
        λ a q (s, j). returns (s, j)
  parse_prefix-Keeps (some l_paren) p le e i =
      let full = check-size l_paren p (check-current l_paren p e) in
      Ends-bind _ (good.expr 0 (advance p) (omega sizes) (inv.advance p i)) λ a q (s, j).
        Ends-bind _ (expect-Keeps inv r_paren _ q j) λ _ q' (s', j'). returns (omega sizes, j')
  parse_prefix-Keeps _ p le e i = returns (omega sizes, inv.advance _ (inv.report _ p i))

  operators-Keeps :
      (min_bp : ℕ) (f : Flow Expr) (p : Parser x)
      → size p ≤ n
      → inv.Holds p
      → Keeps inv (size p) (operators rec min_bp f p)
  unfolding operators
  operators-Keeps min_bp (again left) p le i =
      iterate-Keeps (operator_round rec min_bp) left p
        (λ l q s j.
          unfold operator_round in
          infix_round-Rounds min_bp q.current_token l q (omega arith) refl j)
        i
  operators-Keeps min_bp (done e) p le i = returns (omega arith, i)

  pub parse_expr-Keeps :
      (min_bp : ℕ) (p : Parser x)
      → size p ≤ n
      → inv.Holds p
      → Keeps inv (unread p) (parse_expr rec min_bp p)
  unfolding parse_expr
  parse_expr-Keeps min_bp p le i =
      Ends-bind _ (parse_prefix-Keeps p.current_token p le refl i)
        λ f q (s, j). Keeps-weaken (operators-Keeps min_bp f q (omega sizes) j) s
