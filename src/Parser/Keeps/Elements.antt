-- ===== src/Parser/Keeps/Elements.antt =====
-- What the methods for array literals and indices keep.
use kuai.Prelude.{ℕ, ◌≤◌, ◌<◌, ◌≡◌, true, not, ◌&&◌, some, List, [], ◌∷◌, arith}
use kuai.Syntax.Token.{Token, comma, l_bracket, r_bracket}
use kuai.Syntax.Ast.{Expr}
use kuai.Syntax.External.{External}
use kuai.Outcome.{Flow, again, done}
use kuai.Parser.State.{Parser, check, has_token, unread, size, advance, consume}
use kuai.Parser.Argument.{Calls}
use kuai.Parser.Expr.{
  skip_comma, array_round, parse_array_literal, index_separator, index_round, parse_index_access,
}
use kuai.Parser.Keeps.Rules.{
  Invariant, returns, panics, Keeps, Rounds, turn, Ends-if, Ends-bind, Ends-weaken, Keeps-weaken,
  iterate-Keeps,
}
use kuai.Parser.Keeps.State.{
  sizes, check-size, check-current, has_token-size, expect-Keeps, expect-checked,
  synchronize_until-Keeps,
}
use kuai.Parser.Keeps.Argument.{Good}

module _ {x : External} (inv : Invariant x) where
  skip_comma-Keeps :
      {A : Type 0} (a : A) (p : Parser x) → inv.Holds p → Keeps inv (size p) (skip_comma a p)
  skip_comma-Keeps a p i =
      Ends-if (check comma p) (λ _. returns (omega sizes, inv.advance p i))
        (λ _. returns (omega arith, i))

  consume-Keeps :
      (t : Token) (p : Parser x) → inv.MayPanic → inv.Holds p → Keeps inv (size p) (consume t p)
  unfolding consume
  consume-Keeps t p z i =
      Ends-if (check t p) (λ _. returns (omega sizes, inv.advance p i)) (λ _. panics z)

pub turn_le : {A : Type 0} (f : Flow A) → turn f ≤ 1
turn_le (again _) = omega arith
turn_le (done _) = omega arith

module _ {x : External} (inv : Invariant x) (n : ℕ) (rec : Calls x) (good : Good inv n rec) where
  array_round-Rounds :
      (es : List Expr) (p : Parser x)
      → size p < n
      → inv.Holds p
      → Rounds inv (size p) (array_round rec es p)
  unfolding array_round
  array_round-Rounds es p lt i =
      Ends-if (not (check r_bracket p) && has_token p)
        (λ h.
          let full = has_token-size p (ground arith) in
          Ends-bind _ (good.expr 0 p lt i) λ e p₁ (s₁, i₁).
            Ends-if (check comma p₁) (λ _. returns (omega sizes, inv.advance p₁ i₁))
              (λ _. returns (omega sizes, i₁)))
        (λ _. returns (omega arith, i))

  pub parse_array_literal-Keeps :
      (p : Parser x)
      → size p ≤ n
      → check l_bracket p ≡ true
      → inv.Holds p
      → Keeps inv (unread p) (parse_array_literal rec p)
  unfolding parse_array_literal
  parse_array_literal-Keeps p le c i =
      rw (expect-checked inv l_bracket "Expected '[' at start of array literal" p c) (
        Ends-bind _
          (iterate-Keeps (array_round rec) [] (advance p)
            (λ es q s j. array_round-Rounds es q (omega (sizes, check-size l_bracket p c)) j)
            (inv.advance p i))
          λ es p₁ (s₁, i₁).
            Ends-bind _ (expect-Keeps inv r_bracket _ p₁ i₁)
              λ _ p₂ (s₂, i₂). returns (omega sizes, i₂))

  index_separator-Ends :
      (es : List Expr) (p : Parser x) → inv.Holds p → Keeps inv (size p) (index_separator rec es p)
  unfolding index_separator
  index_separator-Ends es p i =
      Ends-if (check comma p) (λ _. returns (omega sizes, inv.advance p i))
        (λ _.
          Ends-if (not (check r_bracket p))
            (λ _.
              Ends-bind _ (synchronize_until-Keeps inv (comma ∷ r_bracket ∷ []) p i)
                λ _ q (s, j). Keeps-weaken (skip_comma-Keeps inv (again es) q j) s)
            (λ _. returns (omega arith, i)))

  index_round-Rounds :
      (es : List Expr) (p : Parser x)
      → size p < n
      → inv.Holds p
      → Rounds inv (size p) (index_round rec es p)
  unfolding index_round
  index_round-Rounds es p lt i =
      Ends-if (not (check r_bracket p) && has_token p)
        (λ h.
          let full = has_token-size p (ground arith) in
          Ends-bind _ (good.expr 0 p lt i) λ e p₁ (s₁, i₁).
            Ends-weaken (index_separator-Ends _ p₁ i₁) λ f q (s, j). (omega (sizes, turn_le f), j))
        (λ _. returns (omega arith, i))

  pub parse_index_access-Keeps :
      (target : Expr) (p : Parser x)
      → size p ≤ n
      → p.current_token ≡ some l_bracket
      → inv.Holds p
      → Keeps inv (unread p) (parse_index_access rec target p)
  unfolding parse_index_access
  parse_index_access-Keeps target p le e i =
      let c = check-current l_bracket p e in
      rw (expect-checked inv l_bracket "Expected '[' for index access" p c) (
        Ends-bind _
          (iterate-Keeps (index_round rec) [] (advance p)
            (λ es q s j. index_round-Rounds es q (omega (sizes, check-size l_bracket p c)) j)
            (inv.advance p i))
          λ es p₁ (s₁, i₁).
            Ends-bind _ (consume-Keeps inv r_bracket p₁ (inv.index p i e) i₁)
              λ _ p₂ (s₂, i₂). returns (omega sizes, i₂))
