-- ===== src/Parser/Keeps/Argument.antt =====
-- What the methods for arguments and attributes keep.
use kuai.Prelude.{
  ℕ, ◌≤◌, ◌<◌, ◌≡◌, refl, true, not, ◌&&◌, Option, none, some, List, [], ◌∷◌, String, arith,
}
use kuai.Syntax.Token.{Token, identifier, assign, comma, r_paren, l_paren}
use kuai.Syntax.External.{External}
use kuai.Syntax.Ast.{Expr, Argument}
use kuai.Parser.State.{Parser, advance, check, has_token, peek_is, unread, size}
use kuai.Parser.Argument.{
  Calls, argument_value, named_argument, parse_argument, add_argument, argument_round,
  parse_argument_list, attribute_arguments, attribute_named, parse_attribute, is_expr_error,
  slice_from_one,
}
use kuai.Parser.Keeps.Rules.{
  Invariant, returns, panics, Keeps, Rounds, Ends-if, Ends-if_at, Ends-bind, Keeps-weaken,
  iterate-Keeps,
}
use kuai.Parser.Keeps.State.{
  sizes, check-eq, check-size, expect-Keeps, expect-checked, synchronize_until-Keeps,
  parse_identifier-Keeps,
}

module _ {x : External} (inv : Invariant x) where
  -- Calls at fewer than `n` lexemes keep the invariant and read a lexeme if there is one.
  pub record Good (n : ℕ) (rec : Calls x) : Type 0 where
    pub expr :
        (min_bp : ℕ) (p : Parser x)
        → size p < n
        → inv.Holds p
        → Keeps inv (unread p) (rec.expr min_bp p)
    pub type_expr :
        (p : Parser x) → size p < n → inv.Holds p → Keeps inv (unread p) (rec.type_expr p)
    pub attr :
        (p : Parser x)
        → size p < n
        → check Token.attribute p ≡ true
        → inv.Holds p
        → Keeps inv (unread p) (rec.attr p)

module _ {x : External} (inv : Invariant x) (n : ℕ) (rec : Calls x) (good : Good inv n rec) where
  argument_value-Keeps :
      (e : Expr) (p : Parser x) → inv.Holds p → Keeps inv (size p) (argument_value rec e p)
  unfolding argument_value
  argument_value-Keeps e p i =
      Ends-if_at (is_expr_error e) _ _ p (λ _. returns (omega arith, i))
        (λ _. returns (omega arith, i))

  named_argument-Keeps :
      (p : Parser x) → size p < n → inv.Holds p → Keeps inv (unread p) (named_argument rec p)
  unfolding named_argument
  named_argument-Keeps p lt i = Ends-bind _ (parse_identifier-Keeps inv p i) λ name p₁ (s₁, i₁).
      Ends-bind _ (expect-Keeps inv assign _ p₁ i₁) λ is_assign p₂ (s₂, i₂).
        Ends-if_at is_assign _ _ p₂
          (λ _.
            Ends-if_at (check Token.attribute p₂) _ _ p₂
              (λ h.
                Ends-bind _ (good.attr p₂ (omega sizes) h i₂)
                  λ a p₃ (s₃, i₃). returns (omega sizes, i₃))
              (λ _.
                Ends-bind _ (good.expr 0 p₂ (omega sizes) i₂)
                  λ v p₃ (s₃, i₃). returns (omega sizes, i₃)))
          (λ _. returns (omega sizes, i₂))

  parse_argument-Keeps :
      (p : Parser x) → size p < n → inv.Holds p → Keeps inv (unread p) (parse_argument rec p)
  unfolding parse_argument
  parse_argument-Keeps p lt i =
      Ends-if (check identifier p && peek_is assign p) (λ _. named_argument-Keeps p lt i)
        (λ _.
          Ends-if (check Token.attribute p)
            (λ h. Ends-bind _ (good.attr p lt h i) λ a q (s, j). returns (s, j))
            (λ _.
              Ends-bind _ (good.expr 0 p lt i)
                λ e q (s, j). Keeps-weaken (argument_value-Keeps e q j) s))

  add_argument-Keeps :
      (args : List Argument) (a : Option Argument) (p : Parser x)
      → inv.Holds p
      → Keeps inv (size p) (add_argument rec args a p)
  unfolding add_argument
  add_argument-Keeps args (some a) p i = returns (omega arith, i)
  add_argument-Keeps args none p i =
      Ends-bind _ (synchronize_until-Keeps inv (comma ∷ r_paren ∷ []) p i)
        λ _ q (s, j). returns (s, j)

  argument_round-Rounds :
      (args : List Argument) (p : Parser x)
      → size p < n
      → inv.Holds p
      → Rounds inv (size p) (argument_round rec args p)
  unfolding argument_round
  argument_round-Rounds args p lt i =
      Ends-if (not (check r_paren p) && has_token p)
        (λ h. Ends-bind _ (parse_argument-Keeps p lt i) λ a p₁ (s₁, i₁).
          Ends-bind _ (add_argument-Keeps args a p₁ i₁) λ args' p₂ (s₂, i₂).
            Ends-if_at (check comma p₂) _ _ p₂
              (λ c. returns (omega (sizes, check-size comma p₂ c), inv.advance p₂ i₂))
              (λ _. returns (omega sizes, i₂)))
        (λ _. returns (omega arith, i))

  pub parse_argument_list-Keeps :
      (p : Parser x)
      → size p ≤ n
      → check l_paren p ≡ true
      → inv.Holds p
      → Keeps inv (unread p) (parse_argument_list rec p)
  unfolding parse_argument_list
  parse_argument_list-Keeps p le c i =
      rw (expect-checked inv l_paren "Expected '(' at begin of argument list" p c) (
        Ends-bind _
          (iterate-Keeps (argument_round rec) [] (advance p)
            (λ args q s j. argument_round-Rounds args q (omega (sizes, check-size l_paren p c)) j)
            (inv.advance p i))
          λ args p₁ (s₁, i₁).
            Ends-bind _ (expect-Keeps inv r_paren _ p₁ i₁)
              λ _ p₂ (s₂, i₂). returns (omega sizes, i₂))

  attribute_arguments-Keeps :
      (name : String) (p : Parser x)
      → size p ≤ n
      → inv.Holds p
      → Keeps inv (size p) (attribute_arguments rec name p)
  unfolding attribute_arguments
  attribute_arguments-Keeps name p le i =
      Ends-if (check l_paren p)
        (λ c.
          Ends-bind _ (parse_argument_list-Keeps p le c i)
            λ args q (s, j). returns (omega sizes, j))
        (λ _. returns (omega arith, i))

  attribute_named-Keeps :
      (name : Option String) (p : Parser x)
      → size p ≤ n
      → check Token.attribute p ≡ true
      → (name ≡ none → inv.MayPanic)
      → inv.Holds p
      → Keeps inv (unread p) (attribute_named rec name p)
  unfolding attribute_named
  attribute_named-Keeps none p le c z i = panics (z refl)
  attribute_named-Keeps (some name) p le c z i =
      Keeps-weaken
        (attribute_arguments-Keeps name (advance p) (omega (sizes, check-size Token.attribute p c))
          (inv.advance p i))
        (omega sizes)

  pub parse_attribute-Keeps :
      (p : Parser x)
      → size p ≤ n
      → check Token.attribute p ≡ true
      → inv.Holds p
      → Keeps inv (unread p) (parse_attribute rec p)
  unfolding parse_attribute
  parse_attribute-Keeps p le c i = rw c (
      attribute_named-Keeps (slice_from_one p.current_slice) p le c
        (λ e. inv.attribute p i (check-eq Token.attribute p c) e) i)
