-- ===== src/Parser/Keeps/TypeExpr.antt =====
-- What the methods for type expressions keep.
use kuai.Prelude.{ℕ, ◌≤◌, ◌<◌, ◌≡◌, true, not, ◌&&◌, Option, none, some, List, [], ◌∷◌, arith}
use kuai.Syntax.Token.{Token, comma, l_bracket, r_bracket, identifier}
use kuai.Syntax.Ast.{Expr, TypeExpr, PrimitiveType}
use kuai.Syntax.External.{External}
use kuai.Parser.State.{Parser, check, has_token, unread, size, advance}
use kuai.Parser.Argument.{Calls, is_expr_error}
use kuai.Parser.TypeExpr.{
  is_type_error, primitive_of, add_type, generic_argument_round, parse_generic_argument_list,
  add_dim, shape_round, parse_shape_expr, named_generics, base_type, shaped, parse_type_expr,
}
use kuai.Parser.Keeps.Rules.{
  Invariant, returns, Keeps, Rounds, Ends-if, Ends-if_at, Ends-bind, Keeps-weaken, iterate-Keeps,
}
use kuai.Parser.Keeps.State.{
  sizes, check-size, has_token-size, no_token-size, expect-Keeps, expect-checked,
  synchronize_until-Keeps, parse_identifier-Keeps,
}
use kuai.Parser.Keeps.Argument.{Good}

module _ {x : External} (inv : Invariant x) (n : ℕ) (rec : Calls x) (good : Good inv n rec) where
  add_type-Keeps :
      (args : List TypeExpr) (ty : TypeExpr) (p : Parser x)
      → inv.Holds p
      → Keeps inv (size p) (add_type rec args ty p)
  unfolding add_type
  add_type-Keeps args ty p i =
      Ends-if_at (is_type_error ty) _ _ p
        (λ _.
          Ends-bind _ (synchronize_until-Keeps inv (comma ∷ Token.gt ∷ []) p i)
            λ _ q (s, j). returns (s, j))
        (λ _. returns (omega arith, i))

  generic_argument_round-Rounds :
      (args : List TypeExpr) (p : Parser x)
      → size p < n
      → inv.Holds p
      → Rounds inv (size p) (generic_argument_round rec args p)
  unfolding generic_argument_round
  generic_argument_round-Rounds args p lt i =
      Ends-if (not (check Token.gt p) && has_token p)
        (λ h.
          let full = has_token-size p (ground arith) in
          Ends-bind _ (good.type_expr p lt i) λ ty p₁ (s₁, i₁).
            Ends-bind _ (add_type-Keeps args ty p₁ i₁) λ args' p₂ (s₂, i₂).
              Ends-if_at (check comma p₂) _ _ p₂ (λ _. returns (omega sizes, inv.advance p₂ i₂))
                (λ _.
                  Ends-if_at (check Token.gt p₂) _ _ p₂ (λ _. returns (omega sizes, i₂))
                    (λ _. returns (omega sizes, i₂))))
        (λ _. returns (omega arith, i))

  pub parse_generic_argument_list-Keeps :
      (p : Parser x)
      → size p ≤ n
      → check Token.lt p ≡ true
      → inv.Holds p
      → Keeps inv (unread p) (parse_generic_argument_list rec p)
  unfolding parse_generic_argument_list
  parse_generic_argument_list-Keeps p le c i =
      rw (expect-checked inv Token.lt "Expected '<' at start of generic arguments" p c) (
        Ends-bind _
          (iterate-Keeps (generic_argument_round rec) [] (advance p)
            (λ args q s j.
              generic_argument_round-Rounds args q (omega (sizes, check-size Token.lt p c)) j)
            (inv.advance p i))
          λ args p₁ (s₁, i₁).
            Ends-bind _ (expect-Keeps inv Token.gt _ p₁ i₁)
              λ _ p₂ (s₂, i₂). returns (omega sizes, i₂))

  add_dim-Keeps :
      (shape : List Expr) (e : Expr) (p : Parser x)
      → inv.Holds p
      → Keeps inv (size p) (add_dim rec shape e p)
  unfolding add_dim
  add_dim-Keeps shape e p i =
      Ends-if_at (is_expr_error e) _ _ p
        (λ _.
          Ends-bind _ (synchronize_until-Keeps inv (comma ∷ r_bracket ∷ []) p i)
            λ _ q (s, j). returns (s, j))
        (λ _. returns (omega arith, i))

  shape_round-Rounds :
      (shape : List Expr) (p : Parser x)
      → size p < n
      → inv.Holds p
      → Rounds inv (size p) (shape_round rec shape p)
  unfolding shape_round
  shape_round-Rounds shape p lt i =
      Ends-if (not (check r_bracket p) && has_token p)
        (λ h.
          let full = has_token-size p (ground arith) in
          Ends-bind _ (good.expr 0 p lt i) λ e p₁ (s₁, i₁).
            Ends-bind _ (add_dim-Keeps shape e p₁ i₁) λ shape' p₂ (s₂, i₂).
              Ends-if_at (check comma p₂) _ _ p₂ (λ _. returns (omega sizes, inv.advance p₂ i₂))
                (λ _.
                  Ends-if_at (check r_bracket p₂) _ _ p₂ (λ _. returns (omega sizes, i₂))
                    (λ _. returns (omega sizes, i₂))))
        (λ _. returns (omega arith, i))

  pub parse_shape_expr-Keeps :
      (p : Parser x)
      → size p ≤ n
      → check l_bracket p ≡ true
      → inv.Holds p
      → Keeps inv (unread p) (parse_shape_expr rec p)
  unfolding parse_shape_expr
  parse_shape_expr-Keeps p le c i =
      rw (expect-checked inv l_bracket "Expected '[' at start of shape expression" p c) (
        Ends-bind _
          (iterate-Keeps (shape_round rec) [] (advance p)
            (λ shape q s j. shape_round-Rounds shape q (omega (sizes, check-size l_bracket p c)) j)
            (inv.advance p i))
          λ shape p₁ (s₁, i₁).
            Ends-bind _ (expect-Keeps inv r_bracket _ p₁ i₁)
              λ _ p₂ (s₂, i₂). returns (omega sizes, i₂))

  named_generics-Keeps :
      (p : Parser x) → size p ≤ n → inv.Holds p → Keeps inv (size p) (named_generics rec p)
  unfolding named_generics
  named_generics-Keeps p le i =
      Ends-if (check Token.lt p)
        (λ c. Keeps-weaken (parse_generic_argument_list-Keeps p le c i) (omega sizes))
        (λ _. returns (omega arith, i))

  base_type-Keeps :
      (t : Option PrimitiveType) (p : Parser x)
      → size p ≤ n
      → inv.Holds p
      → Keeps inv (unread p) (base_type rec t p)
  unfolding base_type
  base_type-Keeps (some t) p le i = returns (omega sizes, inv.advance p i)
  base_type-Keeps none p le i =
      Ends-if (check identifier p)
        (λ _. Ends-bind _ (parse_identifier-Keeps inv p i) λ name p₁ (s₁, i₁).
          Ends-bind _ (named_generics-Keeps p₁ (omega sizes) i₁)
            λ generics p₂ (s₂, i₂). returns (omega sizes, i₂))
        (λ _.
          Ends-if (has_token p) (λ _. returns (omega sizes, inv.advance _ (inv.report _ p i)))
            (λ e. returns (omega (sizes, no_token-size p e), inv.report _ p i)))

  shaped-Keeps :
      (ty : TypeExpr) (p : Parser x)
      → size p ≤ n
      → inv.Holds p
      → Keeps inv (size p) (shaped rec ty p)
  unfolding shaped
  shaped-Keeps ty p le i =
      Ends-if (check l_bracket p)
        (λ c.
          Ends-bind _ (parse_shape_expr-Keeps p le c i) λ shape q (s, j). returns (omega sizes, j))
        (λ _. returns (omega arith, i))

  pub parse_type_expr-Keeps :
      (p : Parser x) → size p ≤ n → inv.Holds p → Keeps inv (unread p) (parse_type_expr rec p)
  unfolding parse_type_expr
  parse_type_expr-Keeps p le i =
      Ends-bind _ (base_type-Keeps (primitive_of p.current_token) p le i)
        λ ty q (s, j). Keeps-weaken (shaped-Keeps ty q (omega sizes) j) s
