-- ===== src/Parser/Keeps/Decl.antt =====
-- What the methods for prototypes, their parameters and generics keep.
use kuai.Prelude.{ℕ, ◌≤◌, not, ◌&&◌, Option, none, some, List, [], ◌∷◌, arith}
use kuai.Syntax.Token.{Token, comma, colon, assign, arrow, l_paren, r_paren}
use kuai.Syntax.Ast.{Ident, Param, GenericParam}
use kuai.Syntax.External.{External}
use kuai.Parser.State.{Parser, M, check, has_token, unread, size, advance}
use kuai.Parser.TypeExpr.{is_type_error}
use kuai.Parser.Knot.{type_expr}
use kuai.Parser.Decl.{
  optional, comma_or_break, parse_param, add_param, param_round, parse_param_list, generic_rest,
  parse_generic_param, generic_round, parse_generic_param_list, optional_generics, parse_func_proto,
}
use kuai.Parser.Keeps.Rules.{
  Invariant, returns, Keeps, Rounds, Ends-if, Ends-if_at, Ends-bind, Keeps-weaken, Rounds-weaken,
  iterate-Keeps,
}
use kuai.Parser.Keeps.State.{
  sizes, check-size, expect-Keeps, synchronize_until-Keeps, parse_identifier-Keeps,
}
use kuai.Parser.Keeps.Knot.{type_expr-Keeps}

module _ {x : External} (inv : Invariant x) where
  pub optional-Keeps :
      {A : Type 0} (t : Token) (m : M x A) (p : Parser x)
      → ((q : Parser x) → inv.Holds q → Keeps inv (unread q) (m q))
      → inv.Holds p
      → Keeps inv (size p) (optional t m p)
  unfolding optional
  optional-Keeps t m p h i =
      Ends-if (check t p)
        (λ _. Ends-bind _ (h (advance p) (inv.advance p i)) λ a q (s, j). returns (omega sizes, j))
        (λ _. returns (omega arith, i))

  comma_or_break-Rounds :
      {A : Type 0} (a : A) (p : Parser x) → inv.Holds p → Rounds inv (size p) (comma_or_break a p)
  unfolding comma_or_break
  comma_or_break-Rounds a p i =
      Ends-if (check comma p) (λ c. returns (omega (sizes, check-size comma p c), inv.advance p i))
        (λ _. returns (omega arith, i))

  -- A round that begins with a method and ends at a comma.
  pub then_comma :
      {A : Type 0} {k : ℕ} (a : A) (p : Parser x)
      → size p ≤ k
      → inv.Holds p
      → Rounds inv k (comma_or_break a p)
  then_comma a p le i = Rounds-weaken (comma_or_break-Rounds a p i) le

  parse_param-Keeps : (p : Parser x) → inv.Holds p → Keeps inv (size p) (parse_param p)
  unfolding parse_param
  parse_param-Keeps p i = Ends-bind _ (parse_identifier-Keeps inv p i) λ name p₁ (s₁, i₁).
      Ends-bind _ (expect-Keeps inv colon _ p₁ i₁) λ is_colon p₂ (s₂, i₂).
        Ends-if_at is_colon _ _ p₂
          (λ _. Ends-bind _ (type_expr-Keeps inv p₂ i₂) λ ty p₃ (s₃, i₃).
            Ends-if_at (is_type_error ty) _ _ p₃ (λ _. returns (omega sizes, i₃))
              (λ _. returns (omega sizes, i₃)))
          (λ _. returns (omega sizes, i₂))

  add_param-Keeps :
      (params : List Param) (a : Option Param) (p : Parser x)
      → inv.Holds p
      → Keeps inv (size p) (add_param params a p)
  unfolding add_param
  add_param-Keeps params (some a) p i = returns (omega arith, i)
  add_param-Keeps params none p i =
      Ends-bind _ (synchronize_until-Keeps inv (comma ∷ r_paren ∷ []) p i)
        λ _ q (s, j). returns (s, j)

  param_round-Rounds :
      (params : List Param) (p : Parser x)
      → inv.Holds p
      → Rounds inv (size p) (param_round params p)
  unfolding param_round
  param_round-Rounds params p i =
      Ends-if (not (check r_paren p) && has_token p)
        (λ h. Ends-bind _ (parse_param-Keeps p i) λ a p₁ (s₁, i₁).
          Ends-bind _ (add_param-Keeps params a p₁ i₁)
            λ params' p₂ (s₂, i₂). then_comma params' p₂ (omega arith) i₂)
        (λ _. returns (omega arith, i))

  pub parse_param_list-Keeps :
      (p : Parser x) → inv.Holds p → Keeps inv (size p) (parse_param_list p)
  unfolding parse_param_list
  parse_param_list-Keeps p i = Ends-bind _ (expect-Keeps inv l_paren _ p i) λ is_open p₁ (s₁, i₁).
      Ends-if_at is_open _ _ p₁
        (λ _.
          Ends-bind _
            (iterate-Keeps param_round [] p₁ (λ params q _ j. param_round-Rounds params q j) i₁)
            λ params p₂ (s₂, i₂).
              Ends-bind _ (expect-Keeps inv r_paren _ p₂ i₂)
                λ _ p₃ (s₃, i₃). returns (omega arith, i₃))
        (λ _. returns (s₁, i₁))

  generic_rest-Keeps :
      (name : Ident) (p : Parser x) → inv.Holds p → Keeps inv (size p) (generic_rest name p)
  unfolding generic_rest
  generic_rest-Keeps name p i =
      let j = inv.advance p i in
      Ends-if (not (check colon p) && not (check assign p)) (λ _. returns (omega arith, i))
        (λ _.
          Ends-if (check colon p)
            (λ _.
              Ends-bind _ (type_expr-Keeps inv (advance p) j)
                λ ty q (s, k). returns (omega sizes, k))
            (λ _.
              Ends-bind _ (type_expr-Keeps inv (advance p) j)
                λ ty q (s, k). returns (omega sizes, k)))

  parse_generic_param-Keeps :
      (p : Parser x) → inv.Holds p → Keeps inv (size p) (parse_generic_param p)
  unfolding parse_generic_param
  parse_generic_param-Keeps p i =
      Ends-bind _ (parse_identifier-Keeps inv p i)
        λ name q (s, j). Keeps-weaken (generic_rest-Keeps name q j) (omega sizes)

  generic_round-Rounds :
      (generics : List GenericParam) (p : Parser x)
      → inv.Holds p
      → Rounds inv (size p) (generic_round generics p)
  unfolding generic_round
  generic_round-Rounds generics p i =
      Ends-if (not (check Token.gt p) && has_token p)
        (λ h. Ends-bind _ (parse_generic_param-Keeps p i) λ g q (s, j). then_comma _ q s j)
        (λ _. returns (omega arith, i))

  parse_generic_param_list-Keeps :
      (p : Parser x) → inv.Holds p → Keeps inv (size p) (parse_generic_param_list p)
  unfolding parse_generic_param_list
  parse_generic_param_list-Keeps p i =
      Ends-bind _ (expect-Keeps inv Token.lt _ p i) λ is_open p₁ (s₁, i₁).
        Ends-if_at is_open _ _ p₁
          (λ _.
            Ends-bind _
              (iterate-Keeps generic_round [] p₁ (λ gs q _ j. generic_round-Rounds gs q j) i₁)
              λ gs p₂ (s₂, i₂).
                Ends-bind _ (expect-Keeps inv Token.gt _ p₂ i₂)
                  λ _ p₃ (s₃, i₃). returns (omega arith, i₃))
          (λ _. returns (s₁, i₁))

  pub optional_generics-Keeps :
      (p : Parser x) → inv.Holds p → Keeps inv (size p) (optional_generics p)
  unfolding optional_generics
  optional_generics-Keeps p i =
      Ends-if (check Token.lt p) (λ _. parse_generic_param_list-Keeps p i)
        (λ _. returns (omega arith, i))

  pub parse_func_proto-Keeps :
      (p : Parser x) → inv.Holds p → Keeps inv (size p) (parse_func_proto p)
  unfolding parse_func_proto
  parse_func_proto-Keeps p i = Ends-bind _ (parse_identifier-Keeps inv p i) λ name p₁ (s₁, i₁).
      Ends-bind _ (optional_generics-Keeps p₁ i₁) λ generics p₂ (s₂, i₂).
        Ends-bind _ (parse_param_list-Keeps p₂ i₂) λ params p₃ (s₃, i₃).
          Ends-bind _ (optional-Keeps arrow type_expr p₃ (type_expr-Keeps inv) i₃)
            λ ty p₄ (s₄, i₄). returns (omega sizes, i₄)
