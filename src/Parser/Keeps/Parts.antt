-- ===== src/Parser/Keeps/Parts.antt =====
-- What the methods for fields, dimensions and paths keep.
use kuai.Prelude.{
  ℕ, suc, ◌≤◌, ◌≡◌, true, not, ◌&&◌, List, [], ◌∷◌, String, arith, inl, inr, Bool-cases,
}
use kuai.Syntax.Token.{
  Token, kw_dim, comma, colon, double_colon, semi_colon, assign, l_brace, r_brace,
}
use kuai.Syntax.Ast.{Ident, FieldDecl, DimDecl}
use kuai.Syntax.External.{External}
use kuai.Parser.State.{Parser, check, has_token, unread, size, advance}
use kuai.Parser.Knot.{expr}
use kuai.Parser.Decl.{
  expect_or_synchronize, parse_field_decl, skip_comma, field_separator, field_round,
  parse_field_list, dim_round, parse_dim, path_segment_round, parse_path,
}
use kuai.Parser.Keeps.Rules.{
  Invariant, returns, Keeps, Rounds, Ends-if, Ends-if_at, Ends-bind, Keeps-weaken, iterate-Keeps,
}
use kuai.Parser.Keeps.State.{
  sizes, check-size, has_token-size, expect-Keeps, expect-checked, synchronize-Keeps,
  synchronize_until-Keeps, parse_identifier-Keeps,
}
use kuai.Parser.Keeps.Knot.{expr-Keeps, type_expr-Keeps}
use kuai.Parser.Keeps.Decl.{optional-Keeps, then_comma}

module _ {x : External} (inv : Invariant x) where
  pub expect_or_synchronize-Keeps :
      (t : Token) (msg : String) (p : Parser x)
      → inv.Holds p
      → Keeps inv (size p) (expect_or_synchronize t msg p)
  unfolding expect_or_synchronize
  expect_or_synchronize-Keeps t msg p i = Ends-bind _ (expect-Keeps inv t msg p i) λ found q (s, j).
      Ends-if_at found _ _ q (λ _. returns (s, j)) (λ _. Keeps-weaken (synchronize-Keeps inv q j) s)

  -- Where the token stands there, it is read.
  pub expect_or_synchronize-reads :
      (t : Token) (msg : String) (p : Parser x)
      → check t p ≡ true
      → inv.Holds p
      → Keeps inv (unread p) (expect_or_synchronize t msg p)
  unfolding expect_or_synchronize
  expect_or_synchronize-reads t msg p c i =
      rw (expect-checked inv t msg p c) (returns (omega sizes, inv.advance p i))

  parse_field_decl-Keeps : (p : Parser x) → inv.Holds p → Keeps inv (unread p) (parse_field_decl p)
  unfolding parse_field_decl
  parse_field_decl-Keeps p i = Ends-bind _ (parse_identifier-Keeps inv p i) λ name p₁ (s₁, i₁).
      Ends-bind _ (expect_or_synchronize-Keeps colon _ p₁ i₁) λ _ p₂ (s₂, i₂).
        Ends-bind _ (type_expr-Keeps inv p₂ i₂) λ ty p₃ (s₃, i₃). returns (omega sizes, i₃)

  skip_comma-size : (p : Parser x) → size (skip_comma p) ≤ size p
  unfolding skip_comma
  skip_comma-size p = elim (Bool-cases (check comma p)) [
    | inl e ↦ rw e (omega sizes)
    | inr e ↦ rw e (omega arith)
  ]

  skip_comma-Holds : (p : Parser x) → inv.Holds p → inv.Holds (skip_comma p)
  unfolding skip_comma
  skip_comma-Holds p i = elim (Bool-cases (check comma p)) [
    | inl e ↦ rw e (inv.advance p i)
    | inr e ↦ rw e i
  ]

  field_separator-Keeps :
      {k : ℕ} (fields : List FieldDecl) (p : Parser x)
      → size p ≤ k
      → inv.Holds p
      → Rounds inv (suc k) (field_separator fields p)
  unfolding field_separator
  field_separator-Keeps fields p le i =
      Ends-if (check comma p) (λ _. returns (omega sizes, inv.advance p i))
        (λ _.
          Ends-if (not (check r_brace p))
            (λ _.
              Ends-bind _ (synchronize_until-Keeps inv (comma ∷ r_brace ∷ []) p i)
                λ _ q (s, j). returns (omega (sizes, skip_comma-size q), skip_comma-Holds q j))
            (λ _. returns (omega arith, i)))

  field_round-Rounds :
      (fields : List FieldDecl) (p : Parser x)
      → inv.Holds p
      → Rounds inv (size p) (field_round fields p)
  unfolding field_round
  field_round-Rounds fields p i =
      Ends-if (not (check r_brace p) && has_token p)
        (λ h.
          rw (has_token-size p (ground arith))
            (Ends-bind _ (parse_field_decl-Keeps p i) λ f q (s, j). field_separator-Keeps _ q s j))
        (λ _. returns (omega arith, i))

  pub parse_field_list-Keeps :
      (p : Parser x) → inv.Holds p → Keeps inv (size p) (parse_field_list p)
  unfolding parse_field_list
  parse_field_list-Keeps p i =
      Ends-bind _ (expect_or_synchronize-Keeps l_brace _ p i) λ _ p₁ (s₁, i₁).
        Ends-bind _ (iterate-Keeps field_round [] p₁ (λ fs q _ j. field_round-Rounds fs q j) i₁)
          λ fields p₂ (s₂, i₂).
            Ends-bind _ (expect-Keeps inv r_brace _ p₂ i₂)
              λ _ p₃ (s₃, i₃). returns (omega arith, i₃)

  dim_round-Rounds :
      (decls : List DimDecl) (p : Parser x) → inv.Holds p → Rounds inv (size p) (dim_round decls p)
  unfolding dim_round
  dim_round-Rounds decls p i = Ends-bind _ (parse_identifier-Keeps inv p i) λ name p₁ (s₁, i₁).
      Ends-bind _ (optional-Keeps inv colon (expr 0) p₁ (expr-Keeps inv 0) i₁) λ bound p₂ (s₂, i₂).
        Ends-bind _ (optional-Keeps inv assign (expr 0) p₂ (expr-Keeps inv 0) i₂)
          λ value p₃ (s₃, i₃). then_comma inv _ p₃ (omega sizes) i₃

  pub parse_dim-Keeps :
      (p : Parser x) → check kw_dim p ≡ true → inv.Holds p → Keeps inv (unread p) (parse_dim p)
  unfolding parse_dim
  parse_dim-Keeps p c i = rw (expect-checked inv kw_dim "Expected 'dim'" p c) (
      Ends-bind _
        (iterate-Keeps dim_round [] (advance p) (λ ds q _ j. dim_round-Rounds ds q j)
          (inv.advance p i))
        λ ds p₂ (s₂, i₂).
          Ends-bind _ (expect-Keeps inv semi_colon _ p₂ i₂)
            λ _ p₃ (s₃, i₃). returns (omega sizes, i₃))

  path_segment_round-Rounds :
      (segments : List Ident) (p : Parser x)
      → inv.Holds p
      → Rounds inv (size p) (path_segment_round segments p)
  unfolding path_segment_round
  path_segment_round-Rounds segments p i =
      Ends-bind _ (parse_identifier-Keeps inv p i) λ ident q (s, j).
        Ends-if_at (check double_colon q) _ _ q
          (λ c. returns (omega (sizes, check-size double_colon q c), inv.advance q j))
          (λ _. returns (omega sizes, j))

  pub parse_path-Keeps : (p : Parser x) → inv.Holds p → Keeps inv (size p) (parse_path p)
  unfolding parse_path
  parse_path-Keeps p i =
      Ends-bind _
        (iterate-Keeps path_segment_round [] p (λ is q _ j. path_segment_round-Rounds is q j) i)
        λ segments q (s, j). returns (s, j)
