-- ===== src/Parser/Reads.antt =====
-- What parse_expr of parser.rs reads: the expression that the lexemes before it are written for.
use kuai.Prelude.{
  ℕ, zero, suc, ◌≤◌, ◌≡◌, refl, ◌∙◌, ap, inl, inr, some, List, [], ◌∷◌, ◌++◌, append_assoc, arith,
  length, length-append,
}
use kuai.Syntax.Token.{
  Token, identifier, integer_literal, float_literal, string_literal, dot, double_colon, l_paren,
  r_paren,
}
use kuai.Syntax.Diagnostic.{Diagnostic}
use kuai.Syntax.Ast.{BinaryOp}
use kuai.Syntax.External.{External}
use kuai.Outcome.{ok, again}
use kuai.Parser.State.{Lexeme, new, size}
use kuai.Parser.Expr.{operators, parse_expr}
use kuai.Parser.Knot.{calls, expr}
use kuai.Parser.Grammar.{
  Written, int, float, string, variable, paren, binary, member, path, lexeme, name_lexeme, operator,
  operator_level, level, lexemes, meaning, IsGrammatical,
}
use kuai.Parser.Before.{power, current, before}
use kuai.Parser.Pratt.{
  operators-stop, operators-round, parse_expr-prefix, prefix_int, prefix_float, prefix_string,
  prefix_variable, prefix_paren, round_binary, round_member, round_path,
}

operator_level-small : (op : BinaryOp) → operator_level op ≤ 5
operator_level-small BinaryOp.plus = omega arith
operator_level-small BinaryOp.minus = omega arith
operator_level-small BinaryOp.star = omega arith
operator_level-small BinaryOp.slash = omega arith

power-operator : (op : BinaryOp) → power (some (operator op)) ≡ operator_level op
power-operator BinaryOp.plus = refl
power-operator BinaryOp.minus = refl
power-operator BinaryOp.star = refl
power-operator BinaryOp.slash = refl

module _ {A : Type 0} (xs ys zs after : List A) (n : ℕ) where
  length_assoc : ys ++ zs ≡ after → length ((xs ++ ys) ++ zs) ≤ n → length (xs ++ after) ≤ n
  length_assoc e h = omega (
    h,
    ap length e,
    length-append (xs ++ ys) zs,
    length-append xs ys,
    length-append xs after,
    length-append ys zs,
    arith,
  )

  length_suffix : ys ++ zs ≡ after → length ((xs ++ ys) ++ zs) ≤ n → length after ≤ n
  length_suffix e h =
      omega (
        h,
        ap length e,
        length-append (xs ++ ys) zs,
        length-append xs ys,
        length-append ys zs,
        arith,
      )

-- An expression starts with a token.
current-lexemes :
    (e : Written) (rest : List Lexeme) → (t : Token) × (current (lexemes e ++ rest) ≡ some t)
unfolding lexemes
current-lexemes (int w n) rest = (integer_literal, refl)
current-lexemes (float w n) rest = (float_literal, refl)
current-lexemes (string w) rest = (string_literal, refl)
current-lexemes (variable n) rest = (identifier, refl)
current-lexemes (paren v e w) rest = (l_paren, refl)
current-lexemes (binary l op w e) rest =
    let (t, h) = current-lexemes l (lexeme (operator op) w ∷ (lexemes e ++ rest)) in
    (t, ap current (append_assoc (lexemes l) (lexeme (operator op) w ∷ lexemes e) rest) ∙ h)
current-lexemes (member e w n) rest =
    let (t, h) = current-lexemes e (lexeme dot w ∷ name_lexeme n ∷ rest) in
    (t, ap current (append_assoc (lexemes e) (lexeme dot w ∷ name_lexeme n ∷ []) rest) ∙ h)
current-lexemes (path e w n) rest =
    let (t, h) = current-lexemes e (lexeme double_colon w ∷ name_lexeme n ∷ rest) in
    (t, ap current (append_assoc (lexemes e) (lexeme double_colon w ∷ name_lexeme n ∷ []) rest) ∙ h)

size-full :
    (x : External) (len : ℕ) (r : x.Rodeo) (ds : List Diagnostic) (ts : List Lexeme) (t : Token)
    → current ts ≡ some t
    → length ts ≤ size (before x len r ds ts)
unfolding before size
size-full x len r ds [] t h = cc
size-full x len r ds (u ∷ ts) t h = rw h (omega arith)

module _ (x : External) (len : ℕ) (r : x.Rodeo) (ds : List Diagnostic) where
  -- After the lexemes of an expression the loop over operators stands with its tree.
  reads :
      (e : Written) (f m : ℕ) (rest : List Lexeme)
      → IsGrammatical x r e
      → m ≤ level e
      → power (current rest) ≤ level e
      → length (lexemes e ++ rest) ≤ f
      → parse_expr (calls f) m (before x len r ds (lexemes e ++ rest))
        ≡ operators (calls f) m (again (meaning e)) (before x len r ds rest)
  unfolding lexemes meaning IsGrammatical calls
  reads (int w n) f m rest g le tight fuel =
      parse_expr-prefix x len r ds f m _ (lexeme integer_literal w ∷ rest) rest
        (prefix_int x len r ds f w n rest g)
  reads (float w n) f m rest g le tight fuel =
      parse_expr-prefix x len r ds f m _ (lexeme float_literal w ∷ rest) rest
        (prefix_float x len r ds f w n rest g)
  reads (string w) f m rest g le tight fuel =
      parse_expr-prefix x len r ds f m _ (lexeme string_literal w ∷ rest) rest
        (prefix_string x len r ds f w rest)
  reads (variable n) f m rest g le tight fuel =
      parse_expr-prefix x len r ds f m _ (name_lexeme n ∷ rest) rest
        (prefix_variable x len r ds f n rest g)
  reads (paren v e w) zero m rest g le tight fuel = absurd (omega (fuel, arith))
  reads (paren v e w) (suc f) m rest g le tight fuel =
      let own : List Lexeme = lexeme r_paren w ∷ [] in
      ap (λ ts. parse_expr (calls (suc f)) m (before x len r ds (lexeme l_paren v ∷ ts)))
        (append_assoc (lexemes e) own rest)
      ∙ parse_expr-prefix x len r ds (suc f) m _
          (lexeme l_paren v ∷ (lexemes e ++ lexeme r_paren w ∷ rest)) rest
          (prefix_paren x len r ds (suc f) v w (meaning e) (lexemes e ++ lexeme r_paren w ∷ rest)
            rest
            (reads e f 0 (lexeme r_paren w ∷ rest) g (omega arith) (omega arith) (
                length_assoc (lexemes e) own rest (lexeme r_paren w ∷ rest) f refl
                  (omega (fuel, arith)))
              ∙ operators-stop x len r ds f 0 (meaning e) (lexeme r_paren w ∷ rest)
                  (length_suffix (lexemes e) own rest (lexeme r_paren w ∷ rest) f refl
                    (omega (fuel, arith)))
                  (omega arith) (inl refl)))
  reads (binary l op w e) zero m rest g le tight fuel = absurd (
      omega
        (length_suffix (lexemes l) (lexeme (operator op) w ∷ lexemes e) rest _ 0 refl fuel, arith))
  reads (binary l op w e) (suc f) m rest (gl, ge, left, right) le tight fuel =
      let after = lexeme (operator op) w ∷ (lexemes e ++ rest) in
      let short : length after ≤ suc f =
        length_suffix (lexemes l) (lexeme (operator op) w ∷ lexemes e) rest after (suc f) refl
          fuel in
      ap (λ ts. parse_expr (calls (suc f)) m (before x len r ds ts))
        (append_assoc (lexemes l) (lexeme (operator op) w ∷ lexemes e) rest)
      ∙ (reads l (suc f) m after gl (omega arith) (omega (power-operator op, arith)) (
            length_assoc (lexemes l) (lexeme (operator op) w ∷ lexemes e) rest after (suc f) refl
              fuel)
          ∙ operators-round x len r ds (suc f) m (meaning l) _ after rest short (
              round_binary x len r ds (suc f) m op w (meaning l) (meaning e) (lexemes e ++ rest)
                rest le
                (reads e f (suc (operator_level op)) rest ge right (omega arith)
                    (omega (short, arith))
                  ∙ operators-stop x len r ds f (suc (operator_level op)) (meaning e) rest
                      (omega (short, length-append (lexemes e) rest, arith))
                      (omega (operator_level-small op, arith)) (inr (omega arith)))))
  reads (member e w n) f m rest (ge, known, tight_left) le tight fuel =
      let after = lexeme dot w ∷ name_lexeme n ∷ rest in
      let own : List Lexeme = lexeme dot w ∷ name_lexeme n ∷ [] in
      ap (λ ts. parse_expr (calls f) m (before x len r ds ts)) (append_assoc (lexemes e) own rest)
      ∙ (reads e f m after ge (omega arith) tight_left
            (length_assoc (lexemes e) own rest after f refl fuel)
          ∙ operators-round x len r ds f m (meaning e) _ after rest
              (length_suffix (lexemes e) own rest after f refl fuel)
              (round_member x len r ds f m w n (meaning e) rest known))
  reads (path e w n) f m rest (ge, known, tight_left) le tight fuel =
      let after = lexeme double_colon w ∷ name_lexeme n ∷ rest in
      let own : List Lexeme = lexeme double_colon w ∷ name_lexeme n ∷ [] in
      ap (λ ts. parse_expr (calls f) m (before x len r ds ts)) (append_assoc (lexemes e) own rest)
      ∙ (reads e f m after ge (omega arith) tight_left
            (length_assoc (lexemes e) own rest after f refl fuel)
          ∙ operators-round x len r ds f m (meaning e) _ after rest
              (length_suffix (lexemes e) own rest after f refl fuel)
              (round_path x len r ds f m w n (meaning e) rest le known))

  expr-before :
      (e : Written) (rest : List Lexeme)
      → IsGrammatical x r e
      → power (current rest) ≡ 0
      → expr 0 (before x len r ds (lexemes e ++ rest)) ≡ ok (meaning e, before x len r ds rest)
  unfolding expr calls
  expr-before e rest g ends =
      let f = size (before x len r ds (lexemes e ++ rest)) in
      let fuel : length (lexemes e ++ rest) ≤ f =
        let (t, h) = current-lexemes e rest in size-full x len r ds (lexemes e ++ rest) t h in
      reads e f 0 rest g (omega arith) (omega (ends, arith)) fuel
      ∙ operators-stop x len r ds f 0 (meaning e) rest
          (omega (fuel, length-append (lexemes e) rest, arith)) (omega arith) (inl ends)

before-new :
    (x : External) (len : ℕ) (r : x.Rodeo) (ts : List Lexeme) → new ts len r ≡ before x len r [] ts
unfolding new before
before-new x len r [] = refl
before-new x len r (t ∷ ts) = refl

-- For written expressions of literals, variables, brackets, binary operators, members and paths,
-- without calls, turbofish, indices and array literals, whose literals can be read, whose names the
-- interner already has under their keys, and whose operands bind tighter than their operators: on
-- the lexemes of one, and then a lexeme that is no operator and opens no bracket, or none,
-- `parse_expr(0)` returns the tree that the expression means, with the grouping of its brackets and
-- of the levels of its operators, reports nothing, and stands before that lexeme.
pub expr-meaning :
    (x : External) (len : ℕ) (r : x.Rodeo) (e : Written) (rest : List Lexeme)
    → IsGrammatical x r e
    → power (current rest) ≡ 0
    → expr 0 (new {x = x} (lexemes e ++ rest) len r) ≡ ok (meaning e, new {x = x} rest len r)
expr-meaning x len r e rest g ends =
    rw (before-new x len r (lexemes e ++ rest))
      (rw (before-new x len r rest) (expr-before x len r [] e rest g ends))
