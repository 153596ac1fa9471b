-- ===== src/Syntax/Balance.antt =====
-- `check_balanced` of crates/kuai-syntax/src/lexer.rs, by which the REPL decides whether it has a
-- whole input: the lexer's items enter as a list, `none` where no token matches. The depth is an
-- integer here; the source's `i32` holds it for inputs of fewer than 2 ^ 31 tokens.
use kuai.Prelude.{
  ℕ, zero, suc, ◌+◌, ◌≡◌, refl, ap, ◌∙◌, ℤ, pos, negsuc, Bool, true, false, not, ◌&&◌, Option, some,
  List, [], ◌∷◌, leb, arith,
}
use kuai.Syntax.Token.{Token, l_bracket, r_bracket, l_brace, r_brace}

-- `depth += 1` and `depth -= 1`
abbrev pub succ : ℤ → ℤ
succ (pos n) = pos (suc n)
succ (negsuc zero) = pos 0
succ (negsuc (suc n)) = negsuc n

abbrev pub pred : ℤ → ℤ
pred (pos zero) = negsuc 0
pred (pos (suc n)) = pos n
pred (negsuc n) = negsuc (suc n)

unfoldable pub depth_step : Option Token → ℤ → ℤ
depth_step (some l_bracket) d = succ d
depth_step (some l_brace) d = succ d
depth_step (some r_bracket) d = pred d
depth_step (some r_brace) d = pred d
depth_step _ d = d

abbrev pub is_not_positive : ℤ → Bool
is_not_positive (pos zero) = true
is_not_positive (pos (suc n)) = false
is_not_positive (negsuc n) = true

unfoldable pub depth_loop : List (Option Token) → ℤ → ℤ
depth_loop [] d = d
depth_loop (t ∷ ts) d = depth_loop ts (depth_step t d)

abbrev pub is_empty : List (Option Token) → Bool
is_empty [] = true
is_empty (t ∷ ts) = false

unfoldable pub check_balanced : List (Option Token) → Bool × ℤ
check_balanced ts =
    let depth = depth_loop ts (pos 0) in (not (is_empty ts) && is_not_positive depth, depth)

-- How often an opening and a closing bracket or brace stands in a source.
abbrev pub opening : Option Token → ℕ
opening (some l_bracket) = 1
opening (some l_brace) = 1
opening _ = 0

abbrev pub closing : Option Token → ℕ
closing (some r_bracket) = 1
closing (some r_brace) = 1
closing _ = 0

abbrev pub count : (Option Token → ℕ) → List (Option Token) → ℕ
count f [] = 0
count f (t ∷ ts) = f t + count f ts

-- The integer `a - b`.
abbrev pub difference : ℕ → ℕ → ℤ
difference a zero = pos a
difference zero (suc b) = negsuc b
difference (suc a) (suc b) = difference a b

succ-difference : (a b : ℕ) → succ (difference a b) ≡ difference (suc a) b
succ-difference a zero = refl
succ-difference zero (suc zero) = refl
succ-difference zero (suc (suc b)) = refl
succ-difference (suc a) (suc b) = succ-difference a b

pred-difference : (a b : ℕ) → pred (difference a b) ≡ difference a (suc b)
pred-difference zero zero = refl
pred-difference (suc a) zero = refl
pred-difference zero (suc b) = refl
pred-difference (suc a) (suc b) = pred-difference a b

difference_eq : (a b c d : ℕ) → a ≡ b → c ≡ d → difference a c ≡ difference b d
difference_eq a b c d p q = ap (λ n. difference n c) p ∙ ap (difference b) q

depth_step-difference :
    (t : Option Token) (a b : ℕ)
    → depth_step t (difference a b) ≡ difference (opening t + a) (closing t + b)
unfolding depth_step
depth_step-difference (some l_bracket) a b =
    succ-difference a b ∙ difference_eq (suc a) (1 + a) b (0 + b) (omega arith) (omega arith)
depth_step-difference (some l_brace) a b =
    succ-difference a b ∙ difference_eq (suc a) (1 + a) b (0 + b) (omega arith) (omega arith)
depth_step-difference (some r_bracket) a b =
    pred-difference a b ∙ difference_eq a (0 + a) (suc b) (1 + b) (omega arith) (omega arith)
depth_step-difference (some r_brace) a b =
    pred-difference a b ∙ difference_eq a (0 + a) (suc b) (1 + b) (omega arith) (omega arith)
depth_step-difference _ a b = difference_eq a (0 + a) b (0 + b) (omega arith) (omega arith)

depth_loop-difference :
    (ts : List (Option Token)) (a b : ℕ)
    → depth_loop ts (difference a b) ≡ difference (count opening ts + a) (count closing ts + b)
unfolding depth_loop
depth_loop-difference [] a b = difference_eq a (0 + a) b (0 + b) (omega arith) (omega arith)
depth_loop-difference (t ∷ ts) a b =
    ap (depth_loop ts) (depth_step-difference t a b)
    ∙ depth_loop-difference ts (opening t + a) (closing t + b)
    ∙ difference_eq (count opening ts + (opening t + a)) (count opening (t ∷ ts) + a)
        (count closing ts + (closing t + b)) (count closing (t ∷ ts) + b) (omega arith)
        (omega arith)

is_not_positive-difference : (a b : ℕ) → is_not_positive (difference a b) ≡ leb a b
is_not_positive-difference zero zero = refl
is_not_positive-difference (suc a) zero = ground arith
is_not_positive-difference zero (suc b) = ground arith
is_not_positive-difference (suc a) (suc b) = is_not_positive-difference a b ∙ ground arith

-- The depth is the number of opening brackets and braces less the number of closing ones, of
-- either kind and in any order; the input counts as whole when it has a token and no more are
-- opened than closed.
pub check_balanced_lem :
    (ts : List (Option Token))
    → check_balanced ts ≡ (
      not (is_empty ts) && leb (count opening ts) (count closing ts),
      difference (count opening ts) (count closing ts),
    )
unfolding check_balanced
check_balanced_lem ts =
    let e =
      depth_loop-difference ts 0 0
      ∙ difference_eq (count opening ts + 0) (count opening ts) (count closing ts + 0)
          (count closing ts) (omega arith) (omega arith) in
    rw e (rw (is_not_positive-difference (count opening ts) (count closing ts)) refl)
