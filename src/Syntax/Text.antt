-- ===== src/Syntax/Text.antt =====
-- Equality of texts, their bytes, and what `format!` does. A text is a native string.
use Prim.Native.Char.{code}
use Prim.Native.String.{◌++◌ as text_append}
use text.Mathlib.Text.{◌==◌ as text_equal}
use kuai.Prelude.{
  ℕ, zero, suc, ◌/◌, ◌%◌, ◌≡◌, refl, Bool, List, [], ◌∷◌, String, ltb, if◌then◌else◌,
}

abbrev pub str_eq : String → String → Bool
str_eq = text_equal

-- A formatted message: its pieces one after another.
abbrev pub format : String → String → String
format = text_append

abbrev pub codes : String → List ℕ
codes String.[] = []
codes (String.◌∷◌ c s) = code c ∷ codes s

abbrev digit_text : ℕ → String
digit_text zero = "0"
digit_text (suc zero) = "1"
digit_text (suc (suc zero)) = "2"
digit_text (suc (suc (suc zero))) = "3"
digit_text (suc (suc (suc (suc zero)))) = "4"
digit_text (suc (suc (suc (suc (suc zero))))) = "5"
digit_text (suc (suc (suc (suc (suc (suc zero)))))) = "6"
digit_text (suc (suc (suc (suc (suc (suc (suc zero))))))) = "7"
digit_text (suc (suc (suc (suc (suc (suc (suc (suc zero)))))))) = "8"
digit_text _ = "9"

-- The decimal digits of a number, with at most as many as the fuel.
unfoldable pub decimal_of : ℕ → ℕ → String
decimal_of zero n = ""
decimal_of (suc f) n =
    let more = format (decimal_of f (n / 10)) (digit_text (n % 10)) in
    if ltb n 10 then digit_text n else more

-- `{}` of a `usize`
unfoldable pub decimal : ℕ → String
unfolding decimal_of
decimal n = decimal_of (suc n) n

decimal_runs : decimal 90210 ≡ "90210"
unfolding decimal
decimal_runs = refl
