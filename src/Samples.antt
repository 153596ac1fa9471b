-- ===== src/Samples.antt =====
-- Concrete inputs for the tests: an interner that is a list of texts, and lexemes.
pub mod Sum
use text.Mathlib.TextEquality.{eq_iff}
use kuai.Prelude.{
  ℤ, pos, ◌*◌, ◌+◌, ◌-◌, leb, ◌&&◌, ℕ, zero, suc, ◌≡◌, refl, Option, none, some, List, [], ◌∷◌,
  String, inl, inr, Bool-cases, if◌then◌else◌,
}
use kuai.Syntax.Token.{Token}
use kuai.Syntax.Text.{str_eq, codes}
use kuai.Syntax.External.{External, IsInterner}
use kuai.Parser.State.{Lexeme}

abbrev lookup_key : List String → ℕ → Option String
lookup_key [] k = none
lookup_key (s ∷ ss) zero = some s
lookup_key (s ∷ ss) (suc k) = lookup_key ss k

-- The first place of a text, which is put at the end if it is new.
abbrev place : List String → String → List String × ℕ
place [] t = (t ∷ [], 0)
place (s ∷ ss) t = let (ss', k) = place ss t in if str_eq s t then (s ∷ ss, 0) else (s ∷ ss', suc k)

-- Short texts of digits: the number read on from `acc`.
abbrev digits : ℕ → List ℕ → Option ℤ
digits acc [] = some (pos acc)
digits acc (c ∷ cs) =
    let rest = digits (acc * 10 + (c - b'0')) cs in if leb b'0' c && leb c b'9' then rest else none

abbrev few_digits : String → Option ℤ
few_digits s = digits 0 (codes s)

abbrev pub plain : External
plain = record {
  Rodeo = List String;
  get_or_intern = place;
  resolve = lookup_key;
  parse_i64 = few_digits;
  parse_f64 = λ s. if str_eq s "1.5" then some 0x3ff8_0000_0000_0000 else none;
}

place_resolves : (r : List String) (s : String) → lookup_key (place r s).0 (place r s).1 ≡ some s
place_resolves [] s = refl
place_resolves (t ∷ r) s = elim (Bool-cases (str_eq t s)) [
  | inl e ↦ rw e (cc ((eq_iff t s).0 e))
  | inr e ↦ rw e (place_resolves r s)
]

place_keeps :
    (r : List String) (s t : String) (k : ℕ)
    → lookup_key r k ≡ some t
    → lookup_key (place r s).0 k ≡ some t
place_keeps [] s t k h = cc
place_keeps (u ∷ r) s t zero h = elim (Bool-cases (str_eq u s)) [ inl e ↦ rw e h | inr e ↦ rw e h ]
place_keeps (u ∷ r) s t (suc k) h = elim (Bool-cases (str_eq u s)) [
  | inl e ↦ rw e h
  | inr e ↦ rw e (place_keeps r s t k h)
]

pub plain-IsInterner : IsInterner plain
plain-IsInterner = record { resolves = place_resolves; keeps = place_keeps }

abbrev pub lexeme : Token → String → ℕ → ℕ → Lexeme
lexeme t s a b = record { token = some t; slice = s; span = record { start = a; end = b } }

-- An item that no token matches.
abbrev pub unknown : String → ℕ → ℕ → Lexeme
unknown s a b = record { token = none; slice = s; span = record { start = a; end = b } }
