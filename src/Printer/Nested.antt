-- ===== src/Printer/Nested.antt =====
-- The brackets of a printed text, and documents whose brackets are nested.
use Prim.Native.Char.{code}
use text.Mathlib.TextLemmas.{nil-append, cons-append}
use kuai.Prelude.{
  Bool-cases, inl, inr, ℕ, ℤ, ◌≡◌, refl, ap, ◌∙◌, Option, none, some, List, [], ◌∷◌, ◌++◌, String,
  map, ◌==◌, if◌then◌else◌,
}
use kuai.Syntax.Text.{codes, format}
use kuai.Printer.Doc.{
  Docs, Printed, printed, ◌<>◌, word, space, softline, hardline, grouped, nested,
}

pub data Bracket : Type 0 where
  round square : Bracket

pub data Edge : Type 0 where
  opening closing : Bracket → Edge

abbrev pub edges_of_code : ℕ → List Edge → List Edge
edges_of_code c es =
    if c == b'('
    then opening round ∷ es
    else if c == b')'
    then closing round ∷ es
    else if c == b'['
    then opening square ∷ es
    else if c == b']'
    then closing square ∷ es
    else es

abbrev pub edges_of_codes : List ℕ → List Edge
edges_of_codes [] = []
edges_of_codes (c ∷ cs) = edges_of_code c (edges_of_codes cs)

-- The round and square brackets of a text in order.
abbrev pub edges : String → List Edge
edges s = edges_of_codes (codes s)

-- The brackets that are open after some more, innermost first; `none` where one closes another
-- bracket than the innermost open one.
abbrev pub walk : List Bracket → List Edge → Option (List Bracket)
walk st [] = some st
walk st (opening b ∷ es) = walk (b ∷ st) es
walk [] (closing b ∷ es) = none
walk (round ∷ st) (closing round ∷ es) = walk st es
walk (round ∷ st) (closing square ∷ es) = none
walk (square ∷ st) (closing round ∷ es) = none
walk (square ∷ st) (closing square ∷ es) = walk st es

-- A text that closes what it opens, and nothing else.
abbrev pub Closed : String → Type 0
Closed s = (st : List Bracket) → walk st (edges s) ≡ some st

pub walk-append :
    (st : List Bracket) (es fs : List Edge) {to : List Bracket}
    → walk st es ≡ some to
    → walk st (es ++ fs) ≡ walk to fs
walk-append st [] fs h = cc
walk-append st (opening b ∷ es) fs h = walk-append (b ∷ st) es fs h
walk-append [] (closing b ∷ es) fs h = cc
walk-append (round ∷ st) (closing round ∷ es) fs h = walk-append st es fs h
walk-append (round ∷ st) (closing square ∷ es) fs h = cc
walk-append (square ∷ st) (closing round ∷ es) fs h = cc
walk-append (square ∷ st) (closing square ∷ es) fs h = walk-append st es fs h

codes-format : (a b : String) → codes (format a b) ≡ codes a ++ codes b
codes-format String.[] b = ap codes (nil-append b)
codes-format (String.◌∷◌ c a) b =
    ap codes (cons-append c a b) ∙ ap (λ cs. code c ∷ cs) (codes-format a b)

edges_of_code-append :
    (c : ℕ) (es fs : List Edge) → edges_of_code c (es ++ fs) ≡ edges_of_code c es ++ fs
edges_of_code-append c es fs = elim (Bool-cases (c == b'(')) [
  | inl e ↦ rw e refl
  | inr e ↦ rw e (elim (Bool-cases (c == b')')) [
    | inl g ↦ rw g refl
    | inr g ↦ rw g (elim (Bool-cases (c == b'[')) [
      | inl h ↦ rw h refl
      | inr h ↦ rw h (elim (Bool-cases (c == b']')) [ inl k ↦ rw k refl | inr k ↦ rw k refl ])
    ])
  ])
]

edges_of_codes-append :
    (cs ds : List ℕ) → edges_of_codes (cs ++ ds) ≡ edges_of_codes cs ++ edges_of_codes ds
edges_of_codes-append [] ds = refl
edges_of_codes-append (c ∷ cs) ds =
    ap (edges_of_code c) (edges_of_codes-append cs ds)
    ∙ edges_of_code-append c (edges_of_codes cs) (edges_of_codes ds)

pub edges-format : (a b : String) → edges (format a b) ≡ edges a ++ edges b
edges-format a b = ap edges_of_codes (codes-format a b) ∙ edges_of_codes-append (codes a) (codes b)

-- The brackets of documents one after another with a separator between.
abbrev pub between : List Edge → List (List Edge) → List Edge
between sep [] = []
between sep (es ∷ []) = es
between sep (es ∷ fs ∷ ess) = es ++ (sep ++ between sep (fs ∷ ess))

-- What the crate `pretty` documents: a document holds its texts in order, and its layout adds white
-- space only. Numbers are printed without brackets.
pub record IsLayout (d : Docs) : Type 0 where
  pub inside : d.Doc → List Edge
  pub text : (s : String) → inside (d.text s) ≡ edges s
  pub append : (a b : d.Doc) → inside (d.append a b) ≡ inside a ++ inside b
  pub nil : inside d.nil ≡ []
  pub space : inside d.space ≡ []
  pub softline : inside d.softline ≡ []
  pub hardline : inside d.hardline ≡ []
  pub nest : (n : ℕ) (a : d.Doc) → inside (d.nest n a) ≡ inside a
  pub group : (a : d.Doc) → inside (d.group a) ≡ inside a
  pub intersperse :
      (docs : List d.Doc) (sep : d.Doc)
      → inside (d.intersperse docs sep) ≡ between (inside sep) (map inside docs)
  pub render : (width : ℕ) (a : d.Doc) (s : String) → d.render width a ≡ some s → edges s ≡ inside a
  pub show_int : (i : ℤ) → edges (d.show_int i) ≡ []
  pub show_float : (f : ℕ) → edges (d.show_float f) ≡ []

-- Printing gives a document that takes the open brackets from one state to another.
pub record Takes {d : Docs} (laws : IsLayout d) (from to : List Bracket → List Bracket)
    (p : Printed d) : Type 0 where
  pub doc : d.Doc
  pub is_printed : p ≡ printed doc
  pub walks : (st : List Bracket) → walk (from st) (laws.inside doc) ≡ some (to st)

abbrev pub stay : List Bracket → List Bracket
stay st = st

abbrev pub in_round : List Bracket → List Bracket
in_round st = round ∷ st

abbrev pub in_square : List Bracket → List Bracket
in_square st = square ∷ st

module _ {d : Docs} (laws : IsLayout d) where
  -- The document closes what it opens.
  abbrev pub Even : Printed d → Type 0
  Even = Takes laws stay stay

  pub within : {p : Printed d} (f : List Bracket → List Bracket) → Even p → Takes laws f f p
  within f h = record { doc = h.doc; is_printed = h.is_printed; walks = λ st. h.walks (f st) }

  pub append-Takes :
      {f g h : List Bracket → List Bracket} {p q : Printed d}
      → Takes laws f g p
      → Takes laws g h q
      → Takes laws f h (p <> q)
  append-Takes {f = f} {h = h} {p = p} {q = q} a b = record {
    doc = d.append a.doc b.doc;
    is_printed = rw (a.is_printed, b.is_printed) refl;
    walks = λ st.
        rw (laws.append a.doc b.doc)
          (walk-append (f st) (laws.inside a.doc) (laws.inside b.doc) (a.walks st) ∙ b.walks st);
  }

  pub word-Takes :
      (f g : List Bracket → List Bracket) (s : String)
      → ((st : List Bracket) → walk (f st) (edges s) ≡ some (g st))
      → Takes laws f g (word s)
  word-Takes f g s h = record {
    doc = d.text s;
    is_printed = refl;
    walks = λ st. rw (laws.text s) (h st);
  }

  pub word-Even : (s : String) → Closed s → Even (word s)
  word-Even s h = word-Takes stay stay s h

  layout-Even : (a : d.Doc) → laws.inside a ≡ [] → Even (printed a)
  layout-Even a h = record { doc = a; is_printed = refl; walks = λ st. rw h refl }

  pub space-Even : Even space
  space-Even = layout-Even d.space laws.space

  pub softline-Even : Even softline
  softline-Even = layout-Even d.softline laws.softline

  pub hardline-Even : Even hardline
  hardline-Even = layout-Even d.hardline laws.hardline

  pub nil-Even : Even (printed d.nil)
  nil-Even = layout-Even d.nil laws.nil

  pub grouped-Takes :
      {f g : List Bracket → List Bracket} {p : Printed d}
      → Takes laws f g p
      → Takes laws f g (grouped p)
  grouped-Takes a = record {
    doc = d.group a.doc;
    is_printed = rw a.is_printed refl;
    walks = λ st. rw (laws.group a.doc) (a.walks st);
  }

  pub nested-Takes :
      {f g : List Bracket → List Bracket} {p : Printed d}
      → Takes laws f g p
      → Takes laws f g (nested p)
  nested-Takes a = record {
    doc = d.nest 2 a.doc;
    is_printed = rw a.is_printed refl;
    walks = λ st. rw (laws.nest 2 a.doc) (a.walks st);
  }
