-- ===== src/Printer/Lists.antt =====
-- Lists of documents in crates/kuai-syntax/src/pretty.rs: what wrap_list and `intersperse` put
-- together closes the brackets that it opens.
use kuai.Prelude.{◌≡◌, refl, ◌∙◌, Option, none, some, List, [], ◌∷◌, String, All, map}
use kuai.Syntax.Text.{format}
use kuai.Printer.Doc.{Docs, Printed, docs_of, interspersed, wrap_list, append_some, append_items}
use kuai.Printer.Nested.{
  Bracket, Edge, edges, edges-format, walk, walk-append, between, IsLayout, Takes, Even, within,
  append-Takes, word-Takes, grouped-Takes,
}

-- The condition on an optional part of a tree.
abbrev pub OptionAll : {A : Type 0} → (A → Type 0) → Option A → Type 0
OptionAll P none = Unit
OptionAll P (some a) = P a

module _ {d : Docs} (laws : IsLayout d) where
  -- Documents that have been put into a list.
  record Listed (ps : List (Printed d)) : Type 0 where
    docs : List d.Doc
    are_printed : docs_of ps ≡ some docs
    walks : (st : List Bracket) → walk st (between [] (map laws.inside docs)) ≡ some st

  walk-between :
      (st : List Bracket) (es : List Edge) (ess : List (List Edge))
      → walk st es ≡ some st
      → walk st (between [] ess) ≡ some st
      → walk st (between [] (es ∷ ess)) ≡ some st
  walk-between st es [] h k = h
  walk-between st es (fs ∷ ess) h k = walk-append st es (between [] (fs ∷ ess)) h ∙ k

  list-Listed : (ps : List (Printed d)) → All (Even laws) ps → Listed ps
  list-Listed [] h = record { docs = []; are_printed = refl; walks = λ st. refl }
  list-Listed (p ∷ ps) (h, hs) =
      let rest = list-Listed ps hs in
      record {
        docs = h.doc ∷ rest.docs;
        are_printed = rw (h.is_printed, rest.are_printed) refl;
        walks = λ st.
            walk-between st (laws.inside h.doc) (map laws.inside rest.docs) (h.walks st)
              (rest.walks st);
      }

  pub interspersed-Even :
      (ps : List (Printed d)) (sep : d.Doc)
      → laws.inside sep ≡ []
      → All (Even laws) ps
      → Even laws (interspersed ps sep)
  interspersed-Even ps sep none_inside h =
      let listed = list-Listed ps h in
      record {
        doc = d.intersperse listed.docs sep;
        is_printed = rw (listed.are_printed, interspersed) refl;
        walks = λ st. rw (laws.intersperse listed.docs sep) (rw none_inside (listed.walks st));
      }

  pub wrap_list-Takes :
      (f g : List Bracket → List Bracket) (opening closing : String) (ps : List (Printed d))
      → ((st : List Bracket) → walk (f st) (edges opening) ≡ some (g st))
      → ((st : List Bracket) → walk (g st) (edges closing) ≡ some (f st))
      → All (Even laws) ps
      → Takes laws f f (wrap_list opening ps closing)
  unfolding wrap_list
  wrap_list-Takes f g opening closing [] opens closes h =
      word-Takes laws f f (format opening closing) λ st.
        rw (edges-format opening closing)
          (walk-append (f st) (edges opening) (edges closing) (opens st) ∙ closes st)
  wrap_list-Takes f g opening closing (p ∷ ps) opens closes h = grouped-Takes laws (
      append-Takes laws
        (append-Takes laws (word-Takes laws f g opening opens)
          (within laws g (interspersed-Even (p ∷ ps) (d.text ", ") (laws.text ", ") h)))
        (word-Takes laws g f closing closes))

  pub append_some-Takes :
      {A : Type 0} (f g : List Bracket → List Bracket) (P : A → Type 0) (o : Option A)
      (k : A → Printed d → Printed d) (doc : Printed d)
      → ((a : A) → P a → Takes laws f g doc → Takes laws f g (k a doc))
      → OptionAll P o
      → Takes laws f g doc
      → Takes laws f g (append_some o k doc)
  append_some-Takes f g P none k doc h i t = t
  append_some-Takes f g P (some a) k doc h i t = h a i t

  pub append_items-Takes :
      (f g : List Bracket → List Bracket) (ps : List (Printed d))
      (k : List (Printed d) → Printed d → Printed d) (doc : Printed d)
      → (All (Even laws) ps → Takes laws f g doc → Takes laws f g (k ps doc))
      → All (Even laws) ps
      → Takes laws f g doc
      → Takes laws f g (append_items ps k doc)
  append_items-Takes f g [] k doc h i t = t
  append_items-Takes f g (p ∷ ps) k doc h i t = h i t

  pub map-Even :
      {A : Type 0} (P : A → Type 0) (f : A → Printed d) (xs : List A)
      → ((a : A) → P a → Even laws (f a))
      → All P xs
      → All (Even laws) (map f xs)
  map-Even P f [] h i = tt
  map-Even P f (x ∷ xs) h (i, is) = (h x i, map-Even P f xs h is)
