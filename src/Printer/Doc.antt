-- ===== src/Printer/Doc.antt =====
-- What crates/kuai-syntax/src/pretty.rs uses of the crate `pretty` and of Rust's formatting, and
-- how it puts documents together.
use kuai.Prelude.{ℕ, ℤ, Option, none, some, List, [], ◌∷◌, String}
use kuai.Syntax.Text.{format}
use kuai.Syntax.Ast.{Ident}

pub record Docs : Type 1 where
  -- a document, and the methods of the allocator
  pub Doc : Type 0
  pub text : String → Doc
  pub append : Doc → Doc → Doc
  pub nil : Doc
  pub space : Doc
  pub softline : Doc
  pub hardline : Doc
  pub nest : ℕ → Doc → Doc
  pub group : Doc → Doc
  pub intersperse : List Doc → Doc → Doc
  -- the text of a document in lines of a width; `none` is an error
  pub render : ℕ → Doc → Option String
  -- `{}` of an `i64`, `{}` of an `f64` by its bits, and `{:?}` of a text
  pub show_int : ℤ → String
  pub show_float : ℕ → String
  pub show_string : String → String

-- A document, or the panic of the interner on a key that it does not have.
pub data Printed (d : Docs) : Type 0 where
  printed : d.Doc → Printed d
  panicked : Printed d

module _ {d : Docs} where
  abbrev pub on_doc : (d.Doc → d.Doc) → Printed d → Printed d
  on_doc f (printed a) = printed (f a)
  on_doc f panicked = panicked

  -- `a.append(b)`
  infixl 5 ◌<>◌
  abbrev pub ◌<>◌ : Printed d → Printed d → Printed d
  printed a <> b = on_doc (d.append a) b
  panicked <> b = panicked

  abbrev pub word : String → Printed d
  word s = printed (d.text s)

  abbrev pub space : Printed d
  space = printed d.space

  abbrev pub softline : Printed d
  softline = printed d.softline

  abbrev pub hardline : Printed d
  hardline = printed d.hardline

  abbrev pub grouped : Printed d → Printed d
  grouped = on_doc d.group

  -- `.nest(2)`
  abbrev pub nested : Printed d → Printed d
  nested = on_doc (d.nest 2)

  abbrev pub cons_doc : Printed d → Option (List d.Doc) → Option (List d.Doc)
  cons_doc (printed a) (some docs) = some (a ∷ docs)
  cons_doc (printed a) none = none
  cons_doc panicked docs = none

  abbrev pub docs_of : List (Printed d) → Option (List d.Doc)
  docs_of [] = some []
  docs_of (p ∷ ps) = cons_doc p (docs_of ps)

  -- `alloc.intersperse`
  abbrev pub interspersed : List (Printed d) → d.Doc → Printed d
  interspersed items sep = elim (docs_of items) [
    | none ↦ panicked
    | some docs ↦ printed (d.intersperse docs sep)
  ]

  unfoldable pub wrap_list : String → List (Printed d) → String → Printed d
  wrap_list opening [] closing = word (format opening closing)
  wrap_list opening (item ∷ items) closing =
      grouped (word opening <> interspersed (item ∷ items) (d.text ", ") <> word closing)

  -- `if let Some(a) = o { doc = doc.append(f(a)) }`
  abbrev pub append_some :
      {A : Type 0} → Option A → (A → Printed d → Printed d) → Printed d → Printed d
  append_some none f doc = doc
  append_some (some a) f doc = f a doc

  -- `if !items.is_empty() { doc = doc.append(f(items)) }`
  abbrev pub append_items :
      List (Printed d) → (List (Printed d) → Printed d → Printed d) → Printed d → Printed d
  append_items [] f doc = doc
  append_items (item ∷ items) f doc = f (item ∷ items) doc

  -- `alloc.text(ctx.interner.resolve(&self.id))`
  abbrev pub text_or_panic : Option String → Printed d
  text_or_panic none = panicked
  text_or_panic (some s) = word s

  unfoldable pub ident_to_doc : (ℕ → Option String) → Ident → Printed d
  ident_to_doc name_of ident = text_or_panic (name_of ident.id)
