-- ===== src/Sema/Mentions.antt =====
-- Expressions and types under the resolver of crates/kuai-sema/src/resolver.rs, against an
-- independent description: the names that they mention, in order, and a report for each that is not
-- defined.
use kuai.Prelude.{
  All, All-parts, ℕ, ◌≡◌, refl, ap, Bool, ◌||◌, Option, some, List, [], ◌∷◌, ◌++◌, String, sym, ◌∙◌,
  append_assoc, append-nil, if◌then◌else◌, Bool-cases, inl, inr,
}
use kuai.Syntax.Text.{format}
use kuai.Syntax.Diagnostic.{Diagnostic, Severity}
use kuai.Syntax.Ast.{
  Ident, Expr, Exprs, TypeExpr, TypeExprs, Argument, Arguments, literal, variable, binary,
  member_access, namespace_access, index, vector_literal, call, expr_error, no_exprs, more_exprs,
  primitive, named_type, tensor, type_error, no_types, more_types, positional, named,
  attribute_argument, no_arguments, more_arguments,
}
use kuai.Outcome.{ok, pure, ◌>>◌}
use kuai.Sema.Resolver.{
  Resolver, R, ⊤, is_defined, is_primitive_type, report, report_undefine, text_of, resolve_variable,
  resolve_type_name, resolve_expr, resolve_exprs, resolve_type_expr, resolve_types,
  resolve_argument, resolve_arguments,
}

-- A name that stands for a value, or for a type.
pub data Mention : Type 0 where
  value type_name : Ident → Mention

-- The names that must be defined, from left to right. The member of an access, the name of an
-- argument and the arguments of an attribute are not among them.
unfoldable mutual
  pub mentions : Expr → List Mention
  mentions (literal lit) = []
  mentions (variable ident) = value ident ∷ []
  mentions (binary left op right) = mentions left ++ mentions right
  mentions (member_access target member) = mentions target
  mentions (namespace_access namespace member) = mentions namespace
  mentions (call func generics args) =
      mentions func ++ (type_list_mentions generics ++ argument_mentions args)
  mentions (index target indices) = mentions target ++ list_mentions indices
  mentions (vector_literal elements) = list_mentions elements
  mentions (expr_error span) = []

  pub list_mentions : Exprs → List Mention
  list_mentions no_exprs = []
  list_mentions (more_exprs e es) = mentions e ++ list_mentions es

  pub type_mentions : TypeExpr → List Mention
  type_mentions (named_type name generics) = (type_name name ∷ []) ++ type_list_mentions generics
  type_mentions (tensor base shape) = type_mentions base ++ list_mentions shape
  type_mentions (primitive p) = []
  type_mentions (type_error span) = []

  pub type_list_mentions : TypeExprs → List Mention
  type_list_mentions no_types = []
  type_list_mentions (more_types t ts) = type_mentions t ++ type_list_mentions ts

  pub one_argument_mentions : Argument → List Mention
  one_argument_mentions (positional e) = mentions e
  one_argument_mentions (named name v) = mentions v
  one_argument_mentions (attribute_argument a) = []

  pub argument_mentions : Arguments → List Mention
  argument_mentions no_arguments = []
  argument_mentions (more_arguments a as') = one_argument_mentions a ++ argument_mentions as'

module _ (text : ℕ → String) where
  abbrev pub undefined : Ident → Diagnostic
  undefined i = record {
    severity = Severity.error;
    span = i.span;
    message = format "Variable '" (format (text i.id) "' is not defined");
  }

  -- Whether a mention is in order where `defined` names are.
  abbrev pub is_known : (ℕ → Bool) → Mention → Bool
  is_known defined (value i) = defined i.id
  is_known defined (type_name i) = defined i.id || is_primitive_type (text i.id)

  abbrev pub mentioned : Mention → Ident
  mentioned (value i) = i
  mentioned (type_name i) = i

  -- A report for each mention that is not.
  abbrev pub complaints : (ℕ → Bool) → List Mention → List Diagnostic
  complaints defined [] = []
  complaints defined (m ∷ ms) =
      if is_known defined m
      then complaints defined ms
      else undefined (mentioned m) ∷ complaints defined ms

  complaints-append :
      (defined : ℕ → Bool) (xs ys : List Mention)
      → complaints defined (xs ++ ys) ≡ complaints defined xs ++ complaints defined ys
  complaints-append defined [] ys = refl
  complaints-append defined (m ∷ xs) ys = elim (Bool-cases (is_known defined m)) [
    | inl e ↦ rw e (complaints-append defined xs ys)
    | inr e ↦ rw e (ap (λ ds. undefined (mentioned m) ∷ ds) (complaints-append defined xs ys))
  ]

  -- The state with more reports behind those that it has.
  abbrev pub after : Resolver → List Diagnostic → Resolver
  after s ds = record s { diagnostics = s.diagnostics ++ ds }

module _ (text : ℕ → String) (name_of : ℕ → Option String) where
  -- The key of a mention is one that the interner has.
  abbrev pub HasText : Mention → Type 0
  HasText m = name_of (mentioned text m).id ≡ some (text (mentioned text m).id)

  -- Where the interner has the keys of all mentions, a method changes nothing but to report those
  -- that are not defined.
  abbrev pub Walks : R ⊤ → List Mention → Type 0
  Walks m ms =
      All HasText ms
      → (s : Resolver) → m s ≡ ok (tt, after text s (complaints text (λ k. is_defined k s) ms))

  Walks-pure : Walks (pure tt) []
  Walks-pure _ s =
      ap (λ ds. ok (tt, record s { diagnostics = ds })) (sym (append-nil s.diagnostics))

  after-complaints-append :
      (defined : ℕ → Bool) (s : Resolver) (xs ys : List Mention)
      → after text (after text s (complaints text defined xs)) (complaints text defined ys)
        ≡ after text s (complaints text defined (xs ++ ys))
  after-complaints-append defined s xs ys =
      ap (λ ds. record s { diagnostics = ds })
        (append_assoc s.diagnostics (complaints text defined xs) (complaints text defined ys)
          ∙ ap (λ ds. s.diagnostics ++ ds) (sym (complaints-append text defined xs ys)))

  Walks-seq :
      (m n : R ⊤) (xs ys : List Mention) → Walks m xs → Walks n ys → Walks (m >> n) (xs ++ ys)
  unfolding is_defined
  Walks-seq m n xs ys h k known s =
      let (in_xs, in_ys) = All-parts HasText xs ys known in
      rw (h in_xs s) (
        k in_ys (after text s (complaints text (λ j. is_defined j s) xs))
        ∙ ap (λ t. ok (tt, t)) (after-complaints-append (λ j. is_defined j s) s xs ys))

  resolve_variable-Walks : (i : Ident) → Walks (resolve_variable name_of i) (value i ∷ [])
  unfolding resolve_variable text_of report_undefine report
  resolve_variable-Walks i (known, _) s = elim (Bool-cases (is_defined i.id s)) [
    | inl e ↦ rw e (Walks-pure tt s)
    | inr e ↦ rw e (rw (known, text_of) refl)
  ]

  resolve_type_name-Walks : (i : Ident) → Walks (resolve_type_name name_of i) (type_name i ∷ [])
  unfolding resolve_type_name text_of report_undefine report
  resolve_type_name-Walks i (known, _) s = elim (Bool-cases (is_defined i.id s)) [
    | inl e ↦ rw e (Walks-pure tt s)
    | inr e ↦ elim (Bool-cases (is_primitive_type (text i.id))) [
      | inl f ↦ rw e (rw (known, text_of) (rw f (Walks-pure tt s)))
      | inr f ↦ rw e (rw (known, text_of) (rw f refl))
    ]
  ]

  mutual
    unfolding resolve_expr mentions

    expr-Walks : (e : Expr) → Walks (resolve_expr name_of e) (mentions e)
    expr-Walks (literal lit) = Walks-pure
    expr-Walks (variable ident) = resolve_variable-Walks ident
    expr-Walks (binary left op right) =
        Walks-seq (resolve_expr name_of left) (resolve_expr name_of right) (mentions left)
          (mentions right) (expr-Walks left) (expr-Walks right)
    expr-Walks (member_access target member) = expr-Walks target
    expr-Walks (namespace_access namespace member) = expr-Walks namespace
    expr-Walks (call func generics args) =
        Walks-seq (resolve_expr name_of func)
          (resolve_types name_of generics >> resolve_arguments name_of args) (mentions func)
          (type_list_mentions generics ++ argument_mentions args) (expr-Walks func)
          (Walks-seq (resolve_types name_of generics) (resolve_arguments name_of args)
            (type_list_mentions generics) (argument_mentions args) (type_list-Walks generics)
            (argument-Walks args))
    expr-Walks (index target indices) =
        Walks-seq (resolve_expr name_of target) (resolve_exprs name_of indices) (mentions target)
          (list_mentions indices) (expr-Walks target) (list-Walks indices)
    expr-Walks (vector_literal elements) = list-Walks elements
    expr-Walks (expr_error span) = Walks-pure

    list-Walks : (es : Exprs) → Walks (resolve_exprs name_of es) (list_mentions es)
    list-Walks no_exprs = Walks-pure
    list-Walks (more_exprs e es) =
        Walks-seq (resolve_expr name_of e) (resolve_exprs name_of es) (mentions e)
          (list_mentions es) (expr-Walks e) (list-Walks es)

    type-Walks : (t : TypeExpr) → Walks (resolve_type_expr name_of t) (type_mentions t)
    type-Walks (named_type name generics) =
        Walks-seq (resolve_type_name name_of name) (resolve_types name_of generics)
          (type_name name ∷ []) (type_list_mentions generics) (resolve_type_name-Walks name)
          (type_list-Walks generics)
    type-Walks (tensor base shape) =
        Walks-seq (resolve_type_expr name_of base) (resolve_exprs name_of shape)
          (type_mentions base) (list_mentions shape) (type-Walks base) (list-Walks shape)
    type-Walks (primitive p) = Walks-pure
    type-Walks (type_error span) = Walks-pure

    type_list-Walks : (ts : TypeExprs) → Walks (resolve_types name_of ts) (type_list_mentions ts)
    type_list-Walks no_types = Walks-pure
    type_list-Walks (more_types t ts) =
        Walks-seq (resolve_type_expr name_of t) (resolve_types name_of ts) (type_mentions t)
          (type_list_mentions ts) (type-Walks t) (type_list-Walks ts)

    one_argument-Walks :
        (a : Argument) → Walks (resolve_argument name_of a) (one_argument_mentions a)
    one_argument-Walks (positional e) = expr-Walks e
    one_argument-Walks (named name v) = expr-Walks v
    one_argument-Walks (attribute_argument a) = Walks-pure

    argument-Walks :
        (as' : Arguments) → Walks (resolve_arguments name_of as') (argument_mentions as')
    argument-Walks no_arguments = Walks-pure
    argument-Walks (more_arguments a as') =
        Walks-seq (resolve_argument name_of a) (resolve_arguments name_of as')
          (one_argument_mentions a) (argument_mentions as') (one_argument-Walks a)
          (argument-Walks as')

  -- Where the interner has the keys of all names that an expression mentions, resolving it returns,
  -- changes no scope, and appends exactly one report for each of these names that is not defined,
  -- from left to right.
  pub resolve_expr_lem :
      (e : Expr) (s : Resolver)
      → All HasText (mentions e)
      → resolve_expr name_of e s
        ≡ ok (tt, after text s (complaints text (λ k. is_defined k s) (mentions e)))
  resolve_expr_lem e s known = expr-Walks e known s

  -- Where the interner has the keys of all names that a type mentions, resolving it returns,
  -- changes no scope, and appends exactly one report for each of these names, in its type arguments
  -- and its shape too, that is neither defined nor, for the name of a type, that of a primitive
  -- type.
  pub resolve_type_expr_lem :
      (t : TypeExpr) (s : Resolver)
      → All HasText (type_mentions t)
      → resolve_type_expr name_of t s
        ≡ ok (tt, after text s (complaints text (λ k. is_defined k s) (type_mentions t)))
  resolve_type_expr_lem t s known = type-Walks t known s
