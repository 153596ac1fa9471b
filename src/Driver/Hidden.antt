-- ===== src/Driver/Hidden.antt =====
-- Handlers that are not recursive, under crates/kuai-driver/src/pipeline.rs and attr/traits.rs.
use kuai.Prelude.{
  ℕ, suc, ◌≡◌, refl, sym, ap, ◌∙◌, Bool, false, Option, none, some, Option-cases, List, [], ◌∷◌,
  ◌++◌, append_assoc, append-nil, String, inl, inr, All, All-append, reverse, map,
}
use kuai.Syntax.Ast.{Attribute, Stmt}
use kuai.Outcome.{Outcome, ok, panicked}
use kuai.Driver.Attr.{
  CompileStage, Result, returned, Step, attribute_name, AttrAction, continue_with, AttrMetadata,
  Frame, for_local_attrs, for_active_attrs, AttrBase, AttributeRegistry, get_handlers,
}
use kuai.Driver.Pipeline.{
  get_attributes, empty_frame, behind_evaluation, evaluate_handlers, evaluate_attributes, apply,
}

-- No handler of the stage is recursive, as by the default of the trait.
abbrev pub IsHidden : {C Object : Type 0} → AttributeRegistry C Object → CompileStage → Type 0
IsHidden registry stage =
    (name : String) → All (λ h. h.is_recursive ≡ false) (get_handlers registry name stage)

abbrev AllInvisible : List (Attribute × Bool) → Type 0
AllInvisible = All (λ e. e.1 ≡ false)

module _ {C Object : Type 0} where
  for_local_attrs-AllInvisible :
      (f : Attribute → Stmt → Step C (AttrAction Object))
      (after : Stmt → Step C (AttrAction Object)) (attrs : List (Attribute × Bool)) (node : Stmt)
      (ctx : C)
      → AllInvisible attrs
      → for_local_attrs f after attrs node ctx ≡ after node ctx
  unfolding for_local_attrs
  for_local_attrs-AllInvisible f after [] node ctx h = refl
  for_local_attrs-AllInvisible f after ((attr, visible) ∷ attrs) node ctx (e, h) =
      rw e (for_local_attrs-AllInvisible f after attrs node ctx h)

  -- The handlers that a list of attributes has at a stage, each with its attribute.
  abbrev pub handled :
      AttributeRegistry C Object
      → CompileStage
      → List Attribute
      → List (Attribute × AttrBase C Object)
  handled registry stage [] = []
  handled registry stage (attr ∷ attrs) =
      map (λ h. (attr, h)) (get_handlers registry (attribute_name attr) stage)
      ++ handled registry stage attrs

  -- `evaluate` of each of them, on the metadata and the context that the one before has left: the
  -- context behind the last, and `none` if one of them panics.
  abbrev pub evaluated : List (Attribute × AttrBase C Object) → AttrMetadata Object → C → Option C
  evaluated [] meta ctx = some ctx
  evaluated ((attr, h) ∷ es) meta ctx = elim (h.evaluate ctx attr meta) [
    | none ↦ none
    | some (next, after) ↦ evaluated es next after
  ]

  -- The statement as it is, with such a context; or the panic.
  abbrev pub left_alone : Stmt → Option C → Outcome (Result (AttrAction Object) × C)
  left_alone node none = panicked
  left_alone node (some ctx) = ok (returned (continue_with node), ctx)

  -- An evaluation ends as the one that is described, whatever follows it, with invisible entries.
  abbrev Agrees :
      (List (Attribute × AttrBase C Object) → Option C) → Option (Frame Object × C) → Type 0
  Agrees described none = (es : List (Attribute × AttrBase C Object)) → described es ≡ none
  Agrees described (some (frame, ctx)) =
      AllInvisible frame.local_attrs
      × ((es : List (Attribute × AttrBase C Object))
          → described es ≡ evaluated es frame.delta_meta ctx)

  evaluate_handlers-Agrees :
      (ctx : C) (attr : Attribute) (hs : List (AttrBase C Object)) (frame : Frame Object)
      → All (λ h. h.is_recursive ≡ false) hs
      → AllInvisible frame.local_attrs
      → Agrees
          (λ es. evaluated (map (λ h. (attr, h)) hs ++ es) frame.delta_meta ctx)
          (evaluate_handlers ctx attr hs frame)
  unfolding evaluate_handlers
  evaluate_handlers-Agrees ctx attr [] frame h i = (i, λ es. refl)
  evaluate_handlers-Agrees ctx attr (handler ∷ hs) frame (e, h) i =
      elim (Option-cases (handler.evaluate ctx attr frame.delta_meta)) [
        | inl g ↦ rw g (λ es. refl)
        | inr ((meta, after), g) ↦ rw g (
            evaluate_handlers-Agrees after attr hs _ h
              (All-append (λ e. e.1 ≡ false) frame.local_attrs _ i (e, tt)))
      ]

  Agrees-same :
      (d e : List (Attribute × AttrBase C Object) → Option C) (r : Option (Frame Object × C))
      → ((es : List (Attribute × AttrBase C Object)) → d es ≡ e es)
      → Agrees e r
      → Agrees d r
  Agrees-same d e none same h = λ es. same es ∙ h es
  Agrees-same d e (some (frame, ctx)) same (i, h) = (i, λ es. same es ∙ h es)

  evaluate_attributes-Agrees :
      (registry : AttributeRegistry C Object) (stage : CompileStage) (ctx : C)
      (attrs : List Attribute) (frame : Frame Object)
      → IsHidden registry stage
      → AllInvisible frame.local_attrs
      → Agrees
          (λ es. evaluated (handled registry stage attrs ++ es) frame.delta_meta ctx)
          (evaluate_attributes registry stage ctx attrs frame)
  unfolding evaluate_attributes
  evaluate_attributes-Agrees registry stage ctx [] frame hidden i = (i, λ es. refl)
  evaluate_attributes-Agrees registry stage ctx (attr ∷ attrs) frame hidden i =
      let hs = get_handlers registry (attribute_name attr) stage in
      let first = evaluate_handlers-Agrees ctx attr hs frame (hidden (attribute_name attr)) i in
      let split : (es : List (Attribute × AttrBase C Object))
          → evaluated (handled registry stage (attr ∷ attrs) ++ es) frame.delta_meta ctx
            ≡ evaluated (map (λ h. (attr, h)) hs ++ (handled registry stage attrs ++ es))
                frame.delta_meta ctx =
        λ es.
          ap (λ l. evaluated l frame.delta_meta ctx)
            (append_assoc (map (λ h. (attr, h)) hs) (handled registry stage attrs) es) in
      elim (Option-cases (evaluate_handlers ctx attr hs frame)) [
        | inl g ↦
            rw (g, Agrees, evaluate_attributes)
              (λ es. split es ∙ (rw g at first) (handled registry stage attrs ++ es))
        | inr ((next, after), g) ↦
            let (invisible, same) = rw g at first in
            rw (g, Agrees, evaluate_attributes)
              (Agrees-same _ _ (evaluate_attributes registry stage after attrs next)
                (λ es. split es ∙ same (handled registry stage attrs ++ es))
                (evaluate_attributes-Agrees registry stage after attrs next hidden invisible))
      ]

  applied :
      (registry : AttributeRegistry C Object) (stage : CompileStage) (node : Stmt)
      (f : AttrMetadata Object → Attribute → Stmt → Step C (AttrAction Object))
      (es : List (Attribute × AttrBase C Object)) (ctx : C) (r : Option (Frame Object × C))
      → Agrees (λ others. evaluated (es ++ others) [] ctx) r
      → behind_evaluation r (λ frame. for_active_attrs (frame ∷ empty_frame ∷ []) node f)
        ≡ left_alone node (evaluated es [] ctx)
  unfolding for_active_attrs for_local_attrs
  applied registry stage node f es ctx none h =
      rw (sym (ap (λ l. evaluated l [] ctx) (append-nil es)) ∙ h []) refl
  applied registry stage node f es ctx (some (frame, after)) (i, h) =
      for_local_attrs-AllInvisible _ _ frame.local_attrs node after i
      ∙ sym (ap (left_alone node) (sym (ap (λ l. evaluated l [] ctx) (append-nil es)) ∙ h []))

  -- Where no handler of a stage is recursive, the pipeline runs, with any fuel, `evaluate` of the
  -- handlers of the statement's attributes, from the last attribute to the first, each on the
  -- metadata and the context that the one before has left, and `transform` of none of them, though
  -- their attributes stand on the statement. It gives the statement back as it is, or panics where
  -- one of them does.
  pub apply-IsHidden :
      (fuel : ℕ) (registry : AttributeRegistry C Object) (ctx : C) (node : Stmt)
      (stage : CompileStage)
      → IsHidden registry stage
      → apply (suc fuel) registry ctx node stage (empty_frame ∷ [])
        ≡ left_alone node
            (evaluated (handled registry stage (reverse (get_attributes node))) [] ctx)
  unfolding apply
  apply-IsHidden fuel registry ctx node stage hidden =
      let attrs = reverse (get_attributes node) in
      applied registry stage node _ (handled registry stage attrs) ctx
        (evaluate_attributes registry stage ctx attrs empty_frame)
        (evaluate_attributes-Agrees registry stage ctx attrs empty_frame hidden tt)
