-- ===== src/Driver/Pipeline.antt =====
-- crates/kuai-driver/src/pipeline.rs: the handlers of a statement's attributes, run on it. A
-- handler may call the engine that runs it, so the nesting of such calls is bounded by fuel.
use kuai.Prelude.{
  ℕ, zero, suc, Option, none, some, Bool, true, false, List, [], ◌∷◌, reverse, push, if◌then◌else◌,
}
use kuai.Syntax.Ast.{Attribute, Stmt, stmt}
use kuai.Outcome.{Outcome, ok, panicked, out_of_fuel}
use kuai.Driver.Attr.{
  CompileStage, Result, returned, Step, try, attribute_name, AttrAction, continue_with,
  skip_children, terminal, lowered, AttrMetadata, Frame, for_active_attrs, AttrEngine, AttrBase,
  AttributeRegistry, get_handlers,
}

-- `Stmt::get_attributes`
abbrev pub get_attributes : Stmt → List Attribute
get_attributes (stmt attrs s) = attrs

module _ {Object : Type 0} where
  abbrev pub empty_frame : Frame Object
  empty_frame = record { local_attrs = []; delta_meta = [] }

module _ {C Object : Type 0} where
  -- The action of one handler: with the others on the node, or an early return.
  abbrev pub next_handler :
      Bool
      → (Bool → Stmt → Step C (AttrAction Object))
      → AttrAction Object
      → Step C (AttrAction Object)
  next_handler skip_child more (continue_with n) ctx = more skip_child n ctx
  next_handler skip_child more (skip_children n) ctx = more true n ctx
  next_handler skip_child more (terminal n) ctx = ok (returned (terminal n), ctx)
  next_handler skip_child more (lowered a) ctx = ok (returned (lowered a), ctx)

  -- `evaluate` of each handler of an attribute, in order, with an entry of the attribute for each.
  unfoldable pub evaluate_handlers :
      C → Attribute → List (AttrBase C Object) → Frame Object → Option (Frame Object × C)
  evaluate_handlers ctx attr [] frame = some (frame, ctx)
  evaluate_handlers ctx attr (h ∷ hs) frame = elim (h.evaluate ctx attr frame.delta_meta) [
    | none ↦ none
    | some (meta, after) ↦
        evaluate_handlers after attr hs (record {
          local_attrs = push frame.local_attrs (attr, h.is_recursive);
          delta_meta = meta;
        })
  ]

  unfoldable pub evaluate_attributes :
      AttributeRegistry C Object
      → CompileStage
      → C
      → List Attribute
      → Frame Object
      → Option (Frame Object × C)
  evaluate_attributes registry stage ctx [] frame = some (frame, ctx)
  evaluate_attributes registry stage ctx (attr ∷ attrs) frame =
      elim (evaluate_handlers ctx attr (get_handlers registry (attribute_name attr) stage) frame) [
        | none ↦ none
        | some (next, after) ↦ evaluate_attributes registry stage after attrs next
      ]

  -- `transform` of each handler of an attribute, in order.
  unfoldable pub run_handlers :
      AttrEngine C Object
      → AttrMetadata Object
      → Attribute
      → List (AttrBase C Object)
      → Bool
      → Stmt
      → Step C (AttrAction Object)
  run_handlers engine meta attr [] skip_child input ctx =
      ok (returned (if skip_child then skip_children input else continue_with input), ctx)
  run_handlers engine meta attr (h ∷ hs) skip_child input ctx =
      try (h.transform ctx engine attr input meta)
        (next_handler skip_child (run_handlers engine meta attr hs))

  -- What stands behind the evaluation of a statement's attributes.
  abbrev pub behind_evaluation :
      Option (Frame Object × C)
      → (Frame Object → Step C (AttrAction Object))
      → Outcome (Result (AttrAction Object) × C)
  behind_evaluation none f = panicked
  behind_evaluation (some (frame, after)) f = f frame after

  -- `Pipeline::apply`
  unfoldable pub apply : ℕ → AttributeRegistry C Object → AttrEngine C Object
  apply zero registry ctx node stage env = out_of_fuel
  apply (suc fuel) registry ctx node stage env =
      behind_evaluation
        (evaluate_attributes registry stage ctx (reverse (get_attributes node)) empty_frame)
        λ frame. for_active_attrs (frame ∷ env) node λ meta attr.
          run_handlers (apply fuel registry) meta attr
            (get_handlers registry (attribute_name attr) stage) false
