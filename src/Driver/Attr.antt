-- ===== src/Driver/Attr.antt =====
-- crates/kuai-driver/src/attr: stages, metadata, environments, handlers (traits.rs) and the
-- registry (registry.rs). A handler is code that a user of the crate brings: a record of functions,
-- over the `Any` of its metadata values and the diagnostics that it reports.
use kuai.Prelude.{ℕ, Bool, true, false, Option, none, some, List, [], ◌∷◌, String, if◌then◌else◌}
use kuai.Syntax.Text.{str_eq}
use kuai.Syntax.Ast.{Attribute, attribute, Stmt}
use kuai.Outcome.{Outcome, ok, panicked, out_of_fuel}
use kuai.Driver.Diagnostic.{Diagnostic}

pub data CompileStage : Type 0 where
  raw resolved analyzed : CompileStage

abbrev pub stage_eq : CompileStage → CompileStage → Bool
stage_eq raw raw = true
stage_eq raw resolved = false
stage_eq raw analyzed = false
stage_eq resolved raw = false
stage_eq resolved resolved = true
stage_eq resolved analyzed = false
stage_eq analyzed raw = false
stage_eq analyzed resolved = false
stage_eq analyzed analyzed = true

pub data HandlerType : Type 0 where
  observer transformer finalizer : HandlerType

-- `Result<T, Vec<Diagnostic>>`
pub data Result (A : Type 0) : Type 0 where
  returned : A → Result A
  failed : List Diagnostic → Result A

-- What runs handlers, on the context `C`: it gives a result and what the context has become. The
-- handlers have a shared reference to it, behind which they may write the global scope.
abbrev pub Step : Type 0 → Type 0 → Type 0
Step C A = C → Outcome (Result A × C)

-- `m?` and what follows it.
abbrev pub try : {A B C : Type 0} → Outcome (Result A × C) → (A → Step C B) → Outcome (Result B × C)
try (ok (returned a, c)) f = f a c
try (ok (failed ds, c)) f = ok (failed ds, c)
try panicked f = panicked
try out_of_fuel f = out_of_fuel

-- The key of an attribute in the registry, and the name of its tag.
abbrev pub attribute_name : Attribute → String
attribute_name (attribute name args) = name

-- `Object` stands for `Box<dyn Any>`.
pub data Artifact (Object : Type 0) : Type 0 where
  source : String → Artifact Object
  binary : List ℕ → Artifact Object
  object : Object → Artifact Object

pub data AttrAction (Object : Type 0) : Type 0 where
  continue_with skip_children terminal : Stmt → AttrAction Object
  lowered : Artifact Object → AttrAction Object

-- A `HashMap<String, Box<dyn Any>>`, the latest value of a key first.
abbrev pub AttrMetadata : Type 0 → Type 0
AttrMetadata Object = List (String × Object)

module _ {Object : Type 0} where
  abbrev pub find : String → AttrMetadata Object → Option Object
  find key [] = none
  find key ((k, v) ∷ m) = if str_eq k key then some v else find key m

  unfoldable pub set : String → Object → AttrMetadata Object → AttrMetadata Object
  set key value m = (key, value) ∷ m

  -- `get::<T>`, where `downcast` gives the value if it is a `T`.
  unfoldable pub get : {T : Type 0} → (Object → Option T) → String → AttrMetadata Object → Option T
  get downcast key m = elim (find key m) [ none ↦ none | some v ↦ downcast v ]

-- The attributes of a node, each with its visibility, and the metadata that they set.
pub record Frame (Object : Type 0) : Type 0 where
  pub local_attrs : List (Attribute × Bool)
  pub delta_meta : AttrMetadata Object

-- An environment and its parents, innermost first.
abbrev pub AttrEnvironment : Type 0 → Type 0
AttrEnvironment Object = List (Frame Object)

abbrev pub or_else : {A : Type 0} → Option A → Option A → Option A
or_else (some a) o = some a
or_else none o = o

module _ {Object : Type 0} where
  unfoldable pub get_metadata :
      {T : Type 0} → (Object → Option T) → String → AttrEnvironment Object → Option T
  get_metadata downcast key [] = none
  get_metadata downcast key (env ∷ parents) =
      let outer = get_metadata downcast key parents in
      or_else (get downcast key env.delta_meta) outer

module _ {C Object : Type 0} where
  -- One attribute of a frame: `f` on the node, and on with the next unless it is told to stop.
  abbrev pub next_node :
      (Stmt → Step C (AttrAction Object)) → AttrAction Object → Step C (AttrAction Object)
  next_node more (continue_with n) ctx = more n ctx
  next_node more (skip_children n) ctx = ok (returned (skip_children n), ctx)
  next_node more (terminal n) ctx = ok (returned (terminal n), ctx)
  next_node more (lowered a) ctx = ok (returned (lowered a), ctx)

  unfoldable pub for_local_attrs :
      (Attribute → Stmt → Step C (AttrAction Object))
      → (Stmt → Step C (AttrAction Object))
      → List (Attribute × Bool)
      → Stmt
      → Step C (AttrAction Object)
  for_local_attrs f after [] node ctx = after node ctx
  for_local_attrs f after ((attr, visible) ∷ attrs) node ctx =
      let more : Stmt → Step C (AttrAction Object) = for_local_attrs f after attrs in
      if visible then try (f attr node ctx) (next_node more) else more node ctx

  unfoldable pub for_active_attrs :
      AttrEnvironment Object
      → Stmt
      → (AttrMetadata Object → Attribute → Stmt → Step C (AttrAction Object))
      → Step C (AttrAction Object)
  for_active_attrs [] node f ctx = ok (returned (continue_with node), ctx)
  for_active_attrs (env ∷ parents) node f ctx =
      for_local_attrs (f env.delta_meta) (λ n. for_active_attrs parents n f) env.local_attrs node
        ctx

-- `trait AttrEngine` on the context `C`.
abbrev pub AttrEngine : Type 0 → Type 0 → Type 0
AttrEngine C Object =
    C → Stmt → CompileStage → AttrEnvironment Object → Outcome (Result (AttrAction Object) × C)

-- `trait AttrBase`: an attribute's handler. `evaluate` gives the metadata and the context that it
-- leaves, and `none` where it panics; `transform` may call the engine.
pub record AttrBase (C Object : Type 0) : Type 0 where
  pub name : String
  pub handler_type : HandlerType
  pub stage : CompileStage
  pub is_recursive : Bool
  pub evaluate : C → Attribute → AttrMetadata Object → Option (AttrMetadata Object × C)
  pub transform :
      C
      → AttrEngine C Object
      → Attribute
      → Stmt
      → AttrMetadata Object
      → Outcome (Result (AttrAction Object) × C)

-- A `HashMap<String, Vec<Box<dyn AttrBase>>>`.
pub record AttributeRegistry (C Object : Type 0) : Type 0 where
  pub handlers : List (String × List (AttrBase C Object))

module _ {C Object : Type 0} where
  unfoldable pub new_registry : AttributeRegistry C Object
  new_registry = record { handlers = [] }

  abbrev pub registered :
      String → List (String × List (AttrBase C Object)) → List (AttrBase C Object)
  registered attr_name [] = []
  registered attr_name ((k, hs) ∷ m) = if str_eq k attr_name then hs else registered attr_name m

  abbrev pub at_stage : CompileStage → List (AttrBase C Object) → List (AttrBase C Object)
  at_stage stage [] = []
  at_stage stage (h ∷ hs) =
      if stage_eq h.stage stage then h ∷ at_stage stage hs else at_stage stage hs

  unfoldable pub get_handlers :
      AttributeRegistry C Object → String → CompileStage → List (AttrBase C Object)
  get_handlers r attr_name stage = at_stage stage (registered attr_name r.handlers)
