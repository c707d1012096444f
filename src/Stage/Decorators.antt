-- ===== src/Stage/Decorators.antt =====
-- stage/plan.go: snapshotDefinitions, sameDefinitions and ApplyToolDispatchDecorators. Dispatchers and
-- decorators are foreign values: a dispatcher is known by what Definitions answers, which may panic, and
-- a decorator by what Wrap makes of a dispatcher.
use spice_agent.Base.{
  ◌≡◌, Bool, true, false, ◌&&◌, not, if◌then◌else◌, List, [], ◌∷◌, Option, none, some, Bytes,
  bytes_eq, bytes_ltb, Result, ok, err,
}

-- What the stage reads of a tool.Definition.
pub record Definition : Type 0 where
  pub name : Bytes
  pub fingerprint : Bytes

pub data PlanError : Type 0 where
  no_dispatcher definitions_panicked definition_invalid not_sorted_and_unique : PlanError
  decorator_nil wrap_panicked decorator_returned_nil changed_definitions : PlanError

-- slices.SortFunc by name.
unfoldable pub insert_definition : Definition → List Definition → List Definition
insert_definition d [] = d ∷ []
insert_definition d (e ∷ es) =
    let later = insert_definition d es in if bytes_ltb e.name d.name then e ∷ later else d ∷ e ∷ es

unfoldable pub sort_definitions : List Definition → List Definition
unfolding insert_definition
sort_definitions [] = []
sort_definitions (d ∷ ds) = insert_definition d (sort_definitions ds)

-- validateDefinitions, with the name of the definition before; `valid` is Definition.Validate.
unfoldable pub validate_after :
    (Definition → Bool) → Option Bytes → List Definition → Option PlanError
validate_after valid before [] = none
validate_after valid none (d ∷ ds) =
    let later = validate_after valid (some d.name) ds in
    if not (valid d) then some definition_invalid else later
validate_after valid (some before) (d ∷ ds) =
    let later = validate_after valid (some d.name) ds in
    if not (valid d)
    then some definition_invalid
    else if not (bytes_ltb before d.name)
    then some not_sorted_and_unique
    else later

-- sameDefinitions
unfoldable pub same_definitions : List Definition → List Definition → Bool
same_definitions [] [] = true
same_definitions [] (r ∷ rs) = false
same_definitions (l ∷ ls) [] = false
same_definitions (l ∷ ls) (r ∷ rs) =
    bytes_eq l.name r.name && bytes_eq l.fingerprint r.fingerprint && same_definitions ls rs

-- A dispatcher of the stage: a foreign one, or definitionSnapshotDispatcher around a dispatcher.
pub data Dispatcher {ℓ} (D : Type ℓ) : Type ℓ where
  foreign : D → Dispatcher D
  frozen : Dispatcher D → List Definition → Dispatcher D

-- Definitions, where `none` is a panic.
unfoldable pub definitions_of {ℓ} :
    {D : Type ℓ} → (D → Option (List Definition)) → Dispatcher D → Option (List Definition)
definitions_of declared (foreign d) = declared d
definitions_of declared (frozen inner ds) = some ds

-- What Wrap makes of a dispatcher.
pub data Wrapped {ℓ} (D : Type ℓ) : Type ℓ where
  panicked nil : Wrapped D
  wrapped : Dispatcher D → Wrapped D

-- snapshotDefinitions, from the answer of Definitions.
unfoldable pub checked : (Definition → Bool) → List Definition → Result PlanError (List Definition)
unfolding validate_after
checked valid ds = elim (validate_after valid none ds) [ none ↦ ok ds | some e ↦ err e ]

unfoldable pub snapshot_answer :
    (Definition → Bool) → Option (List Definition) → Result PlanError (List Definition)
unfolding checked sort_definitions
snapshot_answer valid none = err definitions_panicked
snapshot_answer valid (some ds) = checked valid (sort_definitions ds)

module _ {ℓ} {D : Type ℓ} (declared : D → Option (List Definition))
    (valid : Definition → Bool) where
  unfoldable pub snapshot_definitions : Dispatcher D → Result PlanError (List Definition)
  unfolding snapshot_answer definitions_of
  snapshot_definitions d = snapshot_answer valid (definitions_of declared d)

  -- The tests on a wrapped dispatcher, from its own definitions.
  unfoldable pub accept_definitions :
      List Definition
      → Dispatcher D
      → Result PlanError (List Definition)
      → Result PlanError (Dispatcher D)
  unfolding same_definitions
  accept_definitions ds d (err e) = err e
  accept_definitions ds d (ok own) =
      if same_definitions ds own then ok (frozen d ds) else err changed_definitions

  unfoldable pub accept_wrapped : List Definition → Wrapped D → Result PlanError (Dispatcher D)
  unfolding accept_definitions snapshot_definitions
  accept_wrapped ds panicked = err wrap_panicked
  accept_wrapped ds nil = err decorator_returned_nil
  accept_wrapped ds (wrapped d) = accept_definitions ds d (snapshot_definitions d)

  -- One turn of the loop; a nil decorator is `none`.
  unfoldable pub decorate :
      List Definition
      → Option (Dispatcher D → Wrapped D)
      → Result PlanError (Dispatcher D)
      → Result PlanError (Dispatcher D)
  unfolding accept_wrapped
  decorate ds decorator (err e) = err e
  decorate ds none (ok current) = err decorator_nil
  decorate ds (some wrap) (ok current) = accept_wrapped ds (wrap current)

  -- The loop over the decorators from the last to the first.
  unfoldable pub decorate_all :
      List Definition
      → List (Option (Dispatcher D → Wrapped D))
      → Dispatcher D
      → Result PlanError (Dispatcher D)
  unfolding decorate
  decorate_all ds [] base = ok base
  decorate_all ds (w ∷ ws) base = decorate ds w (decorate_all ds ws base)

  unfoldable pub decorate_base :
      List (Option (Dispatcher D → Wrapped D))
      → Dispatcher D
      → Result PlanError (List Definition)
      → Result PlanError (Dispatcher D)
  unfolding decorate_all
  decorate_base decorators base (err e) = err e
  decorate_base decorators base (ok ds) = decorate_all ds decorators (frozen base ds)

  -- ApplyToolDispatchDecorators; a nil base is `none`.
  unfoldable pub apply_decorators :
      Option (Dispatcher D)
      → List (Option (Dispatcher D → Wrapped D))
      → Result PlanError (Dispatcher D)
  unfolding decorate_base snapshot_definitions
  apply_decorators none decorators = err no_dispatcher
  apply_decorators (some base) decorators =
      decorate_base decorators base (snapshot_definitions base)

  -- How the decorators are nested: around the frozen base with the definitions, the first one outermost,
  -- each called with the frozen dispatcher inside it.
  pub data IsNested (ds : List Definition) (base : Dispatcher D)
      : List (Option (Dispatcher D → Wrapped D)) → Dispatcher D → Type ℓ where
    innermost : IsNested ds base [] (frozen base ds)
    around :
        {wrap : Dispatcher D → Wrapped D} {ws : List (Option (Dispatcher D → Wrapped D))}
        {inner d : Dispatcher D}
        → IsNested ds base ws inner
        → wrap inner ≡ wrapped d
        → IsNested ds base (some wrap ∷ ws) (frozen d ds)
