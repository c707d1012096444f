-- ===== src/Stage/Nesting.antt =====
-- stage/plan.go, ApplyToolDispatchDecorators: how a decorated dispatcher is built, and that it keeps the
-- definitions of its base.
use spice_agent.Base.{
  ◌≡◌, refl, subst, Bool, if_intro, List, [], ◌∷◌, Option, none, some, arith, Result, ok, err,
}
use spice_agent.Stage.Decorators.{
  Definition, PlanError, Dispatcher, frozen, definitions_of, Wrapped, panicked, nil, wrapped,
  same_definitions, snapshot_definitions, accept_definitions, accept_wrapped, decorate,
  decorate_all, decorate_base, apply_decorators, IsNested, innermost, around,
}

module _ {ℓ} {D : Type ℓ} (declared : D → Option (List Definition))
    (valid : Definition → Bool) where
  accept_definitions_lem :
      (ds : List Definition) (x : Dispatcher D) (own : Result PlanError (List Definition))
      (d : Dispatcher D)
      → accept_definitions declared valid ds x own ≡ ok d
      → frozen x ds ≡ d
  unfolding accept_definitions
  accept_definitions_lem ds x (err e) d h = absurd (grind arith)
  accept_definitions_lem ds x (ok own) d h =
      if_intro (λ (r : Result PlanError (Dispatcher D)). r ≡ ok d → frozen x ds ≡ d)
        (same_definitions ds own) (λ _ made. grind arith) (λ _ made. absurd (grind arith)) h

  accept_wrapped_lem :
      (ds : List Definition) (w : Wrapped D) (d : Dispatcher D)
      → accept_wrapped declared valid ds w ≡ ok d
      → (x : Dispatcher D) × (w ≡ wrapped x) × (frozen x ds ≡ d)
  unfolding accept_wrapped
  accept_wrapped_lem ds panicked d h = absurd (grind arith)
  accept_wrapped_lem ds nil d h = absurd (grind arith)
  accept_wrapped_lem ds (wrapped x) d h =
      (x, refl, accept_definitions_lem ds x (snapshot_definitions declared valid x) d h)

  decorate-IsNested :
      (ds : List Definition) (base : Dispatcher D) (w : Option (Dispatcher D → Wrapped D))
      (ws : List (Option (Dispatcher D → Wrapped D))) (r : Result PlanError (Dispatcher D))
      (d : Dispatcher D)
      → ((inner : Dispatcher D) → r ≡ ok inner → IsNested declared valid ds base ws inner)
      → decorate declared valid ds w r ≡ ok d
      → IsNested declared valid ds base (w ∷ ws) d
  unfolding decorate
  decorate-IsNested ds base w ws (err e) d before h = absurd (grind arith)
  decorate-IsNested ds base none ws (ok inner) d before h = absurd (grind arith)
  decorate-IsNested ds base (some wrap) ws (ok inner) d before h =
      let (x, made, same) = accept_wrapped_lem ds (wrap inner) d h in
      subst (IsNested declared valid ds base (some wrap ∷ ws)) same
        (around (before inner refl) made)

  decorate_all-IsNested :
      (ds : List Definition) (base : Dispatcher D) (ws : List (Option (Dispatcher D → Wrapped D)))
      (d : Dispatcher D)
      → decorate_all declared valid ds ws (frozen base ds) ≡ ok d
      → IsNested declared valid ds base ws d
  unfolding decorate_all
  decorate_all-IsNested ds base [] d h =
      let same : frozen base ds ≡ d = grind arith in
      subst (IsNested declared valid ds base []) same innermost
  decorate_all-IsNested ds base (w ∷ ws) d h =
      decorate-IsNested ds base w ws (decorate_all declared valid ds ws (frozen base ds)) d
        (decorate_all-IsNested ds base ws) h

  -- Whatever is nested declares the definitions that were frozen.
  nested_definitions :
      (ds : List Definition) (base : Dispatcher D) (ws : List (Option (Dispatcher D → Wrapped D)))
      (d : Dispatcher D)
      → IsNested declared valid ds base ws d
      → definitions_of declared d ≡ some ds
  unfolding definitions_of
  nested_definitions ds base _ _ innermost = refl
  nested_definitions ds base _ _ (around inner made) = refl

  decorate_base-IsNested :
      (ws : List (Option (Dispatcher D → Wrapped D))) (base d : Dispatcher D)
      (own : Result PlanError (List Definition))
      → decorate_base declared valid ws base own ≡ ok d
      → (ds : List Definition) × (own ≡ ok ds)
        × IsNested declared valid ds base ws d
        × (definitions_of declared d ≡ some ds)
  unfolding decorate_base
  decorate_base-IsNested ws base d (err e) h = absurd (grind arith)
  decorate_base-IsNested ws base d (ok ds) h =
      let nested = decorate_all-IsNested ds base ws d h in
      (ds, refl, nested, nested_definitions ds base ws d nested)

  -- A dispatcher that ApplyToolDispatchDecorators returns consists of all the decorators around the base,
  -- the first of them outermost, none of them nil, each given the frozen dispatcher that the later ones
  -- made; and it declares the definitions of the base, sorted and checked.
  pub apply_decorators-IsNested :
      (base d : Dispatcher D) (ws : List (Option (Dispatcher D → Wrapped D)))
      → apply_decorators declared valid (some base) ws ≡ ok d
      → (ds : List Definition) × (snapshot_definitions declared valid base ≡ ok ds)
        × IsNested declared valid ds base ws d
        × (definitions_of declared d ≡ some ds)
  unfolding apply_decorators
  apply_decorators-IsNested base d ws h =
      decorate_base-IsNested ws base d (snapshot_definitions declared valid base) h
