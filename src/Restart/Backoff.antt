-- ===== src/Restart/Backoff.antt =====
-- plugin/host/restart.go: the backoff is the initial one, doubled for each further attempt, up to the
-- maximum.
use spice_agent.Base.{
  if_intro, ℕ, zero, suc, ◌-◌, ◌+◌, ◌*◌, ◌/◌, ◌≤◌, ◌≡◌, refl, ap, ◌∙◌, ◌==◌, ◌||◌, ltb, leb, arith,
  Result, ok,
}
use spice_agent.Restart.Policy.{
  PolicyError, maximum_restart_attempts, RestartPolicy, maximum_operation_timeout, disabled,
  validate, twice, backoff_loop, min, backoff,
}

-- `value`, doubled so many times.
unfoldable pub doubled : ℕ → ℕ → ℕ
doubled zero value = value
doubled (suc times) value = 2 * doubled times value

doubled_twice : (times value : ℕ) → doubled times (2 * value) ≡ 2 * doubled times value
unfolding doubled
doubled_twice zero value = refl
doubled_twice (suc times) value = omega (arith, doubled_twice times value)

le_doubled : (times value : ℕ) → value ≤ doubled times value
unfolding doubled
le_doubled zero value = omega arith
le_doubled (suc times) value = omega (arith, le_doubled times value)

backoff_loop_lem :
    (rounds value maximum : ℕ)
    → value ≤ maximum
    → maximum ≤ maximum_operation_timeout
    → backoff_loop rounds value maximum ≡ min (doubled rounds value) maximum
unfolding backoff_loop doubled twice
backoff_loop_lem zero value maximum below small = ground arith
backoff_loop_lem (suc rounds) value maximum below small =
    if_intro (λ x. x ≡ min (2 * doubled rounds value) maximum) (ltb value maximum)
      (λ lower.
        if_intro (λ x. x ≡ min (2 * doubled rounds value) maximum) (ltb (maximum / 2) value)
          (λ high. ground (arith, le_doubled rounds value))
          (λ low.
            let exact : twice value ≡ 2 * value = ground arith in
            ap (λ v. backoff_loop rounds v maximum) exact
            ∙ backoff_loop_lem rounds (2 * value) maximum (ground arith) small
            ∙ ap (λ v. min v maximum) (doubled_twice rounds value)))
      (λ higher. ground (arith, le_doubled rounds value))

abbrev Bounded : RestartPolicy → Type 0
Bounded p =
    (p.initial_backoff ≤ p.maximum_backoff) × (p.maximum_backoff ≤ maximum_operation_timeout)

validate_bounds : (p q : RestartPolicy) → validate p ≡ ok q → Bounded p
unfolding validate disabled
validate_bounds p q =
    let Claim : Result PolicyError RestartPolicy → Type 0 = λ r. r ≡ ok q → Bounded p in
    if_intro Claim (disabled p) (λ off h. ground arith)
      (λ _.
        if_intro Claim (p.maximum_attempts == 0 || ltb maximum_restart_attempts p.maximum_attempts)
          (λ _ h. absurd (grind arith))
          (λ _.
            if_intro Claim
              (leb p.initial_backoff 0 || ltb maximum_operation_timeout p.initial_backoff)
              (λ _ h. absurd (grind arith))
              (λ _.
                if_intro Claim
                  (ltb p.maximum_backoff p.initial_backoff
                    || ltb maximum_operation_timeout p.maximum_backoff)
                  (λ _ h. absurd (grind arith)) (λ inside _. ground arith))))

min_again : (a b : ℕ) → min (min a b) b ≡ min a b
min_again a b = ground arith

-- For a policy that Validate accepts, the backoff of the first attempt is none, and that of each later
-- attempt is the initial backoff, doubled for every attempt after the second, or the maximum where
-- that is less.
pub backoff_lem :
    (p q : RestartPolicy) (further : ℕ)
    → validate p ≡ ok q
    → (backoff p 1 ≡ 0)
      × (backoff p (further + 2) ≡ min (doubled further p.initial_backoff) p.maximum_backoff)
unfolding backoff
backoff_lem p q further valid =
    let (below, small) = validate_bounds p q valid in
    let rounds : further + 2 - 2 ≡ further = omega arith in
    let capped = backoff_loop_lem further p.initial_backoff p.maximum_backoff below small in
    (
      refl,
      if_intro (λ x. x ≡ min (doubled further p.initial_backoff) p.maximum_backoff)
          (leb (further + 2) 1) (λ early. absurd (ground arith))
          (λ _.
            ap (λ n. min (backoff_loop n p.initial_backoff p.maximum_backoff) p.maximum_backoff)
              rounds
            ∙ ap (λ v. min v p.maximum_backoff) capped
            ∙ min_again (doubled further p.initial_backoff) p.maximum_backoff),
    )
