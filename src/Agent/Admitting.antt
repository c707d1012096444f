-- ===== src/Agent/Admitting.antt =====
-- agent/agent.go, agent/prepared_execution.go: the calls of a handle on the engine do what they are for,
-- and the engine and the handles agree after each.
use spice_agent.Base.{
  ℕ, ◌≡◌, ◌≢◌, refl, sym, subst, ◌∙◌, true, false, Bool-cases, inl, inr, none, some, List, [], ◌∷◌,
  arith, Bytes, bytes_eq, bytes_eq_refl, find_key, put_key, delete_key, find-put_key,
  find-put_key_if, find-delete_key_if, if_false, put_key-HasDistinctKeys,
  delete_key-HasDistinctKeys,
}
use spice_agent.Agent.Ledger.{
  RunIdentityLedger, RunIdentityRecord, RunIdentityState, run_identity_reserved,
}
use spice_agent.Agent.Transitions.{remove_identity, transition}
use spice_agent.Agent.Counted.{IsCounted, engine_moves, remove_identity-IsCounted}
use spice_agent.Agent.Counting.{transition-IsCounted}
use spice_agent.Agent.Holding.{ChangesOnly, HeldAs}
use spice_agent.Agent.Engine.{Engine, is_empty, register_run, unregister_run}
use spice_agent.Agent.Lifecycle.{Admission, HandlePhase, enter_phase, put_at, unissued}
use spice_agent.Agent.Admission.{
  Agrees, IsAdmitted, Touches, Turns, active_as, issued_lem, turned-IsAdmitted,
}

pub enter_phase-Turns :
    (s : Admission) (t : ℕ) (p : HandlePhase) (e : Engine)
    → Turns s (enter_phase s t p e) (s.run_of t) t p
unfolding enter_phase put_at
enter_phase-Turns s t p e = record {
  here_run = refl;
  here_phase = ground arith;
  same_run = λ _. refl;
  else_run = λ u apart. refl;
  else_phase = λ u apart. ground arith;
}

one_held :
    (records : List (Bytes × RunIdentityRecord)) (run : Bytes) (t : ℕ) (st : RunIdentityState)
    → HeldAs records run t st
    → (r : RunIdentityRecord) → find_key run records ≡ some r
    → r.token ≡ t
one_held records run t st (r', f', token, state) r f = cc

module _ (s : Admission) (t : ℕ) (v : IsAdmitted s) where
  -- The record of the handle goes from one state to another.
  pub moved-Touches :
      (from to : RunIdentityState) (e' : Engine)
      → HeldAs s.engine.identities.records (s.run_of t) t from
      → HeldAs e'.identities.records (s.run_of t) t to
      → ((j : Bytes)
          → bytes_eq (s.run_of t) j ≡ false
          → find_key j e'.identities.records ≡ find_key j s.engine.identities.records)
      → ((j : Bytes)
          → bytes_eq (s.run_of t) j ≡ false
          → find_key j e'.active ≡ find_key j s.engine.active)
      → Touches s.engine e' (s.run_of t) t
  moved-Touches from to e' held held' changes active = record {
    elsewhere = changes;
    elsewhere_active = active;
    before = one_held s.engine.identities.records (s.run_of t) t from held;
    after = one_held e'.identities.records (s.run_of t) t to held';
  }

  -- The record of the handle goes away.
  pub removed-Touches :
      (from : RunIdentityState) (e' : Engine)
      → HeldAs s.engine.identities.records (s.run_of t) t from
      → find_key (s.run_of t) e'.identities.records ≡ none
      → ((j : Bytes)
          → bytes_eq (s.run_of t) j ≡ false
          → find_key j e'.identities.records ≡ find_key j s.engine.identities.records)
      → ((j : Bytes)
          → bytes_eq (s.run_of t) j ≡ false
          → find_key j e'.active ≡ find_key j s.engine.active)
      → Touches s.engine e' (s.run_of t) t
  removed-Touches from e' held lost changes active = record {
    elsewhere = changes;
    elsewhere_active = active;
    before = one_held s.engine.identities.records (s.run_of t) t from held;
    after = λ r f. cc;
  }

  -- A move in the ledger alone.
  pub moved-IsAdmitted :
      (p : HandlePhase) (from to : RunIdentityState) (l' : RunIdentityLedger)
      → engine_moves from to ≡ true
      → HeldAs s.engine.identities.records (s.run_of t) t from
      → transition s.engine.identities (s.run_of t) t from to ≡ (l', none)
      → HeldAs l'.records (s.run_of t) t to
      → ChangesOnly (s.run_of t) s.engine.identities l'
      → s.phase t ≢ unissued
      → Agrees (record (s.engine) { identities = l' }) (s.run_of t) t p
      → find_key (s.run_of t) s.engine.active ≡ active_as t p
      → IsAdmitted (enter_phase s t p (record (s.engine) { identities = l' }))
  unfolding enter_phase
  moved-IsAdmitted p from to l' allowed held run held' changes made here listed =
      turned-IsAdmitted s _ (s.run_of t) t p v (enter_phase-Turns s t p _)
        (moved-Touches from to _ held held' changes.elsewhere (λ j _. refl))
        (subst (λ x. IsCounted x.0) run
          (transition-IsCounted s.engine.identities (s.run_of t) t from to allowed v.counted))
        v.keyed_active here listed (omega (arith, changes.same_tokens))
        (omega (arith, changes.same_tokens, issued_lem s t v made)) v.drained_exact

  -- A removal in the ledger alone.
  pub removed-IsAdmitted :
      (p : HandlePhase) (from : RunIdentityState) (l' : RunIdentityLedger)
      → HeldAs s.engine.identities.records (s.run_of t) t from
      → remove_identity s.engine.identities (s.run_of t) t from ≡ (l', none)
      → find_key (s.run_of t) l'.records ≡ none
      → ChangesOnly (s.run_of t) s.engine.identities l'
      → s.phase t ≢ unissued
      → Agrees (record (s.engine) { identities = l' }) (s.run_of t) t p
      → find_key (s.run_of t) s.engine.active ≡ active_as t p
      → IsAdmitted (enter_phase s t p (record (s.engine) { identities = l' }))
  unfolding enter_phase
  removed-IsAdmitted p from l' held run lost changes made here listed =
      turned-IsAdmitted s _ (s.run_of t) t p v (enter_phase-Turns s t p _)
        (removed-Touches from _ held lost changes.elsewhere (λ j _. refl))
        (subst (λ x. IsCounted x.0) run
          (remove_identity-IsCounted s.engine.identities (s.run_of t) t from v.counted))
        v.keyed_active here listed (omega (arith, changes.same_tokens))
        (omega (arith, changes.same_tokens, issued_lem s t v made)) v.drained_exact

put_key-not_empty : (k : Bytes) (a : ℕ) (m : List (Bytes × ℕ)) → is_empty (put_key k a m) ≡ false
unfolding is_empty put_key
put_key-not_empty k a [] = refl
put_key-not_empty k a ((j, b) ∷ rest) = ground arith

found-not_empty :
    (k : Bytes) (a : ℕ) (m : List (Bytes × ℕ)) → find_key k m ≡ some a → is_empty m ≡ false
unfolding is_empty find_key
found-not_empty k a [] h = absurd (grind arith)
found-not_empty k a (x ∷ rest) h = refl

-- The engine with another ledger and the run registered.
pub registered-IsAdmitted :
    (s : Admission) (t : ℕ) (p : HandlePhase) (to : RunIdentityState) (l' : RunIdentityLedger)
    → IsAdmitted s
    → HeldAs s.engine.identities.records (s.run_of t) t run_identity_reserved
    → HeldAs l'.records (s.run_of t) t to
    → ChangesOnly (s.run_of t) s.engine.identities l'
    → IsCounted l'
    → s.phase t ≢ unissued
    → Agrees (register_run (record (s.engine) { identities = l' }) (s.run_of t) t) (s.run_of t) t p
    → active_as t p ≡ some t
    → IsAdmitted
        (enter_phase s t p (register_run (record (s.engine) { identities = l' }) (s.run_of t) t))
unfolding enter_phase register_run
registered-IsAdmitted s t p to l' v held held' changes counted made here on =
    let run = s.run_of t in
    turned-IsAdmitted s _ run t p v (enter_phase-Turns s t p _)
      (moved-Touches s t v run_identity_reserved to _ held held' changes.elsewhere
        (λ j away. find-put_key_if j run t s.engine.active ∙ if_false _ _ _ away))
      counted (put_key-HasDistinctKeys run t s.engine.active v.keyed_active) here
      (find-put_key run t s.engine.active ∙ sym on) (omega (arith, changes.same_tokens))
      (omega (arith, changes.same_tokens, issued_lem s t v made))
      (ground (arith, v.drained_exact, put_key-not_empty run t s.engine.active))

-- The engine with another ledger and the run struck out.
unfoldable pub struck_out : Engine → Bytes → RunIdentityLedger → Engine
unfolding is_empty
struck_out e run l' = record e {
  identities = l';
  active = delete_key run e.active;
  drained = is_empty (delete_key run e.active);
}

-- An engine that has the run among its active ones closes the channel only when it is still open.
pub unregister_lem :
    (e : Engine) (run : Bytes) (t : ℕ) (l' : RunIdentityLedger)
    → e.drained ≡ is_empty e.active
    → find_key run e.active ≡ some t
    → unregister_run e run (l', none) ≡ some (struck_out e run l', none)
unfolding unregister_run struck_out
unregister_lem e run t l' exact listed =
    let open' : e.drained ≡ false = exact ∙ found-not_empty run t e.active listed in
    elim (Bool-cases (is_empty (delete_key run e.active))) [
      | inl last ↦ ground (arith, open', last)
      | inr more ↦ ground (arith, open', more)
    ]

pub struck_out-IsAdmitted :
    (s : Admission) (t : ℕ) (p : HandlePhase) (l' : RunIdentityLedger)
    → IsAdmitted s
    → Touches s.engine (struck_out s.engine (s.run_of t) l') (s.run_of t) t
    → l'.next_token ≡ s.engine.identities.next_token
    → IsCounted l'
    → s.phase t ≢ unissued
    → Agrees (struck_out s.engine (s.run_of t) l') (s.run_of t) t p
    → active_as t p ≡ none
    → IsAdmitted (enter_phase s t p (struck_out s.engine (s.run_of t) l'))
unfolding enter_phase struck_out
struck_out-IsAdmitted s t p l' v touch same counted made here off =
    let run = s.run_of t in
    turned-IsAdmitted s _ run t p v (enter_phase-Turns s t p _) touch counted
      (delete_key-HasDistinctKeys run s.engine.active v.keyed_active) here
      (ground
        (arith, find-delete_key_if run run s.engine.active v.keyed_active, bytes_eq_refl run, off))
      (omega (arith, same)) (omega (arith, same, issued_lem s t v made)) refl

pub struck_elsewhere :
    (s : Admission) (t : ℕ) (l' : RunIdentityLedger)
    → IsAdmitted s
    → (j : Bytes) → bytes_eq (s.run_of t) j ≡ false
    → find_key j (struck_out s.engine (s.run_of t) l').active ≡ find_key j s.engine.active
unfolding struck_out
struck_elsewhere s t l' v j away =
    find-delete_key_if j (s.run_of t) s.engine.active v.keyed_active ∙ if_false _ _ _ away
