-- ===== src/Agent/Handles.antt =====
-- agent/agent.go, agent/prepared_execution.go, agent/run_identity.go: each call that a handle makes in its
-- state on the engine succeeds, without a panic.
use spice_agent.Base.{
  ℕ, ◌≡◌, ◌≢◌, refl, sym, subst, ap, ◌∙◌, Bool, true, false, if◌then◌else◌, none, some, arith,
  find_key,
}
use spice_agent.Agent.Ledger.{
  RunIdentityRecord, run_identity_active, run_identity_reserved, run_identity_tombstone,
}
use spice_agent.Agent.Transitions.{abort_identity, retire_identity}
use spice_agent.Agent.Counted.{IsCounted, engine_moves, remove_identity-IsCounted}
use spice_agent.Agent.Counting.{transition-IsCounted}
use spice_agent.Agent.Holding.{remove-HeldAs, transition-HeldAs}
use spice_agent.Agent.Engine.{
  Engine, abort_registered_run_identity, abort_run_identity_reservation, activate_run_identity,
  commit_engine, complete_run_identity, register_moved, register_run, retire_run_identity,
  unregister_run,
}
use spice_agent.Agent.Lifecycle.{
  Admission, HandlePhase, aborting, enter_phase, finished, gone, paused, ready, retired, running,
  unissued,
}
use spice_agent.Agent.Admission.{
  Agrees, IsAdmitted, active_as, issued_lem, turned-IsAdmitted, unlisted_lem,
}
use spice_agent.Agent.Admitting.{
  enter_phase-Turns, moved-IsAdmitted, moved-Touches, registered-IsAdmitted, removed-IsAdmitted,
  removed-Touches, struck_elsewhere, struck_out, struck_out-IsAdmitted, unregister_lem,
}

made_lem : (p q : HandlePhase) → p ≡ q → q ≢ unissued → p ≢ unissued
made_lem p q h k e = k (sym h ∙ e)

module _ (s : Admission) (t : ℕ) (v : IsAdmitted s) where
  -- What the engine keeps for the handle in the state that it is in.
  now : (p : HandlePhase) → s.phase t ≡ p → Agrees s.engine (s.run_of t) t p
  now p h = subst (Agrees s.engine (s.run_of t) t) h (v.agrees t)

  pub unlisted :
      (p : HandlePhase)
      → s.phase t ≡ p
      → active_as t p ≡ none
      → (r : RunIdentityRecord) × (find_key (s.run_of t) s.engine.identities.records ≡ some r)
        × (r.token ≡ t)
      → find_key (s.run_of t) s.engine.active ≡ none
  unlisted p h off (r, f, token) = unlisted_lem s t r v f token (ap (active_as t) h ∙ off)

  pub aborts_lem :
      s.phase t ≡ ready
      → (e' : Engine) × (abort_run_identity_reservation s.engine (s.run_of t) t ≡ (e', none))
        × IsAdmitted (enter_phase s t gone e')
  unfolding abort_run_identity_reservation abort_identity active_as
  aborts_lem h =
      let held = now ready h in
      let (l', run, lost, changes) =
        remove-HeldAs s.engine.identities (s.run_of t) t run_identity_reserved v.counted.keyed
          held in
      (
        record (s.engine) { identities = l' },
        ap (λ x. (record (s.engine) { identities = x.0 }, x.1)) run,
        removed-IsAdmitted s t v gone run_identity_reserved l' held run lost changes
            (made_lem (s.phase t) ready h (cc)) (λ r f. cc)
            (unlisted ready h refl (held.0, held.1, held.2)),
      )

  pub activates_lem :
      s.phase t ≡ paused
      → (e' : Engine) × (activate_run_identity s.engine (s.run_of t) t ≡ (e', none))
        × IsAdmitted (enter_phase s t running e')
  unfolding activate_run_identity active_as engine_moves
  activates_lem h =
      let held = now paused h in
      let (l', run, held', changes) =
        transition-HeldAs s.engine.identities (s.run_of t) t run_identity_reserved
          run_identity_active refl held in
      (
        record (s.engine) { identities = l' },
        ap (λ x. (record (s.engine) { identities = x.0 }, x.1)) run,
        moved-IsAdmitted s t v running run_identity_reserved run_identity_active l' refl held run
            held' changes (made_lem (s.phase t) paused h (cc)) held'
            (v.listed t t (ap (active_as t) h)),
      )

  pub commits_lem :
      (immediate : Bool)
      → s.phase t ≡ ready
      → s.engine.closed ≡ false
      → (e' : Engine) × (commit_engine s.engine (s.run_of t) t immediate ≡ (e', none))
        × IsAdmitted (enter_phase s t (if immediate then running else paused) e')
  unfolding commit_engine register_moved active_as engine_moves
  commits_lem true h is_open =
      let held = now ready h in
      let (l', run, held', changes) =
        transition-HeldAs s.engine.identities (s.run_of t) t run_identity_reserved
          run_identity_active refl held in
      (
        register_run (record (s.engine) { identities = l' }) (s.run_of t) t,
        ground (arith, is_open, run),
        registered-IsAdmitted s t running run_identity_active l' v held held' changes
            (subst (λ x. IsCounted x.0) run
              (transition-IsCounted s.engine.identities (s.run_of t) t run_identity_reserved
                run_identity_active refl v.counted))
            (made_lem (s.phase t) ready h (cc)) held' refl,
      )
  commits_lem false h is_open =
      let held = now ready h in
      (
        register_run s.engine (s.run_of t) t,
        ground (arith, is_open),
        registered-IsAdmitted s t paused run_identity_reserved s.engine.identities v held held
            (record { elsewhere = λ j _. refl; same_tokens = refl }) v.counted
            (made_lem (s.phase t) ready h (cc)) held refl,
      )

  pub completes_lem :
      s.phase t ≡ running
      → (e' : Engine) × (complete_run_identity s.engine (s.run_of t) t ≡ some (e', none))
        × IsAdmitted (enter_phase s t finished e')
  unfolding complete_run_identity active_as engine_moves struck_out
  completes_lem h =
      let held = now running h in
      let (l', run, held', changes) =
        transition-HeldAs s.engine.identities (s.run_of t) t run_identity_active
          run_identity_tombstone refl held in
      (
        struck_out s.engine (s.run_of t) l',
        ap (unregister_run s.engine (s.run_of t)) run
            ∙ unregister_lem s.engine (s.run_of t) t l' v.drained_exact
                (v.listed t t (ap (active_as t) h)),
        struck_out-IsAdmitted s t finished l' v
            (moved-Touches s t v run_identity_active run_identity_tombstone _ held held'
              changes.elsewhere (struck_elsewhere s t l' v))
            changes.same_tokens
            (subst (λ x. IsCounted x.0) run
              (transition-IsCounted s.engine.identities (s.run_of t) t run_identity_active
                run_identity_tombstone refl v.counted))
            (made_lem (s.phase t) running h (cc)) held' refl,
      )

  pub inert_lem :
      s.phase t ≡ aborting
      → (e' : Engine) × (abort_registered_run_identity s.engine (s.run_of t) t ≡ some (e', none))
        × IsAdmitted (enter_phase s t gone e')
  unfolding abort_registered_run_identity abort_identity active_as struck_out
  inert_lem h =
      let held = now aborting h in
      let (l', run, lost, changes) =
        remove-HeldAs s.engine.identities (s.run_of t) t run_identity_reserved v.counted.keyed
          held in
      (
        struck_out s.engine (s.run_of t) l',
        ap (unregister_run s.engine (s.run_of t)) run
            ∙ unregister_lem s.engine (s.run_of t) t l' v.drained_exact
                (v.listed t t (ap (active_as t) h)),
        struck_out-IsAdmitted s t gone l' v
            (removed-Touches s t v run_identity_reserved _ held lost changes.elsewhere
              (struck_elsewhere s t l' v))
            changes.same_tokens
            (subst (λ x. IsCounted x.0) run
              (remove_identity-IsCounted s.engine.identities (s.run_of t) t run_identity_reserved
                v.counted))
            (made_lem (s.phase t) aborting h (cc)) (λ r f. cc) refl,
      )

  pub retires_lem :
      s.phase t ≡ finished
      → (e' : Engine) × (retire_run_identity s.engine (s.run_of t) t ≡ (e', none))
        × IsAdmitted (enter_phase s t retired e')
  unfolding retire_run_identity retire_identity active_as
  retires_lem h =
      let held = now finished h in
      let (l', run, lost, changes) =
        remove-HeldAs s.engine.identities (s.run_of t) t run_identity_tombstone v.counted.keyed
          held in
      (
        record (s.engine) { identities = l' },
        ap (λ x. (record (s.engine) { identities = x.0 }, x.1)) run,
        removed-IsAdmitted s t v retired run_identity_tombstone l' held run lost changes
            (made_lem (s.phase t) finished h (cc)) (λ r f. cc)
            (unlisted finished h refl (held.0, held.1, held.2)),
      )

  pub gives_up_lem : s.phase t ≡ paused → IsAdmitted (enter_phase s t aborting s.engine)
  unfolding active_as enter_phase
  gives_up_lem h =
      let held = now paused h in
      turned-IsAdmitted s _ (s.run_of t) t aborting v (enter_phase-Turns s t aborting s.engine)
        (moved-Touches s t v run_identity_reserved run_identity_reserved s.engine held held
          (λ j _. refl) (λ j _. refl))
        v.counted v.keyed_active held (v.listed t t (ap (active_as t) h)) (omega arith)
        (issued_lem s t v (made_lem (s.phase t) paused h (cc))) v.drained_exact
