-- ===== src/Agent/Steps.antt =====
-- agent/prepared_execution.go: what each call of a handle leaves.
use spice_agent.Base.{
  if_intro, ℕ, ◌≡◌, ◌≢◌, refl, sym, subst, ap, ◌∙◌, Bool, true, Bool-cases, inl, inr, some, arith,
}
use spice_agent.Agent.Ledger.{run_identity_state_invalid, run_identity_tombstone}
use spice_agent.Agent.Transitions.{retire_identity}
use spice_agent.Agent.Holding.{remove-refused}
use spice_agent.Agent.Engine.{commit_engine, engine_closed, retire_run_identity}
use spice_agent.Agent.Lifecycle.{
  Admission, HandlePhase, abort_in, abort_locked, abort_paused, abort_paused_in, abort_prepared,
  aborting, activate, activate_in, activated_with, commit_in, commit_paused, committed_with,
  enter_phase, finalize, finalize_in, finished, gone, paused, ready, retire, retire_in, retired,
  retired_with, running, stop_engine, unissued, unregistered_with,
}
use spice_agent.Agent.Admission.{Agrees, IsAdmitted}
use spice_agent.Agent.Handles.{
  aborts_lem, activates_lem, commits_lem, completes_lem, gives_up_lem, inert_lem, retires_lem,
}
use spice_agent.Agent.Preparing.{no_tombstone}

committed_ready-IsAdmitted :
    (s : Admission) (t : ℕ) (immediate : Bool)
    → IsAdmitted s
    → s.phase t ≡ ready
    → IsAdmitted (abort_locked s s.engine t)
    → IsAdmitted (committed_with s t immediate (commit_engine s.engine (s.run_of t) t immediate))
unfolding committed_with abort_locked commit_engine
committed_ready-IsAdmitted s t immediate v h dropped = elim (Bool-cases s.engine.closed) [
  | inl shut ↦
      subst (λ x. IsAdmitted (committed_with s t immediate x))
        (sym (
          let answer : commit_engine s.engine (s.run_of t) t immediate
              ≡ (s.engine, some engine_closed) =
            ground (arith, shut) in
          answer))
        dropped
  | inr is_open ↦
      let (e', run, sound) = commits_lem s t v immediate h is_open in
      subst (λ x. IsAdmitted (committed_with s t immediate x)) (sym run) sound
]

pub commit_paused-IsAdmitted :
    (s : Admission) (t : ℕ) (ended immediate : Bool)
    → IsAdmitted s
    → IsAdmitted (commit_paused s t ended immediate)
unfolding commit_paused commit_in abort_locked
commit_paused-IsAdmitted s t ended immediate v = by_phase (s.phase t) refl
  where
    by_phase : (p : HandlePhase) → s.phase t ≡ p → IsAdmitted (commit_in p s t ended immediate)
    by_phase ready h =
        let (e', run, sound) = aborts_lem s t v h in
        let dropped : IsAdmitted (abort_locked s s.engine t) =
          subst (λ x. IsAdmitted (enter_phase s t gone x.0)) (sym run) sound in
        if_intro IsAdmitted ended (λ _. dropped)
          (λ _. committed_ready-IsAdmitted s t immediate v h dropped)
    by_phase p h = v

pub abort_prepared-IsAdmitted :
    (s : Admission) (t : ℕ) → IsAdmitted s → IsAdmitted (abort_prepared s t)
unfolding abort_prepared abort_in abort_locked
abort_prepared-IsAdmitted s t v = by_phase (s.phase t) refl
  where
    by_phase : (p : HandlePhase) → s.phase t ≡ p → IsAdmitted (abort_in p s t)
    by_phase ready h =
        let (e', run, sound) = aborts_lem s t v h in
        subst (λ x. IsAdmitted (enter_phase s t gone x.0)) (sym run) sound
    by_phase p h = v

pub activate-IsAdmitted : (s : Admission) (t : ℕ) → IsAdmitted s → IsAdmitted (activate s t)
unfolding activate activate_in activated_with
activate-IsAdmitted s t v = by_phase (s.phase t) refl
  where
    by_phase : (p : HandlePhase) → s.phase t ≡ p → IsAdmitted (activate_in p s t)
    by_phase paused h =
        let (e', run, sound) = activates_lem s t v h in
        subst (λ x. IsAdmitted (activated_with s t x)) (sym run) sound
    by_phase p h = v

pub abort_paused-IsAdmitted : (s : Admission) (t : ℕ) → IsAdmitted s → IsAdmitted (abort_paused s t)
unfolding abort_paused abort_paused_in
abort_paused-IsAdmitted s t v = by_phase (s.phase t) refl
  where
    by_phase : (p : HandlePhase) → s.phase t ≡ p → IsAdmitted (abort_paused_in p s t)
    by_phase paused h = gives_up_lem s t v h
    by_phase p h = v

-- Retire of a run that is not a finished one is refused, and changes nothing.
pub retire-refused :
    (s : Admission) (t : ℕ)
    → IsAdmitted s
    → s.phase t ≢ unissued
    → s.phase t ≢ finished
    → retire_run_identity s.engine (s.run_of t) t ≡ (s.engine, some run_identity_state_invalid)
unfolding retire_run_identity retire_identity
retire-refused s t v made early =
    ap (λ x. (record (s.engine) { identities = x.0 }, x.1))
      (remove-refused s.engine.identities (s.run_of t) t run_identity_tombstone
        (no_tombstone s.engine (s.run_of t) t (s.phase t) made early (v.agrees t)))

pub retire-IsAdmitted : (s : Admission) (t : ℕ) → IsAdmitted s → IsAdmitted (retire s t)
unfolding retire retire_in retired_with
retire-IsAdmitted s t v = by_phase (s.phase t) refl
  where
    refused :
        (p : HandlePhase)
        → s.phase t ≡ p
        → p ≢ unissued
        → p ≢ finished
        → IsAdmitted (retired_with s t (retire_run_identity s.engine (s.run_of t) t))
    refused p h made early =
        subst (λ x. IsAdmitted (retired_with s t x))
          (sym (retire-refused s t v (λ e. made (sym h ∙ e)) (λ e. early (sym h ∙ e)))) v

    by_phase : (p : HandlePhase) → s.phase t ≡ p → IsAdmitted (retire_in p s t)
    by_phase unissued h = v
    by_phase ready h = v
    by_phase retired h = v
    by_phase finished h =
        let (e', run, sound) = retires_lem s t v h in
        subst (λ x. IsAdmitted (retired_with s t x)) (sym run) sound
    by_phase p h = refused p h (cc) (cc)

-- The end of a run does not panic, whatever the state of its handle, and leaves the two in agreement.
pub finalize-IsAdmitted :
    (s : Admission) (t : ℕ)
    → IsAdmitted s
    → (s' : Admission) × (finalize s t ≡ some s') × IsAdmitted s'
unfolding finalize finalize_in unregistered_with
finalize-IsAdmitted s t v = by_phase (s.phase t) refl
  where
    by_phase :
        (p : HandlePhase)
        → s.phase t ≡ p
        → (s' : Admission) × (finalize_in p s t ≡ some s') × IsAdmitted s'
    by_phase running h =
        let (e', run, sound) = completes_lem s t v h in
        (enter_phase s t finished e', ap (unregistered_with s t finished) run, sound)
    by_phase aborting h =
        let (e', run, sound) = inert_lem s t v h in
        (enter_phase s t gone e', ap (unregistered_with s t gone) run, sound)
    by_phase p h = (s, refl, v)

pub stop_engine-IsAdmitted : (s : Admission) → IsAdmitted s → IsAdmitted (stop_engine s)
unfolding stop_engine
stop_engine-IsAdmitted s v = record {
  counted = v.counted;
  keyed_active = v.keyed_active;
  agrees = λ t. held_same (s.phase t) t (v.agrees t);
  listed = v.listed;
  known = v.known;
  later = v.later;
  drained_exact = v.drained_exact;
}
  where
    held_same :
        (p : HandlePhase) (t : ℕ)
        → Agrees s.engine (s.run_of t) t p
        → Agrees (record (s.engine) { closed = true }) (s.run_of t) t p
    held_same unissued t h = h
    held_same p t h = h
