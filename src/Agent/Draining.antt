-- ===== src/Agent/Draining.antt =====
-- agent/agent.go, Close and Shutdown: what an engine that has been stopped does not do again.
use spice_agent.Base.{
  ℕ, ◌≡◌, refl, subst, ap, Bool, true, Bytes, [], Option, none, some, Result, arith, if_intro,
  delete_key,
}
use spice_agent.Agent.Ledger.{RunIdentityLedger, IdentityError, PreparedExecutionKind}
use spice_agent.Agent.Engine.{
  Engine, EngineError, is_empty, reserve_run_identity, abort_run_identity_reservation,
  retire_run_identity, activate_run_identity, commit_engine, unregister_run, complete_run_identity,
  abort_registered_run_identity,
}
use spice_agent.Agent.Lifecycle.{
  Admission, HandlePhase, ready, paused, running, aborting, finished, retired, gone, unissued,
  enter_phase, prepared_with, prepare, abort_locked, committed_with, commit_in, commit_paused,
  abort_in, abort_prepared, activated_with, activate_in, activate, abort_paused_in, abort_paused,
  unregistered_with, finalize_in, finalize, retired_with, retire_in, retire, stop_engine,
}
use spice_agent.Agent.Reached.{
  AdmissionCall, prepares, commits, aborts, activates, gives_up, finalizes, retires, stops,
}

-- Closed, with no active run.
pub record IsDrained (e : Engine) : Type 0 where
  pub shut : e.closed ≡ true
  pub none_active : e.active ≡ []

module _ (s : Admission) (v : IsDrained s.engine) where
  same : (l : RunIdentityLedger) → IsDrained (record (s.engine) { identities = l })
  same l = record { shut = v.shut; none_active = v.none_active }

  aborted : (t : ℕ) → IsDrained (abort_locked s s.engine t).engine
  unfolding abort_locked enter_phase abort_run_identity_reservation
  aborted t = same _

  prepare-IsDrained :
      (run : Bytes) (kind : PreparedExecutionKind) → IsDrained (prepare s run kind).engine
  unfolding prepare prepared_with reserve_run_identity
  prepare-IsDrained run kind =
      if_intro {A = Engine × Result EngineError ℕ} (λ x. IsDrained (prepared_with s run x).engine)
        s.engine.closed (λ _. v) (λ e. absurd (grind (arith, v.shut)))

  commit_in-IsDrained :
      (p : HandlePhase) (t : ℕ) (ended immediate : Bool)
      → IsDrained (commit_in p s t ended immediate).engine
  unfolding commit_in committed_with commit_engine
  commit_in-IsDrained ready t ended immediate =
      if_intro {A = Admission} (λ x. IsDrained x.engine) ended (λ _. aborted t)
        (λ _.
          if_intro {A = Engine × Option EngineError}
            (λ x. IsDrained (committed_with s t immediate x).engine) s.engine.closed
            (λ _. aborted t) (λ e. absurd (grind (arith, v.shut))))
  commit_in-IsDrained p t ended immediate = v

  abort_in-IsDrained : (p : HandlePhase) (t : ℕ) → IsDrained (abort_in p s t).engine
  unfolding abort_in
  abort_in-IsDrained ready t = aborted t
  abort_in-IsDrained p t = v

  activated-IsDrained :
      (t : ℕ) (l : RunIdentityLedger) (failure : Option IdentityError)
      → IsDrained (activated_with s t (record (s.engine) { identities = l }, failure)).engine
  unfolding activated_with enter_phase
  activated-IsDrained t l none = same l
  activated-IsDrained t l (some e) = same l

  activate_in-IsDrained : (p : HandlePhase) (t : ℕ) → IsDrained (activate_in p s t).engine
  unfolding activate_in activate_run_identity
  activate_in-IsDrained paused t =
      activated-IsDrained t (activate_run_identity s.engine (s.run_of t) t).0.identities
        (activate_run_identity s.engine (s.run_of t) t).1
  activate_in-IsDrained p t = v

  abort_paused_in-IsDrained : (p : HandlePhase) (t : ℕ) → IsDrained (abort_paused_in p s t).engine
  unfolding abort_paused_in enter_phase
  abort_paused_in-IsDrained paused t = v
  abort_paused_in-IsDrained p t = v

  retired-IsDrained :
      (t : ℕ) (l : RunIdentityLedger) (failure : Option IdentityError)
      → IsDrained (retired_with s t (record (s.engine) { identities = l }, failure)).engine
  unfolding retired_with enter_phase
  retired-IsDrained t l none = same l
  retired-IsDrained t l (some e) = same l

  retire_in-IsDrained : (p : HandlePhase) (t : ℕ) → IsDrained (retire_in p s t).engine
  unfolding retire_in retire_run_identity
  retire_in-IsDrained unissued t = v
  retire_in-IsDrained ready t = v
  retire_in-IsDrained retired t = v
  retire_in-IsDrained p t =
      retired-IsDrained t (retire_run_identity s.engine (s.run_of t) t).0.identities
        (retire_run_identity s.engine (s.run_of t) t).1

  unregistered-IsDrained :
      (t : ℕ) (p : HandlePhase) (x : RunIdentityLedger × Option IdentityError) (s' : Admission)
      → unregistered_with s t p (unregister_run s.engine (s.run_of t) x) ≡ some s'
      → IsDrained s'.engine
  unfolding unregister_run is_empty delete_key unregistered_with enter_phase
  unregistered-IsDrained t p (l, f) s' =
      let active = delete_key (s.run_of t) s.engine.active in
      let emptied : active ≡ [] = ap (delete_key (s.run_of t)) v.none_active in
      let left = record (s.engine) { identities = l; active = active } in
      let P : Option (Engine × Option IdentityError) → Type 0 =
        λ x. unregistered_with s t p x ≡ some s' → IsDrained s'.engine in
      if_intro P (is_empty active)
        (λ _.
          if_intro P s.engine.drained (λ _ h. absurd (grind arith))
            (λ _ h.
              let here : enter_phase s t p (record left { drained = true }) ≡ s' = cc in
              subst (λ (y : Admission). IsDrained y.engine) here
                (record { shut = v.shut; none_active = emptied })))
        (λ _ h.
          let here : enter_phase s t p left ≡ s' = cc in
          subst (λ (y : Admission). IsDrained y.engine) here
            (record { shut = v.shut; none_active = emptied }))

  finalize_in-IsDrained :
      (p : HandlePhase) (t : ℕ) (s' : Admission) → finalize_in p s t ≡ some s' → IsDrained s'.engine
  unfolding finalize_in complete_run_identity abort_registered_run_identity
  finalize_in-IsDrained running t s' h = unregistered-IsDrained t finished _ s' h
  finalize_in-IsDrained aborting t s' h = unregistered-IsDrained t gone _ s' h
  finalize_in-IsDrained p t s' h =
      let here : s ≡ s' = cc in subst (λ (x : Admission). IsDrained x.engine) here v

-- Once an engine is closed and has no active run, no call changes that: whatever its callers and the
-- holders of its handles do, it stays closed and no run is registered.
pub AdmissionCall-IsDrained :
    (s s' : Admission) → IsDrained s.engine → AdmissionCall s s' → IsDrained s'.engine
unfolding commit_paused abort_prepared activate abort_paused finalize retire stop_engine
AdmissionCall-IsDrained s _ v (prepares _ run kind short) = prepare-IsDrained s v run kind
AdmissionCall-IsDrained s _ v (commits _ t ended immediate) =
    commit_in-IsDrained s v (s.phase t) t ended immediate
AdmissionCall-IsDrained s _ v (aborts _ t) = abort_in-IsDrained s v (s.phase t) t
AdmissionCall-IsDrained s _ v (activates _ t) = activate_in-IsDrained s v (s.phase t) t
AdmissionCall-IsDrained s _ v (gives_up _ t) = abort_paused_in-IsDrained s v (s.phase t) t
AdmissionCall-IsDrained s s' v (finalizes _ _ t run) =
    finalize_in-IsDrained s v (s.phase t) t s' run
AdmissionCall-IsDrained s _ v (retires _ t) = retire_in-IsDrained s v (s.phase t) t
AdmissionCall-IsDrained s _ v (stops _) = record { shut = refl; none_active = v.none_active }
