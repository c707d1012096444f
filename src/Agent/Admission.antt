-- ===== src/Agent/Admission.antt =====
-- agent/agent.go, agent/prepared_execution.go: what the engine keeps agrees with the states of the
-- handles, whatever one handle does.
use spice_agent.Base.{
  ℕ, ◌≤◌, ◌<◌, ◌≡◌, ◌≢◌, refl, sym, subst, ap, ◌∙◌, false, Bool-cases, inl, inr, Option, none, some,
  arith, Bytes, bytes_eq, bytes_eq_iff, find_key, HasDistinctKeys, ℕ_discrete,
}
use native.Mathlib.Decide.{dec_lt}
use spice_agent.Agent.Ledger.{
  RunIdentityRecord, RunIdentityState, run_identity_active, run_identity_reserved,
  run_identity_tombstone,
}
use spice_agent.Agent.Counted.{IsCounted}
use spice_agent.Agent.Holding.{HeldAs, IsGone}
use spice_agent.Agent.Engine.{Engine, is_empty}
use spice_agent.Agent.Lifecycle.{
  Admission, HandlePhase, aborting, finished, gone, paused, ready, retired, running, unissued,
}

-- The entry of a run among the active ones.
unfoldable pub active_as : ℕ → HandlePhase → Option ℕ
active_as t paused = some t
active_as t running = some t
active_as t aborting = some t
active_as t _ = none

-- What the engine keeps for a handle, by its state.
abbrev pub Agrees : Engine → Bytes → ℕ → HandlePhase → Type 0
Agrees e run t unissued = Unit
Agrees e run t ready = HeldAs e.identities.records run t run_identity_reserved
Agrees e run t paused = HeldAs e.identities.records run t run_identity_reserved
Agrees e run t aborting = HeldAs e.identities.records run t run_identity_reserved
Agrees e run t running = HeldAs e.identities.records run t run_identity_active
Agrees e run t finished = HeldAs e.identities.records run t run_identity_tombstone
Agrees e run t retired = IsGone e.identities.records run t
Agrees e run t gone = IsGone e.identities.records run t

pub record IsAdmitted (s : Admission) : Type 0 where
  pub counted : IsCounted s.engine.identities
  pub keyed_active : HasDistinctKeys s.engine.active
  pub agrees : (t : ℕ) → Agrees s.engine (s.run_of t) t (s.phase t)
  pub listed :
      (t : ℕ) (u : ℕ)
      → active_as t (s.phase t) ≡ some u
      → find_key (s.run_of t) s.engine.active ≡ some u
  pub known :
      (k : Bytes) (t : ℕ)
      → find_key k s.engine.active ≡ some t
      → (s.run_of t ≡ k) × (active_as t (s.phase t) ≡ some t)
  pub later : (t : ℕ) → s.engine.identities.next_token < t → s.phase t ≡ unissued
  pub drained_exact : s.engine.drained ≡ is_empty s.engine.active

-- A change of the engine for one handle: the records of its run are its own, before and after.
pub record Touches (e e' : Engine) (run : Bytes) (t : ℕ) : Type 0 where
  pub elsewhere :
      (j : Bytes)
      → bytes_eq run j ≡ false
      → find_key j e'.identities.records ≡ find_key j e.identities.records
  pub elsewhere_active :
      (j : Bytes) → bytes_eq run j ≡ false → find_key j e'.active ≡ find_key j e.active
  pub before : (r : RunIdentityRecord) → find_key run e.identities.records ≡ some r → r.token ≡ t
  pub after : (r : RunIdentityRecord) → find_key run e'.identities.records ≡ some r → r.token ≡ t

module _ (e e' : Engine) (run : Bytes) (t : ℕ) (touch : Touches e e' run t) (other : Bytes)
    (u : ℕ) where
  HeldAs-kept :
      (st : RunIdentityState)
      → u ≢ t
      → HeldAs e.identities.records other u st
      → HeldAs e'.identities.records other u st
  HeldAs-kept st apart (r, f, token, state) = elim (Bool-cases (bytes_eq run other)) [
    | inl same ↦ absurd (
        apart (
          sym token
          ∙ touch.before r (
              subst (λ x. find_key x e.identities.records ≡ some r)
                (sym ((bytes_eq_iff run other).0 same)) f)))
    | inr away ↦ (r, touch.elsewhere other away ∙ f, token, state)
  ]

  IsGone-kept : u ≢ t → IsGone e.identities.records other u → IsGone e'.identities.records other u
  IsGone-kept apart lost r f = elim (Bool-cases (bytes_eq run other)) [
    | inl same ↦ λ token. apart (
        sym token
        ∙ touch.after r (
            subst (λ x. find_key x e'.identities.records ≡ some r)
              (sym ((bytes_eq_iff run other).0 same)) f))
    | inr away ↦ lost r (sym (touch.elsewhere other away) ∙ f)
  ]

  Agrees-kept : (p : HandlePhase) → u ≢ t → Agrees e other u p → Agrees e' other u p
  Agrees-kept unissued apart h = tt
  Agrees-kept ready apart h = HeldAs-kept run_identity_reserved apart h
  Agrees-kept paused apart h = HeldAs-kept run_identity_reserved apart h
  Agrees-kept aborting apart h = HeldAs-kept run_identity_reserved apart h
  Agrees-kept running apart h = HeldAs-kept run_identity_active apart h
  Agrees-kept finished apart h = HeldAs-kept run_identity_tombstone apart h
  Agrees-kept retired apart h = IsGone-kept apart h
  Agrees-kept gone apart h = IsGone-kept apart h

-- One handle has gone to another state.
pub record Turns (s s' : Admission) (run : Bytes) (t : ℕ) (p : HandlePhase) : Type 0 where
  pub here_run : s'.run_of t ≡ run
  pub here_phase : s'.phase t ≡ p
  pub same_run : active_as t (s.phase t) ≡ some t → s.run_of t ≡ run
  pub else_run : (u : ℕ) → u ≢ t → s'.run_of u ≡ s.run_of u
  pub else_phase : (u : ℕ) → u ≢ t → s'.phase u ≡ s.phase u

active_as-token : (t u : ℕ) (p : HandlePhase) → active_as t p ≡ some u → u ≡ t
unfolding active_as
active_as-token t u unissued h = absurd (grind arith)
active_as-token t u p h = grind arith

-- A registered handle has its record.
pub active_as-HeldAs :
    (e : Engine) (run : Bytes) (t u : ℕ) (p : HandlePhase)
    → active_as t p ≡ some u
    → Agrees e run t p
    → (r : RunIdentityRecord) × (find_key run e.identities.records ≡ some r) × (r.token ≡ t)
unfolding active_as
active_as-HeldAs e run t u paused h (r, f, token, state) = (r, f, token)
active_as-HeldAs e run t u running h (r, f, token, state) = (r, f, token)
active_as-HeldAs e run t u aborting h (r, f, token, state) = (r, f, token)
active_as-HeldAs e run t u unissued h a = absurd (grind arith)
active_as-HeldAs e run t u ready h a = absurd (grind arith)
active_as-HeldAs e run t u finished h a = absurd (grind arith)
active_as-HeldAs e run t u retired h a = absurd (grind arith)
active_as-HeldAs e run t u gone h a = absurd (grind arith)

module _ (s s' : Admission) (run : Bytes) (t : ℕ) (p : HandlePhase) (v : IsAdmitted s)
    (turn : Turns s s' run t p) (touch : Touches s.engine s'.engine run t) where
  turned-Agrees : Agrees s'.engine run t p → (u : ℕ) → Agrees s'.engine (s'.run_of u) u (s'.phase u)
  turned-Agrees here u = elim (ℕ_discrete u t) [
    | yes e ↦
        subst (λ x. Agrees s'.engine (s'.run_of x) x (s'.phase x)) (sym e)
          (subst (λ x. Agrees s'.engine x t (s'.phase t)) (sym turn.here_run)
            (subst (Agrees s'.engine run t) (sym turn.here_phase) here))
    | no apart ↦
        subst (λ x. Agrees s'.engine x u (s'.phase u)) (sym (turn.else_run u apart))
          (subst (Agrees s'.engine (s.run_of u) u) (sym (turn.else_phase u apart)) (
            Agrees-kept s.engine s'.engine run t touch (s.run_of u) u (s.phase u) apart
              (v.agrees u)))
  ]

  turned_listed :
      find_key run s'.engine.active ≡ active_as t p
      → (u w : ℕ) → active_as u (s'.phase u) ≡ some w
      → find_key (s'.run_of u) s'.engine.active ≡ some w
  turned_listed here u w h = elim (ℕ_discrete u t) [
    | yes e ↦
        subst (λ x. find_key x s'.engine.active ≡ some w) (sym (ap s'.run_of e ∙ turn.here_run))
          (here
            ∙ subst (λ x. active_as t x ≡ some w) turn.here_phase
                (subst (λ x. active_as x (s'.phase x) ≡ some w) e h))
    | no apart ↦
        let was = subst (λ x. active_as u x ≡ some w) (turn.else_phase u apart) h in
        let (r, f, token) =
          active_as-HeldAs s.engine (s.run_of u) u w (s.phase u) was (v.agrees u) in
        subst (λ x. find_key x s'.engine.active ≡ some w) (sym (turn.else_run u apart))
          (elim (Bool-cases (bytes_eq run (s.run_of u))) [
            | inl same ↦ absurd (
                apart (
                  sym token
                  ∙ touch.before r (
                      subst (λ x. find_key x s.engine.identities.records ≡ some r)
                        (sym ((bytes_eq_iff run (s.run_of u)).0 same)) f)))
            | inr away ↦ touch.elsewhere_active (s.run_of u) away ∙ v.listed u w was
          ])
  ]

  turned_known :
      find_key run s'.engine.active ≡ active_as t p
      → (k : Bytes) (u : ℕ) → find_key k s'.engine.active ≡ some u
      → (s'.run_of u ≡ k) × (active_as u (s'.phase u) ≡ some u)
  turned_known here k u f = elim (Bool-cases (bytes_eq run k)) [
    | inl same ↦
        let e : run ≡ k = (bytes_eq_iff run k).0 same in
        let now : active_as t p ≡ some u =
          sym here ∙ subst (λ x. find_key x s'.engine.active ≡ some u) (sym e) f in
        let at : u ≡ t = active_as-token t u p now in
        (
          ap s'.run_of at ∙ turn.here_run ∙ e,
          subst (λ x. active_as x (s'.phase x) ≡ some u) (sym at)
              (ap (active_as t) turn.here_phase ∙ now),
        )
    | inr away ↦
        let (is_run, is_active) = v.known k u (sym (touch.elsewhere_active k away) ∙ f) in
        let apart : u ≢ t = λ at.
          let now = subst (λ x. active_as x (s.phase x) ≡ some x) at is_active in
          let e : run ≡ k = sym (turn.same_run now) ∙ ap s.run_of (sym at) ∙ is_run in
          cc (away, (bytes_eq_iff run k).1 e) in
        (
          turn.else_run u apart ∙ is_run,
          subst (λ x. active_as u x ≡ some u) (sym (turn.else_phase u apart)) is_active,
        )
  ]

  -- The invariant after a change for one handle.
  pub turned-IsAdmitted :
      IsCounted s'.engine.identities
      → HasDistinctKeys s'.engine.active
      → Agrees s'.engine run t p
      → find_key run s'.engine.active ≡ active_as t p
      → s.engine.identities.next_token ≤ s'.engine.identities.next_token
      → t ≤ s'.engine.identities.next_token
      → s'.engine.drained ≡ is_empty s'.engine.active
      → IsAdmitted s'
  turned-IsAdmitted counted keyed here here_active more issued drained = record {
    counted = counted;
    keyed_active = keyed;
    agrees = turned-Agrees here;
    listed = turned_listed here_active;
    known = turned_known here_active;
    later = λ u late.
        let apart : u ≢ t = λ e. omega (arith, e) in
        turn.else_phase u apart ∙ v.later u (omega (arith, more));
    drained_exact = drained;
  }

-- A handle that has been made has one of the tokens in use.
pub issued_lem :
    (s : Admission) (t : ℕ)
    → IsAdmitted s
    → s.phase t ≢ unissued
    → t ≤ s.engine.identities.next_token
issued_lem s t v made = elim (dec_lt s.engine.identities.next_token t) [
  | yes late ↦ absurd (made (v.later t late))
  | no early ↦ omega arith
]

-- The run of a handle that is not registered is not among the active ones.
pub unlisted_lem :
    (s : Admission) (t : ℕ) (r : RunIdentityRecord)
    → IsAdmitted s
    → find_key (s.run_of t) s.engine.identities.records ≡ some r
    → r.token ≡ t
    → active_as t (s.phase t) ≡ none
    → find_key (s.run_of t) s.engine.active ≡ none
unlisted_lem s t r v f token off = by_found (find_key (s.run_of t) s.engine.active) refl
  where
    by_found :
        (o : Option ℕ)
        → find_key (s.run_of t) s.engine.active ≡ o
        → find_key (s.run_of t) s.engine.active ≡ none
    by_found none h = h
    by_found (some u) h =
        let (same, on) = v.known (s.run_of t) u h in
        let (r', f', token') =
          active_as-HeldAs s.engine (s.run_of u) u u (s.phase u) on (v.agrees u) in
        let one : some r ≡ some r' =
          sym f ∙ subst (λ x. find_key x s.engine.identities.records ≡ some r') same f' in
        let at : t ≡ u = sym token ∙ (cc one) ∙ token' in
        absurd (grind (arith, off, subst (λ x. active_as x (s.phase x) ≡ some x) (sym at) on))
