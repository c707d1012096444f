-- ===== src/Agent/Preparing.antt =====
-- agent/prepared_execution.go, agent/run_identity.go: a reservation and the handle made of it.
use spice_agent.Base.{
  ℕ, suc, ◌≤◌, ◌≡◌, ◌≢◌, refl, sym, subst, ap, ◌∙◌, if_intro, if_false, Option-cases, inl, inr, ltb,
  ◌==◌, Option, none, some, Result, ok, err, length, arith, Bytes, max_u64, add64, add64_exact,
  add32, find_key, find-put_key, find-put_key_if,
}
use spice_agent.Agent.Ledger.{
  IdentityError, PreparedExecutionKind, RunIdentityLedger, RunIdentityRecord, admit_identity,
  entries_of, reserve_identity, reserve_at, reserve_fresh, run_identity_entry_bytes,
  run_identity_reserved, run_identity_tombstone, stats_of,
}
use spice_agent.Agent.Counted.{IsCounted}
use spice_agent.Agent.Counting.{maximum_int, reserve_identity-IsCounted}
use spice_agent.Agent.Holding.{HeldAs}
use spice_agent.Agent.Engine.{Engine, identity_failure, reserve_run_identity}
use spice_agent.Agent.Lifecycle.{
  Admission, HandlePhase, finished, gone, prepare, prepared_with, put_at, ready, retired, unissued,
}
use spice_agent.Agent.Admission.{Agrees, IsAdmitted, active_as, active_as-HeldAs, turned-IsAdmitted}

-- What reserve answers.
abbrev ReserveOutcome :
    RunIdentityLedger → Bytes → RunIdentityLedger × Result IdentityError ℕ → Type 0
ReserveOutcome l run (l', err failure) = l' ≡ l
ReserveOutcome l run (l', ok t) =
    (find_key run l.records ≡ none)
    × (l' ≡ admit_identity l run (add64 run_identity_entry_bytes (length run)))
    × (t ≡ add64 l.next_token 1)
    × (l.next_token ≢ max_u64)

reserve_outcome :
    (l : RunIdentityLedger) (run : Bytes) (kind : PreparedExecutionKind)
    → ReserveOutcome l run (reserve_identity l run kind)
unfolding reserve_identity reserve_at reserve_fresh
reserve_outcome l run kind = by_found (find_key run l.records) refl
  where
    by_found :
        (o : Option RunIdentityRecord)
        → find_key run l.records ≡ o
        → ReserveOutcome l run (reserve_at l run kind o)
    by_found (some found) f = refl
    by_found none f =
        if_intro (ReserveOutcome l run) (ltb l.limits.entries (add32 (entries_of (stats_of l)) 1))
          (λ _. refl)
          (λ _.
            if_intro (ReserveOutcome l run)
              (ltb l.limits.bytes (add64 l.bytes (add64 run_identity_entry_bytes (length run))))
              (λ _. refl)
              (λ _.
                if_intro (ReserveOutcome l run) (l.next_token == max_u64) (λ _. refl)
                  (λ space. (f, refl, refl, ground arith))))

-- A handle that is not finished has no tombstone.
pub no_tombstone :
    (e : Engine) (run : Bytes) (t : ℕ) (p : HandlePhase)
    → p ≢ unissued
    → p ≢ finished
    → Agrees e run t p
    → ¬ (HeldAs e.identities.records run t run_identity_tombstone)
no_tombstone e run t unissued made early a held = made refl
no_tombstone e run t finished made early a held = early refl
no_tombstone e run t retired made early a (r, f, token, state) = a r f token
no_tombstone e run t gone made early a (r, f, token, state) = a r f token
no_tombstone e run t ready made early (r', f', token', state') (r, f, token, state) = cc
no_tombstone e run t p made early (r', f', token', state') (r, f, token, state) = cc

-- A run without a record is not among the active ones.
absent_lem :
    (s : Admission) (run : Bytes)
    → IsAdmitted s
    → find_key run s.engine.identities.records ≡ none
    → find_key run s.engine.active ≡ none
absent_lem s run v absent = elim (Option-cases (find_key run s.engine.active)) [
  | inl h ↦ h
  | inr (u, h) ↦
      let (same, on) = v.known run u h in
      let (r, f, token) = active_as-HeldAs s.engine (s.run_of u) u u (s.phase u) on (v.agrees u) in
      let here = subst (λ x. find_key x s.engine.identities.records ≡ some r) same f in
      absurd (grind arith)
]

-- The handle that a reservation makes.
reserved-IsAdmitted :
    (s : Admission) (run : Bytes)
    → length run ≤ maximum_int
    → IsAdmitted s
    → find_key run s.engine.identities.records ≡ none
    → s.engine.identities.next_token ≢ max_u64
    → (l' : RunIdentityLedger)
    → l' ≡ admit_identity s.engine.identities run (add64 run_identity_entry_bytes (length run))
    → IsCounted l'
    → IsAdmitted (
        prepared_with s run
          (record (s.engine) { identities = l' }, ok (add64 s.engine.identities.next_token 1)))
unfolding prepared_with admit_identity put_at active_as
reserved-IsAdmitted s run short v absent space l' made counted =
    let l = s.engine.identities in
    let t = add64 l.next_token 1 in
    let next : t ≡ suc l.next_token =
      add64_exact l.next_token 1 (omega (arith, v.counted.token_space, space)) ∙ (omega arith) in
    let fresh : RunIdentityRecord = record {
      token = t;
      charge = add64 run_identity_entry_bytes (length run);
      state = run_identity_reserved;
    } in
    let new : s.phase t ≡ unissued = v.later t (omega (arith, next)) in
    let tokens : l'.next_token ≡ t = ap (λ x. x.next_token) made in
    let here : find_key run l'.records ≡ some fresh =
      ap (λ x. find_key run x.records) made ∙ find-put_key run fresh l.records in
    let unlisted : find_key run s.engine.active ≡ none = absent_lem s run v absent in
    turned-IsAdmitted s _ run t ready v
      (record {
        here_run = ground arith;
        here_phase = ground arith;
        same_run = λ h. absurd (grind (arith, new));
        else_run = λ u apart. ground arith;
        else_phase = λ u apart. ground arith;
      })
      (record {
        elsewhere = λ j away.
            ap (λ x. find_key j x.records) made
            ∙ find-put_key_if j run fresh l.records
            ∙ if_false _ _ _ away;
        elsewhere_active = λ j _. refl;
        before = λ r f. cc;
        after = λ r f. cc;
      })
      counted v.keyed_active (fresh, here, refl, refl) unlisted (omega (arith, tokens, next))
      (omega (arith, tokens)) v.drained_exact

prepared-IsAdmitted :
    (s : Admission) (run : Bytes)
    → length run ≤ maximum_int
    → IsAdmitted s
    → (x : RunIdentityLedger × Result IdentityError ℕ) → ReserveOutcome s.engine.identities run x
    → IsCounted x.0
    → IsAdmitted (
        prepared_with s run (
          record (s.engine) { identities = x.0 },
          elim x.1 [ ok token ↦ ok token | err failure ↦ err (identity_failure failure) ],
        ))
unfolding prepared_with
prepared-IsAdmitted s run short v (l', err failure) same counted =
    subst (λ x. IsAdmitted (record s { engine = record (s.engine) { identities = x } })) (sym same)
      v
prepared-IsAdmitted s run short v (l', ok t) (absent, made, token, space) counted =
    subst (λ x. IsAdmitted (prepared_with s run (record (s.engine) { identities = l' }, ok x)))
      (sym token) (reserved-IsAdmitted s run short v absent space l' made counted)

pub prepare-IsAdmitted :
    (s : Admission) (run : Bytes) (kind : PreparedExecutionKind)
    → length run ≤ maximum_int
    → IsAdmitted s
    → IsAdmitted (prepare s run kind)
unfolding prepare reserve_run_identity prepared_with
prepare-IsAdmitted s run kind short v =
    if_intro (λ x. IsAdmitted (prepared_with s run x)) s.engine.closed (λ _. v)
      (λ _.
        prepared-IsAdmitted s run short v (reserve_identity s.engine.identities run kind)
          (reserve_outcome s.engine.identities run kind)
          (reserve_identity-IsCounted s.engine.identities run kind short v.counted))
