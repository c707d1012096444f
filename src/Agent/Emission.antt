-- ===== src/Agent/Emission.antt =====
-- agent/agent.go, runEmitter, with event/event.go and event/log.go: the emitter, the last sequence of the
-- run and its log agree, and a caller learns from the error whether the event is in the log.
use spice_agent.Base.{
  ℕ, suc, ◌≡◌, refl, sym, subst, ap, ◌∙◌, inl, inr, Bool, true, false, List, [], ◌∷◌, ◌++◌, Option,
  none, some, Result, ok, err, ContextError, arith, Bytes, add64, add64_exact,
}
use spice_agent.Event.Kind.{Kind}
use spice_agent.Event.Envelope.{Envelope, Time, EventError, reconstruct, encoded_size}
use spice_agent.Event.Sequencer.{Payload, no_payload, unencodable, encoded}
use spice_agent.Log.Types.{LogEntry, LogError}
use spice_agent.Log.Store.{Log, append_event, admit}
use spice_agent.Log.Invariant.{IsWellFormed}
use spice_agent.Log.Append.{entry_of, append_cases, append_accepted, append-IsWellFormed}
use spice_agent.Log.Feeding.{reconstruct-IsReconstructed}
use spice_agent.Agent.Emitter.{
  Emitter, EmitError, is_committed, first_refusal, published, persist_appended, persist_made,
  persist_encoded, persist, emit,
}

-- The emitter is at the place of its log.
pub record IsInStep (emitter : Emitter) : Type 0 where
  pub sound : IsWellFormed emitter.log
  pub same_run : emitter.run_id ≡ emitter.log.run_id
  pub recorded : emitter.last_sequence ≡ emitter.log.last_sequence
  pub place : emitter.next ≡ add64 emitter.log.last_sequence 1

-- What an emission leaves, committed or not.
abbrev pub Leaves : Emitter → Kind → Bool → Emitter → Type 0
Leaves emitter kind true emitter' =
    (kept : List LogEntry) × (entry : LogEntry) × (emitter'.log.entries ≡ kept ++ entry ∷ [])
    × (entry.envelope.kind ≡ kind)
    × (entry.envelope.sequence ≡ emitter.next)
    × (emitter'.log.last_sequence ≡ suc emitter.log.last_sequence)
Leaves emitter kind false emitter' =
    (emitter'.log ≡ record (emitter.log) { stats = emitter'.log.stats })
    × (emitter'.next ≡ emitter.next)
    × (emitter'.last_sequence ≡ emitter.last_sequence)

-- The answer of an emission is no panic; the emitter stays in step, and the error tells what it leaves.
abbrev pub IsEmission : Emitter → Kind → Option (Emitter × Option EmitError) → Type 0
IsEmission emitter kind none = ⊥
IsEmission emitter kind (some (emitter', failure)) =
    IsInStep emitter' × Leaves emitter kind (is_committed failure) emitter'

published-IsEmission :
    (emitter emitter' : Emitter) (kind : Kind) (envelope : Envelope) (o : Option ℕ)
    → IsInStep emitter'
    → Leaves emitter kind true emitter'
    → IsEmission emitter kind (some (published emitter' kind envelope o))
unfolding published is_committed
published-IsEmission emitter emitter' kind envelope (some index) v l = (v, l)
published-IsEmission emitter emitter' kind envelope none v l =
    (record { sound = v.sound; same_run = v.same_run; recorded = v.recorded; place = v.place }, l)

-- An event that is not appended.
stays-IsInStep :
    (emitter : Emitter) (log' : Log)
    → IsInStep emitter
    → IsWellFormed log'
    → log' ≡ record (emitter.log) { stats = log'.stats }
    → IsInStep (record emitter { log = log' })
stays-IsInStep emitter log' v sound same = record {
  sound = sound;
  same_run = v.same_run ∙ sym (ap (λ x. x.run_id) same);
  recorded = v.recorded ∙ sym (ap (λ x. x.last_sequence) same);
  place = v.place ∙ ap (λ x. add64 x 1) (sym (ap (λ x. x.last_sequence) same));
}

module _ (json_valid : Bytes → Bool) (marshal : Envelope → Option Bytes) where
  made-IsEmission :
      (emitter : Emitter) (now : Time) (kind : Kind) (answers : List Bool) (content : Bytes)
      (r : Result EventError Envelope)
      → reconstruct json_valid emitter.run_id emitter.next now kind content ≡ r
      → IsInStep emitter
      → IsEmission emitter kind (persist_made json_valid marshal emitter kind answers r)
  unfolding persist_made persist_appended append_event is_committed admit
  made-IsEmission emitter now kind answers content (err failure) made v = (v, (refl, refl, refl))
  made-IsEmission emitter now kind answers content (ok envelope) made v =
      let is =
        reconstruct-IsReconstructed json_valid emitter.run_id emitter.next now kind content envelope
          made in
      let size = encoded_size marshal envelope in
      let P : Option (Log × Option LogError) → Type 0 =
        λ x. IsEmission emitter kind (persist_appended emitter kind envelope answers x) in
      let (log', failure, run, sound) = append-IsWellFormed emitter.log envelope size v.sound in
      elim (append_cases emitter.log envelope size v.sound.representable) [
        | inl a ↦
            let (w, took, evicted) = append_accepted emitter.log envelope size v.sound a in
            let taken = admit emitter.log (entry_of envelope size) w in
            let exact = add64_exact emitter.log.last_sequence 1 (omega (arith, a.below_max)) in
            let same : log' ≡ taken = cc in
            subst P (sym took) (
              published-IsEmission emitter _ kind envelope (first_refusal 0 answers)
                (record {
                  sound = subst IsWellFormed same sound;
                  same_run = v.same_run;
                  recorded = refl;
                  place = ap (λ x. add64 x 1) (sym is.numbered);
                })
                (w.entries, entry_of envelope size, refl, is.of_kind, is.numbered, a.next_in_line))
        | inr (log'', e, refused, same, reason) ↦
            let here : log' ≡ log'' = cc in
            subst P (sym refused) (
              stays-IsInStep emitter log'' v (subst IsWellFormed here sound) same,
              (same, refl, refl),
            )
      ]

  persist-IsEmission :
      (body : Payload) (emitter : Emitter) (now : Time) (kind : Kind) (answers : List Bool)
      → IsInStep emitter
      → IsEmission emitter kind (persist json_valid marshal body emitter now kind answers)
  unfolding persist persist_encoded is_committed
  persist-IsEmission unencodable emitter now kind answers v = (v, (refl, refl, refl))
  persist-IsEmission no_payload emitter now kind answers v =
      made-IsEmission emitter now kind answers [] _ refl v
  persist-IsEmission (encoded content) emitter now kind answers v =
      made-IsEmission emitter now kind answers content _ refl v

  -- Whatever the context, the payload, the clock and the observers do, emit does not panic on an emitter
  -- that is in step with a well-formed log, and leaves one. It reports success or a committed error
  -- exactly when the event stands at the end of the log under the emitter's number, with the log's last
  -- sequence one further; with any other error the log's entries, the number and the last sequence of
  -- the run are as before.
  pub emit-IsEmission :
      (ended : Option ContextError) (body : Payload) (emitter : Emitter) (now : Time) (kind : Kind)
      (answers : List Bool)
      → IsInStep emitter
      → IsEmission emitter kind (emit json_valid marshal ended body emitter now kind answers)
  unfolding emit is_committed
  emit-IsEmission (some failure) body emitter now kind answers v = (v, (refl, refl, refl))
  emit-IsEmission none body emitter now kind answers v =
      persist-IsEmission body emitter now kind answers v
