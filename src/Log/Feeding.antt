-- ===== src/Log/Feeding.antt =====
-- event/event.go and event/log.go together: the envelopes of a run's sequencer are those that the run's
-- log takes.
use spice_agent.Base.{
  if_intro, ℕ, suc, ◌≤◌, ◌<◌, ◌≡◌, refl, sym, ap, ◌∙◌, subst, Bool, false, ◌&&◌, not, ltb, ◌==◌,
  length, [], Option, none, some, arith, Result, ok, err, Bytes, blank_or_padded, max_u64, add64,
  add64_exact,
}
use spice_agent.Event.Kind.{Kind, valid_kind}
use spice_agent.Event.Envelope.{
  Envelope, Time, EventError, reconstruct, maximum_payload_bytes, encode_failed,
}
use spice_agent.Event.Sequencer.{
  Sequencer, Payload, no_payload, unencodable, encoded, next_locked, next_envelope, number_used,
}
use spice_agent.Log.Types.{LogError}
use spice_agent.Log.Store.{Log, append_sized, append_max_bytes, admit}
use spice_agent.Log.Invariant.{IsWellFormed}
use spice_agent.Log.Append.{Accepts, entry_of, append_accepted, append-IsWellFormed}

-- What a successful reconstruction says of the envelope.
pub record IsReconstructed (run : Bytes) (sequence : ℕ) (kind : Kind) (e : Envelope) : Type 0 where
  pub same_run : e.run_id ≡ run
  pub numbered : e.sequence ≡ sequence
  pub of_kind : e.kind ≡ kind

pub reconstruct-IsReconstructed :
    (json_valid : Bytes → Bool) (run : Bytes) (sequence : ℕ) (at : Time) (kind : Kind)
    (payload : Bytes) (e : Envelope)
    → reconstruct json_valid run sequence at kind payload ≡ ok e
    → IsReconstructed run sequence kind e
unfolding reconstruct
reconstruct-IsReconstructed json_valid run sequence at kind payload e =
    let Claim : Result EventError Envelope → Type 0 =
      λ r. r ≡ ok e → IsReconstructed run sequence kind e in
    if_intro Claim (blank_or_padded run) (λ _ h. absurd (grind arith))
      (λ _.
        if_intro Claim (sequence == 0) (λ _ h. absurd (grind arith))
          (λ _.
            if_intro Claim (at == 0) (λ _ h. absurd (grind arith))
              (λ _.
                if_intro Claim (not (valid_kind kind)) (λ _ h. absurd (grind arith))
                  (λ _.
                    if_intro Claim (ltb maximum_payload_bytes (length payload))
                      (λ _ h. absurd (grind arith))
                      (λ _.
                        if_intro Claim (not (length payload == 0) && not (json_valid payload))
                          (λ _ h. absurd (grind arith))
                          (λ _ h. record {
                            same_run = grind arith;
                            numbered = grind arith;
                            of_kind = grind arith;
                          }))))))

-- What a call of Next leaves: an error keeps the sequencer, and an envelope has its run and number and
-- moves it on.
abbrev pub IsNext : Sequencer → Kind → Sequencer × Result EventError Envelope → Type 0
IsNext s kind (t, err e) = t ≡ s
IsNext s kind (t, ok e) =
    (t ≡ record s { next = add64 s.next 1 }) × IsReconstructed s.run_id s.next kind e

next_locked-IsNext :
    (json_valid : Bytes → Bool) (s : Sequencer) (now : Time) (kind : Kind) (payload : Bytes)
    (r : Result EventError Envelope)
    → reconstruct json_valid s.run_id s.next now kind payload ≡ r
    → IsNext s kind (next_locked json_valid s now kind payload)
unfolding next_locked number_used
next_locked-IsNext json_valid s now kind payload (err e) h =
    subst (λ x. IsNext s kind (number_used s x)) (sym h) refl
next_locked-IsNext json_valid s now kind payload (ok e) h =
    subst (λ x. IsNext s kind (number_used s x)) (sym h)
      (refl, reconstruct-IsReconstructed json_valid s.run_id s.next now kind payload e h)

-- Next, whatever the payload: an error leaves the sequencer as it is, so it uses no number up, and an
-- envelope has the run and the number of the sequencer, which then moves to the next number.
pub next_envelope-IsNext :
    (json_valid : Bytes → Bool) (s : Sequencer) (now : Time) (kind : Kind) (payload : Payload)
    → IsNext s kind (next_envelope json_valid s now kind payload)
unfolding next_envelope
next_envelope-IsNext json_valid s now kind payload =
    if_intro (IsNext s kind) (not (valid_kind kind)) (λ _. refl) (λ _. by_payload payload)
  where
    by_payload :
        (p : Payload)
        → IsNext s kind (elim p [
          | no_payload ↦ next_locked json_valid s now kind []
          | unencodable ↦ (s, err encode_failed)
          | encoded bytes ↦ next_locked json_valid s now kind bytes
        ])
    by_payload no_payload = next_locked-IsNext json_valid s now kind [] _ refl
    by_payload unencodable = refl
    by_payload (encoded bytes) = next_locked-IsNext json_valid s now kind bytes _ refl

-- The sequencer and the log are at the same place of the same run.
pub record InStep (s : Sequencer) (log : Log) : Type 0 where
  pub still_open : log.closed ≡ false
  pub same_run : s.run_id ≡ log.run_id
  pub same_place : s.next ≡ suc log.last_sequence

one_answer :
    (x y : Log) (answer : Option (Log × Option LogError)) (f g : Option LogError)
    → answer ≡ some (x, f)
    → answer ≡ some (y, g)
    → y ≡ x
one_answer x y answer f g h k = cc

-- An envelope that the sequencer makes while it is in step with a well-formed log is taken by the log,
-- if its size is within the log's bound for it and its number is not the last one. The log stays well
-- formed, and the two are in step again.
pub append-next_envelope :
    (json_valid : Bytes → Bool) (s t : Sequencer) (now : Time) (kind : Kind) (payload : Payload)
    (e : Envelope) (log : Log) (size : ℕ)
    → IsWellFormed log
    → InStep s log
    → s.next < max_u64
    → next_envelope json_valid s now kind payload ≡ (t, ok e)
    → size ≤ append_max_bytes log.limits e
    → (log' : Log) × (append_sized log e size ≡ some (log', none))
      × IsWellFormed log'
      × InStep t log'
unfolding admit
append-next_envelope json_valid s t now kind payload e log size v step below made fits =
    let (moved, is) =
      subst (IsNext s kind) made (next_envelope-IsNext json_valid s now kind payload) in
    let accepted : Accepts log e size = record {
      still_open = step.still_open;
      same_run = is.same_run ∙ step.same_run;
      next_in_line = is.numbered ∙ step.same_place;
      below_max = omega (arith, step.same_place);
      fits = fits;
    } in
    let (w, run, _) = append_accepted log e size v accepted in
    let (other, failure, again, sound) = append-IsWellFormed log e size v in
    let exact = add64_exact s.next 1 (omega arith) in
    let run_kept : t.run_id ≡ s.run_id = ap (λ x. x.run_id) moved in
    let place : t.next ≡ suc s.next = ap (λ x. x.next) moved ∙ exact ∙ (omega arith) in
    let same : other ≡ admit log (entry_of e size) w =
      one_answer _ other _ none failure run again in
    (
      admit log (entry_of e size) w,
      run,
      subst IsWellFormed same sound,
      record {
        still_open = step.still_open;
        same_run = run_kept ∙ step.same_run;
        same_place = place ∙ ap suc (sym is.numbered);
      },
    )
