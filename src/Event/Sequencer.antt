-- ===== src/Event/Sequencer.antt =====
-- event/event.go: the run-local sequencer. A clock reading is an argument of each call.
use spice_agent.Base.{
  ℕ, Bool, Bytes, Result, ok, err, if◌then◌else◌, not, blank_or_padded, add64, [],
}
use spice_agent.Event.Kind.{Kind, valid_kind}
use spice_agent.Event.Envelope.{
  Envelope, Time, EventError, bad_run_id, unsupported_kind, encode_failed, missing_clock,
  reconstruct,
}

pub record Sequencer : Type 0 where
  pub run_id : Bytes
  pub next : ℕ

-- What json.Marshal makes of the optional payload.
pub data Payload : Type 0 where
  no_payload unencodable : Payload
  encoded : Bytes → Payload

-- NewSequencer; the flag says whether a clock is given.
unfoldable pub new_sequencer : Bytes → Bool → Result EventError Sequencer
new_sequencer run_id has_clock =
    if blank_or_padded run_id
    then err bad_run_id
    else if not has_clock
    then err missing_clock
    else ok (record { run_id = run_id; next = 1 })

-- The end of Next: a failure keeps the number.
unfoldable pub number_used :
    Sequencer → Result EventError Envelope → Sequencer × Result EventError Envelope
number_used s (err e) = (s, err e)
number_used s (ok envelope) = (record s { next = add64 s.next 1 }, ok envelope)

-- The part of Next under the lock.
unfoldable pub next_locked :
    (Bytes → Bool) → Sequencer → Time → Kind → Bytes → Sequencer × Result EventError Envelope
unfolding number_used
next_locked json_valid s now kind payload =
    number_used s (reconstruct json_valid s.run_id s.next now kind payload)

-- Sequencer.Next
unfoldable pub next_envelope :
    (Bytes → Bool) → Sequencer → Time → Kind → Payload → Sequencer × Result EventError Envelope
unfolding next_locked
next_envelope json_valid s now kind payload =
    if not (valid_kind kind) then (s, err unsupported_kind) else elim payload [
      | no_payload ↦ next_locked json_valid s now kind []
      | unencodable ↦ (s, err encode_failed)
      | encoded bytes ↦ next_locked json_valid s now kind bytes
    ]
