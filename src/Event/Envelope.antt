-- ===== src/Event/Envelope.antt =====
-- event/event.go: the envelope of one event, its checked construction and its size.
use spice_agent.Base.{
  ℕ, suc, Bool, ◌&&◌, Bytes, Result, ok, err, if◌then◌else◌, ltb, ◌==◌, length, not,
  blank_or_padded, Option, none, some,
}
use spice_agent.Event.Kind.{Kind, valid_kind, terminal_kind}

-- A time.Time by the nanoseconds since its zero value.
abbrev pub Time : Type 0
Time = ℕ

pub record Envelope : Type 0 where
  pub run_id : Bytes
  pub sequence : ℕ
  pub at : Time
  pub kind : Kind
  pub payload : Bytes

pub data EventError : Type 0 where
  bad_run_id zero_sequence zero_time unsupported_kind payload_too_large invalid_json : EventError
  encode_failed missing_clock : EventError

-- MaximumPayloadBytes
abbrev pub maximum_payload_bytes : ℕ
maximum_payload_bytes = 1048576

-- Envelope.Terminal
unfoldable pub terminal : Envelope → Bool
terminal envelope = terminal_kind envelope.kind

-- Reconstruct. `json_valid` is json.Valid.
unfoldable pub reconstruct :
    (Bytes → Bool) → Bytes → ℕ → Time → Kind → Bytes → Result EventError Envelope
unfolding valid_kind
reconstruct json_valid run_id sequence at kind payload =
    if blank_or_padded run_id
    then err bad_run_id
    else if sequence == 0
    then err zero_sequence
    else if at == 0
    then err zero_time
    else if not (valid_kind kind)
    then err unsupported_kind
    else if ltb maximum_payload_bytes (length payload)
    then err payload_too_large
    else if not (length payload == 0) && not (json_valid payload)
    then err invalid_json
    else ok
        (record { run_id = run_id; sequence = sequence; at = at; kind = kind; payload = payload })

-- Envelope.EncodedSize, over what json.Marshal answers for the wire structure.
unfoldable pub encoded_size : (Envelope → Option Bytes) → Envelope → ℕ
encoded_size marshal envelope = elim (marshal envelope) [
  | none ↦ suc maximum_payload_bytes
  | some content ↦ length content
]
