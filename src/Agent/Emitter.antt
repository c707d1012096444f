-- ===== src/Agent/Emitter.antt =====
-- agent/agent.go, runEmitter: the numbering, the log and the observers of one run's events. Each function
-- is what its Go namesake does while it holds the lock of the emitter.
use spice_agent.Base.{
  ℕ, suc, Bool, true, false, if◌then◌else◌, List, [], ◌∷◌, Option, none, some, Result, ok, err,
  ContextError, Bytes, add64,
}
use spice_agent.Event.Kind.{Kind}
use spice_agent.Event.Envelope.{Envelope, Time, EventError, reconstruct}
use spice_agent.Event.Sequencer.{Payload, no_payload, unencodable, encoded}
use spice_agent.Event.Observer.{BestEffortObserver, try_publish}
use spice_agent.Log.Types.{LogError}
use spice_agent.Log.Store.{Log, append_event}

-- The emitter with the log and the last sequence of its run, and the engine's best-effort observers.
pub record Emitter : Type 0 where
  pub run_id : Bytes
  pub next : ℕ
  pub last_sequence : ℕ
  pub log : Log
  pub best_effort : List BestEffortObserver

-- `emission` is EmissionError, with the index of the observer; it is always committed.
pub data EmitError : Type 0 where
  context_ended : ContextError → EmitError
  payload_unencodable : EmitError
  event_invalid : EventError → EmitError
  append_refused : LogError → EmitError
  emission : Kind → ℕ → ℕ → EmitError

-- committed
unfoldable pub is_committed : Option EmitError → Bool
is_committed none = true
is_committed (some (emission kind sequence index)) = true
is_committed (some _) = false

-- The loop over the required observers: the index of the first that does not acknowledge.
unfoldable pub first_refusal : ℕ → List Bool → Option ℕ
first_refusal index [] = none
first_refusal index (acknowledged ∷ rest) =
    let later = first_refusal (suc index) rest in if acknowledged then later else some index

unfoldable pub publish_all : Envelope → List BestEffortObserver → List BestEffortObserver
publish_all envelope [] = []
publish_all envelope (o ∷ os) = (try_publish o envelope).0 ∷ publish_all envelope os

unfoldable pub published : Emitter → Kind → Envelope → Option ℕ → Emitter × Option EmitError
unfolding publish_all
published emitter kind envelope (some index) =
    (emitter, some (emission kind envelope.sequence index))
published emitter kind envelope none =
    (record emitter { best_effort = publish_all envelope emitter.best_effort }, none)

-- persist, after the answer of Append. `none` is a panic there.
unfoldable pub persist_appended :
    Emitter
    → Kind
    → Envelope
    → List Bool
    → Option (Log × Option LogError)
    → Option (Emitter × Option EmitError)
unfolding first_refusal published
persist_appended emitter kind envelope answers none = none
persist_appended emitter kind envelope answers (some (log, some failure)) =
    some (record emitter { log = log }, some (append_refused failure))
persist_appended emitter kind envelope answers (some (log, none)) = some (
    published
      (record emitter { log = log; next = add64 emitter.next 1; last_sequence = envelope.sequence })
      kind envelope (first_refusal 0 answers))

-- What the packages outside src/ do: json.Valid and json.Marshal.
module _ (json_valid : Bytes → Bool) (marshal : Envelope → Option Bytes) where
  unfoldable pub persist_made :
      Emitter → Kind → List Bool → Result EventError Envelope → Option (Emitter × Option EmitError)
  unfolding persist_appended
  persist_made emitter kind answers (err failure) = some (emitter, some (event_invalid failure))
  persist_made emitter kind answers (ok envelope) =
      persist_appended emitter kind envelope answers (append_event marshal emitter.log envelope)

  unfoldable pub persist_encoded :
      Emitter → Time → Kind → List Bool → Bytes → Option (Emitter × Option EmitError)
  unfolding persist_made
  persist_encoded emitter now kind answers content =
      persist_made emitter kind answers
        (reconstruct json_valid emitter.run_id emitter.next now kind content)

  -- persist. `now` is what the clock says, and `answers` which of the required observers acknowledge.
  unfoldable pub persist :
      Payload → Emitter → Time → Kind → List Bool → Option (Emitter × Option EmitError)
  unfolding persist_encoded
  persist unencodable emitter now kind answers = some (emitter, some payload_unencodable)
  persist no_payload emitter now kind answers = persist_encoded emitter now kind answers []
  persist (encoded content) emitter now kind answers =
      persist_encoded emitter now kind answers content

  -- emit. `ended` is the error of the context.
  unfoldable pub emit :
      Option ContextError
      → Payload
      → Emitter
      → Time
      → Kind
      → List Bool
      → Option (Emitter × Option EmitError)
  unfolding persist
  emit (some failure) body emitter now kind answers = some (emitter, some (context_ended failure))
  emit none body emitter now kind answers = persist body emitter now kind answers
