-- ===== src/Agent/Turn.antt =====
-- agent/agent.go, executeTurn and consumeStream: one turn of a run, as it emits its events. Tool rounds and
-- the making of requests come in by an interface.
use spice_agent.Base.{
  ℕ, suc, ◌+◌, Bool, true, false, if◌then◌else◌, ltb, leb, length, List, [], ◌∷◌, ◌++◌, Option,
  none, some, Result, ok, err, ContextError, Bytes,
}
use spice_agent.Event.Kind.{Kind, turn_failed, model_delta, model_failed}
use spice_agent.Event.Envelope.{Envelope, Time}
use spice_agent.Event.Sequencer.{Payload}
use spice_agent.Agent.Emitter.{Emitter, EmitError, is_committed, emit}

-- What the surroundings do at one emission: the error of the context, the clock, what json.Marshal makes
-- of the payload, and which of the required observers acknowledge.
pub record Moment : Type 0 where
  pub ended : Option ContextError
  pub now : Time
  pub encoding : Payload
  pub acknowledged : List Bool

-- `attempts` are the emissions so far, the last one first, each with its kind and whether it was
-- committed; the others are the emitter and the number of the next emission.
pub record TurnState : Type 0 where
  pub emitter : Emitter
  pub moment : ℕ
  pub attempts : List (Kind × Bool)

-- The parts of a turn's error, which errors.Join puts together.
pub data TurnCause : Type 0 where
  emission_failed : EmitError → TurnCause
  not_durable : Kind → EmitError → TurnCause
  request_refused stream_not_started recv_failed stream_invalid text_exceeded calls_exceeded :
      TurnCause
  operation_failed close_failed round_failed : TurnCause

-- What Recv answers; `invalid_event` is an event that Validate refuses.
pub data Received (C : Type 0) : Type 0 where
  text_delta : Bytes → Received C
  tool_call : C → Received C
  stream_completed stream_failed invalid_event recv_error : Received C

-- model.MaximumOperationTextBytes and model.MaximumOperationToolCalls
abbrev pub maximum_operation_text_bytes : ℕ
maximum_operation_text_bytes = 4194304

abbrev pub maximum_operation_tool_calls : ℕ
maximum_operation_tool_calls = 128

-- The stream that the provider opens, as what its Recv answers in turn; after the last of them it
-- answers with an error. `close_fails` is what its Close does.
pub record ModelStream (C : Type 0) : Type 0 where
  pub answers : List (Received C)
  pub close_fails : Bool

infixl 5 ◌>>=◌
abbrev pub ◌>>=◌ : {A B : Type 0} → Option A → (A → Option B) → Option B
none >>= f = none
some a >>= f = f a

abbrev pub durability : Kind → Option EmitError → List TurnCause
durability kind none = []
durability kind (some failure) = not_durable kind failure ∷ []

-- The deferred Close of consumeStream.
unfoldable pub close_stream_with :
    {C : Type 0}
    → Bool
    → Result (List TurnCause) (Bytes × List C)
    → Result (List TurnCause) (Bytes × List C)
close_stream_with false result = result
close_stream_with true (ok content) = err (close_failed ∷ [])
close_stream_with true (err causes) = err (causes ++ close_failed ∷ [])

module _ (json_valid : Bytes → Bool) (marshal : Envelope → Option Bytes) (script : ℕ → Moment) where
  unfoldable pub note_attempt :
      TurnState → Kind → Emitter × Option EmitError → TurnState × Option EmitError
  note_attempt s kind (emitter, failure) = (
    record {
      emitter = emitter;
      moment = suc s.moment;
      attempts = (kind, is_committed failure) ∷ s.attempts;
    },
    failure,
  )

  unfoldable pub attempted :
      TurnState → Kind → Option (Emitter × Option EmitError) → Option (TurnState × Option EmitError)
  unfolding note_attempt
  attempted s kind none = none
  attempted s kind (some answer) = some (note_attempt s kind answer)

  -- emitter.emit
  unfoldable pub send : Kind → TurnState → Option (TurnState × Option EmitError)
  unfolding attempted
  send kind s =
      let m = script s.moment in
      attempted s kind
        (emit json_valid marshal m.ended m.encoding s.emitter m.now kind m.acknowledged)

  -- emitter.turnFailure and emitter.modelFailure: persist under a context of their own
  unfoldable pub send_failure : Kind → TurnState → Option (TurnState × Option EmitError)
  unfolding attempted
  send_failure kind s =
      let m = script s.moment in
      attempted s kind (emit json_valid marshal none m.encoding s.emitter m.now kind m.acknowledged)

  -- The return of an error after turnFailure.
  unfoldable pub fail_turn : List TurnCause → TurnState → Option (TurnState × List TurnCause)
  fail_turn causes s =
      send_failure turn_failed s >>= λ r. some (r.0, causes ++ durability turn_failed r.1)

  -- The return of an error after modelFailure and turnFailure.
  unfoldable pub fail_model : List TurnCause → TurnState → Option (TurnState × List TurnCause)
  fail_model causes s =
      send_failure model_failed s >>= λ r. fail_turn (causes ++ durability model_failed r.1) r.0

  module _ {C : Type 0} where
    -- The loop of consumeStream: the text and the calls of a stream that completes, or why it did not.
    unfoldable pub consume :
        List (Received C)
        → Bytes
        → List C
        → TurnState
        → Option (TurnState × Result (List TurnCause) (Bytes × List C))
    consume [] text calls s = some (s, err (recv_failed ∷ []))
    consume (recv_error ∷ rest) text calls s = some (s, err (recv_failed ∷ []))
    consume (invalid_event ∷ rest) text calls s = some (s, err (stream_invalid ∷ []))
    consume (stream_failed ∷ rest) text calls s = some (s, err (operation_failed ∷ []))
    consume (stream_completed ∷ rest) text calls s = some (s, ok (text, calls))
    consume (tool_call call ∷ rest) text calls s =
        let more = consume rest text (calls ++ call ∷ []) s in
        if leb maximum_operation_tool_calls (length calls)
        then some (s, err (calls_exceeded ∷ []))
        else more
    consume (text_delta value ∷ rest) text calls s =
        let more = send model_delta s >>= λ r. elim r.1 [
          | none ↦ consume rest (text ++ value) calls r.0
          | some failure ↦ some (r.0, err (emission_failed failure ∷ []))
        ] in
        if ltb maximum_operation_text_bytes (length text + length value)
        then some (s, err (text_exceeded ∷ []))
        else more
