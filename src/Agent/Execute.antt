-- ===== src/Agent/Execute.antt =====
-- agent/agent.go, executeTurn: the course of one turn, over its stream and its tool round.
use spice_agent.Base.{
  ℕ, Bool, true, false, if◌then◌else◌, List, [], ◌∷◌, Option, none, some, Result, ok, err, Bytes,
}
use spice_agent.Event.Kind.{turn_started, turn_completed, model_started, model_completed}
use spice_agent.Event.Envelope.{Envelope}
use spice_agent.Agent.Emitter.{EmitError, is_committed}
use spice_agent.Agent.Turn.{
  Moment, TurnState, TurnCause, emission_failed, request_refused, stream_not_started, ModelStream,
  ◌>>=◌, send, fail_turn, fail_model, consume, close_stream_with,
}

-- What a turn takes from the other components, over the calls `C` of the model and the history `H`:
-- whether model.NewRequest makes a request of the history, the stream that the provider opens for it, if
-- it opens one, and the tool round of appendToolRound, with the causes of its error.
pub record TurnParts (C H : Type 0) : Type 0 where
  pub accepts_request : H → Bool
  pub open_stream : H → TurnState → Option (ModelStream C)
  pub tool_round : Bytes → List C → H → TurnState → Option (TurnState × H × List TurnCause)

-- The state, the history, whether the run is complete, and the causes of the error, if there are any.
abbrev pub TurnResult : Type 0 → Type 0
TurnResult H = Option (TurnState × H × Bool × List TurnCause)

module _ {H : Type 0} where
  unfoldable pub failing : H → Option (TurnState × List TurnCause) → TurnResult H
  failing h none = none
  failing h (some (s, causes)) = some (s, h, false, causes)

  -- The return after TurnCompleted.
  unfoldable pub turn_ended : H → Bool → TurnState × Option EmitError → TurnResult H
  turn_ended h complete (s, none) = some (s, h, complete, [])
  turn_ended h complete (s, some failure) = some (s, h, false, emission_failed failure ∷ [])

module _ {C H : Type 0} (json_valid : Bytes → Bool) (marshal : Envelope → Option Bytes)
    (script : ℕ → Moment) (parts : TurnParts C H) where
  unfoldable pub rounded : TurnState × H × List TurnCause → TurnResult H
  unfolding failing turn_ended
  rounded (s, h, []) = send json_valid marshal script turn_completed s >>= turn_ended h false
  rounded (s, h, cause ∷ causes) =
      failing h (fail_turn json_valid marshal script (cause ∷ causes) s)

  -- After the emission of ModelCompleted.
  unfoldable pub model_ended : H → Bytes → List C → TurnState × Option EmitError → TurnResult H
  unfolding failing turn_ended rounded
  model_ended h text calls (s, some failure) =
      failing h (fail_turn json_valid marshal script (emission_failed failure ∷ []) s)
  model_ended h text [] (s, none) =
      send json_valid marshal script turn_completed s >>= turn_ended h true
  model_ended h text (call ∷ calls) (s, none) = parts.tool_round text (call ∷ calls) h s >>= rounded

  -- After consumeStream.
  unfoldable pub consumed : H → TurnState × Result (List TurnCause) (Bytes × List C) → TurnResult H
  unfolding failing model_ended
  consumed h (s, err causes) = failing h (fail_model json_valid marshal script causes s)
  consumed h (s, ok (text, calls)) =
      send json_valid marshal script model_completed s >>= model_ended h text calls

  unfoldable pub streaming : H → TurnState → Option (ModelStream C) → TurnResult H
  unfolding failing consumed
  streaming h s none = failing h (fail_model json_valid marshal script (stream_not_started ∷ []) s)
  streaming h s (some stream) = consume json_valid marshal script stream.answers [] [] s >>= λ r.
      consumed h (r.0, close_stream_with stream.close_fails r.1)

  -- After the emission of ModelStarted.
  unfoldable pub model_begun : H → TurnState × Option EmitError → TurnResult H
  unfolding failing streaming
  model_begun h (s, none) = streaming h s (parts.open_stream h s)
  model_begun h (s, some failure) =
      if is_committed (some failure)
      then failing h (fail_model json_valid marshal script (emission_failed failure ∷ []) s)
      else failing h (fail_turn json_valid marshal script (emission_failed failure ∷ []) s)

  -- After the emission of TurnStarted.
  unfoldable pub turn_begun : H → TurnState × Option EmitError → TurnResult H
  unfolding failing model_begun
  turn_begun h (s, none) =
      if parts.accepts_request h
      then send json_valid marshal script model_started s >>= model_begun h
      else failing h (fail_turn json_valid marshal script (request_refused ∷ []) s)
  turn_begun h (s, some failure) =
      if is_committed (some failure)
      then failing h (fail_turn json_valid marshal script (emission_failed failure ∷ []) s)
      else some (s, h, false, emission_failed failure ∷ [])

  -- executeTurn
  unfoldable pub execute_turn : H → TurnState → TurnResult H
  unfolding turn_begun
  execute_turn h s = send json_valid marshal script turn_started s >>= turn_begun h
