-- ===== src/Agent/Turns.antt =====
-- agent/agent.go, executeTurn: a turn ends, and so does all that it starts.
use spice_agent.Base.{
  ℕ, refl, sym, subst, Bool, true, false, if_intro, List, [], ◌∷◌, Option, none, some, Result, ok,
  err, Bytes,
}
use spice_agent.Event.Kind.{Kind, terminal_kind}
use spice_agent.Event.Envelope.{Envelope}
use spice_agent.Agent.Emitter.{EmitError, is_committed}
use spice_agent.Agent.Turn.{
  Moment, TurnState, TurnCause, emission_failed, request_refused, stream_not_started, ModelStream,
  ◌>>=◌, send, close_stream_with,
}
use spice_agent.Agent.Execute.{
  TurnParts, TurnResult, failing, turn_ended, rounded, model_ended, consumed, streaming,
  model_begun, turn_begun, execute_turn,
}
use spice_agent.Agent.Balance.{
  outside, in_turn, in_model, after_model, order, IsAt, FailsAt, ConsumesAt, Attempted, send_lem,
  landed, refused, closed, fail_turn_lem, fail_model_lem, consume_lem,
}

abbrev pub RoundAt : {H : Type 0} → Option (TurnState × H × List TurnCause) → Type 0
RoundAt none = ⊥
RoundAt (some (s, h, causes)) = IsAt after_model s

-- What a turn asks of its tool round: it does not panic, and closes the tools that it starts.
pub record KeepsTurn {C H : Type 0} (parts : TurnParts C H) : Type 0 where
  pub round_keeps :
      (text : Bytes) (calls : List C) (h : H) (s : TurnState)
      → IsAt after_model s
      → RoundAt (parts.tool_round text calls h s)

-- The turn returns, with all that it started ended.
abbrev pub EndsAt : {H : Type 0} → TurnResult H → Type 0
EndsAt none = ⊥
EndsAt (some (s, h, complete, causes)) = IsAt outside s

module _ {H : Type 0} where
  failing_lem :
      (h : H) (x : Option (TurnState × List TurnCause)) → FailsAt outside x → EndsAt (failing h x)
  unfolding failing
  failing_lem h none v = v
  failing_lem h (some (s, causes)) v = v

  turn_ended_lem :
      (h : H) (complete : Bool) (r : TurnState × Option EmitError)
      → IsAt outside r.0
      → EndsAt (turn_ended h complete r)
  unfolding turn_ended
  turn_ended_lem h complete (s, none) v = v
  turn_ended_lem h complete (s, some failure) v = v

module _ {C H : Type 0} (json_valid : Bytes → Bool) (marshal : Envelope → Option Bytes)
    (script : ℕ → Moment) (parts : TurnParts C H) (keeps : KeepsTurn parts) where
  completing :
      (h : H) (complete : Bool) (s : TurnState)
      → IsAt after_model s
      → EndsAt (send json_valid marshal script Kind.turn_completed s >>= turn_ended h complete)
  unfolding order terminal_kind
  completing h complete s v =
      let (r, run, att) = send_lem json_valid marshal script Kind.turn_completed s v.in_step in
      subst (λ x. EndsAt (x >>= turn_ended h complete)) (sym run)
        (turn_ended_lem h complete r
          (closed json_valid marshal script after_model Kind.turn_completed s r refl v att))

  rounded_lem :
      (x : Option (TurnState × H × List TurnCause))
      → RoundAt x
      → EndsAt (x >>= rounded json_valid marshal script parts)
  unfolding rounded order
  rounded_lem none v = v
  rounded_lem (some (s, h, [])) v = completing h false s v
  rounded_lem (some (s, h, cause ∷ causes)) v =
      failing_lem h _
        (fail_turn_lem json_valid marshal script after_model (cause ∷ causes) s refl v)

  model_ended_lem :
      (h : H) (text : Bytes) (calls : List C) (r : TurnState × Option EmitError)
      → IsAt after_model r.0
      → EndsAt (model_ended json_valid marshal script parts h text calls r)
  unfolding model_ended order
  model_ended_lem h text [] (s, none) v = completing h true s v
  model_ended_lem h text (call ∷ calls) (s, none) v =
      rounded_lem (parts.tool_round text (call ∷ calls) h s)
        (keeps.round_keeps text (call ∷ calls) h s v)
  model_ended_lem h text calls (s, some failure) v =
      failing_lem h _ (
        fail_turn_lem json_valid marshal script after_model (emission_failed failure ∷ []) s refl v)

  consumed_lem :
      (h : H) (r : TurnState × Result (List TurnCause) (Bytes × List C))
      → IsAt in_model r.0
      → EndsAt (consumed json_valid marshal script parts h r)
  unfolding consumed order terminal_kind
  consumed_lem h (s, err causes) v =
      failing_lem h _ (fail_model_lem json_valid marshal script causes s v)
  consumed_lem h (s, ok (text, calls)) v =
      let (r, run, att) = send_lem json_valid marshal script Kind.model_completed s v.in_step in
      subst (λ x. EndsAt (x >>= model_ended json_valid marshal script parts h text calls)) (sym run)
        (model_ended_lem h text calls r
          (closed json_valid marshal script in_model Kind.model_completed s r refl v att))

  consuming_lem :
      (h : H) (fails : Bool) (x : Option (TurnState × Result (List TurnCause) (Bytes × List C)))
      → ConsumesAt x
      → EndsAt
          (x >>= λ r. consumed json_valid marshal script parts h (r.0, close_stream_with fails r.1))
  consuming_lem h fails none v = v
  consuming_lem h fails (some (s, result)) v = consumed_lem h (s, close_stream_with fails result) v

  streaming_lem :
      (h : H) (s : TurnState) (o : Option (ModelStream C))
      → IsAt in_model s
      → EndsAt (streaming json_valid marshal script parts h s o)
  unfolding streaming
  streaming_lem h s none v =
      failing_lem h _ (fail_model_lem json_valid marshal script (stream_not_started ∷ []) s v)
  streaming_lem h s (some stream) v =
      consuming_lem h stream.close_fails _
        (consume_lem json_valid marshal script stream.answers [] [] s v)

  model_begun_lem :
      (h : H) (s : TurnState) (r : TurnState × Option EmitError)
      → IsAt in_turn s
      → Attempted s Kind.model_started r
      → EndsAt (model_begun json_valid marshal script parts h r)
  unfolding model_begun order is_committed
  model_begun_lem h s (s', none) v att =
      streaming_lem h s' (parts.open_stream h s')
        (landed json_valid marshal script in_turn Kind.model_started s (s', none) v att refl)
  model_begun_lem h s (s', some failure) v att =
      if_intro (EndsAt {H = H}) (is_committed (some failure))
        (λ c. failing_lem h _ (
          fail_model_lem json_valid marshal script (emission_failed failure ∷ []) s' (
            landed json_valid marshal script in_turn Kind.model_started s (s', some failure) v att
              c)))
        (λ c. failing_lem h _ (
          fail_turn_lem json_valid marshal script in_turn (emission_failed failure ∷ []) s' refl (
            refused json_valid marshal script in_turn Kind.model_started s (s', some failure) v att
              c)))

  turn_begun_lem :
      (h : H) (s : TurnState) (r : TurnState × Option EmitError)
      → IsAt outside s
      → Attempted s Kind.turn_started r
      → EndsAt (turn_begun json_valid marshal script parts h r)
  unfolding turn_begun order is_committed
  turn_begun_lem h s (s', none) v att =
      let v' = landed json_valid marshal script outside Kind.turn_started s (s', none) v att refl in
      if_intro (EndsAt {H = H}) (parts.accepts_request h)
        (λ _.
          let (r, run, att') =
            send_lem json_valid marshal script Kind.model_started s' v'.in_step in
          subst (λ x. EndsAt (x >>= model_begun json_valid marshal script parts h)) (sym run)
            (model_begun_lem h s' r v' att'))
        (λ _.
          failing_lem h _
            (fail_turn_lem json_valid marshal script in_turn (request_refused ∷ []) s' refl v'))
  turn_begun_lem h s (s', some failure) v att =
      if_intro (EndsAt {H = H}) (is_committed (some failure))
        (λ c. failing_lem h _ (
          fail_turn_lem json_valid marshal script in_turn (emission_failed failure ∷ []) s' refl (
            landed json_valid marshal script outside Kind.turn_started s (s', some failure) v att
              c)))
        (λ c.
          refused json_valid marshal script outside Kind.turn_started s (s', some failure) v att c)

  -- With a tool round that does not panic and closes the tools that it starts, a turn returns whatever
  -- the contexts, the clock, the payloads, the observers and the stream do, and leaves the emitter in step
  -- with its log. Its committed events stand in the order of turns and model operations, with every turn
  -- and every model operation that was started ended by one terminal event, unless a terminal event was
  -- among those that were not committed.
  pub execute_turn-EndsAt :
      (h : H) (s : TurnState)
      → IsAt outside s
      → EndsAt (execute_turn json_valid marshal script parts h s)
  unfolding execute_turn
  execute_turn-EndsAt h s v =
      let (r, run, att) = send_lem json_valid marshal script Kind.turn_started s v.in_step in
      subst (λ x. EndsAt (x >>= turn_begun json_valid marshal script parts h)) (sym run)
        (turn_begun_lem h s r v att)
