-- ===== src/Agent/Cancelled.antt =====
-- agent/agent.go, executeTurn: a context that ends between the end of the stream and ModelCompleted.
use spice_agent.Base.{
  ℕ, ◌≡◌, ap, ◌∙◌, suc, Bool, false, List, [], ◌∷◌, ◌++◌, Option, some, ok, Bytes, ContextError,
}
use spice_agent.Event.Kind.{Kind}
use spice_agent.Event.Envelope.{Envelope}
use spice_agent.Agent.Emitter.{context_ended, is_committed, emit}
use spice_agent.Agent.Emission.{IsInStep}
use spice_agent.Agent.Turn.{
  Moment, TurnState, TurnCause, emission_failed, ◌>>=◌, send, attempted, note_attempt, fail_turn,
  durability,
}
use spice_agent.Agent.Execute.{TurnParts, failing, model_ended, consumed}
use spice_agent.Agent.Balance.{send_failure_lem}

module _ {C H : Type 0} (json_valid : Bytes → Bool) (marshal : Envelope → Option Bytes)
    (script : ℕ → Moment) (parts : TurnParts C H) where
  -- After the refused emission.
  refused_state : TurnState → ContextError → TurnState
  refused_state s c = record s {
    moment = suc s.moment;
    attempts = (Kind.model_completed, false) ∷ s.attempts;
  }

  refused_completion :
      (s : TurnState) (c : ContextError)
      → (script s.moment).ended ≡ some c
      → send json_valid marshal script Kind.model_completed s
        ≡ some (refused_state s c, some (context_ended c))
  unfolding send attempted note_attempt emit is_committed refused_state
  refused_completion s c h =
      ap
        (λ x. attempted json_valid marshal script s Kind.model_completed (
          emit json_valid marshal x (script s.moment).encoding s.emitter (script s.moment).now
            Kind.model_completed (script s.moment).acknowledged))
        h

  -- When the context has ended after a stream that completed and before ModelCompleted is emitted, the
  -- turn is closed by an attempt of TurnFailed right after the refused ModelCompleted: the model
  -- operation that was started gets neither ModelCompleted nor ModelFailed.
  pub consumed-cancelled :
      (h : H) (text : Bytes) (calls : List C) (s : TurnState) (c : ContextError)
      → IsInStep s.emitter
      → (script s.moment).ended ≡ some c
      → (s' : TurnState) × (closed : Bool) × (causes : List TurnCause) × (consumed json_valid
            marshal script parts h
            (s, ok (text, calls))
          ≡ some (s', h, false, causes))
        × (s'.attempts ≡ (Kind.turn_failed, closed) ∷ (Kind.model_completed, false) ∷ s.attempts)
  unfolding consumed model_ended failing fail_turn refused_state
  consumed-cancelled h text calls s c v ended =
      let first : List TurnCause = emission_failed (context_ended c) ∷ [] in
      let (r, run, (step, made)) =
        send_failure_lem json_valid marshal script Kind.turn_failed (refused_state s c) v in
      (
        r.0,
        is_committed r.1,
        first ++ durability Kind.turn_failed r.1,
        ap (λ x. x >>= model_ended json_valid marshal script parts h text calls)
              (refused_completion s c ended)
            ∙ ap (λ x. failing h (x >>= λ y. some (y.0, first ++ durability Kind.turn_failed y.1)))
                run,
        made,
      )
