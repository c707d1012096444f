-- ===== src/Agent/Tools.antt =====
-- agent/agent.go, appendToolRound and emitToolStarted: the tools that one turn runs, as it emits their
-- events.
use spice_agent.Base.{
  ℕ, zero, suc, Bool, if◌then◌else◌, List, [], ◌∷◌, Option, none, some, Result, ok, err, Bytes,
}
use spice_agent.Event.Kind.{Kind, tool_started, tool_progress, tool_completed, tool_failed}
use spice_agent.Event.Envelope.{Envelope}
use spice_agent.Agent.Emitter.{EmitError, is_committed}
use spice_agent.Agent.Turn.{
  Moment, TurnState, TurnCause, emission_failed, round_failed, ModelStream, ◌>>=◌, durability, send,
  send_failure,
}
use spice_agent.Agent.Execute.{TurnParts}

-- What a round takes from the other components: the checks before its first tool, with the assistant's
-- message in the history; whether the started and the terminal occurrence of a call are made and
-- encoded; whether the plan declares its tool and its scopes are made; how often its dispatch reports
-- progress, and whether it answers, with a problem or without; and the result's message.
pub record ToolParts (C H : Type 0) : Type 0 where
  pub open_round : Bytes → List C → H → TurnState → Result (List TurnCause) H
  pub start_made : C → Bool
  pub terminal_made : Kind → C → Bool
  pub declared : C → Bool
  pub scoped : C → Bool
  pub reports : C → TurnState → ℕ
  pub dispatch : C → TurnState → Option Bool
  pub append_result : C → H → TurnState → Result (List TurnCause) H

abbrev pub RoundResult : Type 0 → Type 0
RoundResult H = Option (TurnState × H × List TurnCause)

module _ {H : Type 0} where
  -- Goes on where there is no error.
  unfoldable pub proceed :
      (TurnState → H → RoundResult H) → TurnState × H × List TurnCause → RoundResult H
  proceed next (s, h, []) = next s h
  proceed next (s, h, cause ∷ causes) = some (s, h, cause ∷ causes)

  unfoldable pub with_history : H → Option (TurnState × List TurnCause) → RoundResult H
  with_history h none = none
  with_history h (some (s, causes)) = some (s, h, causes)

  unfoldable pub history_kept : TurnState → H → Result (List TurnCause) H → RoundResult H
  history_kept s h (ok h') = some (s, h', [])
  history_kept s h (err causes) = some (s, h, causes)

module _ {C H : Type 0} (json_valid : Bytes → Bool) (marshal : Envelope → Option Bytes)
    (script : ℕ → Moment) (parts : ToolParts C H) where
  -- NewToolTerminalOccurrence and toolTerminal
  unfoldable pub send_terminal : Kind → C → TurnState → Option (TurnState × List TurnCause)
  send_terminal kind call s =
      if parts.terminal_made kind call
      then (send_failure json_valid marshal script kind s >>= λ r. some (r.0, durability kind r.1))
      else some (s, round_failed ∷ [])

  -- The return of an error after toolFailure.
  unfoldable pub fail_tool : TurnCause → C → TurnState → Option (TurnState × List TurnCause)
  unfolding send_terminal
  fail_tool cause call s = send_terminal tool_failed call s >>= λ r. some (r.0, cause ∷ r.1)

  unfoldable pub tool_begun : C → TurnState × Option EmitError → Option (TurnState × List TurnCause)
  unfolding fail_tool
  tool_begun call (s, none) =
      if parts.declared call then some (s, []) else fail_tool round_failed call s
  tool_begun call (s, some failure) =
      if is_committed (some failure)
      then fail_tool (emission_failed failure) call s
      else some (s, emission_failed failure ∷ [])

  -- emitToolStarted
  unfoldable pub start_tool : C → TurnState → Option (TurnState × List TurnCause)
  unfolding tool_begun
  start_tool call s =
      if parts.start_made call
      then (send json_valid marshal script tool_started s >>= tool_begun call)
      else some (s, round_failed ∷ [])

  -- The calls of Report by a dispatch; their errors are the dispatcher's.
  unfoldable pub report_all : ℕ → TurnState → Option TurnState
  report_all zero s = some s
  report_all (suc n) s = send json_valid marshal script tool_progress s >>= λ r. report_all n r.0

  unfoldable pub tool_answered : C → H → Option Bool → TurnState → RoundResult H
  unfolding with_history proceed history_kept
  tool_answered call h none s = with_history h (fail_tool round_failed call s)
  tool_answered call h (some failed) s =
      with_history h (send_terminal (if failed then tool_failed else tool_completed) call s)
      >>= proceed (λ s' h'. history_kept s' h' (parts.append_result call h' s'))

  -- One call, from its scopes to its result in the history.
  unfoldable pub run_tool : C → H → TurnState → RoundResult H
  unfolding tool_answered
  run_tool call h s =
      if parts.scoped call
      then (report_all (parts.reports call s) s >>= λ s'.
          tool_answered call h (parts.dispatch call s') s')
      else with_history h (fail_tool round_failed call s)

  -- The loop over the calls.
  unfoldable pub run_tools : List C → H → TurnState → RoundResult H
  unfolding run_tool start_tool
  run_tools [] h s = some (s, h, [])
  run_tools (call ∷ calls) h s =
      with_history h (start_tool call s)
      >>= proceed (λ s' h'. run_tool call h' s' >>= proceed (λ s'' h''. run_tools calls h'' s''))

  unfoldable pub tools_opened : List C → TurnState → H → Result (List TurnCause) H → RoundResult H
  unfolding run_tools
  tools_opened calls s h (err causes) = some (s, h, causes)
  tools_opened calls s h (ok h') = run_tools calls h' s

  -- appendToolRound
  unfoldable pub append_tool_round : Bytes → List C → H → TurnState → RoundResult H
  unfolding tools_opened
  append_tool_round text calls h s = tools_opened calls s h (parts.open_round text calls h s)

  -- A turn with this round.
  unfoldable pub with_tools : (H → Bool) → (H → TurnState → Option (ModelStream C)) → TurnParts C H
  unfolding append_tool_round
  with_tools accepts_request open_stream = record {
    accepts_request = accepts_request;
    open_stream = open_stream;
    tool_round = append_tool_round;
  }
