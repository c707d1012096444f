-- ===== src/Agent/Rounds.antt =====
-- agent/agent.go, appendToolRound under executeTurn: a tool round closes the tools that it starts.
use spice_agent.Base.{
  ℕ, zero, suc, refl, sym, subst, Bool, true, false, Bool-cases, if_intro, inl, inr, List, [], ◌∷◌,
  Option, none, some, Result, ok, err, Bytes,
}
use spice_agent.Event.Kind.{tool_progress, tool_completed, terminal_kind}
use spice_agent.Event.Envelope.{Envelope}
use spice_agent.Agent.Emitter.{EmitError, is_committed}
use spice_agent.Agent.Turn.{Moment, TurnState, TurnCause, round_failed, ModelStream, ◌>>=◌}
use spice_agent.Agent.Execute.{execute_turn}
use spice_agent.Agent.Balance.{
  outside, after_model, in_tool, order, IsAt, FailsAt, Attempted, send_lem, landed, refused,
}
use spice_agent.Agent.Turns.{RoundAt, KeepsTurn, EndsAt, execute_turn-EndsAt}
use spice_agent.Agent.Tools.{
  ToolParts, RoundResult, proceed, with_history, history_kept, report_all, tool_answered, run_tool,
  run_tools, tools_opened, append_tool_round, with_tools,
}
use spice_agent.Agent.Openings.{
  MakesTerminals, StartsAt, send_terminal_lem, failed_lem, fail_tool_lem, start_tool_lem,
}

abbrev ReportsAt : Option TurnState → Type 0
ReportsAt none = ⊥
ReportsAt (some s) = IsAt in_tool s

module _ {H : Type 0} where
  with_history_lem :
      (h : H) (x : Option (TurnState × List TurnCause))
      → FailsAt after_model x
      → RoundAt (with_history h x)
  unfolding with_history
  with_history_lem h none v = v
  with_history_lem h (some (s, causes)) v = v

  history_kept_lem :
      (s : TurnState) (h : H) (r : Result (List TurnCause) H)
      → IsAt after_model s
      → RoundAt (history_kept s h r)
  unfolding history_kept
  history_kept_lem s h (ok h') v = v
  history_kept_lem s h (err causes) v = v

  -- What follows a part of the round that reports no error.
  proceed_lem :
      (next : TurnState → H → RoundResult H) (x : RoundResult H)
      → RoundAt x
      → ((s : TurnState) (h : H) → IsAt after_model s → RoundAt (next s h))
      → RoundAt (x >>= proceed next)
  unfolding proceed
  proceed_lem next none v more = v
  proceed_lem next (some (s, h, [])) v more = more s h v
  proceed_lem next (some (s, h, cause ∷ causes)) v more = v

  proceed_started :
      (next : TurnState → H → RoundResult H) (h : H) (x : Option (TurnState × List TurnCause))
      → StartsAt x
      → ((s : TurnState) (h' : H) → IsAt in_tool s → RoundAt (next s h'))
      → RoundAt (with_history h x >>= proceed next)
  unfolding with_history proceed
  proceed_started next h none v more = v
  proceed_started next h (some (s, [])) v more = more s h v
  proceed_started next h (some (s, cause ∷ causes)) v more = v

module _ {C H : Type 0} (json_valid : Bytes → Bool) (marshal : Envelope → Option Bytes)
    (script : ℕ → Moment) (parts : ToolParts C H) (makes : MakesTerminals parts) where
  progress_lem :
      (s : TurnState) (r : TurnState × Option EmitError)
      → IsAt in_tool s
      → Attempted s tool_progress r
      → IsAt in_tool r.0
  unfolding order
  progress_lem s r v att = elim (Bool-cases (is_committed r.1)) [
    | inl c ↦ landed json_valid marshal script in_tool tool_progress s r v att c
    | inr c ↦ refused json_valid marshal script in_tool tool_progress s r v att c
  ]

  report_all_lem :
      (n : ℕ) (s : TurnState)
      → IsAt in_tool s
      → ReportsAt (report_all json_valid marshal script parts n s)
  unfolding report_all
  report_all_lem zero s v = v
  report_all_lem (suc n) s v =
      let (r, run, att) = send_lem json_valid marshal script tool_progress s v.in_step in
      subst (λ x. ReportsAt (x >>= λ y. report_all json_valid marshal script parts n y.0)) (sym run)
        (report_all_lem n r.0 (progress_lem s r v att))

  tool_answered_lem :
      (call : C) (h : H) (o : Option Bool) (s : TurnState)
      → IsAt in_tool s
      → RoundAt (tool_answered json_valid marshal script parts call h o s)
  unfolding tool_answered terminal_kind order
  tool_answered_lem call h none s v =
      with_history_lem h _
        (fail_tool_lem json_valid marshal script parts makes round_failed call s v)
  tool_answered_lem call h (some true) s v =
      proceed_lem _ _
        (with_history_lem h _ (failed_lem json_valid marshal script parts makes call s v))
        (λ s' h' v'. history_kept_lem s' h' (parts.append_result call h' s') v')
  tool_answered_lem call h (some false) s v =
      proceed_lem _ _
        (with_history_lem h _ (
          send_terminal_lem json_valid marshal script parts makes tool_completed call s refl refl
            v))
        (λ s' h' v'. history_kept_lem s' h' (parts.append_result call h' s') v')

  answered_lem :
      (call : C) (h : H) (x : Option TurnState)
      → ReportsAt x
      → RoundAt (
          x >>= λ s'.
          tool_answered json_valid marshal script parts call h (parts.dispatch call s') s')
  answered_lem call h none v = v
  answered_lem call h (some s) v = tool_answered_lem call h (parts.dispatch call s) s v

  run_tool_lem :
      (call : C) (h : H) (s : TurnState)
      → IsAt in_tool s
      → RoundAt (run_tool json_valid marshal script parts call h s)
  unfolding run_tool
  run_tool_lem call h s v =
      if_intro RoundAt (parts.scoped call)
        (λ _. answered_lem call h _ (report_all_lem (parts.reports call s) s v))
        (λ _.
          with_history_lem h _
            (fail_tool_lem json_valid marshal script parts makes round_failed call s v))

  run_tools_lem :
      (calls : List C) (h : H) (s : TurnState)
      → IsAt after_model s
      → RoundAt (run_tools json_valid marshal script parts calls h s)
  unfolding run_tools
  run_tools_lem [] h s v = v
  run_tools_lem (call ∷ calls) h s v =
      proceed_started _ h _ (start_tool_lem json_valid marshal script parts makes call s v)
        (λ s' h' v'.
          proceed_lem _ _ (run_tool_lem call h' s' v')
            (λ s'' h'' v''. run_tools_lem calls h'' s'' v''))

  tools_opened_lem :
      (calls : List C) (s : TurnState) (h : H) (r : Result (List TurnCause) H)
      → IsAt after_model s
      → RoundAt (tools_opened json_valid marshal script parts calls s h r)
  unfolding tools_opened
  tools_opened_lem calls s h (err causes) v = v
  tools_opened_lem calls s h (ok h') v = run_tools_lem calls h' s v

  with_tools-KeepsTurn :
      (accepts_request : H → Bool) (open_stream : H → TurnState → Option (ModelStream C))
      → KeepsTurn (with_tools json_valid marshal script parts accepts_request open_stream)
  unfolding with_tools append_tool_round
  with_tools-KeepsTurn accepts_request open_stream = record {
    round_keeps =
        λ text calls h s v. tools_opened_lem calls s h (parts.open_round text calls h s) v;
  }

  -- Where the terminal occurrence of every tool call is made and encoded, a turn with its tool round returns
  -- whatever the contexts, the clock, the payloads, the observers, the stream and the dispatches do, and
  -- leaves the emitter in step with its log. Its committed events stand in the order of turns, model
  -- operations and tools, with every turn, model operation and tool that was started ended by one
  -- terminal event, unless a terminal event was among those that were not committed.
  pub execute_turn-with_tools :
      (accepts_request : H → Bool) (open_stream : H → TurnState → Option (ModelStream C)) (h : H)
      (s : TurnState)
      → IsAt outside s
      → EndsAt (
          execute_turn json_valid marshal script
            (with_tools json_valid marshal script parts accepts_request open_stream)
            h
            s)
  execute_turn-with_tools accepts_request open_stream h s v =
      execute_turn-EndsAt json_valid marshal script _
        (with_tools-KeepsTurn accepts_request open_stream) h s v
