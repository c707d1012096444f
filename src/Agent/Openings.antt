-- ===== src/Agent/Openings.antt =====
-- agent/agent.go, emitToolStarted and toolFailure: a tool is open where its start reports no error, and
-- closed by one event.
use spice_agent.Base.{
  ℕ, ◌≡◌, refl, sym, subst, Bool, true, if◌then◌else◌, if_intro, List, [], ◌∷◌, Option, none, some,
  Bytes,
}
use spice_agent.Event.Kind.{Kind, tool_started, tool_failed, terminal_kind}
use spice_agent.Event.Envelope.{Envelope}
use spice_agent.Agent.Emitter.{EmitError, is_committed}
use spice_agent.Agent.Turn.{
  Moment, TurnState, TurnCause, emission_failed, round_failed, ◌>>=◌, durability, send_failure,
}
use spice_agent.Agent.Balance.{
  after_model, in_tool, TurnPhase, order, IsAt, FailsAt, Attempted, send_lem, send_failure_lem,
  landed, refused, closed,
}
use spice_agent.Agent.Tools.{ToolParts, send_terminal, fail_tool, tool_begun, start_tool}

-- The terminal occurrence of every call is made and encoded.
pub record MakesTerminals {C H : Type 0} (parts : ToolParts C H) : Type 0 where
  pub made : (kind : Kind) (call : C) → parts.terminal_made kind call ≡ true

-- A tool is open exactly where its start reported no error.
abbrev pub StartsAt : Option (TurnState × List TurnCause) → Type 0
StartsAt none = ⊥
StartsAt (some (s, [])) = IsAt in_tool s
StartsAt (some (s, cause ∷ causes)) = IsAt after_model s

starts_failed :
    (cause : TurnCause) (x : Option (TurnState × List TurnCause))
    → FailsAt after_model x
    → StartsAt (x >>= λ r. some (r.0, cause ∷ r.1))
starts_failed cause none v = v
starts_failed cause (some (s, causes)) v = v

fails_more :
    (p : TurnPhase) (cause : TurnCause) (x : Option (TurnState × List TurnCause))
    → FailsAt p x
    → FailsAt p (x >>= λ r. some (r.0, cause ∷ r.1))
fails_more p cause none v = v
fails_more p cause (some (s, causes)) v = v

module _ {C H : Type 0} (json_valid : Bytes → Bool) (marshal : Envelope → Option Bytes)
    (script : ℕ → Moment) (parts : ToolParts C H) (makes : MakesTerminals parts) where
  pub send_terminal_lem :
      (kind : Kind) (call : C) (s : TurnState)
      → terminal_kind kind ≡ true
      → order in_tool kind ≡ after_model
      → IsAt in_tool s
      → FailsAt after_model (send_terminal json_valid marshal script parts kind call s)
  unfolding send_terminal
  send_terminal_lem kind call s t o v =
      let (r, run, att) = send_failure_lem json_valid marshal script kind s v.in_step in
      subst
        (λ b. FailsAt after_model (
          if b
          then (send_failure json_valid marshal script kind s >>= λ y.
              some (y.0, durability kind y.1))
          else some (s, round_failed ∷ [])))
        (sym (makes.made kind call))
        (subst (λ x. FailsAt after_model (x >>= λ y. some (y.0, durability kind y.1))) (sym run)
          (subst (λ q. IsAt q r.0) o (closed json_valid marshal script in_tool kind s r t v att)))

  pub failed_lem :
      (call : C) (s : TurnState)
      → IsAt in_tool s
      → FailsAt after_model (send_terminal json_valid marshal script parts tool_failed call s)
  unfolding terminal_kind order
  failed_lem call s v = send_terminal_lem tool_failed call s refl refl v

  pub fail_tool_lem :
      (cause : TurnCause) (call : C) (s : TurnState)
      → IsAt in_tool s
      → FailsAt after_model (fail_tool json_valid marshal script parts cause call s)
  unfolding fail_tool
  fail_tool_lem cause call s v = fails_more after_model cause _ (failed_lem call s v)

  fail_start_lem :
      (cause : TurnCause) (call : C) (s : TurnState)
      → IsAt in_tool s
      → StartsAt (fail_tool json_valid marshal script parts cause call s)
  unfolding fail_tool
  fail_start_lem cause call s v = starts_failed cause _ (failed_lem call s v)

  tool_begun_lem :
      (call : C) (s : TurnState) (r : TurnState × Option EmitError)
      → IsAt after_model s
      → Attempted s tool_started r
      → StartsAt (tool_begun json_valid marshal script parts call r)
  unfolding tool_begun order is_committed
  tool_begun_lem call s (s', none) v att =
      let v' = landed json_valid marshal script after_model tool_started s (s', none) v att refl in
      if_intro StartsAt (parts.declared call) (λ _. v')
        (λ _. fail_start_lem round_failed call s' v')
  tool_begun_lem call s (s', some failure) v att =
      if_intro StartsAt (is_committed (some failure))
        (λ c.
          fail_start_lem (emission_failed failure) call s' (
            landed json_valid marshal script after_model tool_started s (s', some failure) v att c))
        (λ c.
          refused json_valid marshal script after_model tool_started s (s', some failure) v att c)

  pub start_tool_lem :
      (call : C) (s : TurnState)
      → IsAt after_model s
      → StartsAt (start_tool json_valid marshal script parts call s)
  unfolding start_tool
  start_tool_lem call s v =
      if_intro StartsAt (parts.start_made call)
        (λ _.
          let (r, run, att) = send_lem json_valid marshal script tool_started s v.in_step in
          subst (λ x. StartsAt (x >>= tool_begun json_valid marshal script parts call)) (sym run)
            (tool_begun_lem call s r v att))
        (λ _. v)
  -- An event of the tool's progress, committed or not, leaves the tool open.
