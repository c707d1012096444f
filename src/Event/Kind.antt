-- ===== src/Event/Kind.antt =====
-- event/event.go: the event kinds, and the two tests on them.
use spice_agent.Base.{Bool, true, false, Bytes, ℕ_discrete}

-- `other` is any string that is not one of the constants.
pub data Kind : Type 0 where
  run_started run_completed run_failed run_cancelled : Kind
  turn_started turn_completed turn_failed : Kind
  model_started model_delta model_completed model_failed : Kind
  tool_started tool_progress tool_completed tool_failed : Kind
  interaction_started interaction_completed interaction_failed interaction_cancelled : Kind
  other : Bytes → Kind

unfoldable pub Kind-discrete : Discrete Kind
Kind-discrete = hlevel ℕ_discrete

-- validKind
unfoldable pub valid_kind : Kind → Bool
valid_kind (other s) = false
valid_kind _ = true

-- Envelope.Terminal, by the kind.
unfoldable pub terminal_kind : Kind → Bool
terminal_kind run_completed = true
terminal_kind run_failed = true
terminal_kind run_cancelled = true
terminal_kind turn_completed = true
terminal_kind turn_failed = true
terminal_kind model_completed = true
terminal_kind model_failed = true
terminal_kind tool_completed = true
terminal_kind tool_failed = true
terminal_kind interaction_completed = true
terminal_kind interaction_failed = true
terminal_kind interaction_cancelled = true
terminal_kind _ = false
