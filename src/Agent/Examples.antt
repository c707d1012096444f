-- ===== src/Agent/Examples.antt =====
-- agent: the theorems at concrete inputs.
use spice_agent.Base.{
  ℕ, ◌≡◌, refl, inr, Bool, true, false, List, [], ◌∷◌, ◌++◌, Option, none, some, ok, arith, Bytes,
  if◌then◌else◌, ◌==◌, canceled, add64,
}
use spice_agent.Event.Kind.{run_started, turn_started, turn_failed, model_started, model_completed}
use spice_agent.Event.Envelope.{Envelope}
use spice_agent.Event.Sequencer.{no_payload}
use spice_agent.Log.Store.{Log, empty_log, bad_limits}
use spice_agent.Log.Invariant.{IsWellFormed, empty_log-IsWellFormed}
use spice_agent.Agent.Ledger.{RunIdentityLimits, prepared_start_kind, valid_identity_limits}
use spice_agent.Agent.Engine.{new_engine}
use spice_agent.Agent.Lifecycle.{
  Admission, activate, commit_paused, first_admission, prepare, stop_engine,
}
use spice_agent.Agent.Admission.{IsAdmitted}
use spice_agent.Agent.Reached.{
  ReachedFrom, activates, calls, commits, prepares, reached-IsAdmitted, starts,
}
use spice_agent.Agent.Draining.{IsDrained, AdmissionCall-IsDrained}
use spice_agent.Agent.Emitter.{Emitter, emit}
use spice_agent.Agent.Emission.{IsInStep, IsEmission, emit-IsEmission}
use spice_agent.Agent.Turn.{
  Moment, ModelStream, TurnState, TurnCause, text_delta, tool_call, stream_completed,
}
use spice_agent.Agent.Execute.{TurnParts, consumed, execute_turn}
use spice_agent.Agent.Balance.{phase_after}
use spice_agent.Agent.Turns.{EndsAt}
use spice_agent.Agent.Tools.{ToolParts, with_tools}
use spice_agent.Agent.Openings.{MakesTerminals}
use spice_agent.Agent.Rounds.{execute_turn-with_tools}
use spice_agent.Agent.Cancelled.{consumed-cancelled}

abbrev small_limits : RunIdentityLimits
small_limits = record { entries = 2; bytes = 400 }

abbrev some_run : Bytes
some_run = b'r' ∷ b'1' ∷ []

-- A run that was prepared and committed, and then activated.
abbrev started : Admission
started =
    activate
      (commit_paused (prepare (first_admission small_limits) some_run prepared_start_kind) 1 false
        false)
      1

started_reached : ReachedFrom small_limits started
started_reached =
    calls small_limits _ _
      (calls small_limits _ _
        (calls small_limits _ _ (starts small_limits)
          (prepares (first_admission small_limits) some_run prepared_start_kind (omega arith)))
        (commits _ 1 false false))
      (activates _ 1)

reached-IsAdmitted_example : IsAdmitted started
unfolding valid_identity_limits
reached-IsAdmitted_example = reached-IsAdmitted small_limits started refl started_reached

abbrev small_log : Log
small_log = empty_log some_run 0 (record {
  max_events = 8;
  max_bytes = 4096;
  terminal_reserve_events = 1;
  terminal_reserve_bytes = 64;
  subscriber_max_events = 8;
  subscriber_max_bytes = 4096;
})

small_log-IsWellFormed : IsWellFormed small_log
unfolding bad_limits empty_log
small_log-IsWellFormed = empty_log-IsWellFormed some_run 0 small_log.limits (omega arith) refl

abbrev new_emitter : Emitter
new_emitter = record {
  run_id = some_run;
  next = 1;
  last_sequence = 0;
  log = small_log;
  best_effort = [];
}

new_emitter-IsInStep : IsInStep new_emitter
unfolding empty_log add64
new_emitter-IsInStep = record {
  sound = small_log-IsWellFormed;
  same_run = refl;
  recorded = refl;
  place = refl;
}

abbrev every_json : Bytes → Bool
every_json content = true

abbrev short_encoding : Envelope → Option Bytes
short_encoding envelope = some (b'{' ∷ b'}' ∷ [])

emit-IsEmission_example :
    IsEmission new_emitter run_started
      (emit every_json short_encoding none no_payload new_emitter 7 run_started (true ∷ false ∷ []))
emit-IsEmission_example =
    emit-IsEmission every_json short_encoding none no_payload new_emitter 7 run_started
      (true ∷ false ∷ []) new_emitter-IsInStep

-- The context ends before the emission of this number.
abbrev moments_to : ℕ → ℕ → Moment
moments_to last n = record {
  ended = if n == last then some canceled else none;
  now = 7;
  encoding = no_payload;
  acknowledged = [];
}

abbrev moments : ℕ → Moment
moments = moments_to 3

abbrev some_parts : TurnParts ℕ (List ℕ)
some_parts = record {
  accepts_request = λ h. true;
  open_stream = λ h s. some (record {
    answers = text_delta (b'h' ∷ b'i' ∷ []) ∷ tool_call 5 ∷ stream_completed ∷ [];
    close_fails = false;
  });
  tool_round = λ text calls h s. some (s, h ++ calls, []);
}

abbrev new_turn : TurnState
new_turn = record { emitter = new_emitter; moment = 0; attempts = [] }

-- Two calls, of which the dispatch of the first reports twice and answers, and that of the second fails.
abbrev some_tools : ToolParts ℕ (List ℕ)
some_tools = record {
  open_round = λ text calls h s. ok (h ++ calls);
  start_made = λ call. true;
  terminal_made = λ kind call. true;
  declared = λ call. true;
  scoped = λ call. true;
  reports = λ call s. 2;
  dispatch = λ call s. if call == 5 then some false else none;
  append_result = λ call h s. ok (h ++ call ∷ []);
}

some_tools-MakesTerminals : MakesTerminals some_tools
some_tools-MakesTerminals = record { made = λ kind call. refl }

abbrev two_calls : List ℕ → TurnState → Option (ModelStream ℕ)
two_calls h s = some (record {
  answers = text_delta (b'h' ∷ b'i' ∷ []) ∷ tool_call 5 ∷ tool_call 6 ∷ stream_completed ∷ [];
  close_fails = false;
})

execute_turn-with_tools_example : EndsAt (
    execute_turn every_json short_encoding
      (moments_to 6)
      (with_tools every_json short_encoding (moments_to 6) some_tools (λ h. true) two_calls)
      []
      new_turn)
unfolding phase_after
execute_turn-with_tools_example =
    execute_turn-with_tools every_json short_encoding (moments_to 6) some_tools
      some_tools-MakesTerminals (λ h. true) two_calls [] new_turn
      (record { in_step = new_emitter-IsInStep; stands = inr refl })

abbrev streamed : TurnState
streamed = record {
  emitter = new_emitter;
  moment = 3;
  attempts = (model_started, true) ∷ (turn_started, true) ∷ [];
}

consumed-cancelled_example :
    (s' : TurnState) × (closed : Bool) × (causes : List TurnCause) × (consumed every_json
        short_encoding moments some_parts []
        (streamed, ok ([], []))
      ≡ some (s', [], false, causes))
    × (s'.attempts ≡ (turn_failed, closed) ∷ (model_completed, false) ∷ streamed.attempts)
consumed-cancelled_example =
    consumed-cancelled every_json short_encoding moments some_parts [] [] [] streamed canceled
      new_emitter-IsInStep refl

AdmissionCall-IsDrained_example :
    IsDrained
      (prepare (stop_engine (first_admission small_limits)) some_run prepared_start_kind).engine
unfolding stop_engine first_admission new_engine
AdmissionCall-IsDrained_example =
    AdmissionCall-IsDrained (stop_engine (first_admission small_limits)) _
      (record { shut = refl; none_active = refl })
      (prepares (stop_engine (first_admission small_limits)) some_run prepared_start_kind
        (omega arith))
