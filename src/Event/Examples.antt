-- ===== src/Event/Examples.antt =====
-- event/event.go: one envelope for an observer with one free place.
use spice_agent.Base.{arith, false, [], ◌∷◌}
use spice_agent.Event.Kind.{model_delta, tool_progress}
use spice_agent.Event.Envelope.{Envelope}
use spice_agent.Event.Observer.{BestEffortObserver, try_publish}
use spice_agent.Event.Mailbox.{IsBounded, IsPublished, try_publish-IsPublished}

abbrev envelope : Envelope
envelope = record { run_id = 114 ∷ []; sequence = 1; at = 5; kind = model_delta; payload = [] }

abbrev observer : BestEffortObserver
observer = record {
  mailbox = [];
  capacity = 1;
  filter = record { excluded = tool_progress ∷ [] };
  dropped = 0;
  filtered = 0;
  closed = false;
}

observer-IsBounded : IsBounded observer
observer-IsBounded = record { within = omega arith; passing = tt }

try_publish-IsPublished_example : IsPublished envelope observer (try_publish observer envelope)
try_publish-IsPublished_example =
    try_publish-IsPublished observer envelope observer-IsBounded (omega arith) (omega arith)
