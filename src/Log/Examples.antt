-- ===== src/Log/Examples.antt =====
-- event/log.go on one small run: a log, a tail, two events and a delivery.
use spice_agent.Base.{
  Bool, suc, ◌+◌, ◌*◌, ◌<◌, ◌≡◌, refl, true, false, List, [], ◌∷◌, ◌++◌, Option, none, some, ok,
  arith, All, Bytes, bytes_eq, blank_or_padded, add64, ◌⊎◌, canceled, ◌↔◌,
}
use spice_agent.Event.Kind.{valid_kind, terminal_kind, model_delta, run_completed}
use spice_agent.Event.Sequencer.{Sequencer, no_payload, next_envelope, next_locked, number_used}
use spice_agent.Log.Feeding.{InStep, IsNext, append-next_envelope, next_envelope-IsNext}
use spice_agent.Event.Envelope.{reconstruct, Envelope, terminal}
use spice_agent.Log.Types.{LogLimits, LogEntry, LogError}
use spice_agent.Log.Subscription.{
  Subscription, waiting, offering, sent, returned, new_subscription, deliver, offer, consumer_ready,
  context_done_with, total_bytes,
}
use spice_agent.Log.Store.{
  Log, Window, empty_log, new_log_after, append_sized, append_fitting, admit, evict, bad_limits,
  append_max_bytes, bounds,
}
use spice_agent.Log.Replay.{
  ReplayRequest, replay_page, subscribe, take_page, replay_cursor_outside, page_last,
}
use spice_agent.Log.Evict.{Evicted, evict_lem}
use spice_agent.Log.Invariant.{IsWellFormed, empty_log-IsWellFormed}
use spice_agent.Log.Append.{
  Accepts, Refuses, entry_of, HasTaken, append-HasTaken, append_cases, append-IsWellFormed,
}
use spice_agent.Log.Reserve.{append_all, entries_of, terminal_reserve}
use spice_agent.Log.Cursor.{first_of_log, cursor_outside_iff}
use spice_agent.Log.Pages.{PageResult, take_page_lem}
use spice_agent.Log.Recovery.{IsOutcome, replay_page-IsOutcome}
use spice_agent.Log.Delivery.{IsFed, EndsByAbort, offer-IsFed}
use spice_agent.Log.Deliver.{deliver-IsFed}
use spice_agent.Log.System.{
  System, Reach, here, next, subscribes, appends, delivers, in_subscriber, noted,
}
use spice_agent.Log.Reachable.{start}
use spice_agent.Log.Served.{
  IsServed, Reach-IsServed, drain, drain-delivers, cancelled_drain, CutShort, deliver_all,
}

abbrev run : Bytes
run = 114 ∷ 117 ∷ 110 ∷ []

abbrev limits : LogLimits
limits = record {
  max_events = 4;
  max_bytes = 2048;
  terminal_reserve_events = 1;
  terminal_reserve_bytes = 512;
  subscriber_max_events = 2;
  subscriber_max_bytes = 1024;
}

abbrev fresh_log : Log
fresh_log = empty_log run 0 limits

abbrev delta : Envelope
delta = record { run_id = run; sequence = 1; at = 5; kind = model_delta; payload = [] }

abbrev finale : Envelope
finale = record { run_id = run; sequence = 2; at = 6; kind = run_completed; payload = [] }

abbrev whole : Window
whole = record { entries = []; bytes = 0; evicted_events = 0; evicted_bytes = 0 }

abbrev delta_log : Log
delta_log = admit fresh_log (entry_of delta 100) whole

fresh_log-IsWellFormed : IsWellFormed fresh_log
unfolding bad_limits
fresh_log-IsWellFormed = empty_log-IsWellFormed run 0 limits (omega arith) refl

delta_taken : append_sized fresh_log delta 100 ≡ some (delta_log, none)
unfolding append_sized append_fitting admit evict terminal empty_log bytes_eq add64 terminal_kind
delta_taken = refl

delta-Accepts : Accepts fresh_log delta 100
unfolding append_sized empty_log append_max_bytes terminal terminal_kind
delta-Accepts = record {
  still_open = refl;
  same_run = refl;
  next_in_line = refl;
  below_max = omega arith;
  fits = omega arith;
}

-- The run from its construction.
fresh_log_made : new_log_after run 0 limits ≡ ok fresh_log
unfolding new_log_after blank_or_padded bytes_eq bad_limits
fresh_log_made = refl

abbrev tailed : System
tailed = record { log = (subscribe none fresh_log 0).0; history = []; asked = (1, 0) ∷ [] }

abbrev took : Option (Log × Option LogError) → Log
took none = fresh_log
took (some (log, e)) = log

abbrev offered : System
offered = record {
  log = took (append_sized tailed.log delta 100);
  history = entry_of delta 100 ∷ [];
  asked = tailed.asked;
}

abbrev looked : System
looked = record {
  log = in_subscriber 1 (deliver consumer_ready) offered.log;
  history = offered.history;
  asked = offered.asked;
}

abbrev received : System
received = record {
  log = in_subscriber 1 (deliver consumer_ready) looked.log;
  history = looked.history;
  asked = looked.asked;
}

offered_taken : append_sized tailed.log delta 100 ≡ some (offered.log, none)
unfolding append_sized append_fitting admit evict terminal empty_log bytes_eq subscribe replay_page
    bounds add64 terminal_kind
offered_taken = refl

asked_for : tailed.asked ≡ noted 0 (subscribe none fresh_log 0).1 []
unfolding noted subscribe replay_page bounds empty_log add64
asked_for = refl

received-Reach : Reach (start fresh_log) received
received-Reach =
    next
      (next
        (next (next here (subscribes none 0 refl refl asked_for))
          (appends delta 100 offered_taken refl refl))
        (delivers 1 consumer_ready refl refl refl))
      (delivers 1 consumer_ready refl refl refl)

Reach-IsServed_example :
    All (λ p. IsServed received.asked received.history p.0 p.1) received.log.subscribers
Reach-IsServed_example =
    Reach-IsServed run 0 limits fresh_log received (omega arith) fresh_log_made received-Reach

-- The consumer has the event.
received_one :
    received.log.subscribers
    ≡ (
      1,
      record (new_subscription 0 limits (entry_of delta 100 ∷ [])) {
        received = entry_of delta 100 ∷ [];
        stage = sent (entry_of delta 100);
      },
    )
      ∷ []
unfolding append_sized append_fitting admit evict terminal empty_log bytes_eq subscribe
    in_subscriber deliver new_subscription total_bytes offer replay_page bounds add64 terminal_kind
received_one = refl

append-IsWellFormed_example :
    (log' : Log) × (e : Option LogError) × (append_sized fresh_log delta 100 ≡ some (log', e))
    × IsWellFormed log'
append-IsWellFormed_example = append-IsWellFormed fresh_log delta 100 fresh_log-IsWellFormed

append_cases_example : Accepts fresh_log delta 100 ⊎ Refuses fresh_log delta 100
unfolding empty_log
append_cases_example = append_cases fresh_log delta 100 (omega arith)

append-HasTaken_example :
    (log' : Log) × (append_sized fresh_log delta 100 ≡ some (log', none))
    × HasTaken fresh_log delta 100 log'
append-HasTaken_example = append-HasTaken fresh_log delta 100 fresh_log-IsWellFormed delta-Accepts

terminal_reserve_example :
    (final : Log) × (append_all delta_log ((finale, 500) ∷ []) ≡ some final)
    × (final.entries ≡ delta_log.entries ++ entries_of ((finale, 500) ∷ []))
unfolding terminal terminal_kind admit empty_log
terminal_reserve_example =
    terminal_reserve fresh_log delta_log delta 100 ((finale, 500) ∷ []) fresh_log-IsWellFormed
      delta_taken refl (refl, refl, refl, tt) (omega arith) (omega arith) (omega arith)

abbrev page_request : ReplayRequest
page_request = record { after_sequence = 0; max_events = 2; max_bytes = 1024; tail = false }

replay_page-IsOutcome_example :
    IsOutcome fresh_log page_request (replay_page fresh_log page_request).1
replay_page-IsOutcome_example =
    replay_page-IsOutcome fresh_log page_request fresh_log-IsWellFormed (omega arith)

abbrev two : List LogEntry
two = entry_of delta 100 ∷ entry_of finale 200 ∷ []

take_page_lem_example : PageResult page_request two 0 0 (take_page page_request two 0 0)
take_page_lem_example = take_page_lem page_request two 0 0 (omega arith) (omega arith)

evict_lem_example : (w : Window) × (evict 2 100 two 300 0 0 ≡ some w) × Evicted 2 100 two w
unfolding total_bytes
evict_lem_example = evict_lem 2 100 two 300 0 0 (omega arith) refl

cursor_outside_iff_example :
    (replay_cursor_outside 3 (first_of_log 2 two) 2 ≡ true)
    ↔ ((2 < 3) ⊎ (suc 3 < first_of_log 2 two))
cursor_outside_iff_example =
    cursor_outside_iff 3 2 two (refl, omega arith, (refl, omega arith, tt)) (omega arith)
      (λ _. omega arith)

-- A subscription with one queued entry, at the select.
abbrev tail : Subscription
tail = record (new_subscription 0 limits (entry_of delta 100 ∷ [])) {
  stage = offering (entry_of delta 100);
}

tail-IsFed : IsFed 0 tail (entry_of delta 100 ∷ [])
unfolding new_subscription total_bytes page_last
tail-IsFed = record {
  summed = refl;
  few = omega arith;
  light = omega arith;
  delivered = ([], refl, refl);
  abort_ends = λ e. absurd (grind arith);
  abort_clears = λ e. absurd (grind arith);
  cursor = (refl, tt);
  ends = tt;
}

deliver-IsFed_example : IsFed 0 (deliver consumer_ready tail) (entry_of delta 100 ∷ [])
deliver-IsFed_example = deliver-IsFed 0 consumer_ready tail (entry_of delta 100 ∷ []) tail-IsFed

tail-EndsByAbort : EndsByAbort tail
unfolding new_subscription
tail-EndsByAbort = λ e. absurd (grind arith)

offer-IsFed_example :
    IsFed 0 (offer (entry_of finale 200) tail).0 (entry_of delta 100 ∷ entry_of finale 200 ∷ [])
    × EndsByAbort (offer (entry_of finale 200) tail).0
offer-IsFed_example =
    offer-IsFed 0 tail (entry_of delta 100 ∷ []) (entry_of finale 200) tail-IsFed tail-EndsByAbort

-- The same subscription after a close.
abbrev closing : Subscription
closing = record tail { terminal = true }

abbrev draining : Subscription
draining = record closing { stage = waiting }

abbrev long_drain : Subscription
long_drain = record draining { queue = draining.queue ++ entry_of finale 200 ∷ [] }

cancelled_drain_example : CutShort long_drain (entry_of delta 100 ∷ []) (entry_of finale 200 ∷ []) (
    deliver_all
      (consumer_ready ∷ [])
      (deliver (context_done_with canceled) (deliver consumer_ready (drain 3 long_drain))))
unfolding new_subscription
cancelled_drain_example =
    cancelled_drain (entry_of delta 100 ∷ []) (entry_of finale 200) [] long_drain canceled
      (consumer_ready ∷ []) refl refl refl refl

drain-delivers_example :
    ((drain (3 * 1 + 1) draining).stage ≡ returned)
    × ((drain (3 * 1 + 1) draining).received ≡ [] ++ entry_of delta 100 ∷ [])
unfolding new_subscription
drain-delivers_example = drain-delivers (entry_of delta 100 ∷ []) draining refl refl refl

-- A sequencer in step with the new log; every byte string counts as JSON.
abbrev sequencer : Sequencer
sequencer = record { run_id = run; next = 1 }

abbrev any_json : Bytes → Bool
any_json b = true

delta_made :
    next_envelope any_json sequencer 5 model_delta no_payload
    ≡ (record sequencer { next = 2 }, ok delta)
unfolding next_envelope next_locked number_used reconstruct valid_kind blank_or_padded bytes_eq
    add64
delta_made = refl

sequencer-InStep : InStep sequencer fresh_log
unfolding empty_log
sequencer-InStep = record { still_open = refl; same_run = refl; same_place = refl }

append-next_envelope_example :
    (log' : Log) × (append_sized fresh_log delta 100 ≡ some (log', none))
    × IsWellFormed log'
    × InStep (record sequencer { next = 2 }) log'
append-next_envelope_example =
    append-next_envelope any_json sequencer (record sequencer { next = 2 }) 5 model_delta no_payload
      delta fresh_log 100 fresh_log-IsWellFormed sequencer-InStep (omega arith) delta_made
      delta-Accepts.fits

next_envelope-IsNext_example :
    IsNext sequencer model_delta (next_envelope any_json sequencer 5 model_delta no_payload)
next_envelope-IsNext_example = next_envelope-IsNext any_json sequencer 5 model_delta no_payload
