-- ===== src/Event/Observer.antt =====
-- event/event.go: the best-effort mailbox and its filter.
use mathlib.Core.Logic.{ite}
use spice_agent.Base.{
  ℕ, Bool, true, false, ◌||◌, Result, ok, err, if◌then◌else◌, ltb, length, not, add64, List, [],
  ◌∷◌, ◌++◌, Option, none, some,
}
use spice_agent.Event.Kind.{Kind, Kind-discrete, valid_kind}
use spice_agent.Event.Envelope.{Envelope}

-- BestEffortFilter: the excluded kinds, as a set.
pub record BestEffortFilter : Type 0 where
  pub excluded : List Kind

pub data ObserverError : Type 0 where
  too_many_kinds unsupported_filter_kind duplicate_filter_kind bad_capacity bad_filter :
      ObserverError

-- BestEffortFilter.excludes
unfoldable pub mem_kind : Kind → List Kind → Bool
unfolding Kind-discrete
mem_kind k [] = false
mem_kind k (j ∷ ks) = ite (Kind-discrete j k) true (mem_kind k ks)

-- The loop of NewBestEffortFilter over the kinds that remain.
unfoldable pub collect_kinds : List Kind → List Kind → Result ObserverError (List Kind)
unfolding mem_kind
collect_kinds seen [] = ok seen
collect_kinds seen (k ∷ ks) =
    let rest = collect_kinds (k ∷ seen) ks in
    if not (valid_kind k)
    then err unsupported_filter_kind
    else if mem_kind k seen
    then err duplicate_filter_kind
    else rest

-- NewBestEffortFilter
unfoldable pub new_filter : List Kind → Result ObserverError BestEffortFilter
unfolding collect_kinds
new_filter kinds =
    if ltb 20 (length kinds)
    then err too_many_kinds
    else elim (collect_kinds [] kinds) [ err e ↦ err e | ok seen ↦ ok (record { excluded = seen }) ]

-- BestEffortObserver. The buffered channel is `mailbox`, oldest first, with its `capacity`.
pub record BestEffortObserver : Type 0 where
  pub mailbox : List Envelope
  pub capacity : ℕ
  pub filter : BestEffortFilter
  pub dropped : ℕ
  pub filtered : ℕ
  pub closed : Bool

unfoldable pub all_valid : List Kind → Bool
all_valid [] = true
all_valid (k ∷ ks) = let rest = all_valid ks in if valid_kind k then rest else false

-- NewFilteredBestEffortObserver
unfoldable pub new_observer : ℕ → BestEffortFilter → Result ObserverError BestEffortObserver
unfolding all_valid
new_observer capacity filter =
    if ltb capacity 1 || ltb 65536 capacity
    then err bad_capacity
    else if not (all_valid filter.excluded)
    then err bad_filter
    else ok (record {
      mailbox = [];
      capacity = capacity;
      filter = filter;
      dropped = 0;
      filtered = 0;
      closed = false;
    })

-- TryPublish
unfoldable pub try_publish : BestEffortObserver → Envelope → BestEffortObserver × Bool
try_publish o envelope =
    if o.closed
    then (o, false)
    else if mem_kind envelope.kind o.filter.excluded
    then (record o { filtered = add64 o.filtered 1 }, false)
    else if ltb (length o.mailbox) o.capacity
    then (record o { mailbox = o.mailbox ++ envelope ∷ [] }, true)
    else (record o { dropped = add64 o.dropped 1 }, false)

pub take_first : BestEffortObserver → List Envelope → BestEffortObserver × Option Envelope
take_first o [] = (o, none)
take_first o (e ∷ es) = (record o { mailbox = es }, some e)

-- A receive on Events() that does not wait.
unfoldable pub receive : BestEffortObserver → BestEffortObserver × Option Envelope
unfolding take_first
receive o = take_first o o.mailbox

-- Close
unfoldable pub close_observer : BestEffortObserver → BestEffortObserver
close_observer o = record o { closed = true }
