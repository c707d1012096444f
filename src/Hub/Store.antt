-- ===== src/Hub/Store.antt =====
-- daemon/pending.go: the hub, its partitions and its calls, each under the lock of the hub.
use spice_agent.Base.{
  ℕ, suc, ◌+◌, ◌-◌, Bool, false, ◌&&◌, if◌then◌else◌, ltb, leb, ◌==◌, length, List, [], ◌∷◌, Option,
  none, some, Bytes, bytes_eq, Result, ok, err, add64, find_key,
}
use spice_agent.Hub.Types.{
  PendingLimits, LimitLabel, Pending, DeltaKind, opened, closed, PendingKey, key_of, CallResult,
  PendingCall, RunBinding, pending_value_bytes,
}
use spice_agent.Hub.Limits.{validate_pending_limits}
use spice_agent.Hub.Watchers.{Usage, no_usage, Watcher, offer_deltas}

-- pendingPartition
pub record Partition : Type 0 where
  pub revision : ℕ
  pub next_watcher : ℕ
  pub pending_bytes : ℕ
  pub bound_runs : ℕ
  pub usage : Usage
  pub pending : List (PendingKey × PendingCall)
  pub watchers : List Watcher
  pub stopping : List Watcher

abbrev pub empty_partition : Partition
empty_partition = record {
  revision = 0;
  next_watcher = 0;
  pending_bytes = 0;
  bound_runs = 0;
  usage = no_usage;
  pending = [];
  watchers = [];
  stopping = [];
}

-- The counters of the hub on pending calls.
pub record CallCounts : Type 0 where
  pub count : ℕ
  pub bytes : ℕ

-- PendingHub. A binding is known by its token: `runs` maps a run to it and `bindings` has its state.
-- `results` has the result of each call that is done.
pub record PendingHub : Type 0 where
  pub limits : PendingLimits
  pub calls : CallCounts
  pub usage : Usage
  pub partitions : List (Bytes × Partition)
  pub runs : List (Bytes × ℕ)
  pub bindings : List RunBinding
  pub results : List (ℕ × CallResult)
  pub closed : Bool
  pub next_token : ℕ

abbrev pub fresh_hub : PendingLimits → PendingHub
fresh_hub limits = record {
  limits = limits;
  calls = record { count = 0; bytes = 0 };
  usage = no_usage;
  partitions = [];
  runs = [];
  bindings = [];
  results = [];
  closed = false;
  next_token = 0;
}

-- NewPendingHub
unfoldable pub new_pending_hub : PendingLimits → Result LimitLabel PendingHub
unfolding validate_pending_limits
new_pending_hub limits = elim (validate_pending_limits limits) [
  | err e ↦ err e
  | ok u ↦ ok (fresh_hub limits)
]

-- partitionLocked that may create; `none` is the lack of room for another client.
unfoldable pub partition_for : PendingLimits → Bytes → List (Bytes × Partition) → Option Partition
unfolding find_key
partition_for l client partitions = elim (find_key client partitions) [
  | some p ↦ some p
  | none ↦ if leb l.clients (length partitions) then none else some empty_partition
]

abbrev pub same_key : PendingKey → PendingKey → Bool
same_key a b = bytes_eq a.run_id b.run_id && bytes_eq a.interaction_id b.interaction_id

unfoldable pub find_call : PendingKey → List (PendingKey × PendingCall) → Option PendingCall
find_call key [] = none
find_call key ((k, c) ∷ rest) =
    let later = find_call key rest in if same_key k key then some c else later

unfoldable pub delete_call :
    PendingKey → List (PendingKey × PendingCall) → List (PendingKey × PendingCall)
delete_call key [] = []
delete_call key ((k, c) ∷ rest) =
    let later = delete_call key rest in if same_key k key then rest else (k, c) ∷ later

-- The state of a binding, by its token.
unfoldable pub find_binding : ℕ → List RunBinding → Option RunBinding
find_binding t [] = none
find_binding t (b ∷ bs) = let later = find_binding t bs in if b.token == t then some b else later

unfoldable pub update_binding : ℕ → (RunBinding → RunBinding) → List RunBinding → List RunBinding
update_binding t f [] = []
update_binding t f (b ∷ bs) =
    let later = update_binding t f bs in if b.token == t then f b ∷ bs else b ∷ later

-- publishLocked on the partition and the counters of the hub.
unfoldable pub publish : PendingLimits → DeltaKind → Pending → Usage → Partition → Usage × Partition
unfolding offer_deltas
publish l kind value hub p =
    let revision = add64 p.revision 1 in
    let b =
      offer_deltas l (record { revision = revision; kind = kind; pending = value }) p.watchers
        (record { hub = hub; client = p.usage; watchers = []; stopping = p.stopping }) in
    (
      b.hub,
      record p {
        revision = revision;
        usage = b.client;
        watchers = b.watchers;
        stopping = b.stopping;
      },
    )

-- hasPendingCapacity
unfoldable pub has_pending_capacity : PendingLimits → CallCounts → Partition → ℕ → Bool
has_pending_capacity l calls p size =
    ltb calls.count l.pending
    && ltb (length p.pending) l.pending_per_client
    && leb size l.pending_bytes
    && leb calls.bytes (l.pending_bytes - size)
    && leb size l.pending_bytes_per_client
    && leb p.pending_bytes (l.pending_bytes_per_client - size)

-- The new call in Request, in the counters and the partition.
unfoldable pub open_call :
    PendingLimits → PendingCall → CallCounts → Usage → Partition → CallCounts × Usage × Partition
unfolding publish
open_call l call calls hub p =
    let size = pending_value_bytes call.value in
    let (hub', p') = publish l opened call.value hub (record p {
      pending = (key_of call.value, call) ∷ p.pending;
      pending_bytes = p.pending_bytes + size;
    }) in
    (record { count = suc calls.count; bytes = calls.bytes + size }, hub', p')

-- finishCallLocked on the counters and the partition; the rest of it is on the binding.
unfoldable pub close_call :
    PendingLimits
    → PendingKey
    → PendingCall
    → CallCounts
    → Usage
    → Partition
    → CallCounts × Usage × Partition
unfolding publish delete_call
close_call l key call calls hub p =
    let size = pending_value_bytes call.value in
    let (hub', p') =
      publish l closed call.value hub (record p {
        pending = delete_call key p.pending;
        pending_bytes = p.pending_bytes - size;
      }) in
    (record { count = calls.count - 1; bytes = calls.bytes - size }, hub', p')
