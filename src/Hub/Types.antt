-- ===== src/Hub/Types.antt =====
-- daemon/pending.go: the limits, the failures, the pending values, deltas and snapshots.
use spice_agent.Base.{ℕ, ◌+◌, ◌*◌, Bool, List, Bytes, length, ContextError}
use spice_agent.Interaction.{Request, Response, Scope}

-- PendingLimits. The Go ints are refused below 1 by the constructor.
pub record PendingLimits : Type 0 where
  pub clients : ℕ
  pub runs : ℕ
  pub runs_per_client : ℕ
  pub pending : ℕ
  pub pending_per_client : ℕ
  pub pending_bytes : ℕ
  pub pending_bytes_per_client : ℕ
  pub observers : ℕ
  pub observers_per_client : ℕ
  pub observer_queue_entries : ℕ
  pub observer_queue_bytes : ℕ
  pub reserved_queue_entries : ℕ
  pub reserved_queue_entries_per_client : ℕ
  pub reserved_queue_bytes : ℕ
  pub reserved_queue_bytes_per_client : ℕ
  pub queued_entries : ℕ
  pub queued_entries_per_client : ℕ
  pub queued_bytes : ℕ
  pub queued_bytes_per_client : ℕ

-- maximumPendingDeltaBytes
abbrev pub maximum_pending_delta_bytes : ℕ
maximum_pending_delta_bytes = 1049088

-- DefaultPendingLimits
abbrev pub default_pending_limits : PendingLimits
default_pending_limits = record {
  clients = 1024;
  runs = 4096;
  runs_per_client = 256;
  pending = 1024;
  pending_per_client = 128;
  pending_bytes = 16777216;
  pending_bytes_per_client = 786432;
  observers = 32;
  observers_per_client = 4;
  observer_queue_entries = 64;
  observer_queue_bytes = maximum_pending_delta_bytes;
  reserved_queue_entries = 32 * 64;
  reserved_queue_entries_per_client = 4 * 64;
  reserved_queue_bytes = 32 * maximum_pending_delta_bytes;
  reserved_queue_bytes_per_client = 4 * maximum_pending_delta_bytes;
  queued_entries = 32 * 64;
  queued_entries_per_client = 4 * 64;
  queued_bytes = 32 * maximum_pending_delta_bytes;
  queued_bytes_per_client = 4 * maximum_pending_delta_bytes;
}

-- snapshotCapacityUpperBound
unfoldable pub snapshot_capacity_upper_bound : PendingLimits → ℕ × ℕ
snapshot_capacity_upper_bound limits =
    let items = limits.pending_per_client in
    (items, limits.pending_bytes_per_client + items * 32 + 32)

-- The resources that an ObserverExhaustedError names.
pub data QueueResource : Type 0 where
  observer_queue_entries observer_queue_bytes observer_entries : QueueResource
  observer_client_entries observer_bytes observer_client_bytes : QueueResource

-- ObserverExhaustedError, without the revision that terminalError puts in.
pub record Exhaustion : Type 0 where
  pub resource : QueueResource
  pub limit : ℕ
  pub observed : ℕ

-- The bounds that the constructor tests, by the label of the error.
pub data LimitLabel : Type 0 where
  clients_bound runs_bound interactions_bound observers_bound queue_entries_bound : LimitLabel
  reserved_entries_bound actual_entries_bound reserved_cover actual_cover : LimitLabel
  pending_bytes_bound queue_bytes_bound reserved_bytes_bound actual_bytes_bound : LimitLabel
  reserved_bytes_cover actual_bytes_cover funding : LimitLabel

pub data HubError : Type 0 where
  hub_closed run_not_bound observer_fenced run_already_bound run_capacity : HubError
  pending_capacity observer_capacity not_pending already_pending : HubError
  bad_client bad_scope bad_request bad_response : HubError
  bad_limit : LimitLabel → HubError
  context_failed : ContextError → HubError
  exhausted : Exhaustion → ℕ → HubError

-- Pending
pub record Pending : Type 0 where
  pub scope : Scope
  pub request : Request

pub data DeltaKind : Type 0 where
  opened closed : DeltaKind

pub record Delta : Type 0 where
  pub revision : ℕ
  pub kind : DeltaKind
  pub pending : Pending

pub record PendingSnapshot : Type 0 where
  pub revision : ℕ
  pub pending : List Pending

-- pendingKey
pub record PendingKey : Type 0 where
  pub run_id : Bytes
  pub interaction_id : Bytes

-- makePendingKey of a value.
abbrev pub key_of : Pending → PendingKey
key_of p = record { run_id = p.scope.run_id; interaction_id = p.request.id }

-- pendingResult
pub data CallResult : Type 0 where
  responded : Response → CallResult
  failed : HubError → CallResult

-- pendingCall. `token` is the identity of its pointer and `binding` that of its binding's.
pub record PendingCall : Type 0 where
  pub token : ℕ
  pub value : Pending
  pub binding : ℕ

-- runBindingState; `released` says that the channel is closed.
pub record RunBinding : Type 0 where
  pub token : ℕ
  pub client_id : Bytes
  pub run_id : Bytes
  pub accepting : Bool
  pub active : ℕ
  pub released : Bool

-- pendingValueBytes
unfoldable pub pending_value_bytes : Pending → ℕ
pending_value_bytes p =
    length p.scope.run_id
    + length p.request.id
    + length p.request.kind
    + length p.request.prompt
    + length p.request.schema

-- pendingDeltaBytes
unfoldable pub pending_delta_bytes : Delta → ℕ
unfolding pending_value_bytes
pending_delta_bytes d = pending_value_bytes d.pending + 32
