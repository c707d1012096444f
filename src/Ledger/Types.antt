-- ===== src/Ledger/Types.antt =====
-- daemon/idempotency.go: outcomes, entries, failures and the ledger.
use spice_agent.Base.{
  ℕ, Bool, true, false, ◌||◌, not, if◌then◌else◌, ltb, length, List, [], Option, none, some, Bytes,
  Result, ok, err, ContextError, ◌/◌,
}

-- OutcomeKind; `unset` is the empty string and `unlisted` any other string.
pub data OutcomeKind : Type 0 where
  success failure uncertain unset unlisted : OutcomeKind

pub record Outcome : Type 0 where
  pub kind : OutcomeKind
  pub payload : Bytes

-- maximumOutcomeBytes and maximumLedgerDimension
abbrev pub maximum_outcome_bytes : ℕ
maximum_outcome_bytes = 1048576

abbrev pub maximum_ledger_dimension : ℕ
maximum_ledger_dimension = 1048576

-- A cause of the caller, by its identity.
abbrev pub Cause : Type 0
Cause = ℕ

pub data LedgerError : Type 0 where
  bad_kind too_long bad_token conflict ledger_full executor_failed no_cause : LedgerError
  abandoned_operation : Cause → LedgerError
  context_failed : ContextError → LedgerError

abbrev pub listed_kind : OutcomeKind → Bool
listed_kind success = true
listed_kind failure = true
listed_kind uncertain = true
listed_kind unset = false
listed_kind unlisted = false

-- NewOutcome
unfoldable pub new_outcome : OutcomeKind → Bytes → Result LedgerError Outcome
new_outcome kind payload =
    if not (listed_kind kind)
    then err bad_kind
    else if ltb maximum_outcome_bytes (length payload)
    then err too_long
    else ok (record { kind = kind; payload = payload })

-- The error an executor returns: AbandonOperation of a cause or of nil, an abandonment that another
-- error wraps, or any other error.
pub data ExecutorError : Type 0 where
  abandons : Cause → ExecutorError
  abandons_nil : ExecutorError
  wraps : ExecutorError → ExecutorError
  other_error : ExecutorError

-- What a call of the executor ends in.
pub data Execution : Type 0 where
  returns : Outcome → Option ExecutorError → Execution
  panicked : Execution

-- operationEntry, with `token` for the identity of its pointer and `done` for its closed channel.
pub record OperationEntry : Type 0 where
  pub token : ℕ
  pub kind : Bytes
  pub digest : Bytes
  pub done : Bool
  pub outcome : Outcome
  pub error : Option LedgerError
  pub abandoned : Bool

-- operationKey
pub record OperationKey : Type 0 where
  pub client_id : Bytes
  pub operation_id : Bytes

-- Ledger. `entries` maps a key to the token of its entry; `heap` has the entry of every token, since
-- the waiters keep an entry that the ledger has dropped.
pub record Ledger : Type 0 where
  pub maximum_clients : ℕ
  pub maximum_per_client : ℕ
  pub entries : List (OperationKey × ℕ)
  pub client_counts : List (Bytes × ℕ)
  pub heap : List OperationEntry

-- NewLedger
unfoldable pub new_ledger : ℕ → ℕ → Option Ledger
new_ledger maximum_clients maximum_per_client =
    if ltb maximum_clients 1
      || ltb maximum_ledger_dimension maximum_clients
      || ltb maximum_per_client 1
      || ltb maximum_ledger_dimension maximum_per_client
    then none
    else if ltb (maximum_ledger_dimension / maximum_per_client) maximum_clients
    then none
    else some (record {
      maximum_clients = maximum_clients;
      maximum_per_client = maximum_per_client;
      entries = [];
      client_counts = [];
      heap = [];
    })
