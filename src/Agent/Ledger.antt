-- ===== src/Agent/Ledger.antt =====
-- agent/run_identity.go: the ledger of run identities, its bounds and reserve. Every function is what its
-- Go namesake does while it holds the lock of the engine.
use spice_agent.Base.{
  ℕ, ◌+◌, Bool, true, false, ◌||◌, ◌&&◌, if◌then◌else◌, ltb, ◌==◌, length, not, List, [], Option,
  none, some, Result, ok, err, Bytes, max_u64, add64, add32, find_key, put_key,
}

abbrev pub maximum_run_identity_entries : ℕ
maximum_run_identity_entries = 1048576

abbrev pub maximum_run_identity_bytes : ℕ
maximum_run_identity_bytes = 268435456

abbrev pub run_identity_entry_bytes : ℕ
run_identity_entry_bytes = 128

pub record RunIdentityLimits : Type 0 where
  pub entries : ℕ
  pub bytes : ℕ

-- Validate of the limits; `false` is an error.
unfoldable pub valid_identity_limits : RunIdentityLimits → Bool
valid_identity_limits limits =
    not (ltb limits.entries 1 || ltb maximum_run_identity_entries limits.entries)
    && not (
        ltb limits.bytes (run_identity_entry_bytes + 1)
        || ltb maximum_run_identity_bytes limits.bytes)

pub record RunIdentityStats : Type 0 where
  pub limits : RunIdentityLimits
  pub reserved : ℕ
  pub active : ℕ
  pub tombstones : ℕ
  pub bytes : ℕ

-- RunIdentityStats.Entries
unfoldable pub entries_of : RunIdentityStats → ℕ
entries_of stats = add32 (add32 stats.reserved stats.active) stats.tombstones

pub data RunIdentityState : Type 0 where
  run_identity_reserved run_identity_active run_identity_tombstone : RunIdentityState

unfoldable pub same_state : RunIdentityState → RunIdentityState → Bool
same_state run_identity_reserved run_identity_reserved = true
same_state run_identity_active run_identity_active = true
same_state run_identity_tombstone run_identity_tombstone = true
same_state _ _ = false

pub record RunIdentityRecord : Type 0 where
  pub token : ℕ
  pub charge : ℕ
  pub state : RunIdentityState

pub record RunIdentityLedger : Type 0 where
  pub limits : RunIdentityLimits
  pub records : List (Bytes × RunIdentityRecord)
  pub next_token : ℕ
  pub bytes : ℕ
  pub reserved : ℕ
  pub active : ℕ
  pub tombstones : ℕ

pub data PreparedExecutionKind : Type 0 where
  prepared_start_kind prepared_resume_kind : PreparedExecutionKind

pub data IdentityResource : Type 0 where
  identity_entries identity_bytes : IdentityResource

-- The errors of the ledger; `capacity` is RunIdentityCapacityError.
pub data IdentityError : Type 0 where
  duplicate_run : PreparedExecutionKind → Bytes → IdentityError
  capacity : IdentityResource → ℕ → ℕ → RunIdentityStats → IdentityError
  token_space_exhausted run_identity_state_invalid : IdentityError

-- newRunIdentityLedger
unfoldable pub new_run_identity_ledger : RunIdentityLimits → RunIdentityLedger
new_run_identity_ledger limits = record {
  limits = limits;
  records = [];
  next_token = 0;
  bytes = 0;
  reserved = 0;
  active = 0;
  tombstones = 0;
}

unfoldable pub stats_of : RunIdentityLedger → RunIdentityStats
stats_of ledger = record {
  limits = ledger.limits;
  reserved = ledger.reserved;
  active = ledger.active;
  tombstones = ledger.tombstones;
  bytes = ledger.bytes;
}

-- The end of reserve, after its tests.
unfoldable pub admit_identity : RunIdentityLedger → Bytes → ℕ → RunIdentityLedger
admit_identity ledger run_id charge =
    let next = add64 ledger.next_token 1 in
    record ledger {
      next_token = next;
      records =
          put_key run_id (record { token = next; charge = charge; state = run_identity_reserved })
            ledger.records;
      bytes = add64 ledger.bytes charge;
      reserved = add32 ledger.reserved 1;
    }

-- reserve, for a run identity that is not there.
unfoldable pub reserve_fresh :
    RunIdentityLedger → Bytes → ℕ → RunIdentityLedger × Result IdentityError ℕ
unfolding admit_identity stats_of entries_of
reserve_fresh ledger run_id charge =
    let stats = stats_of ledger in
    if ltb ledger.limits.entries (add32 (entries_of stats) 1)
    then (
      ledger,
      err (capacity identity_entries ledger.limits.entries (add64 (entries_of stats) 1) stats),
    )
    else if ltb ledger.limits.bytes (add64 ledger.bytes charge)
    then (
      ledger,
      err (capacity identity_bytes ledger.limits.bytes (add64 ledger.bytes charge) stats),
    )
    else if ledger.next_token == max_u64
    then (ledger, err token_space_exhausted)
    else (admit_identity ledger run_id charge, ok (add64 ledger.next_token 1))

unfoldable pub reserve_at :
    RunIdentityLedger
    → Bytes
    → PreparedExecutionKind
    → Option RunIdentityRecord
    → RunIdentityLedger × Result IdentityError ℕ
unfolding reserve_fresh
reserve_at ledger run_id kind (some found) = (ledger, err (duplicate_run kind run_id))
reserve_at ledger run_id kind none =
    reserve_fresh ledger run_id (add64 run_identity_entry_bytes (length run_id))

-- reserve
unfoldable pub reserve_identity :
    RunIdentityLedger → Bytes → PreparedExecutionKind → RunIdentityLedger × Result IdentityError ℕ
unfolding reserve_at
reserve_identity ledger run_id kind = reserve_at ledger run_id kind (find_key run_id ledger.records)
