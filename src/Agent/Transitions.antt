-- ===== src/Agent/Transitions.antt =====
-- agent/run_identity.go: transition, abort and retire.
use spice_agent.Base.{
  ℕ, Bool, ◌||◌, ◌&&◌, if◌then◌else◌, ◌==◌, not, Option, none, some, Bytes, sub64, add32, sub32,
  find_key, put_key, delete_key,
}
use spice_agent.Agent.Ledger.{
  IdentityError, RunIdentityLedger, RunIdentityRecord, RunIdentityState, run_identity_active,
  run_identity_reserved, run_identity_state_invalid, run_identity_tombstone, same_state,
}

-- The counters that transition takes one from.
unfoldable pub leave_state : RunIdentityState → RunIdentityLedger → RunIdentityLedger
leave_state run_identity_reserved ledger = record ledger { reserved = sub32 ledger.reserved 1 }
leave_state run_identity_active ledger = record ledger { active = sub32 ledger.active 1 }
leave_state run_identity_tombstone ledger = record ledger { tombstones = sub32 ledger.tombstones 1 }

-- The counters that transition adds one to.
unfoldable pub enter_state : RunIdentityState → RunIdentityLedger → RunIdentityLedger
enter_state run_identity_reserved ledger = ledger
enter_state run_identity_active ledger = record ledger { active = add32 ledger.active 1 }
enter_state run_identity_tombstone ledger = record ledger { tombstones = add32 ledger.tombstones 1 }

-- The guard that transition, abort and retire share: the record of this generation, in this state.
unfoldable pub holds_record : ℕ → RunIdentityState → RunIdentityRecord → Bool
unfolding same_state
holds_record token from record' =
    not (not (record'.token == token) || not (same_state record'.state from))

unfoldable pub transition_found :
    RunIdentityLedger
    → Bytes
    → ℕ
    → RunIdentityState
    → RunIdentityState
    → RunIdentityRecord
    → RunIdentityLedger × Option IdentityError
unfolding holds_record leave_state enter_state same_state
transition_found ledger run_id token from to found =
    if not (holds_record token from found)
    then (ledger, some run_identity_state_invalid)
    else if not (same_state to run_identity_active) && not (same_state to run_identity_tombstone)
    then (ledger, some run_identity_state_invalid)
    else let counted = enter_state to (leave_state from ledger) in
      (
        record counted { records = put_key run_id (record found { state = to }) ledger.records },
        none,
      )

unfoldable pub transition_at :
    RunIdentityLedger
    → Bytes
    → ℕ
    → RunIdentityState
    → RunIdentityState
    → Option RunIdentityRecord
    → RunIdentityLedger × Option IdentityError
unfolding transition_found
transition_at ledger run_id token from to none = (ledger, some run_identity_state_invalid)
transition_at ledger run_id token from to (some found) =
    transition_found ledger run_id token from to found

-- transition
unfoldable pub transition :
    RunIdentityLedger
    → Bytes
    → ℕ
    → RunIdentityState
    → RunIdentityState
    → RunIdentityLedger × Option IdentityError
unfolding transition_at
transition ledger run_id token from to =
    transition_at ledger run_id token from to (find_key run_id ledger.records)

-- What abort and retire do, for a record in the state `from`.
unfoldable pub remove_found :
    RunIdentityLedger
    → Bytes
    → ℕ
    → RunIdentityState
    → RunIdentityRecord
    → RunIdentityLedger × Option IdentityError
unfolding holds_record leave_state
remove_found ledger run_id token from found =
    if not (holds_record token from found)
    then (ledger, some run_identity_state_invalid)
    else let counted = leave_state from ledger in
      (
        record counted {
          records = delete_key run_id ledger.records;
          bytes = sub64 ledger.bytes found.charge;
        },
        none,
      )

unfoldable pub remove_at :
    RunIdentityLedger
    → Bytes
    → ℕ
    → RunIdentityState
    → Option RunIdentityRecord
    → RunIdentityLedger × Option IdentityError
unfolding remove_found
remove_at ledger run_id token from none = (ledger, some run_identity_state_invalid)
remove_at ledger run_id token from (some found) = remove_found ledger run_id token from found

unfoldable pub remove_identity :
    RunIdentityLedger → Bytes → ℕ → RunIdentityState → RunIdentityLedger × Option IdentityError
unfolding remove_at
remove_identity ledger run_id token from =
    remove_at ledger run_id token from (find_key run_id ledger.records)

-- abort
unfoldable pub abort_identity :
    RunIdentityLedger → Bytes → ℕ → RunIdentityLedger × Option IdentityError
unfolding remove_identity
abort_identity ledger run_id token = remove_identity ledger run_id token run_identity_reserved

-- retire
unfoldable pub retire_identity :
    RunIdentityLedger → Bytes → ℕ → RunIdentityLedger × Option IdentityError
unfolding remove_identity
retire_identity ledger run_id token = remove_identity ledger run_id token run_identity_tombstone
