-- ===== src/Agent/Holding.antt =====
-- agent/run_identity.go: what the operations of the ledger do for the holder of a token, and that they
-- leave the other runs alone.
use spice_agent.Base.{
  ℕ, ◌≡◌, ◌≢◌, refl, ap, if_false, ◌∙◌, true, false, if_intro, not, Option, none, some, List, arith,
  Bytes, bytes_eq, bytes_eq_refl, find_key, find-put_key_if, find-put_key, HasDistinctKeys,
  find-delete_key_if, sub64, put_key, delete_key,
}
use spice_agent.Agent.Ledger.{
  RunIdentityLedger, RunIdentityRecord, RunIdentityState, run_identity_reserved,
  run_identity_state_invalid, same_state,
}
use spice_agent.Agent.Transitions.{
  enter_state, holds_record, leave_state, remove_at, remove_found, remove_identity, transition,
  transition_at, transition_found,
}
use spice_agent.Agent.Counted.{engine_moves, holds_record_lem}

-- The run has a record with the token, in the state.
abbrev pub HeldAs : List (Bytes × RunIdentityRecord) → Bytes → ℕ → RunIdentityState → Type 0
HeldAs records run token state =
    (r : RunIdentityRecord) × (find_key run records ≡ some r)
    × (r.token ≡ token)
    × (r.state ≡ state)

-- The run has no record with the token.
abbrev pub IsGone : List (Bytes × RunIdentityRecord) → Bytes → ℕ → Type 0
IsGone records run token = (r : RunIdentityRecord) → find_key run records ≡ some r → r.token ≢ token

-- Only the run's record has changed.
pub record ChangesOnly (run : Bytes) (l l' : RunIdentityLedger) : Type 0 where
  pub elsewhere :
      (j : Bytes) → bytes_eq run j ≡ false → find_key j l'.records ≡ find_key j l.records
  pub same_tokens : l'.next_token ≡ l.next_token

enter_frame :
    (to : RunIdentityState) (l : RunIdentityLedger) → (enter_state to l).next_token ≡ l.next_token
unfolding enter_state
enter_frame run_identity_reserved l = refl
enter_frame to l = refl

leave_frame :
    (from : RunIdentityState) (l : RunIdentityLedger)
    → (leave_state from l).next_token ≡ l.next_token
unfolding leave_state
leave_frame run_identity_reserved l = refl
leave_frame from l = refl

holds_true :
    (t : ℕ) (s : RunIdentityState) (r : RunIdentityRecord)
    → r.token ≡ t
    → r.state ≡ s
    → holds_record t s r ≡ true
unfolding holds_record same_state
holds_true t s r h k = grind arith

moved_found :
    (l : RunIdentityLedger) (run : Bytes) (t : ℕ) (from to : RunIdentityState)
    (r : RunIdentityRecord)
    → holds_record t from r ≡ true
    → engine_moves from to ≡ true
    → transition_found l run t from to r ≡ (
      record (enter_state to (leave_state from l)) {
        records = put_key run (record r { state = to }) l.records;
      },
      none,
    )
unfolding transition_found engine_moves same_state
moved_found l run t from run_identity_reserved r h k = absurd (grind arith)
moved_found l run t from to r h k = ground arith

removed_found :
    (l : RunIdentityLedger) (run : Bytes) (t : ℕ) (from : RunIdentityState) (r : RunIdentityRecord)
    → holds_record t from r ≡ true
    → remove_found l run t from r ≡ (
      record (leave_state from l) {
        records = delete_key run l.records;
        bytes = sub64 l.bytes r.charge;
      },
      none,
    )
unfolding remove_found
removed_found l run t from r h = ground arith

-- A move of a record that is held: it succeeds, the record is held in the other state, and the other
-- runs are as they were.
pub transition-HeldAs :
    (l : RunIdentityLedger) (run : Bytes) (t : ℕ) (from to : RunIdentityState)
    → engine_moves from to ≡ true
    → HeldAs l.records run t from
    → (l' : RunIdentityLedger) × (transition l run t from to ≡ (l', none))
      × HeldAs l'.records run t to
      × ChangesOnly run l l'
unfolding transition transition_at
transition-HeldAs l run t from to allowed (r, f, same, state) =
    let new = record r { state = to } in
    (
      record (enter_state to (leave_state from l)) { records = put_key run new l.records },
      ap (transition_at l run t from to) f
          ∙ moved_found l run t from to r (holds_true t from r same state) allowed,
      (new, find-put_key run new l.records, same, refl),
      record {
        elsewhere = λ j other. find-put_key_if j run new l.records ∙ if_false _ _ _ other;
        same_tokens = enter_frame to (leave_state from l) ∙ leave_frame from l;
      },
    )

-- The removal of a record that is held.
pub remove-HeldAs :
    (l : RunIdentityLedger) (run : Bytes) (t : ℕ) (from : RunIdentityState)
    → HasDistinctKeys l.records
    → HeldAs l.records run t from
    → (l' : RunIdentityLedger) × (remove_identity l run t from ≡ (l', none))
      × (find_key run l'.records ≡ none)
      × ChangesOnly run l l'
unfolding remove_identity remove_at
remove-HeldAs l run t from keyed (r, f, same, state) = (
  record (leave_state from l) {
    records = delete_key run l.records;
    bytes = sub64 l.bytes r.charge;
  },
  ap (remove_at l run t from) f ∙ removed_found l run t from r (holds_true t from r same state),
  ground (arith, find-delete_key_if run run l.records keyed, bytes_eq_refl run),
  record {
    elsewhere = λ j other. find-delete_key_if j run l.records keyed ∙ if_false _ _ _ other;
    same_tokens = leave_frame from l;
  },
)

-- Without the record in that state the call is an error, and changes nothing.
pub remove-refused :
    (l : RunIdentityLedger) (run : Bytes) (t : ℕ) (from : RunIdentityState)
    → ¬ (HeldAs l.records run t from)
    → remove_identity l run t from ≡ (l, some run_identity_state_invalid)
unfolding remove_identity remove_at remove_found
remove-refused l run t from lost = by_found (find_key run l.records) refl
  where
    by_found :
        (o : Option RunIdentityRecord)
        → find_key run l.records ≡ o
        → remove_at l run t from o ≡ (l, some run_identity_state_invalid)
    by_found none f = refl
    by_found (some r) f =
        if_intro (λ x. x ≡ (l, some run_identity_state_invalid)) (not (holds_record t from r))
          (λ _. refl)
          (λ e.
            let (token, state) = holds_record_lem t from r (ground arith) in
            absurd (lost (r, f, token, state)))
