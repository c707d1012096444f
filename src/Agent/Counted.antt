-- ===== src/Agent/Counted.antt =====
-- agent/run_identity.go: the statistics of the ledger are exact and its bounds hold, also after a record
-- has left it or gone to another state.
use spice_agent.Base.{
  ℕ, ◌+◌, ◌≤◌, ◌≡◌, refl, subst, true, false, not, Bool, if◌then◌else◌, if_intro, List, Option,
  none, some, arith, Bytes, max_u64, sub32, sub64, add32, find_key, put_key, delete_key,
  HasDistinctKeys, sum_over, sum_over-put_key, sum_over-delete_key, put_key-HasDistinctKeys,
  delete_key-HasDistinctKeys,
}
use spice_agent.Agent.Ledger.{
  IdentityError, RunIdentityLedger, RunIdentityLimits, RunIdentityRecord, RunIdentityState,
  run_identity_active, run_identity_reserved, run_identity_tombstone, same_state,
  valid_identity_limits,
}
use spice_agent.Agent.Transitions.{
  enter_state, holds_record, leave_state, remove_at, remove_found, remove_identity,
}
use spice_agent.Agent.Tokens.{UsesTokens, delete-UsesTokens, put_same-UsesTokens}

-- One for a record in the state.
unfoldable pub in_state : RunIdentityState → RunIdentityRecord → ℕ
unfolding same_state
in_state s r = if same_state r.state s then 1 else 0

pub record IsCounted (l : RunIdentityLedger) : Type 0 where
  pub limited : valid_identity_limits l.limits ≡ true
  pub keyed : HasDistinctKeys l.records
  pub reserved_exact : l.reserved ≡ sum_over (in_state run_identity_reserved) l.records
  pub active_exact : l.active ≡ sum_over (in_state run_identity_active) l.records
  pub tombstones_exact : l.tombstones ≡ sum_over (in_state run_identity_tombstone) l.records
  pub bytes_exact : l.bytes ≡ sum_over (λ r. r.charge) l.records
  pub entries_within : l.reserved + l.active + l.tombstones ≤ l.limits.entries
  pub bytes_within : l.bytes ≤ l.limits.bytes
  pub tokens : UsesTokens l.records l.next_token
  pub token_space : l.next_token ≤ max_u64

pub limits_small :
    (limits : RunIdentityLimits)
    → valid_identity_limits limits ≡ true
    → (limits.entries ≤ 1048576) × (limits.bytes ≤ 268435456)
unfolding valid_identity_limits
limits_small limits h = ground arith

pub holds_record_lem :
    (t : ℕ) (s : RunIdentityState) (r : RunIdentityRecord)
    → holds_record t s r ≡ true
    → (r.token ≡ t) × (r.state ≡ s)
unfolding holds_record same_state
holds_record_lem t s r h = ground arith

-- One for equal states.
abbrev one_if : RunIdentityState → RunIdentityState → ℕ
unfolding same_state
one_if s' s = if same_state s' s then 1 else 0

removed_count :
    (s : RunIdentityState) (k : Bytes) (from : RunIdentityState) (found : RunIdentityRecord)
    (m : List (Bytes × RunIdentityRecord))
    → find_key k m ≡ some found
    → found.state ≡ from
    → sum_over (in_state s) (delete_key k m) + one_if from s ≡ sum_over (in_state s) m
unfolding in_state same_state
removed_count s k from found m h e =
    subst (λ x. sum_over (in_state s) (delete_key k m) + one_if x s ≡ sum_over (in_state s) m) e
      (sum_over-delete_key (in_state s) k found m h)

moved_count :
    (s : RunIdentityState) (k : Bytes) (from to : RunIdentityState) (found : RunIdentityRecord)
    (m : List (Bytes × RunIdentityRecord))
    → find_key k m ≡ some found
    → found.state ≡ from
    → sum_over (in_state s) (put_key k (record found { state = to }) m) + one_if from s
      ≡ sum_over (in_state s) m + one_if to s
unfolding in_state same_state
moved_count s k from to found m h e =
    subst
      (λ x.
        sum_over (in_state s) (put_key k (record found { state = to }) m) + one_if x s
        ≡ sum_over (in_state s) m + one_if to s)
      e (sum_over-put_key (in_state s) k (record found { state = to }) found m h)

-- The counters after a record in the state `from` has left the map.
removed-IsCounted :
    (l : RunIdentityLedger) (k : Bytes) (from : RunIdentityState) (found : RunIdentityRecord)
    → find_key k l.records ≡ some found
    → found.state ≡ from
    → IsCounted l
    → IsCounted (record (leave_state from l) {
      records = delete_key k l.records;
      bytes = sub64 l.bytes found.charge;
    })
unfolding leave_state sub32 sub64 same_state
removed-IsCounted l k run_identity_reserved found h e v =
    let (few, small) = limits_small l.limits v.limited in
    let r = removed_count run_identity_reserved k run_identity_reserved found l.records h e in
    let a = removed_count run_identity_active k run_identity_reserved found l.records h e in
    let t = removed_count run_identity_tombstone k run_identity_reserved found l.records h e in
    let freed = sum_over-delete_key (λ x. x.charge) k found l.records h in
    record {
      limited = v.limited;
      keyed = delete_key-HasDistinctKeys k l.records v.keyed;
      reserved_exact = omega (arith, v.reserved_exact, v.entries_within, r);
      active_exact = omega (arith, v.active_exact, v.entries_within, a);
      tombstones_exact = omega (arith, v.tombstones_exact, v.entries_within, t);
      bytes_exact = omega (arith, v.bytes_exact, v.bytes_within, freed);
      entries_within =
          omega (
            arith, v.entries_within, v.reserved_exact, v.active_exact, v.tombstones_exact, r, a, t,
          );
      bytes_within = omega (arith, v.bytes_within, v.bytes_exact, freed);
      tokens = delete-UsesTokens l.records l.next_token v.tokens k v.keyed;
      token_space = v.token_space;
    }
removed-IsCounted l k from found h e v =
    let (few, small) = limits_small l.limits v.limited in
    let r = removed_count run_identity_reserved k from found l.records h e in
    let a = removed_count run_identity_active k from found l.records h e in
    let t = removed_count run_identity_tombstone k from found l.records h e in
    let freed = sum_over-delete_key (λ x. x.charge) k found l.records h in
    record {
      limited = v.limited;
      keyed = delete_key-HasDistinctKeys k l.records v.keyed;
      reserved_exact = omega (arith, v.reserved_exact, v.entries_within, r);
      active_exact = omega (arith, v.active_exact, v.entries_within, a);
      tombstones_exact = omega (arith, v.tombstones_exact, v.entries_within, t);
      bytes_exact = omega (arith, v.bytes_exact, v.bytes_within, freed);
      entries_within =
          omega (
            arith, v.entries_within, v.reserved_exact, v.active_exact, v.tombstones_exact, r, a, t,
          );
      bytes_within = omega (arith, v.bytes_within, v.bytes_exact, freed);
      tokens = delete-UsesTokens l.records l.next_token v.tokens k v.keyed;
      token_space = v.token_space;
    }

pub remove_identity-IsCounted :
    (l : RunIdentityLedger) (k : Bytes) (t : ℕ) (from : RunIdentityState)
    → IsCounted l
    → IsCounted (remove_identity l k t from).0
unfolding remove_identity remove_found
remove_identity-IsCounted l k t from v = by_found (find_key k l.records) refl
  where
    by_found :
        (o : Option RunIdentityRecord)
        → find_key k l.records ≡ o
        → IsCounted (remove_at l k t from o).0
    by_found none h = v
    by_found (some found) h =
        if_intro (λ (x : RunIdentityLedger × Option IdentityError). IsCounted x.0)
          (not (holds_record t from found)) (λ _. v)
          (λ e.
            removed-IsCounted l k from found h (holds_record_lem t from found (ground arith)).1 v)

-- The moves that the engine makes: activation and the end of a run.
unfoldable pub engine_moves : RunIdentityState → RunIdentityState → Bool
engine_moves run_identity_reserved run_identity_active = true
engine_moves run_identity_active run_identity_tombstone = true
engine_moves _ _ = false

-- The counters after a record has gone from one state to another.
pub moved-IsCounted :
    (l : RunIdentityLedger) (k : Bytes) (from to : RunIdentityState) (found : RunIdentityRecord)
    → find_key k l.records ≡ some found
    → found.state ≡ from
    → engine_moves from to ≡ true
    → IsCounted l
    → IsCounted (record (enter_state to (leave_state from l)) {
      records = put_key k (record found { state = to }) l.records;
    })
unfolding leave_state enter_state sub32 add32 same_state engine_moves
moved-IsCounted l k run_identity_reserved run_identity_active found h e allowed v =
    let (few, small) = limits_small l.limits v.limited in
    let r =
      moved_count run_identity_reserved k run_identity_reserved run_identity_active found l.records
        h e in
    let a =
      moved_count run_identity_active k run_identity_reserved run_identity_active found l.records h
        e in
    let t =
      moved_count run_identity_tombstone k run_identity_reserved run_identity_active found l.records
        h e in
    let kept =
      sum_over-put_key (λ x. x.charge) k (record found { state = run_identity_active }) found
        l.records h in
    record {
      limited = v.limited;
      keyed =
          put_key-HasDistinctKeys k (record found { state = run_identity_active }) l.records
            v.keyed;
      reserved_exact = omega (arith, v.reserved_exact, v.entries_within, r);
      active_exact = omega (arith, v.active_exact, v.entries_within, a);
      tombstones_exact = omega (arith, v.tombstones_exact, v.entries_within, t);
      bytes_exact = omega (arith, v.bytes_exact, v.bytes_within, kept);
      entries_within =
          omega (
            arith, v.entries_within, v.reserved_exact, v.active_exact, v.tombstones_exact, r, a, t,
          );
      bytes_within = omega (arith, v.bytes_within, v.bytes_exact, kept);
      tokens =
          put_same-UsesTokens l.records l.next_token v.tokens k found
            (record found { state = run_identity_active }) h refl;
      token_space = v.token_space;
    }
moved-IsCounted l k run_identity_active run_identity_tombstone found h e allowed v =
    let (few, small) = limits_small l.limits v.limited in
    let r =
      moved_count run_identity_reserved k run_identity_active run_identity_tombstone found l.records
        h e in
    let a =
      moved_count run_identity_active k run_identity_active run_identity_tombstone found l.records h
        e in
    let t =
      moved_count run_identity_tombstone k run_identity_active run_identity_tombstone found
        l.records h e in
    let kept =
      sum_over-put_key (λ x. x.charge) k (record found { state = run_identity_tombstone }) found
        l.records h in
    record {
      limited = v.limited;
      keyed =
          put_key-HasDistinctKeys k (record found { state = run_identity_tombstone }) l.records
            v.keyed;
      reserved_exact = omega (arith, v.reserved_exact, v.entries_within, r);
      active_exact = omega (arith, v.active_exact, v.entries_within, a);
      tombstones_exact = omega (arith, v.tombstones_exact, v.entries_within, t);
      bytes_exact = omega (arith, v.bytes_exact, v.bytes_within, kept);
      entries_within =
          omega (
            arith, v.entries_within, v.reserved_exact, v.active_exact, v.tombstones_exact, r, a, t,
          );
      bytes_within = omega (arith, v.bytes_within, v.bytes_exact, kept);
      tokens =
          put_same-UsesTokens l.records l.next_token v.tokens k found
            (record found { state = run_identity_tombstone }) h refl;
      token_space = v.token_space;
    }
moved-IsCounted l k _ _ found h e allowed v = absurd (grind arith)
