-- ===== src/Agent/Counting.antt =====
-- agent/run_identity.go: transition and reserve keep the statistics exact.
use spice_agent.Base.{
  ℕ, suc, ◌+◌, ◌≤◌, ◌<◌, ◌≡◌, refl, sym, subst, ◌∙◌, true, not, ◌&&◌, ltb, ◌==◌, ltb→ge, if_intro,
  Option, none, some, arith, Result, length, Bytes, max_u64, add32, add64, add64_exact, find_key,
  put_key, sum_over-put_fresh, put_key-HasDistinctKeys,
}
use spice_agent.Agent.Ledger.{
  IdentityError, PreparedExecutionKind, RunIdentityLedger, RunIdentityRecord, RunIdentityState,
  admit_identity, entries_of, reserve_identity, reserve_at, reserve_fresh, run_identity_active,
  run_identity_entry_bytes, run_identity_reserved, run_identity_tombstone, same_state, stats_of,
}
use spice_agent.Agent.Transitions.{holds_record, transition, transition_at, transition_found}
use spice_agent.Agent.Tokens.{UsesTokens, put_fresh-UsesTokens}
use spice_agent.Agent.Counted.{
  IsCounted, engine_moves, holds_record_lem, in_state, limits_small, moved-IsCounted,
}

pub transition-IsCounted :
    (l : RunIdentityLedger) (k : Bytes) (t : ℕ) (from to : RunIdentityState)
    → engine_moves from to ≡ true
    → IsCounted l
    → IsCounted (transition l k t from to).0
unfolding transition transition_found
transition-IsCounted l k t from to allowed v = by_found (find_key k l.records) refl
  where
    by_found :
        (o : Option RunIdentityRecord)
        → find_key k l.records ≡ o
        → IsCounted (transition_at l k t from to o).0
    by_found none h = v
    by_found (some found) h =
        if_intro (λ (x : RunIdentityLedger × Option IdentityError). IsCounted x.0)
          (not (holds_record t from found)) (λ _. v)
          (λ e.
            if_intro (λ (x : RunIdentityLedger × Option IdentityError). IsCounted x.0)
              (not (same_state to run_identity_active)
                && not (same_state to run_identity_tombstone))
              (λ _. v)
              (λ _.
                moved-IsCounted l k from to found h (holds_record_lem t from found (ground arith)).1
                  allowed v))

-- The length of a Go string is an int.
abbrev pub maximum_int : ℕ
maximum_int = 9223372036854775807

admitted-IsCounted :
    (l : RunIdentityLedger) (k : Bytes) (charge : ℕ)
    → find_key k l.records ≡ none
    → charge < 10000000000000000000
    → l.reserved + l.active + l.tombstones + 1 ≤ l.limits.entries
    → l.bytes + charge ≤ l.limits.bytes
    → l.next_token < max_u64
    → IsCounted l
    → IsCounted (admit_identity l k charge)
unfolding admit_identity add32 in_state same_state
admitted-IsCounted l k charge h small room fits space v =
    let (few, low) = limits_small l.limits v.limited in
    let next : add64 l.next_token 1 ≡ suc l.next_token =
      add64_exact l.next_token 1 (omega arith) ∙ (omega arith) in
    let sum : add64 l.bytes charge ≡ l.bytes + charge = add64_exact l.bytes charge (omega arith) in
    let fresh : RunIdentityRecord = record {
      token = add64 l.next_token 1;
      charge = charge;
      state = run_identity_reserved;
    } in
    let r = sum_over-put_fresh (in_state run_identity_reserved) k fresh l.records h in
    let a = sum_over-put_fresh (in_state run_identity_active) k fresh l.records h in
    let t = sum_over-put_fresh (in_state run_identity_tombstone) k fresh l.records h in
    let b = sum_over-put_fresh (λ x. x.charge) k fresh l.records h in
    record {
      limited = v.limited;
      keyed = put_key-HasDistinctKeys k fresh l.records v.keyed;
      reserved_exact = omega (arith, v.reserved_exact, r, room);
      active_exact = omega (arith, v.active_exact, a);
      tombstones_exact = omega (arith, v.tombstones_exact, t);
      bytes_exact = omega (arith, v.bytes_exact, b, sum);
      entries_within = omega (arith, room, few);
      bytes_within = omega (arith, fits, sum);
      tokens =
          subst (UsesTokens (put_key k fresh l.records)) (sym next)
            (put_fresh-UsesTokens l.records l.next_token v.tokens k fresh next);
      token_space = omega (arith, next);
    }

pub reserve_identity-IsCounted :
    (l : RunIdentityLedger) (k : Bytes) (kind : PreparedExecutionKind)
    → length k ≤ maximum_int
    → IsCounted l
    → IsCounted (reserve_identity l k kind).0
unfolding reserve_identity reserve_fresh entries_of stats_of add32 add64
reserve_identity-IsCounted l k kind short v = by_found (find_key k l.records) refl
  where
    by_found :
        (o : Option RunIdentityRecord)
        → find_key k l.records ≡ o
        → IsCounted (reserve_at l k kind o).0
    by_found (some found) h = v
    by_found none h =
        let (few, low) = limits_small l.limits v.limited in
        let count : add32 (entries_of (stats_of l)) 1 ≡ l.reserved + l.active + l.tombstones + 1 =
          omega (arith, v.entries_within) in
        let exact : add64 run_identity_entry_bytes (length k) ≡ 128 + length k = omega arith in
        let sum : add64 l.bytes (add64 run_identity_entry_bytes (length k))
            ≡ l.bytes + (128 + length k) =
          omega (arith, v.bytes_within) in
        if_intro (λ (x : RunIdentityLedger × Result IdentityError ℕ). IsCounted x.0)
          (ltb l.limits.entries (add32 (entries_of (stats_of l)) 1)) (λ _. v)
          (λ room.
            if_intro (λ (x : RunIdentityLedger × Result IdentityError ℕ). IsCounted x.0)
              (ltb l.limits.bytes (add64 l.bytes (add64 run_identity_entry_bytes (length k))))
              (λ _. v)
              (λ fits.
                if_intro (λ (x : RunIdentityLedger × Result IdentityError ℕ). IsCounted x.0)
                  (l.next_token == max_u64) (λ _. v)
                  (λ space.
                    admitted-IsCounted l k _ h (omega (arith, exact))
                      (omega (arith, ltb→ge _ _ room, count))
                      (omega (arith, ltb→ge _ _ fits, sum, exact)) (ground (arith, v.token_space))
                      v)))
