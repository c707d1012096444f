-- ===== src/Ledger/Repeats.antt =====
-- daemon/idempotency.go: an operation that is given up, and one that is completed.
use spice_agent.Base.{
  if_intro, ℕ, suc, ◌-◌, ◌≡◌, ◌≢◌, refl, ap, subst, ◌∙◌, true, ◌==◌, List, ◌∷◌, Option, none, some,
  arith, Bytes, bytes_eq_refl, ContextError,
}
use spice_agent.Ledger.Types.{OperationKey, Ledger}
use spice_agent.Ledger.Operations.{
  find_entry, delete_entry, find_count, put_count, owns, count_or_zero, assign,
}
use spice_agent.Ledger.Settlement.{uncount, holds, abandon}
use spice_agent.Ledger.Ownership.{
  find-put_count, delete-put_count, put-put_count, assign-IsOwned, find_entry_first,
}

-- Why the entry is taken back leaves the counts as they were.
uncount-put_count :
    (client : Bytes) (counts : List (Bytes × ℕ)) (found : Option ℕ)
    → find_count client counts ≡ found
    → found ≢ some 0
    → uncount client
        (find_count client (put_count client (suc (count_or_zero found)) counts))
        (put_count client (suc (count_or_zero found)) counts)
      ≡ counts
unfolding uncount
uncount-put_count client counts none absent positive =
    ap (λ n. uncount client n (put_count client 1 counts)) (find-put_count client 1 counts)
    ∙ delete-put_count client 1 counts absent
uncount-put_count client counts (some k) present positive =
    ap (λ n. uncount client n (put_count client (suc k) counts))
      (find-put_count client (suc k) counts)
    ∙ if_intro (λ x. x ≡ counts) (suc k - 1 == 0) (λ e. absurd (positive (ap some (ground arith))))
        (λ _.
          let same : k ≡ suc k - 1 = omega arith in
          subst (λ n. put_count client n (put_count client (suc k) counts) ≡ counts) same
            (put-put_count client (suc k) k counts present))

abandon_held :
    (key : OperationKey) (token : ℕ) (ledger : Ledger)
    → find_entry key ledger.entries ≡ some token
    → (abandon key token ledger).entries ≡ delete_entry key ledger.entries
      × (abandon key token ledger).client_counts
        ≡ uncount key.client_id (find_count key.client_id ledger.client_counts) ledger.client_counts
unfolding abandon
abandon_held key token ledger found =
    let Claim : Ledger → Type 0 = λ l.
      l.entries ≡ delete_entry key ledger.entries
      × l.client_counts
        ≡ uncount key.client_id (find_count key.client_id ledger.client_counts)
            ledger.client_counts in
    let held : holds token (find_entry key ledger.entries) ≡ true =
      ap (holds token) found ∙ (ground arith) in
    if_intro Claim (holds token (find_entry key ledger.entries)) (λ _. (refl, refl))
      (λ not_held. absurd (grind arith))

delete_entry_first :
    (key : OperationKey) (t : ℕ) (entries : List (OperationKey × ℕ))
    → delete_entry key ((key, t) ∷ entries) ≡ entries
unfolding delete_entry
delete_entry_first key t entries =
    ground (arith, bytes_eq_refl key.client_id, bytes_eq_refl key.operation_id)

-- An operation that a call of Do came to own and whose executor took it back leaves the ledger's
-- entries and counts as they were before the call, where the client's count is not zero.
pub abandon-assign :
    (ledger : Ledger) (ctx : Option ContextError) (key : OperationKey) (kind digest : Bytes)
    (token : ℕ)
    → find_count key.client_id ledger.client_counts ≢ some 0
    → (assign ledger ctx key kind digest token).1 ≡ owns token
    → (let after = abandon key token (assign ledger ctx key kind digest token).0 in
        after.entries ≡ ledger.entries × after.client_counts ≡ ledger.client_counts)
abandon-assign ledger ctx key kind digest token positive h =
    let owned = assign-IsOwned ledger ctx key kind digest token _ refl h in
    let first = ap (find_entry key) owned.added ∙ find_entry_first key token ledger.entries in
    let (entries, counts) = abandon_held key token _ first in
    (
      entries ∙ ap (delete_entry key) owned.added ∙ delete_entry_first key token ledger.entries,
      counts
          ∙ ap (λ cs. uncount key.client_id (find_count key.client_id cs) cs) owned.counted
          ∙ uncount-put_count key.client_id ledger.client_counts _ refl positive,
    )
