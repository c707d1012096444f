-- ===== src/Ledger/Later.antt =====
-- daemon/idempotency.go: a later turn of Do for an operation that has its owner, whatever came between.
use spice_agent.Base.{
  ℕ, ◌≡◌, refl, ap, ◌∙◌, ◌||◌, not, true, false, if◌then◌else◌, if_intro, Option, some, arith,
  Bytes, bytes_eq, bytes_eq_refl, ContextError,
}
use spice_agent.Ledger.Types.{conflict, Outcome, LedgerError, OperationEntry, OperationKey, Ledger}
use spice_agent.Ledger.Operations.{
  find_heap, duplicates, owns, declines, new_entry, join_entry, assign,
}
use spice_agent.Ledger.Settlement.{answers, complete, await_existing, completed_existing}
use spice_agent.Ledger.Ownership.{assign_present}
use spice_agent.Ledger.Kept.{
  Reach, IsKept, completion, owned-IsKept, Reach-IsKept, find-update_heap,
}

-- What a turn of Do answers for an operation with this entry.
join_kept :
    (kind digest other_kind other_digest : Bytes) (token : ℕ) (e : OperationEntry)
    → (e.token ≡ token) × (e.kind ≡ kind) × (e.digest ≡ digest)
    → join_entry other_kind other_digest (some e) ≡ (
        if not (bytes_eq kind other_kind) || not (bytes_eq digest other_digest)
        then declines conflict
        else duplicates token)
unfolding join_entry
join_kept kind digest other_kind other_digest token e (same, same_kind, same_digest) =
    rw (same, same_kind, same_digest) refl

-- When a call of Do has become the owner of an operation, then as long as it does not give the operation
-- up, whatever turns, completions and abandonments of other operations come in between and whether or
-- not the owner has completed it, a turn with the same client and operation, whatever its context, leaves
-- the ledger as it is and waits for the owner's entry when kind and digest are the same, and fails with
-- a conflict otherwise.
pub assign_once :
    (ledger later : Ledger) (ctx ended : Option ContextError) (key : OperationKey)
    (kind digest other_kind other_digest : Bytes) (token fresh : ℕ)
    → (assign ledger ctx key kind digest token).1 ≡ owns token
    → Reach token true (assign ledger ctx key kind digest token).0 later
    → assign later ended key other_kind other_digest fresh ≡ (
      later,
      (if not (bytes_eq kind other_kind) || not (bytes_eq digest other_digest)
          then declines conflict
          else duplicates token),
    )
assign_once ledger later ctx ended key kind digest other_kind other_digest token fresh h between =
    let P : OperationEntry → Type 0 =
      λ e. (e.token ≡ token) × (e.kind ≡ kind) × (e.digest ≡ digest) in
    let first = owned-IsKept ledger ctx key kind digest token h in
    let here : IsKept key token P (assign ledger ctx key kind digest token).0 = record {
      entry = first.entry;
      found = first.found;
      stored = first.stored;
      holding = rw first.holding (refl, refl, refl);
    } in
    let v = Reach-IsKept key token P true (λ _ outcome error e p. p) here between in
    assign_present later ended key other_kind other_digest fresh token v.found
    ∙ ap (λ e. (later, join_entry other_kind other_digest e)) v.stored
    ∙ ap (λ a. (later, a)) (join_kept kind digest other_kind other_digest token v.entry v.holding)

-- When the owner of an operation has completed it, at once or after other calls, then whatever turns of Do
-- and ends of other operations follow, a turn with the same input waits for the owner's entry, and is
-- answered there with the owner's outcome and error, whatever its own context.
pub assign-complete :
    (ledger working later : Ledger) (ctx ended : Option ContextError) (key : OperationKey)
    (kind digest : Bytes) (token fresh : ℕ) (outcome : Outcome) (error : Option LedgerError)
    → (assign ledger ctx key kind digest token).1 ≡ owns token
    → Reach token false (assign ledger ctx key kind digest token).0 working
    → Reach token false (complete token outcome error working) later
    → (assign later ended key kind digest fresh ≡ (later, duplicates token))
      × ((e : OperationEntry) × (find_heap token later.heap ≡ some e)
          × (await_existing ended e ≡ answers outcome error))
unfolding complete await_existing completed_existing
assign-complete ledger working later ctx ended key kind digest token fresh outcome error h before
      after =
    let first = owned-IsKept ledger ctx key kind digest token h in
    let none_own : (e : OperationEntry) → Type 0 = λ e. e ≡ new_entry token kind digest in
    let v = Reach-IsKept key token none_own false (λ may. absurd (grind arith)) first before in
    let Q : OperationEntry → Type 0 =
      λ e. e ≡ completion outcome error (new_entry token kind digest) in
    let done : IsKept key token Q (complete token outcome error working) = record {
      entry = completion outcome error v.entry;
      found = v.found;
      stored =
          find-update_heap token (completion outcome error) v.entry working.heap v.stored
            (λ x. refl);
      holding = ap (completion outcome error) v.holding;
    } in
    let w = Reach-IsKept key token Q false (λ may. absurd (grind arith)) done after in
    let joined =
      join_kept kind digest kind digest token w.entry (rw w.holding (refl, refl, refl)) in
    (
      assign_present later ended key kind digest fresh token w.found
          ∙ ap (λ e. (later, join_entry kind digest e)) w.stored
          ∙ ap (λ a. (later, a))
              (joined
                ∙ if_intro (λ a. a ≡ duplicates token)
                    (not (bytes_eq kind kind) || not (bytes_eq digest digest))
                    (λ bad. absurd (ground (arith, bytes_eq_refl kind, bytes_eq_refl digest)))
                    (λ _. refl)),
      (w.entry, w.stored, rw w.holding refl),
    )
