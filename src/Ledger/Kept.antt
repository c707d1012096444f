-- ===== src/Ledger/Kept.antt =====
-- daemon/idempotency.go: what other calls of Do and their owners leave of an operation.
use spice_agent.Base.{
  ℕ, ◌≡◌, ◌≢◌, refl, sym, ap, subst, ◌∙◌, ◌⊎◌, inl, inr, ◌||◌, ◌&&◌, leb, length, Bool, true,
  Bool-cases, if_intro, List, [], ◌∷◌, Option, none, some, arith, Bytes, bytes_eq_iff, ContextError,
}
use spice_agent.Ledger.Types.{Outcome, LedgerError, OperationEntry, OperationKey, Ledger}
use spice_agent.Ledger.Operations.{
  same_key, find_entry, delete_entry, find_heap, update_heap, Assignment, owns, new_entry,
  claim_entry, assign, assign_by, missing, find_count, count_or_zero,
}
use spice_agent.Ledger.Settlement.{holds, abandon, complete}
use spice_agent.Ledger.Ownership.{assign-IsOwned, find_entry_first}

-- What happens to the ledger after an operation has its owner, who knows its entry by `token`, as long as
-- the owner does not give it up: turns of Do with any key and the ends of other operations, and the
-- completion by the owner where `completing`. A new pointer is not that of the entry.
pub data Step (token : ℕ) (completing : Bool) : Ledger → Ledger → Type 0 where
  turns :
      {l : Ledger}
      → (ctx : Option ContextError) (key : OperationKey) (kind digest : Bytes) (fresh : ℕ)
      → fresh ≢ token
      → Step token completing l (assign l ctx key kind digest fresh).0
  others_complete :
      {l : Ledger}
      → (other : ℕ) (outcome : Outcome) (error : Option LedgerError) → other ≢ token
      → Step token completing l (complete other outcome error l)
  others_abandon :
      {l : Ledger}
      → (key : OperationKey) (other : ℕ) → other ≢ token
      → Step token completing l (abandon key other l)
  owner_completes :
      {l : Ledger}
      → (outcome : Outcome) (error : Option LedgerError) → completing ≡ true
      → Step token completing l (complete token outcome error l)

pub data Reach (token : ℕ) (completing : Bool) (start : Ledger) : Ledger → Type 0 where
  here : Reach token completing start start
  next :
      {l m : Ledger}
      → Reach token completing start l
      → Step token completing l m
      → Reach token completing start m

find_entry-same :
    (a b : OperationKey) (entries : List (OperationKey × ℕ))
    → same_key a b ≡ true
    → find_entry a entries ≡ find_entry b entries
find_entry-same a b entries h =
    let client : a.client_id ≡ b.client_id =
      (bytes_eq_iff a.client_id b.client_id).0 (ground arith) in
    let operation : a.operation_id ≡ b.operation_id =
      (bytes_eq_iff a.operation_id b.operation_id).0 (ground arith) in
    ap (λ (k : OperationKey). find_entry k entries)
      (λ i. record { client_id = client i; operation_id = operation i })

find-delete_other :
    (key other : OperationKey) (token t : ℕ) (entries : List (OperationKey × ℕ))
    → t ≢ token
    → find_entry key entries ≡ some token
    → find_entry other entries ≡ some t
    → find_entry key (delete_entry other entries) ≡ some token
unfolding find_entry delete_entry
find-delete_other key other token t [] differ found at_other = absurd (grind arith)
find-delete_other key other token t ((k, u) ∷ rest) differ found at_other =
    elim (Bool-cases (same_key k other)) [
      | inl hit ↦ elim (Bool-cases (same_key k key)) [
        | inl mine ↦ absurd (grind arith)
        | inr theirs ↦ ground (arith, hit, theirs, found)
      ]
      | inr miss ↦ elim (Bool-cases (same_key k key)) [
        | inl mine ↦ ground (arith, miss, mine, found)
        | inr theirs ↦
            ground (
              arith,
              miss,
              theirs,
              found,
              at_other,
              find-delete_other key other token t rest differ,
            )
      ]
    ]

find-update_other :
    (token t : ℕ) (f : OperationEntry → OperationEntry) (es : List OperationEntry)
    → t ≢ token
    → ((x : OperationEntry) → (f x).token ≡ x.token)
    → find_heap token (update_heap t f es) ≡ find_heap token es
unfolding find_heap update_heap
find-update_other token t f [] differ keeps = refl
find-update_other token t f (x ∷ xs) differ keeps =
    ground (arith, differ, keeps x, find-update_other token t f xs differ keeps)

pub find-update_heap :
    (t : ℕ) (f : OperationEntry → OperationEntry) (e : OperationEntry) (es : List OperationEntry)
    → find_heap t es ≡ some e
    → ((x : OperationEntry) → (f x).token ≡ x.token)
    → find_heap t (update_heap t f es) ≡ some (f e)
unfolding find_heap update_heap
find-update_heap t f e [] found keeps = absurd (grind arith)
find-update_heap t f e (x ∷ xs) found keeps = ground (arith, keeps x, find-update_heap t f e xs)

held_found : (t : ℕ) (found : Option ℕ) → holds t found ≡ true → found ≡ some t
held_found t none h = absurd (grind arith)
held_found t (some u) h = ap some (ground arith)

-- The operation is in the ledger, under its key, with an entry of which P holds.
pub record IsKept (key : OperationKey) (token : ℕ) (P : OperationEntry → Type 0) (l : Ledger)
    : Type 0 where
  pub entry : OperationEntry
  pub found : find_entry key l.entries ≡ some token
  pub stored : find_heap token l.heap ≡ some entry
  pub holding : P entry

abbrev pub completion : Outcome → Option LedgerError → OperationEntry → OperationEntry
completion outcome error e = record e { outcome = outcome; error = error; done = true }

-- What a turn of Do leaves: the ledger as it was, or with an entry for a key that was not there.
abbrev Left : OperationKey → ℕ → Bytes → Bytes → Ledger → Ledger → Type 0
Left key fresh kind digest l after =
    (after ≡ l)
    ⊎ ((find_entry key l.entries ≡ none)
        × (after.entries ≡ (key, fresh) ∷ l.entries)
        × (after.heap ≡ new_entry fresh kind digest ∷ l.heap))

claim_cases :
    (l : Ledger) (ctx : Option ContextError) (key : OperationKey) (kind digest : Bytes) (fresh : ℕ)
    → find_entry key l.entries ≡ none
    → Left key fresh kind digest l (claim_entry l ctx key kind digest fresh).0
unfolding claim_entry
claim_cases l (some c) key kind digest fresh absent = inl refl
claim_cases l none key kind digest fresh absent =
    if_intro (λ (r : Ledger × Assignment). Left key fresh kind digest l r.0)
      ((missing (find_count key.client_id l.client_counts)
          && leb l.maximum_clients (length l.client_counts))
        || leb l.maximum_per_client (count_or_zero (find_count key.client_id l.client_counts)))
      (λ _. inl refl) (λ _. inr (absent, refl, refl))

assign_cases :
    (l : Ledger) (ctx : Option ContextError) (key : OperationKey) (kind digest : Bytes) (fresh : ℕ)
    (found : Option ℕ)
    → find_entry key l.entries ≡ found
    → Left key fresh kind digest l (assign_by l ctx key kind digest fresh found).0
unfolding assign_by
assign_cases l ctx key kind digest fresh none absent =
    claim_cases l ctx key kind digest fresh absent
assign_cases l ctx key kind digest fresh (some t) present = inl refl

module _ (key : OperationKey) (token : ℕ) (P : OperationEntry → Type 0) where
  left-IsKept :
      (l after : Ledger) (other : OperationKey) (kind digest : Bytes) (fresh : ℕ)
      → fresh ≢ token
      → Left other fresh kind digest l after
      → IsKept key token P l
      → IsKept key token P after
  left-IsKept l after other kind digest fresh differ (inl same) v =
      subst (IsKept key token P) (sym same) v
  left-IsKept l after other kind digest fresh differ (inr (absent, added, heap)) v = record {
    entry = v.entry;
    found = rw added (elim (Bool-cases (same_key other key)) [
      | inl same ↦
          absurd
            (let e = find_entry-same other key l.entries same in let h = v.found in grind arith)
      | inr not_same ↦ unfold find_entry in rw not_same v.found
    ]);
    stored = rw heap (unfold find_heap in ground (arith, differ, v.stored));
    holding = v.holding;
  }

  updated-IsKept :
      (l : Ledger) (t : ℕ) (f : OperationEntry → OperationEntry)
      → t ≢ token
      → ((x : OperationEntry) → (f x).token ≡ x.token)
      → IsKept key token P l
      → IsKept key token P (record l { heap = update_heap t f l.heap })
  updated-IsKept l t f differ keeps v = record {
    entry = v.entry;
    found = v.found;
    stored = find-update_other token t f l.heap differ keeps ∙ v.stored;
    holding = v.holding;
  }

  abandon-IsKept :
      (l : Ledger) (other : OperationKey) (t : ℕ)
      → t ≢ token
      → IsKept key token P l
      → IsKept key token P (abandon other t l)
  unfolding abandon
  abandon-IsKept l other t differ v =
      let kept =
        updated-IsKept l t (λ e. record e { abandoned = true; done = true }) differ (λ x. refl) v in
      if_intro (IsKept key token P) (holds t (find_entry other l.entries))
        (λ held. record {
          entry = kept.entry;
          found =
              find-delete_other key other token t l.entries differ v.found
                (held_found t (find_entry other l.entries) held);
          stored = kept.stored;
          holding = kept.holding;
        })
        (λ _. kept)

  pub Step-IsKept :
      (completing : Bool)
      → (completing ≡ true
          → (outcome : Outcome) (error : Option LedgerError) (e : OperationEntry) → P e
          → P (completion outcome error e))
      → {l m : Ledger} → Step token completing l m
      → IsKept key token P l
      → IsKept key token P m
  unfolding assign complete
  Step-IsKept completing stable {l = l} (turns ctx other kind digest fresh differ) v =
      left-IsKept l _ other kind digest fresh differ
        (assign_cases l ctx other kind digest fresh _ refl) v
  Step-IsKept completing stable {l = l} (others_complete other outcome error differ) v =
      updated-IsKept l other (completion outcome error) differ (λ x. refl) v
  Step-IsKept completing stable {l = l} (others_abandon other t differ) v =
      abandon-IsKept l other t differ v
  Step-IsKept completing stable {l = l} (owner_completes outcome error may) v = record {
    entry = completion outcome error v.entry;
    found = v.found;
    stored = find-update_heap token (completion outcome error) v.entry l.heap v.stored (λ x. refl);
    holding = stable may outcome error v.entry v.holding;
  }

  pub Reach-IsKept :
      (completing : Bool)
      → (completing ≡ true
          → (outcome : Outcome) (error : Option LedgerError) (e : OperationEntry) → P e
          → P (completion outcome error e))
      → {l m : Ledger} → IsKept key token P l
      → Reach token completing l m
      → IsKept key token P m
  Reach-IsKept completing stable v here = v
  Reach-IsKept completing stable v (next reach step) =
      Step-IsKept completing stable step (Reach-IsKept completing stable v reach)

pub owned-IsKept :
    (l : Ledger) (ctx : Option ContextError) (key : OperationKey) (kind digest : Bytes) (token : ℕ)
    → (assign l ctx key kind digest token).1 ≡ owns token
    → IsKept key token (λ e. e ≡ new_entry token kind digest) (assign l ctx key kind digest token).0
owned-IsKept l ctx key kind digest token h =
    let owned = assign-IsOwned l ctx key kind digest token _ refl h in
    record {
      entry = new_entry token kind digest;
      found = ap (find_entry key) owned.added ∙ find_entry_first key token l.entries;
      stored = owned.stored;
      holding = refl;
    }
