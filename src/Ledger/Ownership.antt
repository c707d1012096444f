-- ===== src/Ledger/Ownership.antt =====
-- daemon/idempotency.go: one owner for an operation.
use spice_agent.Base.{
  if_intro, ℕ, suc, ◌≡◌, ◌≢◌, refl, ap, sym, ◌∙◌, ◌&&◌, ◌||◌, not, leb, length, List, [], ◌∷◌,
  Option, none, some, arith, Bytes, bytes_eq, bytes_eq_refl, ContextError,
}
use spice_agent.Ledger.Types.{OperationEntry, OperationKey, Ledger}
use spice_agent.Ledger.Operations.{
  find_entry, find_count, put_count, delete_count, find_heap, Assignment, owns, count_or_zero,
  new_entry, missing, join_entry, claim_entry, assign, assign_by,
}

pub find-put_count :
    (c : Bytes) (n : ℕ) (cs : List (Bytes × ℕ)) → find_count c (put_count c n cs) ≡ some n
unfolding find_count put_count
find-put_count c n [] = ground (arith, bytes_eq_refl c)
find-put_count c n ((d, m) ∷ rest) = ground (arith, bytes_eq_refl c, find-put_count c n rest)

-- To put a count for a client that had none and to delete it again changes nothing.
pub delete-put_count :
    (c : Bytes) (n : ℕ) (cs : List (Bytes × ℕ))
    → find_count c cs ≡ none
    → delete_count c (put_count c n cs) ≡ cs
unfolding find_count put_count delete_count
delete-put_count c n [] h = ground (arith, bytes_eq_refl c)
delete-put_count c n ((d, m) ∷ rest) h = ground (arith, bytes_eq_refl c, delete-put_count c n rest)

-- To put another count and then the one from before changes nothing.
pub put-put_count :
    (c : Bytes) (n k : ℕ) (cs : List (Bytes × ℕ))
    → find_count c cs ≡ some k
    → put_count c k (put_count c n cs) ≡ cs
unfolding find_count put_count
put-put_count c n k [] h = absurd (ground arith)
put-put_count c n k ((d, m) ∷ rest) h = ground (arith, put-put_count c n k rest)

-- What a turn of Do that owns leaves in the ledger.
pub record IsOwned (key : OperationKey) (kind digest : Bytes) (token : ℕ) (before after : Ledger)
    : Type 0 where
  pub was_absent : find_entry key before.entries ≡ none
  pub added : after.entries ≡ (key, token) ∷ before.entries
  pub counted :
      after.client_counts
      ≡ put_count key.client_id
          (suc (count_or_zero (find_count key.client_id before.client_counts)))
          before.client_counts
  pub stored : find_heap token after.heap ≡ some (new_entry token kind digest)

claimed :
    (ledger : Ledger) (ctx : Option ContextError) (key : OperationKey) (kind digest : Bytes)
    (token : ℕ)
    → find_entry key ledger.entries ≡ none
    → (claim_entry ledger ctx key kind digest token).1 ≡ owns token
    → IsOwned key kind digest token ledger (claim_entry ledger ctx key kind digest token).0
unfolding claim_entry find_heap
claimed ledger (some c) key kind digest token absent = λ h. absurd (grind arith)
claimed ledger none key kind digest token absent =
    let Claim : Ledger × Assignment → Type 0 =
      λ p. p.1 ≡ owns token → IsOwned key kind digest token ledger p.0 in
    if_intro Claim
      ((missing (find_count key.client_id ledger.client_counts)
          && leb ledger.maximum_clients (length ledger.client_counts))
        || leb ledger.maximum_per_client
            (count_or_zero (find_count key.client_id ledger.client_counts)))
      (λ _ h. absurd (grind arith))
      (λ _ h. record { was_absent = absent; added = refl; counted = refl; stored = ground arith })

assign_absent :
    (ledger : Ledger) (ctx : Option ContextError) (key : OperationKey) (kind digest : Bytes)
    (token : ℕ)
    → find_entry key ledger.entries ≡ none
    → assign ledger ctx key kind digest token ≡ claim_entry ledger ctx key kind digest token
unfolding assign assign_by
assign_absent ledger ctx key kind digest token h = ap (assign_by ledger ctx key kind digest token) h

pub assign_present :
    (ledger : Ledger) (ctx : Option ContextError) (key : OperationKey) (kind digest : Bytes)
    (token t : ℕ)
    → find_entry key ledger.entries ≡ some t
    → assign ledger ctx key kind digest token
      ≡ (ledger, join_entry kind digest (find_heap t ledger.heap))
unfolding assign assign_by
assign_present ledger ctx key kind digest token t h =
    ap (assign_by ledger ctx key kind digest token) h

join-owns :
    (kind digest : Bytes) (found : Option OperationEntry) (token : ℕ)
    → join_entry kind digest found ≢ owns token
unfolding join_entry
join-owns kind digest none token = grind arith
join-owns kind digest (some e) token =
    if_intro (λ a. a ≢ owns token) (not (bytes_eq e.kind kind) || not (bytes_eq e.digest digest))
      (λ _ h. absurd (grind arith)) (λ _ h. absurd (grind arith))

pub assign-IsOwned :
    (ledger : Ledger) (ctx : Option ContextError) (key : OperationKey) (kind digest : Bytes)
    (token : ℕ) (found : Option ℕ)
    → find_entry key ledger.entries ≡ found
    → (assign ledger ctx key kind digest token).1 ≡ owns token
    → IsOwned key kind digest token ledger (assign ledger ctx key kind digest token).0
assign-IsOwned ledger ctx key kind digest token none absent h =
    let same = assign_absent ledger ctx key kind digest token absent in
    rw same (claimed ledger ctx key kind digest token absent (sym (ap (λ p. p.1) same) ∙ h))
assign-IsOwned ledger ctx key kind digest token (some t) present h = absurd (
    join-owns kind digest (find_heap t ledger.heap) token
      (sym (ap (λ p. p.1) (assign_present ledger ctx key kind digest token t present)) ∙ h))

pub find_entry_first :
    (key : OperationKey) (t : ℕ) (entries : List (OperationKey × ℕ))
    → find_entry key ((key, t) ∷ entries) ≡ some t
unfolding find_entry
find_entry_first key t entries =
    ground (arith, bytes_eq_refl key.client_id, bytes_eq_refl key.operation_id)
