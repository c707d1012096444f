-- ===== src/Ledger/Operations.antt =====
-- daemon/idempotency.go: the maps of the ledger and the locked part of Do that assigns an operation.
use spice_agent.Base.{
  ℕ, suc, Bool, true, false, ◌&&◌, ◌||◌, not, if◌then◌else◌, leb, ◌==◌, length, List, [], ◌∷◌,
  Option, none, some, Bytes, bytes_eq, ContextError,
}
use spice_agent.Session.Types.{bounded_token}
use spice_agent.Ledger.Types.{
  unset, Outcome, LedgerError, bad_token, conflict, ledger_full, context_failed, OperationEntry,
  OperationKey, Ledger,
}

abbrev pub same_key : OperationKey → OperationKey → Bool
same_key a b = bytes_eq a.client_id b.client_id && bytes_eq a.operation_id b.operation_id

unfoldable pub find_entry : OperationKey → List (OperationKey × ℕ) → Option ℕ
find_entry key [] = none
find_entry key ((k, t) ∷ rest) =
    let later = find_entry key rest in if same_key k key then some t else later

unfoldable pub delete_entry : OperationKey → List (OperationKey × ℕ) → List (OperationKey × ℕ)
delete_entry key [] = []
delete_entry key ((k, t) ∷ rest) =
    let later = delete_entry key rest in if same_key k key then rest else (k, t) ∷ later

unfoldable pub find_count : Bytes → List (Bytes × ℕ) → Option ℕ
find_count c [] = none
find_count c ((d, n) ∷ rest) =
    let later = find_count c rest in if bytes_eq d c then some n else later

unfoldable pub put_count : Bytes → ℕ → List (Bytes × ℕ) → List (Bytes × ℕ)
put_count c n [] = (c, n) ∷ []
put_count c n ((d, m) ∷ rest) =
    let later = put_count c n rest in if bytes_eq d c then (d, n) ∷ rest else (d, m) ∷ later

unfoldable pub delete_count : Bytes → List (Bytes × ℕ) → List (Bytes × ℕ)
delete_count c [] = []
delete_count c ((d, m) ∷ rest) =
    let later = delete_count c rest in if bytes_eq d c then rest else (d, m) ∷ later

unfoldable pub find_heap : ℕ → List OperationEntry → Option OperationEntry
find_heap t [] = none
find_heap t (e ∷ es) = let later = find_heap t es in if e.token == t then some e else later

-- A change of the entry that a pointer leads to.
unfoldable pub update_heap :
    ℕ → (OperationEntry → OperationEntry) → List OperationEntry → List OperationEntry
update_heap t f [] = []
update_heap t f (e ∷ es) =
    let later = update_heap t f es in if e.token == t then f e ∷ es else e ∷ later

-- How the locked part of a turn of Do ends: wait for an entry, own a new one, or fail. `breaks` is a
-- token with no entry, which is no pointer of the program.
pub data Assignment : Type 0 where
  duplicates : ℕ → Assignment
  owns : ℕ → Assignment
  declines : LedgerError → Assignment
  breaks : Assignment

abbrev pub zero_outcome : Outcome
zero_outcome = record { kind = unset; payload = [] }

-- The count of a missing client is zero.
abbrev pub count_or_zero : Option ℕ → ℕ
count_or_zero none = 0
count_or_zero (some n) = n

abbrev pub missing : Option ℕ → Bool
missing none = true
missing (some n) = false

-- Do for a key that is in the ledger, whose entry is given.
unfoldable pub join_entry : Bytes → Bytes → Option OperationEntry → Assignment
join_entry kind digest none = breaks
join_entry kind digest (some e) =
    if not (bytes_eq e.kind kind) || not (bytes_eq e.digest digest)
    then declines conflict
    else duplicates e.token

-- The entry that Do creates.
abbrev pub new_entry : ℕ → Bytes → Bytes → OperationEntry
new_entry token kind digest = record {
  token = token;
  kind = kind;
  digest = digest;
  done = false;
  outcome = zero_outcome;
  error = none;
  abandoned = false;
}

-- Do for a key that is not in the ledger. `token` is the new pointer.
unfoldable pub claim_entry :
    Ledger → Option ContextError → OperationKey → Bytes → Bytes → ℕ → Ledger × Assignment
unfolding find_count put_count
claim_entry ledger (some c) key kind digest token = (ledger, declines (context_failed c))
claim_entry ledger none key kind digest token =
    let found = find_count key.client_id ledger.client_counts in
    let count = count_or_zero found in
    if (missing found && leb ledger.maximum_clients (length ledger.client_counts))
      || leb ledger.maximum_per_client count
    then (ledger, declines ledger_full)
    else (
      record ledger {
        entries = (key, token) ∷ ledger.entries;
        client_counts = put_count key.client_id (suc count) ledger.client_counts;
        heap = new_entry token kind digest ∷ ledger.heap;
      },
      owns token,
    )

-- The first locked part of a turn of Do, by the pointer found; `ctx` is the context's error.
unfoldable pub assign_by :
    Ledger → Option ContextError → OperationKey → Bytes → Bytes → ℕ → Option ℕ → Ledger × Assignment
unfolding join_entry claim_entry
assign_by ledger ctx key kind digest token (some t) =
    (ledger, join_entry kind digest (find_heap t ledger.heap))
assign_by ledger ctx key kind digest token none = claim_entry ledger ctx key kind digest token

unfoldable pub assign :
    Ledger → Option ContextError → OperationKey → Bytes → Bytes → ℕ → Ledger × Assignment
unfolding find_entry assign_by
assign ledger ctx key kind digest token =
    assign_by ledger ctx key kind digest token (find_entry key ledger.entries)

-- The checks of the strings before the loop of Do, then a turn of it.
unfoldable pub begin_operation :
    Ledger → Option ContextError → OperationKey → Bytes → Bytes → ℕ → Ledger × Assignment
unfolding assign bounded_token
begin_operation ledger ctx key kind digest token =
    if not (bounded_token key.client_id)
      || not (bounded_token key.operation_id)
      || not (bounded_token kind)
    then (ledger, declines bad_token)
    else assign ledger ctx key kind digest token
