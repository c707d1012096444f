-- ===== src/Ledger/Examples.antt =====
-- daemon/idempotency.go on one operation.
use spice_agent.Base.{
  Bool, ◌≡◌, refl, ◌||◌, not, if◌then◌else◌, [], ◌∷◌, none, some, arith, Bytes, bytes_eq, canceled,
}
use spice_agent.Ledger.Types.{
  Outcome, success, Ledger, OperationKey, OperationEntry, conflict, new_ledger,
}
use spice_agent.Ledger.Operations.{
  find_entry, find_count, find_heap, claim_entry, assign, assign_by, owns, duplicates, declines,
}
use spice_agent.Ledger.Settlement.{answers, abandon, complete, await_existing}
use spice_agent.Ledger.Kept.{Reach, here, next, turns, others_abandon, owner_completes}
use spice_agent.Ledger.Later.{assign_once, assign-complete}
use spice_agent.Ledger.Repeats.{abandon-assign}

abbrev ledger : Ledger
ledger = record {
  maximum_clients = 2;
  maximum_per_client = 2;
  entries = [];
  client_counts = [];
  heap = [];
}

ledger_made : new_ledger 2 2 ≡ some ledger
unfolding new_ledger
ledger_made = refl

abbrev key : OperationKey
key = record { client_id = 99 ∷ []; operation_id = 111 ∷ [] }

abbrev kind : Bytes
kind = 107 ∷ []

abbrev digest : Bytes
digest = 1 ∷ 2 ∷ []

abbrev result : Outcome
result = record { kind = success; payload = 42 ∷ [] }

owned_first : (assign ledger none key kind digest 1).1 ≡ owns 1
unfolding assign assign_by find_entry find_count claim_entry
owned_first = refl

abbrev other_key : OperationKey
other_key = record { client_id = 99 ∷ []; operation_id = 112 ∷ [] }

-- Another operation comes and is given up, and the owner completes the first.
abbrev owned : Ledger
owned = (assign ledger none key kind digest 1).0

abbrev joined : Ledger
joined = (assign owned none other_key kind digest 2).0

abbrev left : Ledger
left = abandon other_key 2 joined

abbrev later : Ledger
later = complete 1 result none left

other_turns : {completing : Bool} → Reach 1 completing owned left
other_turns =
    next (next here (turns none other_key kind digest 2 (omega arith)))
      (others_abandon other_key 2 (omega arith))

assign_once_example : assign later (some canceled) key kind (3 ∷ []) 3 ≡ (
  later,
  (if not (bytes_eq kind kind) || not (bytes_eq digest (3 ∷ []))
      then declines conflict
      else duplicates 1),
)
assign_once_example =
    assign_once ledger later none (some canceled) key kind digest kind (3 ∷ []) 1 3 owned_first
      (next other_turns (owner_completes result none refl))

assign-complete_example :
    (assign (assign later none other_key kind digest 4).0 (some canceled) key kind digest 5
      ≡ ((assign later none other_key kind digest 4).0, duplicates 1))
    × ((e : OperationEntry) × (find_heap 1 (assign later none other_key kind digest 4).0.heap
          ≡ some e)
        × (await_existing (some canceled) e ≡ answers result none))
assign-complete_example =
    assign-complete ledger left (assign later none other_key kind digest 4).0 none (some canceled)
      key kind digest 1 5 result none owned_first other_turns
      (next here (turns none other_key kind digest 4 (omega arith)))

abandon-assign_example :
    let after = abandon key 1 (assign ledger none key kind digest 1).0 in
    after.entries ≡ [] × after.client_counts ≡ []
unfolding find_count
abandon-assign_example =
    abandon-assign ledger none key kind digest 1 (λ e. absurd (grind arith)) owned_first
