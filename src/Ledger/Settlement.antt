-- ===== src/Ledger/Settlement.antt =====
-- daemon/idempotency.go: what Do makes of the executor's result, and what a duplicate learns.
use spice_agent.Base.{
  ℕ, ◌-◌, Bool, true, false, ◌&&◌, if◌then◌else◌, ◌==◌, length, List, [], ◌∷◌, Option, none, some,
  Bytes, Result, ok, err, ContextError,
}
use spice_agent.Ledger.Types.{
  Cause, OutcomeKind, uncertain, unset, Outcome, LedgerError, executor_failed, abandoned_operation,
  context_failed, new_outcome, ExecutorError, abandons, abandons_nil, wraps, other_error, Execution,
  returns, panicked, OperationEntry, OperationKey, Ledger,
}
use spice_agent.Ledger.Operations.{
  find_entry, delete_entry, find_count, put_count, delete_count, update_heap, zero_outcome,
  count_or_zero,
}

-- "operation outcome uncertain"
abbrev pub uncertain_payload : Bytes
uncertain_payload =
    111 ∷ 112 ∷ 101 ∷ 114 ∷ 97 ∷ 116 ∷ 105 ∷ 111 ∷ 110 ∷ 32 ∷ 111 ∷ 117 ∷ 116 ∷ 99 ∷ 111 ∷ 109 ∷ 101
    ∷ 32 ∷ 117 ∷ 110 ∷ 99 ∷ 101 ∷ 114 ∷ 116 ∷ 97 ∷ 105 ∷ 110 ∷ []

-- uncertainExecutorOutcome
abbrev pub uncertain_outcome : Outcome
uncertain_outcome = record { kind = uncertain; payload = uncertain_payload }

abbrev kind_unset : OutcomeKind → Bool
kind_unset unset = true
kind_unset k = false

-- isZeroOutcome
unfoldable pub is_zero_outcome : Outcome → Bool
is_zero_outcome o = kind_unset o.kind && length o.payload == 0

-- What Do makes of the executor's result: take the entry back, or complete it.
pub data Verdict : Type 0 where
  takes_back : Cause → Verdict
  completes : Outcome → Option LedgerError → Verdict

-- validAbandonment, by its cause.
abbrev pub valid_abandonment : ExecutorError → Option Cause
valid_abandonment (abandons c) = some c
valid_abandonment abandons_nil = none
valid_abandonment (wraps e) = none
valid_abandonment other_error = none

judge_error : Outcome → Option Cause → Verdict
unfolding is_zero_outcome
judge_error o none = completes uncertain_outcome (some executor_failed)
judge_error o (some c) =
    if is_zero_outcome o then takes_back c else completes uncertain_outcome (some executor_failed)

judge_outcome : Outcome → Result LedgerError Outcome → Verdict
judge_outcome o (ok checked) = completes o none
judge_outcome o (err e) = completes uncertain_outcome (some executor_failed)

-- executeSafely and the classification that follows it in Do.
unfoldable pub judge : Execution → Verdict
unfolding judge_error judge_outcome new_outcome
judge panicked = completes uncertain_outcome (some executor_failed)
judge (returns o (some e)) = judge_error o (valid_abandonment e)
judge (returns o none) = judge_outcome o (new_outcome o.kind o.payload)

-- The last locked part of Do.
unfoldable pub complete : ℕ → Outcome → Option LedgerError → Ledger → Ledger
unfolding update_heap
complete token outcome error ledger = record ledger {
  heap =
      update_heap token (λ e. record e { outcome = outcome; error = error; done = true })
        ledger.heap;
}

abbrev pub holds : ℕ → Option ℕ → Bool
holds t none = false
holds t (some u) = u == t

-- The count of a client with one operation less, in abandon.
unfoldable pub uncount : Bytes → Option ℕ → List (Bytes × ℕ) → List (Bytes × ℕ)
unfolding delete_count put_count
uncount client count counts =
    let remaining = count_or_zero count - 1 in
    if remaining == 0 then delete_count client counts else put_count client remaining counts

-- abandon; a client with an entry in the ledger has a count, so `remaining` is not below zero.
unfoldable pub abandon : OperationKey → ℕ → Ledger → Ledger
unfolding find_entry delete_entry find_count uncount update_heap
abandon key token ledger =
    let heap = update_heap token (λ e. record e { abandoned = true; done = true }) ledger.heap in
    if holds token (find_entry key ledger.entries)
    then record ledger {
      entries = delete_entry key ledger.entries;
      client_counts =
          uncount key.client_id (find_count key.client_id ledger.client_counts)
            ledger.client_counts;
      heap = heap;
    }
    else record ledger { heap = heap }

-- What an owner's call of Do leaves and answers, for the executor's result.
unfoldable pub finish_operation :
    OperationKey → ℕ → Verdict → Ledger → Ledger × Outcome × Option LedgerError
unfolding abandon complete
finish_operation key token (takes_back c) ledger =
    (abandon key token ledger, zero_outcome, some (abandoned_operation c))
finish_operation key token (completes o e) ledger = (complete token o e ledger, o, e)

-- What a duplicate gets: an answer, a new turn of Do, or more waiting.
pub data Answer : Type 0 where
  answers : Outcome → Option LedgerError → Answer
  retries : Answer
  blocks : Answer

retry_unless : Option ContextError → Answer
retry_unless none = retries
retry_unless (some c) = answers zero_outcome (some (context_failed c))

-- completedExisting
unfoldable pub completed_existing : Option ContextError → OperationEntry → Answer
unfolding retry_unless
completed_existing ctx e = if e.abandoned then retry_unless ctx else answers e.outcome e.error

wait_on : Option ContextError → Answer
wait_on none = blocks
wait_on (some c) = answers zero_outcome (some (context_failed c))

-- awaitExisting on the state of the entry and of the context at the moment of the answer.
unfoldable pub await_existing : Option ContextError → OperationEntry → Answer
unfolding completed_existing wait_on
await_existing ctx e = if e.done then completed_existing ctx e else wait_on ctx
