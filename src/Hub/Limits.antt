-- ===== src/Hub/Limits.antt =====
-- daemon/pending.go: the tests of NewPendingHub on its limits.
use native.Mathlib.Nat.{le-div_iff_mul-le}
use spice_agent.Base.{
  ℕ, ◌/◌, ◌*◌, ◌≤◌, ◌<◌, ◌≡◌, refl, arith, Bool, List, [], ◌∷◌, All, true, false, ◌||◌,
  if◌then◌else◌, ltb, Result, ok, err, ◌>>=◌, bind_ok,
}
use spice_agent.Hub.Types.{
  PendingLimits, LimitLabel, clients_bound, runs_bound, interactions_bound, observers_bound,
  queue_entries_bound, reserved_entries_bound, actual_entries_bound, reserved_cover, actual_cover,
  pending_bytes_bound, queue_bytes_bound, reserved_bytes_bound, actual_bytes_bound,
  reserved_bytes_cover, actual_bytes_cover, funding,
}

-- Tests in the order of the source, each with the label of its error: the first that hits is the
-- answer.
unfoldable pub first_failure : List (Bool × LimitLabel) → Result LimitLabel (Unit {0})
first_failure [] = ok tt
first_failure ((b, label) ∷ rest) = let later = first_failure rest in if b then err label else later

-- validateGlobalClientBound, as a test that fails.
abbrev pub global_client_bound : ℕ → ℕ → ℕ → Bool
global_client_bound global per_client maximum =
    ltb global 1 || ltb maximum global || ltb per_client 1 || ltb global per_client

abbrev pub count_tests : PendingLimits → List (Bool × LimitLabel)
count_tests l =
    (ltb l.clients 1 || ltb 4096 l.clients, clients_bound)
    ∷ (global_client_bound l.runs l.runs_per_client 16384, runs_bound)
    ∷ (global_client_bound l.pending l.pending_per_client 4096, interactions_bound)
    ∷ (global_client_bound l.observers l.observers_per_client 1024, observers_bound)
    ∷ (ltb l.observer_queue_entries 1 || ltb 1024 l.observer_queue_entries, queue_entries_bound)
    ∷ (
      global_client_bound l.reserved_queue_entries l.reserved_queue_entries_per_client 1048576,
      reserved_entries_bound,
    )
    ∷ (
      global_client_bound l.queued_entries l.queued_entries_per_client 1048576,
      actual_entries_bound,
    )
    ∷ (
      ltb l.reserved_queue_entries l.observer_queue_entries
          || ltb l.reserved_queue_entries_per_client l.observer_queue_entries,
      reserved_cover,
    )
    ∷ (
      ltb l.queued_entries l.reserved_queue_entries
          || ltb l.queued_entries_per_client l.reserved_queue_entries_per_client,
      actual_cover,
    )
    ∷ []

-- validatePendingCountLimits
unfoldable pub validate_counts : PendingLimits → Result LimitLabel (Unit {0})
unfolding first_failure
validate_counts l = first_failure (count_tests l)

abbrev pub byte_tests : PendingLimits → List (Bool × LimitLabel)
byte_tests l =
    (global_client_bound l.pending_bytes l.pending_bytes_per_client 16777216, pending_bytes_bound)
    ∷ (ltb l.observer_queue_bytes 1 || ltb 4194304 l.observer_queue_bytes, queue_bytes_bound)
    ∷ (
      global_client_bound l.reserved_queue_bytes l.reserved_queue_bytes_per_client 67108864,
      reserved_bytes_bound,
    )
    ∷ (global_client_bound l.queued_bytes l.queued_bytes_per_client 67108864, actual_bytes_bound)
    ∷ (
      ltb l.reserved_queue_bytes l.observer_queue_bytes
          || ltb l.reserved_queue_bytes_per_client l.observer_queue_bytes,
      reserved_bytes_cover,
    )
    ∷ (
      ltb l.queued_bytes l.reserved_queue_bytes
          || ltb l.queued_bytes_per_client l.reserved_queue_bytes_per_client,
      actual_bytes_cover,
    )
    ∷ []

-- validatePendingByteLimits
unfoldable pub validate_bytes : PendingLimits → Result LimitLabel (Unit {0})
unfolding first_failure
validate_bytes l = first_failure (byte_tests l)

-- validatePendingReservationFunding
unfoldable pub validate_funding : PendingLimits → Result LimitLabel (Unit {0})
validate_funding l =
    if ltb (l.reserved_queue_entries / l.observer_queue_entries) l.observers
      || ltb (l.reserved_queue_entries_per_client / l.observer_queue_entries) l.observers_per_client
      || ltb (l.reserved_queue_bytes / l.observer_queue_bytes) l.observers
      || ltb (l.reserved_queue_bytes_per_client / l.observer_queue_bytes) l.observers_per_client
    then err funding
    else ok tt

-- validatePendingLimits
unfoldable pub validate_pending_limits : PendingLimits → Result LimitLabel (Unit {0})
unfolding validate_counts validate_bytes validate_funding
validate_pending_limits l = validate_counts l >>= λ _. validate_bytes l >>= λ _. validate_funding l

-- What valid limits say of the queues of the observers.
pub record AreFunded (l : PendingLimits) : Type 0 where
  pub few_calls : l.pending_per_client ≤ 4096
  pub some_entries : 0 < l.observer_queue_entries
  pub entries_cover : l.reserved_queue_entries ≤ l.queued_entries
  pub client_entries_cover : l.reserved_queue_entries_per_client ≤ l.queued_entries_per_client
  pub bytes_cover : l.reserved_queue_bytes ≤ l.queued_bytes
  pub client_bytes_cover : l.reserved_queue_bytes_per_client ≤ l.queued_bytes_per_client
  pub one_entries : l.observer_queue_entries ≤ l.reserved_queue_entries
  pub one_client_entries : l.observer_queue_entries ≤ l.reserved_queue_entries_per_client
  pub one_bytes : l.observer_queue_bytes ≤ l.reserved_queue_bytes
  pub one_client_bytes : l.observer_queue_bytes ≤ l.reserved_queue_bytes_per_client
  pub all_entries : l.observers * l.observer_queue_entries ≤ l.reserved_queue_entries
  pub all_client_entries :
      l.observers_per_client * l.observer_queue_entries ≤ l.reserved_queue_entries_per_client
  pub all_bytes : l.observers * l.observer_queue_bytes ≤ l.reserved_queue_bytes
  pub all_client_bytes :
      l.observers_per_client * l.observer_queue_bytes ≤ l.reserved_queue_bytes_per_client

pub first_failure_lem :
    (tests : List (Bool × LimitLabel)) → first_failure tests ≡ ok tt → All (λ t. t.0 ≡ false) tests
unfolding first_failure
first_failure_lem [] h = tt
first_failure_lem ((true, label) ∷ rest) h = absurd (grind arith)
first_failure_lem ((false, label) ∷ rest) h = (refl, first_failure_lem rest h)

-- A quotient is a bound on a product.
quotient_bound : (n r q : ℕ) → 0 < q → ltb (r / q) n ≡ false → n * q ≤ r
quotient_bound n r q some_q h = (le-div_iff_mul-le some_q).0 (ground arith)

-- What NewPendingHub accepts is funded: every observer that the bounds allow has a full queue reserved,
-- and what is reserved is within what may be queued.
pub validate_pending_limits-AreFunded :
    (l : PendingLimits) → validate_pending_limits l ≡ ok tt → AreFunded l
unfolding validate_pending_limits validate_counts validate_bytes validate_funding
validate_pending_limits-AreFunded l h =
    let (_, counts, more) = bind_ok (validate_counts l) _ h in
    let (_, bytes, funds) = bind_ok (validate_bytes l) _ more in
    let (_, (_, (calls, (_, (queue, (_, (_, (one, (cover, _))))))))) =
      first_failure_lem (count_tests l) counts in
    let (_, (_, (_, (_, (one_byte, (byte_cover, _)))))) = first_failure_lem (byte_tests l) bytes in
    let some_entries : 0 < l.observer_queue_entries = ground arith in
    let some_bytes : 0 < l.observer_queue_bytes = ground arith in
    record {
      few_calls = ground arith;
      some_entries = some_entries;
      entries_cover = ground arith;
      client_entries_cover = ground arith;
      bytes_cover = ground arith;
      client_bytes_cover = ground arith;
      one_entries = ground arith;
      one_client_entries = ground arith;
      one_bytes = ground arith;
      one_client_bytes = ground arith;
      all_entries = quotient_bound l.observers _ _ some_entries (ground arith);
      all_client_entries = quotient_bound l.observers_per_client _ _ some_entries (ground arith);
      all_bytes = quotient_bound l.observers _ _ some_bytes (ground arith);
      all_client_bytes = quotient_bound l.observers_per_client _ _ some_bytes (ground arith);
    }
