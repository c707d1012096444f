-- ===== src/Hub/Runs.antt =====
-- daemon/pending.go: the runs that are bound, and what each client has of them.
use spice_agent.Base.{
  ℕ, suc, ◌≤◌, ◌<◌, ◌≡◌, refl, sym, ap, subst, ◌∙◌, inl, inr, false, Bool-cases, if◌then◌else◌,
  length, ◌==◌, List, [], ◌∷◌, map, Option, none, some, arith, All, Bytes, bytes_eq, bytes_eq_iff,
  find_key, put_key, sum_over, find-put_key_if,
}
use spice_agent.Hub.Types.{RunBinding}
use spice_agent.Hub.Store.{Partition, PendingHub, find_binding, update_binding}

-- Whether a binding is the client's, as a number.
unfoldable pub owned_by : Bytes → Option RunBinding → ℕ
owned_by client none = 0
owned_by client (some b) = if bytes_eq b.client_id client then 1 else 0

-- How many runs of the map have a binding of the client.
unfoldable pub run_count : Bytes → List RunBinding → List (Bytes × ℕ) → ℕ
unfolding owned_by
run_count client bindings runs = sum_over (λ t. owned_by client (find_binding t bindings)) runs

abbrev pub bound_of : Option Partition → ℕ
bound_of none = 0
bound_of (some p) = p.bound_runs

-- The bound runs of every client are counted, and the runs and the clients are within the limits. The
-- token of every binding was given out.
pub record HasBoundRuns (hub : PendingHub) : Type 0 where
  pub counted :
      (client : Bytes)
      → bound_of (find_key client hub.partitions) ≡ run_count client hub.bindings hub.runs
  pub few_own :
      (client : Bytes) → bound_of (find_key client hub.partitions) ≤ hub.limits.runs_per_client
  pub few_runs : length hub.runs ≤ hub.limits.runs
  pub few_clients : length hub.partitions ≤ hub.limits.clients
  pub tokens : All (λ (r : Bytes × ℕ). r.1 < hub.next_token) hub.runs

abbrev pub BoundAfter {ℓ} : {A : Type ℓ} → PendingHub × A → Type 0
BoundAfter r = HasBoundRuns r.0

-- A hub that differs in nothing that the bound runs depend on.
pub record HasSameRuns (hub after : PendingHub) : Type 0 where
  pub same_limits : after.limits ≡ hub.limits
  pub same_runs : after.runs ≡ hub.runs
  pub later : hub.next_token ≤ after.next_token
  pub owners :
      (client : Bytes) (t : ℕ)
      → owned_by client (find_binding t after.bindings)
        ≡ owned_by client (find_binding t hub.bindings)
  pub bounds :
      (client : Bytes)
      → bound_of (find_key client after.partitions) ≡ bound_of (find_key client hub.partitions)
  pub few : length after.partitions ≤ hub.limits.clients

pub run_count-same :
    (client : Bytes) (bs cs : List RunBinding) (runs : List (Bytes × ℕ))
    → ((t : ℕ) → owned_by client (find_binding t cs) ≡ owned_by client (find_binding t bs))
    → run_count client cs runs ≡ run_count client bs runs
unfolding run_count sum_over
run_count-same client bs cs [] same = refl
run_count-same client bs cs ((run, t) ∷ runs) same =
    omega (arith, same t, run_count-same client bs cs runs same)

tokens-later :
    (n m : ℕ) (runs : List (Bytes × ℕ))
    → n ≤ m
    → All (λ (r : Bytes × ℕ). r.1 < n) runs
    → All (λ (r : Bytes × ℕ). r.1 < m) runs
tokens-later n m [] h all = tt
tokens-later n m ((run, t) ∷ runs) h (first, all) = (omega arith, tokens-later n m runs h all)

pub same-HasBoundRuns :
    (hub after : PendingHub) → HasSameRuns hub after → HasBoundRuns hub → HasBoundRuns after
same-HasBoundRuns hub after same v = record {
  counted = λ client.
      same.bounds client
      ∙ v.counted client
      ∙ sym (run_count-same client hub.bindings after.bindings hub.runs (same.owners client))
      ∙ ap (run_count client after.bindings) (sym same.same_runs);
  few_own = λ client. rw (same.bounds client, same.same_limits) (v.few_own client);
  few_runs = rw (same.same_runs, same.same_limits) v.few_runs;
  few_clients = rw same.same_limits same.few;
  tokens =
      rw same.same_runs (tokens-later hub.next_token after.next_token hub.runs same.later v.tokens);
}

-- A change of the bindings that keeps their clients and tokens.
pub owned_by-update :
    (client : Bytes) (t u : ℕ) (f : RunBinding → RunBinding) (bs : List RunBinding)
    → ((b : RunBinding) → ((f b).token ≡ b.token) × ((f b).client_id ≡ b.client_id))
    → owned_by client (find_binding t (update_binding u f bs)) ≡ owned_by client (find_binding t bs)
unfolding update_binding find_binding owned_by
owned_by-update client t u f [] keeps = refl
owned_by-update client t u f (b ∷ bs) keeps =
    let (token, of) = keeps b in
    elim (Bool-cases (b.token == u)) [
      | inl hit ↦ elim (Bool-cases (b.token == t)) [
        | inl mine ↦ rw (hit, token, mine, of) refl
        | inr other ↦ rw (hit, token, other) refl
      ]
      | inr miss ↦ elim (Bool-cases (b.token == t)) [
        | inl mine ↦ rw (miss, mine) refl
        | inr other ↦ rw (miss, other) (owned_by-update client t u f bs keeps)
      ]
    ]

pub owned_by-shut :
    (client : Bytes) (t : ℕ) (bs : List RunBinding)
    → owned_by client (find_binding t (map (λ (b : RunBinding). record b { accepting = false }) bs))
      ≡ owned_by client (find_binding t bs)
unfolding find_binding owned_by
owned_by-shut client t [] = refl
owned_by-shut client t (b ∷ bs) = elim (Bool-cases (b.token == t)) [
  | inl mine ↦ rw mine refl
  | inr other ↦ rw other (owned_by-shut client t bs)
]

-- A change of one partition that keeps its bound runs.
pub put-bounds :
    (k client : Bytes) (p : Partition) (ps : List (Bytes × Partition))
    → p.bound_runs ≡ bound_of (find_key k ps)
    → bound_of (find_key client (put_key k p ps)) ≡ bound_of (find_key client ps)
put-bounds k client p ps same = elim (Bool-cases (bytes_eq k client)) [
  | inl here ↦
      let e : k ≡ client = (bytes_eq_iff k client).0 here in
      rw (find-put_key_if client k p ps, here)
        (subst (λ c. p.bound_runs ≡ bound_of (find_key c ps)) e same)
  | inr other ↦ rw (find-put_key_if client k p ps, other) refl
]

pub length-put_known :
    (k : Bytes) (p q : Partition) (ps : List (Bytes × Partition))
    → find_key k ps ≡ some q
    → length (put_key k p ps) ≡ length ps
unfolding find_key put_key
length-put_known k p q [] h = absurd (grind arith)
length-put_known k p q ((j, r) ∷ rest) h = ground (arith, length-put_known k p q rest)

pub length-put_new :
    {A : Type 0} (k : Bytes) (p : A) (ps : List (Bytes × A))
    → length (put_key k p ps) ≤ suc (length ps)
unfolding put_key
length-put_new k p [] = omega arith
length-put_new k p ((j, r) ∷ rest) = ground (arith, length-put_new k p rest)
