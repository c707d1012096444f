-- ===== src/Hub/RunCalls.antt =====
-- daemon/pending.go, BindRun, Release, Request and the ends of calls: the bound runs stay counted.
use spice_agent.Base.{
  ℕ, suc, ◌+◌, ◌≤◌, ◌<◌, ◌≡◌, refl, ap, subst, ◌∙◌, inl, inr, true, false, not, Bool-cases,
  if◌then◌else◌, if_intro, length, leb, ◌==◌, List, [], ◌∷◌, Option, none, some, arith, All, Bytes,
  bytes_eq, bytes_eq_iff, find_key, put_key, sum_over, find-put_key_if, sum_over-put_fresh,
}
use spice_agent.Session.Types.{bounded_token}
use spice_agent.Interaction.{Scope, valid_scope}
use spice_agent.Hub.Types.{PendingLimits, RunBinding}
use spice_agent.Hub.Store.{Partition, PendingHub, empty_partition, partition_for, find_binding}
use spice_agent.Hub.Operations.{missing, bind_in, bind_run}
use spice_agent.Hub.Runs.{
  owned_by, run_count, bound_of, HasBoundRuns, BoundAfter, same-HasBoundRuns, put-bounds,
  length-put_known, length-put_new,
}

-- The partition has the client's bound runs, and there is room for it in the map.
abbrev pub Fits : PendingLimits → Bytes → List (Bytes × Partition) → Option Partition → Type 0
Fits l k ps none = Unit {0}
Fits l k ps (some p) =
    (p.bound_runs ≡ bound_of (find_key k ps))
    × ((q : Partition) → length (put_key k q ps) ≤ l.clients)

pub found-Fits :
    (l : PendingLimits) (k : Bytes) (ps : List (Bytes × Partition)) (found : Option Partition)
    → length ps ≤ l.clients
    → find_key k ps ≡ found
    → Fits l k ps found
found-Fits l k ps none few h = tt
found-Fits l k ps (some p) few h = (rw h refl, λ q. omega (arith, few, length-put_known k q p ps h))

pub partition_for-Fits :
    (l : PendingLimits) (k : Bytes) (ps : List (Bytes × Partition))
    → length ps ≤ l.clients
    → Fits l k ps (partition_for l k ps)
unfolding partition_for
partition_for-Fits l k ps few =
    elim (find_key k ps)
        as (λ o.
          find_key k ps ≡ o
          → Fits l k ps (elim o [
            | some p ↦ some p
            | none ↦ if leb l.clients (length ps) then none else some empty_partition
          ])) [
            | some p ↦ λ h. found-Fits l k ps (some p) few h
            | none ↦ λ h.
                if_intro (Fits l k ps) (leb l.clients (length ps)) (λ _. tt)
                  (λ room. (rw h refl, λ q. ground (arith, length-put_new k q ps)))
          ]
      refl

-- The fields that a put of a partition with the same bound runs leaves.
pub put-HasBoundRuns :
    (hub : PendingHub) (k : Bytes) (p q : Partition)
    → Fits hub.limits k hub.partitions (some p)
    → q.bound_runs ≡ p.bound_runs
    → HasBoundRuns hub
    → HasBoundRuns (record hub { partitions = put_key k q hub.partitions })
put-HasBoundRuns hub k p q fits same v =
    same-HasBoundRuns hub _
      (record {
        same_limits = refl;
        same_runs = refl;
        later = omega arith;
        owners = λ client t. refl;
        bounds = λ client. put-bounds k client q hub.partitions (same ∙ fits.0);
        few = fits.1 q;
      })
      v

-- What HasBoundRuns does not read.
pub other-HasBoundRuns :
    (hub after : PendingHub)
    → (after.limits ≡ hub.limits)
      × (after.runs ≡ hub.runs)
      × (hub.next_token ≤ after.next_token)
      × (after.partitions ≡ hub.partitions)
    → ((client : Bytes) (t : ℕ)
        → owned_by client (find_binding t after.bindings)
          ≡ owned_by client (find_binding t hub.bindings))
    → HasBoundRuns hub
    → HasBoundRuns after
other-HasBoundRuns hub after (limits, runs, later, partitions) owners v =
    same-HasBoundRuns hub after
      (record {
        same_limits = limits;
        same_runs = runs;
        later = later;
        owners = owners;
        bounds = λ client. rw partitions refl;
        few = rw partitions v.few_clients;
      })
      v

-- A new binding, for the runs that were there.
run_count-new :
    (client : Bytes) (b : RunBinding) (bs : List RunBinding) (runs : List (Bytes × ℕ))
    → All (λ (r : Bytes × ℕ). r.1 < b.token) runs
    → run_count client (b ∷ bs) runs ≡ run_count client bs runs
unfolding run_count sum_over find_binding
run_count-new client b bs [] all = refl
run_count-new client b bs ((run, t) ∷ runs) (first, all) =
    let other : (b.token == t) ≡ false = ground arith in
    rw other
      (ap (λ n. owned_by client (find_binding t bs) + n) (run_count-new client b bs runs all))

put-tokens :
    (run : Bytes) (t : ℕ) (runs : List (Bytes × ℕ))
    → All (λ (r : Bytes × ℕ). r.1 < t) runs
    → All (λ (r : Bytes × ℕ). r.1 < suc t) (put_key run t runs)
unfolding put_key
put-tokens run t [] all = (omega arith, tt)
put-tokens run t ((j, u) ∷ rest) (first, all) =
    if_intro (All (λ (r : Bytes × ℕ). r.1 < suc t)) (bytes_eq j run)
      (λ _. (omega arith, weaker rest all)) (λ _. (omega arith, put-tokens run t rest all))
  where
    weaker :
        (rs : List (Bytes × ℕ))
        → All (λ (r : Bytes × ℕ). r.1 < t) rs
        → All (λ (r : Bytes × ℕ). r.1 < suc t) rs
    weaker [] h = tt
    weaker (r ∷ rs) (h, hs) = (omega arith, weaker rs hs)

abbrev new_binding : ℕ → Bytes → Bytes → RunBinding
new_binding t client run = record {
  token = t;
  client_id = client;
  run_id = run;
  accepting = true;
  active = 0;
  released = false;
}

-- The count with one more run.
counted_more :
    (client c run : Bytes) (t : ℕ) (bs : List RunBinding) (runs : List (Bytes × ℕ))
    → find_key run runs ≡ none
    → All (λ (r : Bytes × ℕ). r.1 < t) runs
    → run_count c (new_binding t client run ∷ bs) (put_key run t runs)
      ≡ run_count c bs runs + (if bytes_eq client c then 1 else 0)
unfolding run_count owned_by
counted_more client c run t bs runs absent all =
    let b = new_binding t client run in
    let own : owned_by c (find_binding t (b ∷ bs)) ≡ (if bytes_eq client c then 1 else 0) =
      unfold find_binding in ground arith in
    sum_over-put_fresh (λ u. owned_by c (find_binding u (b ∷ bs))) run t runs absent
    ∙ ap (λ n. n + owned_by c (find_binding t (b ∷ bs))) (run_count-new c b bs runs all)
    ∙ ap (λ n. run_count c bs runs + n) own

bind_in-HasBoundRuns :
    (hub : PendingHub) (client run : Bytes) (found : Option Partition)
    → Fits hub.limits client hub.partitions found
    → find_key run hub.runs ≡ none
    → length hub.runs < hub.limits.runs
    → HasBoundRuns hub
    → BoundAfter (bind_in hub client run found)
unfolding bind_in
bind_in-HasBoundRuns hub client run none fits absent room v = v
bind_in-HasBoundRuns hub client run (some p) fits absent room v =
    if_intro BoundAfter (leb hub.limits.runs_per_client p.bound_runs)
      (λ _. put-HasBoundRuns hub client p p fits refl v)
      (λ few. record {
        counted = λ c.
            let more =
              counted_more client c run hub.next_token hub.bindings hub.runs absent v.tokens in
            let put =
              find-put_key_if c client (record p { bound_runs = suc p.bound_runs })
                hub.partitions in
            elim (Bool-cases (bytes_eq client c)) [
              | inl here ↦
                  let e : client ≡ c = (bytes_eq_iff client c).0 here in
                  let own : p.bound_runs ≡ bound_of (find_key c hub.partitions) =
                    subst (λ x. p.bound_runs ≡ bound_of (find_key x hub.partitions)) e fits.0 in
                  let before = v.counted c in rw (put, more, here) (omega (arith, own, before))
              | inr other ↦
                  let before = v.counted c in rw (put, more, other) (omega (arith, before))
            ];
        few_own = λ c.
            let put =
              find-put_key_if c client (record p { bound_runs = suc p.bound_runs })
                hub.partitions in
            elim (Bool-cases (bytes_eq client c)) [
              | inl here ↦ rw (put, here) (ground arith)
              | inr other ↦ rw (put, other) (v.few_own c)
            ];
        few_runs = omega (arith, room, length-put_new run hub.next_token hub.runs);
        few_clients = fits.1 _;
        tokens = put-tokens run hub.next_token hub.runs v.tokens;
      })

not_found {ℓ} : {A : Type ℓ} → (o : Option A) → not (missing o) ≡ false → o ≡ none
not_found none h = refl
not_found (some a) h = absurd (grind arith)

pub bind_run-HasBoundRuns :
    (hub : PendingHub) (client : Bytes) (scope : Scope)
    → HasBoundRuns hub
    → BoundAfter (bind_run hub client scope)
unfolding bind_run
bind_run-HasBoundRuns hub client scope v =
    if_intro BoundAfter (not (bounded_token client)) (λ _. v)
      (λ _.
        if_intro BoundAfter (not (valid_scope scope)) (λ _. v)
          (λ _.
            if_intro BoundAfter hub.closed (λ _. v)
              (λ _.
                if_intro BoundAfter (not (missing (find_key scope.run_id hub.runs))) (λ _. v)
                  (λ absent.
                    if_intro BoundAfter (leb hub.limits.runs (length hub.runs)) (λ _. v)
                      (λ room.
                        bind_in-HasBoundRuns hub client scope.run_id _
                          (partition_for-Fits hub.limits client hub.partitions v.few_clients)
                          (not_found _ absent) (ground arith) v)))))
