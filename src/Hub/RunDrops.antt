-- ===== src/Hub/RunDrops.antt =====
-- daemon/pending.go, Release and removeReleasedBindingLocked: a run that goes is counted no more.
use spice_agent.Base.{
  ℕ, ◌+◌, ◌-◌, ◌≤◌, ◌<◌, ◌≡◌, refl, ap, subst, ◌∙◌, inl, inr, true, false, not, ◌||◌, Bool-cases,
  if◌then◌else◌, if_intro, length, ◌==◌, List, [], ◌∷◌, Option, none, some, arith, All, Bytes,
  bytes_eq, bytes_eq_iff, find_key, delete_key, find-put_key_if, sum_over-delete_key,
}
use spice_agent.Hub.Types.{RunBinding}
use spice_agent.Hub.Store.{Partition, PendingHub, find_binding, update_binding}
use spice_agent.Hub.Operations.{
  drop_run, remove_if_released, is_token, remove_released, release_run,
}
use spice_agent.Hub.Runs.{
  owned_by, run_count, bound_of, HasBoundRuns, owned_by-update, run_count-same,
}
use spice_agent.Hub.RunCalls.{found-Fits, other-HasBoundRuns}

-- A binding is found by its token.
find_binding-token :
    (t : ℕ) (bs : List RunBinding) (b : RunBinding) → find_binding t bs ≡ some b → b.token ≡ t
unfolding find_binding
find_binding-token t [] b h = absurd (grind arith)
find_binding-token t (c ∷ cs) b h = elim (Bool-cases (c.token == t)) [
  | inl mine ↦
      let same : c ≡ b = grind arith in subst (λ (x : RunBinding). x.token ≡ t) same (ground arith)
  | inr other ↦ find_binding-token t cs b (rw other at h)
]

held_token : (t : ℕ) (found : Option ℕ) → is_token t found ≡ true → found ≡ some t
held_token t none h = absurd (grind arith)
held_token t (some u) h = ap some (ground arith)

delete-few : (k : Bytes) (runs : List (Bytes × ℕ)) → length (delete_key k runs) ≤ length runs
unfolding delete_key
delete-few k [] = omega arith
delete-few k ((j, t) ∷ rest) = ground (arith, delete-few k rest)

delete-tokens :
    (k : Bytes) (n : ℕ) (runs : List (Bytes × ℕ))
    → All (λ (r : Bytes × ℕ). r.1 < n) runs
    → All (λ (r : Bytes × ℕ). r.1 < n) (delete_key k runs)
unfolding delete_key
delete-tokens k n [] all = tt
delete-tokens k n ((j, t) ∷ rest) (first, all) =
    if_intro (All (λ (r : Bytes × ℕ). r.1 < n)) (bytes_eq j k) (λ _. all)
      (λ _. (first, delete-tokens k n rest all))

abbrev release_binding : RunBinding → RunBinding
release_binding x = record x { released = true }

-- The count with one run less.
counted_less :
    (c : Bytes) (b : RunBinding) (bs : List RunBinding) (runs : List (Bytes × ℕ))
    → find_binding b.token bs ≡ some b
    → find_key b.run_id runs ≡ some b.token
    → run_count c (update_binding b.token release_binding bs) (delete_key b.run_id runs)
        + (if bytes_eq b.client_id c then 1 else 0)
      ≡ run_count c bs runs
unfolding run_count owned_by
counted_less c b bs runs known held =
    let f : ℕ → ℕ = λ t. owned_by c (find_binding t bs) in
    let own : f b.token ≡ (if bytes_eq b.client_id c then 1 else 0) = ap (owned_by c) known in
    let same =
      run_count-same c bs (update_binding b.token release_binding bs) (delete_key b.run_id runs)
        (λ t. owned_by-update c t b.token release_binding bs (λ x. (refl, refl))) in
    let less = sum_over-delete_key f b.run_id b.token runs held in omega (arith, own, same, less)

drop_run-HasBoundRuns :
    (found : Option Partition) (b : RunBinding) (hub : PendingHub)
    → find_key b.client_id hub.partitions ≡ found
    → find_binding b.token hub.bindings ≡ some b
    → find_key b.run_id hub.runs ≡ some b.token
    → HasBoundRuns hub
    → HasBoundRuns (drop_run found b hub)
unfolding drop_run
drop_run-HasBoundRuns none b hub found known held v = record {
  counted = λ c.
      let less = counted_less c b hub.bindings hub.runs known held in
      let before = v.counted c in
      elim (Bool-cases (bytes_eq b.client_id c)) [
        | inl here ↦
            let e : b.client_id ≡ c = (bytes_eq_iff b.client_id c).0 here in
            let empty : bound_of (find_key c hub.partitions) ≡ 0 =
              subst (λ x. bound_of (find_key x hub.partitions) ≡ 0) e (rw found refl) in
            absurd (let more = rw here at less in omega (arith, more, before, empty))
        | inr other ↦ let same = rw other at less in omega (arith, same, before)
      ];
  few_own = v.few_own;
  few_runs = omega (arith, v.few_runs, delete-few b.run_id hub.runs);
  few_clients = v.few_clients;
  tokens = delete-tokens b.run_id hub.next_token hub.runs v.tokens;
}
drop_run-HasBoundRuns (some p) b hub found known held v =
    let fits = found-Fits hub.limits b.client_id hub.partitions (some p) v.few_clients found in
    let q : Partition = record p { bound_runs = p.bound_runs - 1 } in
    record {
      counted = λ c.
          let less = counted_less c b hub.bindings hub.runs known held in
          let put = find-put_key_if c b.client_id q hub.partitions in
          let before = v.counted c in
          elim (Bool-cases (bytes_eq b.client_id c)) [
            | inl here ↦
                let e : b.client_id ≡ c = (bytes_eq_iff b.client_id c).0 here in
                let own : p.bound_runs ≡ bound_of (find_key c hub.partitions) =
                  subst (λ x. p.bound_runs ≡ bound_of (find_key x hub.partitions)) e fits.0 in
                let more = rw here at less in rw (put, here) (omega (arith, own, before, more))
            | inr other ↦
                let same = rw other at less in rw (put, other) (omega (arith, same, before))
          ];
      few_own = λ c.
          let put = find-put_key_if c b.client_id q hub.partitions in
          elim (Bool-cases (bytes_eq b.client_id c)) [
            | inl here ↦
                let few = v.few_own b.client_id in rw (put, here) (omega (arith, few, fits.0))
            | inr other ↦ rw (put, other) (v.few_own c)
          ];
      few_runs = omega (arith, v.few_runs, delete-few b.run_id hub.runs);
      few_clients = fits.1 q;
      tokens = delete-tokens b.run_id hub.next_token hub.runs v.tokens;
    }

remove_if_released-HasBoundRuns :
    (t : ℕ) (found : Option RunBinding) (hub : PendingHub)
    → find_binding t hub.bindings ≡ found
    → HasBoundRuns hub
    → HasBoundRuns (remove_if_released found hub)
unfolding remove_if_released
remove_if_released-HasBoundRuns t none hub known v = v
remove_if_released-HasBoundRuns t (some b) hub known v =
    let same = find_binding-token t hub.bindings b known in
    if_intro HasBoundRuns
      (b.accepting || not (b.active == 0) || not (is_token b.token (find_key b.run_id hub.runs)))
      (λ _. v)
      (λ held.
        drop_run-HasBoundRuns _ b hub refl (ap (λ u. find_binding u hub.bindings) same ∙ known)
          (held_token b.token _ (ground arith)) v)

pub remove_released-HasBoundRuns :
    (t : ℕ) (hub : PendingHub) → HasBoundRuns hub → HasBoundRuns (remove_released t hub)
unfolding remove_released
remove_released-HasBoundRuns t hub v =
    remove_if_released-HasBoundRuns t (find_binding t hub.bindings) hub refl v

pub release_run-HasBoundRuns :
    (t : ℕ) (hub : PendingHub) → HasBoundRuns hub → HasBoundRuns (release_run t hub)
unfolding release_run
release_run-HasBoundRuns t hub v = remove_released-HasBoundRuns t _ (
    other-HasBoundRuns hub _ (refl, refl, omega arith, refl)
      (λ c u.
        owned_by-update c u t (λ x. record x { accepting = false }) hub.bindings
          (λ x. (refl, refl)))
      v)
