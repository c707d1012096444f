-- ===== src/Hub/Sound.antt =====
-- daemon/pending.go: every call on the hub keeps its counters true.
use spice_agent.Base.{
  ℕ, suc, ◌≡◌, refl, inl, inr, not, ◌||◌, if◌then◌else◌, if_intro, length, leb, ◌==◌, List, Option,
  none, some, Bytes, find_key, put_key,
}
use spice_agent.Session.Types.{bounded_token}
use spice_agent.Interaction.{Scope, valid_scope}
use spice_agent.Hub.Types.{PendingLimits, RunBinding}
use spice_agent.Hub.Limits.{AreFunded}
use spice_agent.Hub.Watchers.{Usage}
use spice_agent.Hub.Store.{
  Partition, CallCounts, PendingHub, empty_partition, partition_for, find_binding,
}
use spice_agent.Hub.Operations.{
  missing, bind_in, bind_run, drop_run, remove_if_released, is_token, remove_released, release_run,
}
use spice_agent.Hub.Accounts.{IsAccounted, IsPlaced}
use spice_agent.Hub.Shares.{rest_of, other_calls, share, unshare}
use spice_agent.Hub.ShareWatchers.{with_watchers}

-- The limits are funded, and the counters are the sums over the clients and within the limits.
pub record IsSound (hub : PendingHub) : Type 0 where
  pub funded : AreFunded hub.limits
  pub accounted : IsAccounted hub.limits hub.usage hub.calls hub.partitions

-- The partition that a lookup found.
abbrev pub Places : Bytes → List (Bytes × Partition) → Option Partition → Type 0
Places k ps none = Unit {0}
Places k ps (some p) = IsPlaced k p ps

pub find_key-Places :
    (k : Bytes) (ps : List (Bytes × Partition)) (found : Option Partition)
    → find_key k ps ≡ found
    → Places k ps found
find_key-Places k ps none h = tt
find_key-Places k ps (some p) h = inl h

new_place :
    (l : PendingLimits) (k : Bytes) (ps : List (Bytes × Partition))
    → find_key k ps ≡ none
    → Places k ps (if leb l.clients (length ps) then none else some empty_partition)
new_place l k ps absent =
    if_intro (Places k ps) (leb l.clients (length ps)) (λ _. tt) (λ _. inr (absent, refl))

pub partition_for-Places :
    (l : PendingLimits) (k : Bytes) (ps : List (Bytes × Partition))
    → Places k ps (partition_for l k ps)
unfolding partition_for
partition_for-Places l k ps =
    elim (find_key k ps)
        as (λ o.
          find_key k ps ≡ o
          → Places k ps (elim o [
            | some p ↦ some p
            | none ↦ if leb l.clients (length ps) then none else some empty_partition
          ])) [ some p ↦ λ h. inl h | none ↦ λ h. new_place l k ps h ]
      refl

-- A client's bound runs are in none of the counters.
pub bound-IsAccounted :
    (l : PendingLimits) (u : Usage) (c : CallCounts) (k : Bytes) (p : Partition) (n : ℕ)
    (ps : List (Bytes × Partition))
    → IsPlaced k p ps
    → IsAccounted l u c ps
    → IsAccounted l u c (put_key k (record p { bound_runs = n }) ps)
bound-IsAccounted l u c k p n ps place a =
    let s = share l u c k p ps a place in
    unshare l u u c c k p (record p { bound_runs = n }) ps a place
      (with_watchers l (rest_of u p.usage) (other_calls c p) u u c p (record p { bound_runs = n })
        refl refl s.booked s.own.booked s.own.queued (s.few_observers, s.few_entries, s.few_bytes)
        (s.own.observers, s.own.entries, s.own.bytes) s)

-- A call with a result leaves a sound hub.
abbrev pub SoundAfter {ℓ} : {A : Type ℓ} → PendingHub × A → Type 0
SoundAfter r = IsSound r.0

bind_in-IsSound :
    (hub : PendingHub) (client run : Bytes) (found : Option Partition)
    → Places client hub.partitions found
    → IsSound hub
    → IsSound (bind_in hub client run found).0
unfolding bind_in
bind_in-IsSound hub client run none place s = s
bind_in-IsSound hub client run (some p) place s =
    let kept = bound-IsAccounted hub.limits hub.usage hub.calls client p in
    if_intro SoundAfter (leb hub.limits.runs_per_client p.bound_runs)
      (λ _. record {
        funded = s.funded;
        accounted = kept p.bound_runs hub.partitions place s.accounted;
      })
      (λ _. record {
        funded = s.funded;
        accounted = kept (suc p.bound_runs) hub.partitions place s.accounted;
      })

pub bind_run-IsSound :
    (hub : PendingHub) (client : Bytes) (scope : Scope)
    → IsSound hub
    → IsSound (bind_run hub client scope).0
unfolding bind_run
bind_run-IsSound hub client scope s =
    if_intro SoundAfter (not (bounded_token client)) (λ _. s)
      (λ _.
        if_intro SoundAfter (not (valid_scope scope)) (λ _. s)
          (λ _.
            if_intro SoundAfter hub.closed (λ _. s)
              (λ _.
                if_intro SoundAfter (not (missing (find_key scope.run_id hub.runs))) (λ _. s)
                  (λ _.
                    if_intro SoundAfter (leb hub.limits.runs (length hub.runs)) (λ _. s)
                      (λ _.
                        bind_in-IsSound hub client scope.run_id _
                          (partition_for-Places hub.limits client hub.partitions) s)))))

drop_run-IsSound :
    (found : Option Partition) (b : RunBinding) (hub : PendingHub)
    → find_key b.client_id hub.partitions ≡ found
    → IsSound hub
    → IsSound (drop_run found b hub)
unfolding drop_run
drop_run-IsSound none b hub found s = record { funded = s.funded; accounted = s.accounted }
drop_run-IsSound (some p) b hub found s = record {
  funded = s.funded;
  accounted =
      bound-IsAccounted hub.limits hub.usage hub.calls b.client_id p _ hub.partitions (inl found)
        s.accounted;
}

remove_if_released-IsSound :
    (found : Option RunBinding) (hub : PendingHub)
    → IsSound hub
    → IsSound (remove_if_released found hub)
unfolding remove_if_released
remove_if_released-IsSound none hub s = s
remove_if_released-IsSound (some b) hub s =
    if_intro IsSound
      (b.accepting || not (b.active == 0) || not (is_token b.token (find_key b.run_id hub.runs)))
      (λ _. s) (λ _. drop_run-IsSound _ b hub refl s)

pub remove_released-IsSound :
    (t : ℕ) (hub : PendingHub) → IsSound hub → IsSound (remove_released t hub)
unfolding remove_released
remove_released-IsSound t hub s = remove_if_released-IsSound (find_binding t hub.bindings) hub s

pub release_run-IsSound : (t : ℕ) (hub : PendingHub) → IsSound hub → IsSound (release_run t hub)
unfolding release_run
release_run-IsSound t hub s =
    remove_released-IsSound t _ (record { funded = s.funded; accounted = s.accounted })
