-- ===== src/Hub/Partitions.antt =====
-- daemon/pending.go: what every change of one partition keeps, every partition of a reachable hub has.
use spice_agent.Base.{
  ℕ, ◌+◌, ◌-◌, ◌≤◌, ◌≡◌, refl, sym, subst, inl, inr, true, false, not, ◌||◌, if◌then◌else◌,
  if_intro, length, ltb, leb, ◌==◌, List, [], ◌∷◌, Option, none, some, arith, All, Bytes, bytes_eq,
  find_key, put_key, max_u64,
}
use spice_agent.Session.Types.{bounded_token}
use spice_agent.Interaction.{Scope, valid_scope}
use spice_agent.Hub.Types.{
  PendingLimits, HubError, Pending, PendingKey, PendingCall, RunBinding, pending_value_bytes,
  key_of,
}
use spice_agent.Hub.Watchers.{Usage, Watcher, WatcherReady}
use spice_agent.Hub.Store.{
  Partition, CallCounts, PendingHub, empty_partition, find_call, find_binding, has_pending_capacity,
  open_call, close_call,
}
use spice_agent.Hub.Operations.{
  missing, bind_in, bind_run, drop_run, remove_if_released, is_token, remove_released, release_run,
  open_in,
}
use spice_agent.Hub.Observing.{Found, finish_found, deliver_found, finish_watchers}
use spice_agent.Hub.Shares.{find_key-IsOwn}
use spice_agent.Hub.ShareWatchers.{with_new, IsSplit}
use spice_agent.Hub.Sound.{IsSound, Places, partition_for-Places}

-- The changes of a partition, each with what the hub has tested before it.
pub record IsKept (Own : Partition → Type 0) : Type 0 where
  pub begins : Own empty_partition
  pub bound : (p : Partition) (n : ℕ) → Own p → Own (record p { bound_runs = n })
  pub opened_call :
      (l : PendingLimits) (call : PendingCall) (c : CallCounts) (u : Usage) (p : Partition)
      → find_call (key_of call.value) p.pending ≡ none
      → p.revision + (length p.pending + 2) ≤ max_u64
      → Own p
      → Own (open_call l call c u p).2
  pub closed_call :
      (l : PendingLimits) (key : PendingKey) (call : PendingCall) (c : CallCounts) (u : Usage)
      (p : Partition)
      → find_call key p.pending ≡ some call
      → Own p
      → Own (close_call l key call c u p).2
  pub subscribed : (l : PendingLimits) (p : Partition) → Own p → Own (with_new l p)
  pub finished :
      (l : PendingLimits) (e : HubError) (f : Option Found) (u : Usage) (p : Partition)
      → IsSplit p.watchers f
      → Own p
      → Own (finish_found l e f (u, p)).1
  pub finished_all :
      (l : PendingLimits) (e : HubError) (u : Usage) (p : Partition)
      → Own p
      → Own (finish_watchers l e p.watchers (u, p)).1
  pub delivered :
      (ready : WatcherReady) (f : Option Found) (u : Usage) (p : Partition)
      → IsSplit p.watchers f
      → Own p
      → Own (deliver_found ready f (u, p)).1
  pub stopped : (p : Partition) (ws : List Watcher) → Own p → Own (record p { stopping = ws })

is_missing {ℓ} : {A : Type ℓ} → (o : Option A) → missing o ≡ true → o ≡ none
is_missing none h = refl
is_missing (some a) h = absurd (grind arith)

module _ (Own : Partition → Type 0) (kept : IsKept Own) where
  -- Every partition has the property.
  abbrev pub Holds : PendingHub → Type 0
  Holds hub = All (λ (kp : Bytes × Partition). Own kp.1) hub.partitions

  abbrev pub HoldsAfter {ℓ} : {A : Type ℓ} → PendingHub × A → Type 0
  HoldsAfter r = Holds r.0

  find_key-Own :
      (k : Bytes) (ps : List (Bytes × Partition)) (found : Option Partition)
      → All (λ (kp : Bytes × Partition). Own kp.1) ps
      → find_key k ps ≡ found
      → (p : Partition) → found ≡ some p
      → Own p
  unfolding find_key
  find_key-Own k [] found all h p e = absurd (grind arith)
  find_key-Own k ((j, q) ∷ rest) found (own, all) h p e =
      elim (bytes_eq j k) as (λ b. (if b then some q else find_key k rest) ≡ found → Own p) [
        | true ↦ λ h'. let same : q ≡ p = grind arith in subst Own same own
        | false ↦ λ h'. find_key-Own k rest found all h' p e
      ]
        h

  pub found_own :
      (k : Bytes) (p : Partition) (hub : PendingHub)
      → Holds hub
      → find_key k hub.partitions ≡ some p
      → Own p
  found_own k p hub all h = find_key-Own k hub.partitions (some p) all h p refl

  pub placed-Own :
      (k : Bytes) (p : Partition) (hub : PendingHub)
      → Holds hub
      → Places k hub.partitions (some p)
      → Own p
  placed-Own k p hub all (inl h) = found_own k p hub all h
  placed-Own k p hub all (inr (absent, new)) = subst Own (sym new) kept.begins

  pub put_key-Own :
      (k : Bytes) (p : Partition) (ps : List (Bytes × Partition))
      → All (λ (kp : Bytes × Partition). Own kp.1) ps
      → Own p
      → All (λ (kp : Bytes × Partition). Own kp.1) (put_key k p ps)
  unfolding put_key
  put_key-Own k p [] all own = (own, tt)
  put_key-Own k p ((j, q) ∷ rest) (first, all) own =
      if_intro (All (λ (kp : Bytes × Partition). Own kp.1)) (bytes_eq j k) (λ _. (own, all))
        (λ _. (first, put_key-Own k p rest all own))

  bind_in-Holds :
      (hub : PendingHub) (client run : Bytes) (found : Option Partition)
      → Places client hub.partitions found
      → Holds hub
      → Holds (bind_in hub client run found).0
  unfolding bind_in
  bind_in-Holds hub client run none place s = s
  bind_in-Holds hub client run (some p) place s =
      let own = placed-Own client p hub s place in
      if_intro HoldsAfter (leb hub.limits.runs_per_client p.bound_runs)
        (λ _. put_key-Own client p hub.partitions s own)
        (λ _. put_key-Own client _ hub.partitions s (kept.bound p _ own))

  pub bind_run-Holds :
      (hub : PendingHub) (client : Bytes) (scope : Scope)
      → Holds hub
      → Holds (bind_run hub client scope).0
  unfolding bind_run
  bind_run-Holds hub client scope s =
      if_intro HoldsAfter (not (bounded_token client)) (λ _. s)
        (λ _.
          if_intro HoldsAfter (not (valid_scope scope)) (λ _. s)
            (λ _.
              if_intro HoldsAfter hub.closed (λ _. s)
                (λ _.
                  if_intro HoldsAfter (not (missing (find_key scope.run_id hub.runs))) (λ _. s)
                    (λ _.
                      if_intro HoldsAfter (leb hub.limits.runs (length hub.runs)) (λ _. s)
                        (λ _.
                          bind_in-Holds hub client scope.run_id _
                            (partition_for-Places hub.limits client hub.partitions) s)))))

  drop_run-Holds :
      (found : Option Partition) (b : RunBinding) (hub : PendingHub)
      → find_key b.client_id hub.partitions ≡ found
      → Holds hub
      → Holds (drop_run found b hub)
  unfolding drop_run
  drop_run-Holds none b hub found s = s
  drop_run-Holds (some p) b hub found s =
      put_key-Own b.client_id _ hub.partitions s
        (kept.bound p _ (found_own b.client_id p hub s found))

  remove_if_released-Holds :
      (found : Option RunBinding) (hub : PendingHub)
      → Holds hub
      → Holds (remove_if_released found hub)
  unfolding remove_if_released
  remove_if_released-Holds none hub s = s
  remove_if_released-Holds (some b) hub s =
      if_intro Holds
        (b.accepting || not (b.active == 0) || not (is_token b.token (find_key b.run_id hub.runs)))
        (λ _. s) (λ _. drop_run-Holds _ b hub refl s)

  pub remove_released-Holds : (t : ℕ) (hub : PendingHub) → Holds hub → Holds (remove_released t hub)
  unfolding remove_released
  remove_released-Holds t hub s = remove_if_released-Holds (find_binding t hub.bindings) hub s

  pub release_run-Holds : (t : ℕ) (hub : PendingHub) → Holds hub → Holds (release_run t hub)
  unfolding release_run
  release_run-Holds t hub s = remove_released-Holds t _ s

  pub open_in-Holds :
      (hub : PendingHub) (value : Pending) (b : RunBinding) (found : Option Partition)
      → find_key b.client_id hub.partitions ≡ found
      → IsSound hub
      → Holds hub
      → Holds (open_in hub value b found).0
  unfolding open_in
  open_in-Holds hub value b none found sound s = s
  open_in-Holds hub value b (some p) found sound s =
      let own = find_key-IsOwn hub.limits b.client_id p hub.partitions sound.accounted.owns found in
      let call : PendingCall = record {
        token = hub.next_token;
        value = value;
        binding = b.token;
      } in
      if_intro HoldsAfter (not (missing (find_call (key_of value) p.pending))) (λ _. s)
        (λ absent.
          if_intro HoldsAfter
            (not (has_pending_capacity hub.limits hub.calls p (pending_value_bytes value))) (λ _. s)
            (λ _.
              if_intro HoldsAfter (ltb (max_u64 - (length p.pending + 2)) p.revision) (λ _. s)
                (λ room. put_key-Own b.client_id _ hub.partitions s (
                  kept.opened_call hub.limits call hub.calls hub.usage p
                    (is_missing _ (ground arith)) (ground (arith, own.few, sound.funded.few_calls))
                    (found_own b.client_id p hub s found)))))
