-- ===== src/Session/Grants.antt =====
-- daemon/session_gate.go: who is granted the commit of a client.
use spice_agent.Base.{
  if_intro, ℕ, suc, ◌<◌, ◌≡◌, ◌≢◌, refl, ap, ◌∙◌, true, false, ◌&&◌, ◌||◌, not, leb, ◌==◌, List, [],
  ◌∷◌, ◌++◌, Option, none, some, arith, All,
}
use spice_agent.Session.Types.{Lease, SessionState, maximum_gate_waiters}
use spice_agent.Session.Gate.{
  signal, gate_waiters, is_some, is_empty, Attempt, granted, grant_mutation, try_head,
  try_acquire_mutation,
}
use spice_agent.Session.Epochs.{none_of, empty_of}

-- The queue of commits before and after a grant: a call that did not wait finds it empty, a waiter
-- leaves its head.
unfoldable pub Turn : Option ℕ → List ℕ → List ℕ → Type 0
Turn none before after = before ≡ [] × after ≡ []
Turn (some w) before after = before ≡ w ∷ after

pub record IsGrant (waiter : Option ℕ) (lease : Lease) (s t : SessionState) : Type 0 where
  pub was_free : s.active_mutation ≡ none
  pub no_reconnect : s.reconnect_waiters ≡ []
  pub turn : Turn waiter s.mutation_waiters t.mutation_waiters
  pub holds : t.active_mutation ≡ some lease
  pub current : lease.epoch ≡ s.epoch
  pub same_epoch : t.epoch ≡ s.epoch
  pub same_streams : t.streams ≡ s.streams

abbrev Granting : Option ℕ → Lease → SessionState → SessionState × Attempt → Type 0
Granting waiter lease s p = p.1 ≡ granted lease → IsGrant waiter lease s p.0

empty_if : {A : Type 0} (xs : List A) → is_empty xs ≡ true → xs ≡ []
empty_if [] e = refl
empty_if (x ∷ xs) e = absurd (grind arith)

first_granted :
    (w token x : ℕ) (xs : List ℕ) (lease : Lease) (s : SessionState)
    → s.mutation_waiters ≡ x ∷ xs
    → s.active_mutation ≡ none
    → s.reconnect_waiters ≡ []
    → x ≡ w
    → Granting (some w) lease s (grant_mutation (signal (record s { mutation_waiters = xs })) token)
unfolding grant_mutation signal Turn
first_granted w token x xs lease s e free calm mine h = record {
  was_free = free;
  no_reconnect = calm;
  turn = e ∙ ap (λ y. y ∷ xs) mine;
  holds = grind arith;
  current = grind arith;
  same_epoch = refl;
  same_streams = refl;
}

head_granted :
    (w token : ℕ) (queue : List ℕ) (lease : Lease) (s : SessionState)
    → s.mutation_waiters ≡ queue
    → Granting (some w) lease s (try_head s queue w token)
unfolding try_head
head_granted w token [] lease s e =
    if_intro (Granting (some w) lease s)
      (not (is_empty s.reconnect_waiters) || is_some s.active_mutation)
      (λ _ h. absurd (grind arith)) (λ _ h. absurd (grind arith))
head_granted w token (x ∷ xs) lease s e =
    if_intro (Granting (some w) lease s)
      (not (is_empty s.reconnect_waiters) || is_some s.active_mutation || not (x == w))
      (λ _ h. absurd (grind arith))
      (λ go.
        first_granted w token x xs lease s e (none_of s.active_mutation (ground arith))
          (empty_of s.reconnect_waiters (ground arith)) (ground arith))

-- A new waiter behind others, or behind a commit or a reconnect, is not granted at once.
abbrev NotGranted : Lease → SessionState × Attempt → Type 0
NotGranted lease p = p.1 ≢ granted lease

new_waits :
    (s : SessionState) (queue : List ℕ) (fresh : ℕ) (lease : Lease)
    → not (is_some s.active_mutation) && is_empty queue && is_empty s.reconnect_waiters ≡ false
    → All (λ w. w < fresh) queue
    → NotGranted lease (try_head s (queue ++ fresh ∷ []) fresh (suc fresh))
unfolding try_head
new_waits s [] fresh lease taken below =
    if_intro (NotGranted lease)
      (not (is_empty s.reconnect_waiters) || is_some s.active_mutation || not (fresh == fresh))
      (λ _ h. absurd (grind arith)) (λ go h. absurd (ground arith))
new_waits s (x ∷ xs) fresh lease taken (below, others) =
    if_intro (NotGranted lease)
      (not (is_empty s.reconnect_waiters) || is_some s.active_mutation || not (x == fresh))
      (λ _ h. absurd (grind arith)) (λ go h. absurd (ground arith))

at_once :
    (s : SessionState) (token : ℕ) (lease : Lease)
    → s.active_mutation ≡ none
    → s.mutation_waiters ≡ []
    → s.reconnect_waiters ≡ []
    → Granting none lease s (grant_mutation s token)
unfolding grant_mutation Turn
at_once s token lease free alone calm h = record {
  was_free = free;
  no_reconnect = calm;
  turn = (alone, alone);
  holds = grind arith;
  current = grind arith;
  same_epoch = refl;
  same_streams = refl;
}

-- A lease that AcquireMutationCommit's attempt grants is granted while the client has no commit and no
-- reconnect in its queue, to a waiter at the head of the commits' queue, which leaves it, or, without
-- a waiter, over an empty queue; the lease is of the current epoch and is the commit afterwards, and
-- epoch and streams stay. The token of a new waiter is above those in the queue.
pub try_acquire_mutation-granted :
    (s : SessionState) (waiter : Option ℕ) (fresh : ℕ) (lease : Lease)
    → All (λ w. w < fresh) s.mutation_waiters
    → (try_acquire_mutation s waiter fresh).1 ≡ granted lease
    → IsGrant waiter lease s (try_acquire_mutation s waiter fresh).0
unfolding try_acquire_mutation
try_acquire_mutation-granted s (some w) fresh lease below =
    head_granted w (suc fresh) s.mutation_waiters lease s refl
try_acquire_mutation-granted s none fresh lease below =
    if_intro (Granting none lease s)
      (not (is_some s.active_mutation)
        && is_empty s.mutation_waiters
        && is_empty s.reconnect_waiters)
      (λ go.
        at_once s (suc fresh) lease (none_of s.active_mutation (ground arith))
          (empty_if s.mutation_waiters (ground arith))
          (empty_if s.reconnect_waiters (ground arith)))
      (λ taken.
        if_intro (Granting none lease s) (leb maximum_gate_waiters (gate_waiters s))
          (λ _ h. absurd (grind arith))
          (λ _ h. absurd (
            new_waits (record s { mutation_waiters = s.mutation_waiters ++ fresh ∷ [] })
              s.mutation_waiters fresh lease taken below h)))
