-- ===== src/Session/Fencing.antt =====
-- daemon/session_reconnect.go: when a reconnect advances the epoch.
use spice_agent.Base.{
  if_intro, ℕ, suc, ◌<◌, ◌≡◌, refl, sym, subst, Bool, true, false, ◌&&◌, ◌||◌, not, ◌==◌, List, [],
  ◌∷◌, none, arith, max_u64, add64_exact, Bytes,
}
use spice_agent.Session.Types.{ReconnectWaiter, SessionState}
use spice_agent.Session.Gate.{signal, is_some, is_empty}
use spice_agent.Session.Reconnect.{
  ReconnectStep, advances, advance_reconnect, fence_streams, step_head, reconnect_step,
}
use spice_agent.Session.Epochs.{none_of, empty_of}

-- The token of the first reconnect is `w`.
unfoldable pub Heads : ℕ → List ReconnectWaiter → Type 0
Heads w [] = ⊥
Heads w (x ∷ xs) = x.token ≡ w

-- What an advance from `old` to `next` shows of the state before and the state after.
pub record IsAdvance (w old next : ℕ) (s t : SessionState) : Type 0 where
  pub owner : s.epoch ≡ old
  pub next_one : next ≡ suc old
  pub arrived : t.epoch ≡ next
  pub first : Heads w s.reconnect_waiters
  pub no_commit : s.active_mutation ≡ none
  pub no_stream : s.streams ≡ []
  pub still_no_commit : t.active_mutation ≡ none
  pub still_no_stream : t.streams ≡ []
  pub woken : t.changed ≡ suc s.changed

-- The claim on the result of a step.
abbrev Advancing : ℕ → ℕ → ℕ → SessionState → SessionState × ReconnectStep → Type 0
Advancing w old next s p = p.1 ≡ advances old next → IsAdvance w old next s p.0

advance_lem :
    (w old next : ℕ) (s : SessionState) (root_done : Bool) (waiter : ReconnectWaiter)
    (rest : List ReconnectWaiter) (t : SessionState)
    → s.epoch < max_u64
    → Heads w s.reconnect_waiters
    → s.active_mutation ≡ none
    → s.streams ≡ []
    → t.epoch ≡ s.epoch
    → t.changed ≡ s.changed
    → t.active_mutation ≡ none
    → t.streams ≡ []
    → Advancing w old next s (advance_reconnect root_done waiter rest t)
unfolding advance_reconnect signal
advance_lem w old next s root_done waiter rest t fits first idle ended e c i n =
    if_intro (Advancing w old next s) root_done (λ _ h. absurd (grind arith))
      (λ _ h.
        let exact = add64_exact s.epoch 1 (omega arith) in
        record {
          owner = grind arith;
          next_one = grind arith;
          arrived = grind arith;
          first = first;
          no_commit = idle;
          no_stream = ended;
          still_no_commit = i;
          still_no_stream = n;
          woken = grind arith;
        })

fence_lem :
    (w old next : ℕ) (root_done : Bool) (waiter : ReconnectWaiter) (rest : List ReconnectWaiter)
    (s : SessionState)
    → s.epoch < max_u64
    → Heads w s.reconnect_waiters
    → s.active_mutation ≡ none
    → Advancing w old next s (fence_streams root_done waiter rest s)
unfolding fence_streams
fence_lem w old next root_done waiter rest s fits first idle =
    if_intro (Advancing w old next s) (not waiter.fencing && not (is_empty s.streams))
      (λ _ h. absurd (grind arith))
      (λ _.
        if_intro (Advancing w old next s) (not (is_empty s.streams)) (λ _ h. absurd (grind arith))
          (λ ended.
            let gone = empty_of s.streams ended in
            advance_lem w old next s root_done (record waiter { fencing = true }) rest
              (record s { reconnect_waiters = record waiter { fencing = true } ∷ rest }) fits first
              idle gone refl refl idle gone))

head_lem :
    (w old next : ℕ) (root_done : Bool) (queue : List ReconnectWaiter) (s : SessionState)
    → s.reconnect_waiters ≡ queue
    → s.epoch < max_u64
    → Advancing w old next s (step_head root_done w queue s)
unfolding step_head Heads
head_lem w old next root_done [] s e fits = λ h. absurd (grind arith)
head_lem w old next root_done (x ∷ xs) s e fits =
    if_intro (Advancing w old next s) (not (x.token == w) || is_some s.active_mutation)
      (λ _ h. absurd (grind arith))
      (λ go.
        let same : x.token ≡ w = ground arith in
        fence_lem w old next root_done x xs s fits (subst (Heads w) (sym e) same)
          (none_of s.active_mutation (ground arith)))

-- A step of a reconnect that advances the epoch from `old` to `next` does so for the expected epoch,
-- with the store open, for the first reconnect in the queue, by one, while
-- the client has neither a commit nor a stream before or after, and it wakes the waiters.
pub reconnect_step-advances :
    (closed root_done : Bool) (client : Bytes) (expected w old next : ℕ) (s : SessionState)
    → expected < max_u64
    → (reconnect_step closed root_done client expected w s).1 ≡ advances old next
    → closed ≡ false
      × s.epoch ≡ expected
      × IsAdvance w old next s (reconnect_step closed root_done client expected w s).0
unfolding reconnect_step
reconnect_step-advances closed root_done client expected w old next s fits =
    let Claim : SessionState × ReconnectStep → Type 0 = λ p.
      p.1 ≡ advances old next → closed ≡ false × s.epoch ≡ expected × IsAdvance w old next s p.0 in
    if_intro Claim closed (λ _ h. absurd (grind arith))
      (λ unclosed.
        if_intro Claim (not (s.epoch == expected)) (λ _ h. absurd (grind arith))
          (λ mine h.
            let same : s.epoch ≡ expected = ground arith in
            (
              unclosed,
              same,
              head_lem w old next root_done s.reconnect_waiters s refl (omega arith) h,
            )))
