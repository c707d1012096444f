-- ===== src/Log/Delivery.antt =====
-- event/log.go, Subscription: what a consumer has received, against what was offered to it. The feed
-- is the replay that the subscription began with, then each entry offered while it was not terminal.
use spice_agent.Base.{
  ℕ, ◌+◌, ◌-◌, ◌≤◌, ◌<◌, ◌≡◌, refl, ap, sym, subst, inl, inr, Bool, true, false, ◌||◌, Bool-cases,
  ltb, leb, length, length-append, List, [], ◌∷◌, ◌++◌, append_assoc, Option, none, some, arith,
}
use spice_agent.Log.Types.{
  LogEntry, LogError, LogLimits, exhausted, new_resource_exhausted, event_subscription_events,
  event_subscription_bytes,
}
use spice_agent.Log.Subscription.{
  Subscription, Stage, waiting, offering, sent, returned, total_bytes, new_subscription, terminate,
  finish, offer,
}
use spice_agent.Log.Replay.{page_last}
use spice_agent.Log.Evict.{total_bytes-append}

-- Received and queue against the feed. Before an abort they make it up, in order; after one the
-- received entries are a prefix of it, with the entry at the select next.
abbrev pub Delivered : Bool → Stage → List LogEntry → List LogEntry → List LogEntry → Type 0
Delivered false waiting received queue feed = received ++ queue ≡ feed
Delivered false (offering e) received queue feed =
    (tail : List LogEntry) × (queue ≡ e ∷ tail) × (received ++ queue ≡ feed)
Delivered false (sent e) received queue feed =
    (tail : List LogEntry) × (queue ≡ e ∷ tail) × (received ++ tail ≡ feed)
Delivered false returned received queue feed = received ++ queue ≡ feed
Delivered true (offering e) received queue feed =
    (rest : List LogEntry) × (received ++ e ∷ rest ≡ feed)
Delivered true _ received queue feed = (rest : List LogEntry) × (received ++ rest ≡ feed)

abbrev pub FailureAt : ℕ → Option LogError → Type 0
FailureAt last (some (exhausted x)) = x.last_delivered ≡ last
FailureAt last _ = Unit {0}

-- The cursor of the subscription and of its failure, except between a send and its settlement.
abbrev pub CursorIs : ℕ → Stage → List LogEntry → ℕ → Option LogError → Type 0
CursorIs after (sent e) received last failure = page_last after received ≡ e.envelope.sequence
CursorIs after _ received last failure = (last ≡ page_last after received) × FailureAt last failure

abbrev pub EndsTerminal : Stage → Bool → Type 0
EndsTerminal returned terminal = terminal ≡ true
EndsTerminal _ terminal = Unit {0}

pub record IsFed (after : ℕ) (s : Subscription) (feed : List LogEntry) : Type 0 where
  pub summed : s.queued_bytes ≡ total_bytes s.queue
  pub few : length s.queue ≤ s.max_events
  pub light : s.queued_bytes ≤ s.max_bytes
  pub delivered : Delivered s.aborted s.stage s.received s.queue feed
  pub abort_ends : s.aborted ≡ true → s.terminal ≡ true
  pub abort_clears : s.aborted ≡ true → s.queue ≡ []
  pub cursor : CursorIs after s.stage s.received s.last_delivered s.failure
  pub ends : EndsTerminal s.stage s.terminal

pub new_subscription-IsFed :
    (after : ℕ) (limits : LogLimits) (replay : List LogEntry)
    → length replay ≤ limits.subscriber_max_events
    → total_bytes replay ≤ limits.subscriber_max_bytes
    → IsFed after (new_subscription after limits replay) replay
unfolding new_subscription page_last
new_subscription-IsFed after limits replay h l = record {
  summed = refl;
  few = h;
  light = l;
  delivered = refl;
  abort_ends = λ e. cc;
  abort_clears = λ e. cc;
  cursor = (refl, tt);
  ends = tt;
}

not_aborted :
    {after : ℕ} {s : Subscription} {feed : List LogEntry}
    → IsFed after s feed
    → s.terminal ≡ false
    → s.aborted ≡ false
not_aborted {s = s} v t = elim (Bool-cases s.aborted) [
  | inl a ↦ let c = v.abort_ends a in cc
  | inr n ↦ n
]

abort_Delivered :
    (stage : Stage) (received queue feed : List LogEntry)
    → Delivered false stage received queue feed
    → Delivered true stage received [] feed
abort_Delivered waiting received queue feed d = (queue, d)
abort_Delivered (offering e) received queue feed (tail, q, d) = (tail, rw q at d)
abort_Delivered (sent e) received queue feed (tail, q, d) = (tail, d)
abort_Delivered returned received queue feed d = (queue, d)

abort_CursorIs :
    (after : ℕ) (stage : Stage) (received : List LogEntry) (last : ℕ) (failure : Option LogError)
    (e : LogError)
    → FailureAt last (some e)
    → CursorIs after stage received last failure
    → CursorIs after stage received last (some e)
abort_CursorIs after waiting received last failure e f c = (c.0, f)
abort_CursorIs after (offering x) received last failure e f c = (c.0, f)
abort_CursorIs after (sent x) received last failure e f c = c
abort_CursorIs after returned received last failure e f c = (c.0, f)

always_ends : (stage : Stage) → EndsTerminal stage true
always_ends waiting = tt
always_ends (offering e) = tt
always_ends (sent e) = tt
always_ends returned = refl

-- A live subscription that is terminated keeps what it delivered.
pub terminate_live :
    (after : ℕ) (s : Subscription) (feed : List LogEntry) (e : LogError)
    → IsFed after s feed
    → s.terminal ≡ false
    → FailureAt s.last_delivered (some e)
    → IsFed after (terminate e s) feed
unfolding terminate total_bytes
terminate_live after s feed e v t f = rw t (record {
  summed = refl;
  few = omega arith;
  light = omega arith;
  delivered =
      abort_Delivered s.stage s.received s.queue feed
        (subst (λ b. Delivered b s.stage s.received s.queue feed) (not_aborted v t) v.delivered);
  abort_ends = λ _. refl;
  abort_clears = λ _. refl;
  cursor = abort_CursorIs after s.stage s.received s.last_delivered s.failure e f v.cursor;
  ends = always_ends s.stage;
})

grow_aborted :
    (stage : Stage) (received queue feed : List LogEntry) (e : LogEntry)
    → Delivered true stage received queue feed
    → Delivered true stage received queue (feed ++ e ∷ [])
grow_aborted waiting received queue feed e (rest, d) =
    (rest ++ e ∷ [], rw (← d) (sym (append_assoc received rest (e ∷ []))))
grow_aborted (offering x) received queue feed e (rest, d) =
    (rest ++ e ∷ [], rw (← d) (sym (append_assoc received (x ∷ rest) (e ∷ []))))
grow_aborted (sent x) received queue feed e (rest, d) =
    (rest ++ e ∷ [], rw (← d) (sym (append_assoc received rest (e ∷ []))))
grow_aborted returned received queue feed e (rest, d) =
    (rest ++ e ∷ [], rw (← d) (sym (append_assoc received rest (e ∷ []))))

grow_live :
    (stage : Stage) (received queue feed : List LogEntry) (e : LogEntry)
    → EndsTerminal stage false
    → Delivered false stage received queue feed
    → Delivered false stage received (queue ++ e ∷ []) (feed ++ e ∷ [])
grow_live waiting received queue feed e t d = rw (← d) (sym (append_assoc received queue (e ∷ [])))
grow_live (offering x) received queue feed e t (tail, q, d) =
    (tail ++ e ∷ [], ap (λ l. l ++ e ∷ []) q, rw (← d) (sym (append_assoc received queue (e ∷ []))))
grow_live (sent x) received queue feed e t (tail, q, d) =
    (tail ++ e ∷ [], ap (λ l. l ++ e ∷ []) q, rw (← d) (sym (append_assoc received tail (e ∷ []))))
grow_live returned received queue feed e t d = cc

-- A subscription that is terminal only by an abort, as each is while its log is open.
abbrev pub EndsByAbort : Subscription → Type 0
EndsByAbort s = s.terminal ≡ true → s.aborted ≡ true

grow-IsFed :
    (after : ℕ) (s : Subscription) (feed : List LogEntry) (e : LogEntry)
    → s.aborted ≡ true
    → IsFed after s feed
    → IsFed after s (feed ++ e ∷ [])
grow-IsFed after s feed e a v = record {
  summed = v.summed;
  few = v.few;
  light = v.light;
  delivered =
      subst (λ b. Delivered b s.stage s.received s.queue (feed ++ e ∷ [])) (sym a)
        (grow_aborted s.stage s.received s.queue feed e
          (subst (λ b. Delivered b s.stage s.received s.queue feed) a v.delivered));
  abort_ends = v.abort_ends;
  abort_clears = v.abort_clears;
  cursor = v.cursor;
  ends = v.ends;
}

accept-IsFed :
    (after : ℕ) (s : Subscription) (feed : List LogEntry) (e : LogEntry)
    → IsFed after s feed
    → s.terminal ≡ false
    → length s.queue < s.max_events
    → s.queued_bytes + e.bytes ≤ s.max_bytes
    → IsFed after
        (record s { queue = s.queue ++ e ∷ []; queued_bytes = s.queued_bytes + e.bytes })
        (feed ++ e ∷ [])
unfolding total_bytes
accept-IsFed after s feed e v t few light =
    let alive = not_aborted v t in
    record {
      summed = omega (arith, v.summed, total_bytes-append s.queue (e ∷ []));
      few = omega (arith, length-append s.queue (e ∷ []));
      light = light;
      delivered =
          subst (λ b. Delivered b s.stage s.received (s.queue ++ e ∷ []) (feed ++ e ∷ []))
            (sym alive)
            (grow_live s.stage s.received s.queue feed e (subst (EndsTerminal s.stage) t v.ends)
              (subst (λ b. Delivered b s.stage s.received s.queue feed) alive v.delivered));
      abort_ends = v.abort_ends;
      abort_clears = λ a. cc;
      cursor = v.cursor;
      ends = v.ends;
    }

pub terminate-aborts :
    (e : LogError) (s : Subscription) → EndsByAbort s → (terminate e s).aborted ≡ true
unfolding terminate
terminate-aborts e s h = ground (arith, h)

abbrev accepted : LogEntry → Subscription → Subscription
accepted e s = record s { queue = s.queue ++ e ∷ []; queued_bytes = s.queued_bytes + e.bytes }

-- The three things that an offer does.
data Offered (e : LogEntry) (s : Subscription) : Type 0 where
  ignored : s.terminal ≡ true → offer e s ≡ (s, false) → Offered e s
  disconnected :
      (x : LogError)
      → s.terminal ≡ false
      → FailureAt s.last_delivered (some x)
      → offer e s ≡ (terminate x s, true)
      → Offered e s
  queued :
      s.terminal ≡ false
      → length s.queue < s.max_events
      → s.queued_bytes + e.bytes ≤ s.max_bytes
      → offer e s ≡ (accepted e s, false)
      → Offered e s

offer-Offered : (e : LogEntry) (s : Subscription) → Offered e s
unfolding offer
offer-Offered e s = elim (Bool-cases s.terminal) [
  | inl t ↦ ignored t (simp t)
  | inr t ↦ elim (Bool-cases (leb s.max_events (length s.queue))) [
    | inl many ↦
        disconnected
          (new_resource_exhausted s.last_delivered s.max_events s.max_bytes
            event_subscription_events s.max_events (length s.queue + 1))
          t refl (simp (t, many))
    | inr few ↦
        elim (Bool-cases (ltb s.max_bytes e.bytes || ltb (s.max_bytes - e.bytes) s.queued_bytes)) [
          | inl heavy ↦
              disconnected
                (new_resource_exhausted s.last_delivered s.max_events s.max_bytes
                  event_subscription_bytes s.max_bytes (s.queued_bytes + e.bytes))
                t refl (simp (t, few, heavy))
          | inr light ↦ queued t (ground arith) (ground arith) (simp (t, few, light))
        ]
  ]
]

-- An offer to a subscription of an open log: the entry joins the feed. The queue takes it within both
-- bounds, or the subscription is aborted and its received entries stay a prefix of the feed.
pub offer-IsFed :
    (after : ℕ) (s : Subscription) (feed : List LogEntry) (e : LogEntry)
    → IsFed after s feed
    → EndsByAbort s
    → IsFed after (offer e s).0 (feed ++ e ∷ []) × EndsByAbort (offer e s).0
offer-IsFed after s feed e v h = elim (offer-Offered e s) [
  | ignored t eq ↦ rw eq (grow-IsFed after s feed e (h t) v, h)
  | disconnected x t f eq ↦
      let a = terminate-aborts x s h in
      rw eq
        (grow-IsFed after (terminate x s) feed e a (terminate_live after s feed x v t f), λ _. a)
  | queued t few light eq ↦ rw eq (accept-IsFed after s feed e v t few light, λ x. cc)
]

clear_CursorIs :
    (after : ℕ) (stage : Stage) (received : List LogEntry) (last : ℕ) (failure : Option LogError)
    → CursorIs after stage received last failure
    → CursorIs after stage received last none
clear_CursorIs after waiting received last failure c = (c.0, tt)
clear_CursorIs after (offering x) received last failure c = (c.0, tt)
clear_CursorIs after (sent x) received last failure c = c
clear_CursorIs after returned received last failure c = (c.0, tt)

-- Close ends a subscription and leaves it its queue.
pub finish-IsFed :
    (after : ℕ) (s : Subscription) (feed : List LogEntry)
    → IsFed after s feed
    → IsFed after (finish s) feed
finish-IsFed after s feed v = elim (Bool-cases s.terminal) [
  | inl t ↦ let same : finish s ≡ s = unfold finish in simp t in rw same v
  | inr t ↦
      let ended : finish s ≡ record s { terminal = true; failure = none } =
        unfold finish in simp t in
      rw ended (record {
        summed = v.summed;
        few = v.few;
        light = v.light;
        delivered = v.delivered;
        abort_ends = λ _. refl;
        abort_clears = v.abort_clears;
        cursor = clear_CursorIs after s.stage s.received s.last_delivered s.failure v.cursor;
        ends = always_ends s.stage;
      })
]
