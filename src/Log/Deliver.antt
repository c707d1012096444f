-- ===== src/Log/Deliver.antt =====
-- event/log.go, deliver: each stage of the delivery goroutine keeps the received entries in step with
-- the feed.
use spice_agent.Base.{
  ℕ, ◌-◌, ◌≤◌, ◌≡◌, refl, ap, sym, subst, ◌∙◌, inl, inr, Bool, true, false, Bool-cases, ==_iff,
  length, List, [], ◌∷◌, ◌++◌, append_assoc, Option, none, some, arith, ContextError,
}
use spice_agent.Log.Types.{LogEntry, LogError, exhausted, context_done}
use spice_agent.Log.Subscription.{
  Subscription, Stage, waiting, offering, sent, returned, total_bytes, terminate, Ready,
  abort_closed, consumer_ready, context_done_with, select_ready, settle, deliver, deliver_at, look,
  drop_sent, with_last_delivered,
}
use spice_agent.Log.Replay.{page_last}
use spice_agent.Log.Delivery.{Delivered, CursorIs, FailureAt, EndsTerminal, IsFed, terminate_live}

to_offering :
    (b : Bool) (e : LogEntry) (es received queue feed : List LogEntry)
    → queue ≡ e ∷ es
    → (b ≡ true → queue ≡ [])
    → Delivered b waiting received queue feed
    → Delivered b (offering e) received queue feed
to_offering false e es received queue feed q clear d = (es, q, d)
to_offering true e es received queue feed q clear d = let c = clear refl in cc

to_returned :
    (b : Bool) (received queue feed : List LogEntry)
    → Delivered b waiting received queue feed
    → Delivered b returned received queue feed
to_returned false received queue feed d = d
to_returned true received queue feed d = d

-- Moving the goroutine to another stage, with what the new stage asks.
restage :
    (after : ℕ) (s : Subscription) (stage : Stage) (feed : List LogEntry)
    → IsFed after s feed
    → Delivered s.aborted stage s.received s.queue feed
    → CursorIs after stage s.received s.last_delivered s.failure
    → EndsTerminal stage s.terminal
    → IsFed after (record s { stage = stage }) feed
restage after s stage feed v d c e = record {
  summed = v.summed;
  few = v.few;
  light = v.light;
  delivered = d;
  abort_ends = v.abort_ends;
  abort_clears = v.abort_clears;
  cursor = c;
  ends = e;
}

look-IsFed :
    (after : ℕ) (s : Subscription) (feed queue : List LogEntry)
    → s.stage ≡ waiting
    → s.queue ≡ queue
    → IsFed after s feed
    → IsFed after (look s queue) feed
unfolding look
look-IsFed after s feed [] w q v = elim (Bool-cases s.terminal) [
  | inr live ↦ let same : look s [] ≡ s = simp live in rw same v
  | inl done ↦
      let same : look s [] ≡ record s { stage = returned } = simp done in
      rw same (
        restage after s returned feed v
          (to_returned s.aborted s.received s.queue feed
            (subst (λ t. Delivered s.aborted t s.received s.queue feed) w v.delivered))
          (subst (λ t. CursorIs after t s.received s.last_delivered s.failure) w v.cursor) done)
]
look-IsFed after s feed (e ∷ es) w q v =
    restage after s (offering e) feed v
      (to_offering s.aborted e es s.received s.queue feed q v.abort_clears
        (subst (λ t. Delivered s.aborted t s.received s.queue feed) w v.delivered))
      (subst (λ t. CursorIs after t s.received s.last_delivered s.failure) w v.cursor) tt

page_last-snoc :
    (after : ℕ) (xs : List LogEntry) (e : LogEntry)
    → page_last after (xs ++ e ∷ []) ≡ e.envelope.sequence
unfolding page_last
page_last-snoc after [] e = refl
page_last-snoc after (x ∷ xs) e = page_last-snoc x.envelope.sequence xs e

to_sent :
    (b : Bool) (e : LogEntry) (received queue feed : List LogEntry)
    → Delivered b (offering e) received queue feed
    → Delivered b (sent e) (received ++ e ∷ []) queue feed
to_sent false e received queue feed (tail, q, d) =
    (tail, q, append_assoc received (e ∷ []) tail ∙ (rw q at d))
to_sent true e received queue feed (rest, d) = (rest, append_assoc received (e ∷ []) rest ∙ d)

give_up :
    (b : Bool) (e : LogEntry) (received queue feed : List LogEntry)
    → Delivered b (offering e) received queue feed
    → Delivered b returned received queue feed
give_up false e received queue feed (tail, q, d) = d
give_up true e received queue feed (rest, d) = (e ∷ rest, d)

return-IsFed :
    (after : ℕ) (s : Subscription) (e : LogEntry) (feed : List LogEntry)
    → s.stage ≡ offering e
    → s.terminal ≡ true
    → IsFed after s feed
    → IsFed after (record s { stage = returned }) feed
return-IsFed after s e feed o t v =
    restage after s returned feed v
      (give_up s.aborted e s.received s.queue feed
        (subst (λ t. Delivered s.aborted t s.received s.queue feed) o v.delivered))
      (subst (λ t. CursorIs after t s.received s.last_delivered s.failure) o v.cursor) t

terminate-stage : (e : LogError) (s : Subscription) → (terminate e s).stage ≡ s.stage
unfolding terminate
terminate-stage e s = ground arith

terminate-terminal : (e : LogError) (s : Subscription) → (terminate e s).terminal ≡ true
unfolding terminate
terminate-terminal e s = ground arith

-- The end of a context, met at the select or by the function that runs after the context.
pub cancel-IsFed :
    (after : ℕ) (s : Subscription) (c : ContextError) (feed : List LogEntry)
    → IsFed after s feed
    → IsFed after (terminate (context_done c) s) feed
cancel-IsFed after s c feed v = elim (Bool-cases s.terminal) [
  | inr live ↦ terminate_live after s feed (context_done c) v live tt
  | inl done ↦
      let same : terminate (context_done c) s ≡ s = unfold terminate in simp done in rw same v
]

send-IsFed :
    (after : ℕ) (s : Subscription) (e : LogEntry) (feed : List LogEntry)
    → s.stage ≡ offering e
    → IsFed after s feed
    → IsFed after (record s { received = s.received ++ e ∷ []; stage = sent e }) feed
send-IsFed after s e feed o v = record {
  summed = v.summed;
  few = v.few;
  light = v.light;
  delivered =
      to_sent s.aborted e s.received s.queue feed
        (subst (λ t. Delivered s.aborted t s.received s.queue feed) o v.delivered);
  abort_ends = v.abort_ends;
  abort_clears = v.abort_clears;
  cursor = page_last-snoc after s.received e;
  ends = tt;
}

select-IsFed :
    (after : ℕ) (s : Subscription) (ready : Ready) (e : LogEntry) (feed : List LogEntry)
    → s.stage ≡ offering e
    → IsFed after s feed
    → IsFed after (select_ready ready e s) feed
select-IsFed after s consumer_ready e feed o v =
    unfold select_ready in send-IsFed after s e feed o v
select-IsFed after s (context_done_with c) e feed o v =
    unfold select_ready in
    return-IsFed after (terminate (context_done c) s) e feed
      (terminate-stage (context_done c) s ∙ o) (terminate-terminal (context_done c) s)
      (cancel-IsFed after s c feed v)
select-IsFed after s abort_closed e feed o v = elim (Bool-cases s.aborted) [
  | inl gone ↦
      let ended : select_ready abort_closed e s ≡ record s { stage = returned } =
        unfold select_ready in simp gone in
      rw ended (return-IsFed after s e feed o (v.abort_ends gone) v)
  | inr open' ↦
      let same : select_ready abort_closed e s ≡ s = unfold select_ready in simp open' in rw same v
]

settle_cursor :
    (last : ℕ) (failure : Option LogError) → FailureAt last (with_last_delivered last failure)
unfolding with_last_delivered
settle_cursor last none = tt
settle_cursor last (some (exhausted x)) = refl
settle_cursor last (some _) = tt

unfoldable pub settled : LogEntry → List LogEntry → ℕ → Subscription → Subscription
settled e queue bytes s = record s {
  queue = queue;
  queued_bytes = bytes;
  last_delivered = e.envelope.sequence;
  failure = with_last_delivered e.envelope.sequence s.failure;
  stage = waiting;
}

-- The end of settle, after the queue.
abbrev finish_settle : LogEntry → Subscription → Subscription
finish_settle e t = record t {
  last_delivered = e.envelope.sequence;
  failure = with_last_delivered e.envelope.sequence t.failure;
  stage = waiting;
}

drop_sent-head :
    (e : LogEntry) (tail : List LogEntry) (s : Subscription)
    → drop_sent e s (e ∷ tail) ≡ record s { queue = tail; queued_bytes = s.queued_bytes - e.bytes }
unfolding drop_sent
drop_sent-head e tail s = simp ((==_iff e.envelope.sequence e.envelope.sequence).1 refl)

pub settle-live :
    (e : LogEntry) (tail : List LogEntry) (s : Subscription)
    → s.queue ≡ e ∷ tail
    → settle e s ≡ settled e tail (s.queued_bytes - e.bytes) s
unfolding settle settled
settle-live e tail s q = ap (finish_settle e) (ap (drop_sent e s) q ∙ drop_sent-head e tail s)

settle-aborted :
    (e : LogEntry) (s : Subscription)
    → s.queue ≡ []
    → settle e s ≡ settled e s.queue s.queued_bytes s
unfolding settle settled
settle-aborted e s q =
    let kept : drop_sent e s [] ≡ s = unfold drop_sent in refl in
    ap (finish_settle e) (ap (drop_sent e s) q ∙ kept)

settled-IsFed :
    (after : ℕ) (s : Subscription) (e : LogEntry) (queue : List LogEntry) (bytes : ℕ)
    (feed : List LogEntry)
    → s.stage ≡ sent e
    → IsFed after s feed
    → bytes ≡ total_bytes queue
    → length queue ≤ s.max_events
    → bytes ≤ s.max_bytes
    → Delivered s.aborted waiting s.received queue feed
    → (s.aborted ≡ true → queue ≡ [])
    → IsFed after (settled e queue bytes s) feed
unfolding settled
settled-IsFed after s e queue bytes feed o v sum few light d clears = record {
  summed = sum;
  few = few;
  light = light;
  delivered = d;
  abort_ends = v.abort_ends;
  abort_clears = clears;
  cursor = (
    sym (subst (λ t. CursorIs after t s.received s.last_delivered s.failure) o v.cursor),
    settle_cursor e.envelope.sequence s.failure,
  );
  ends = tt;
}

settle-IsFed :
    (after : ℕ) (s : Subscription) (e : LogEntry) (feed : List LogEntry)
    → s.stage ≡ sent e
    → IsFed after s feed
    → IsFed after (settle e s) feed
unfolding total_bytes
settle-IsFed after s e feed o v = elim (Bool-cases s.aborted) [
  | inl gone ↦
      let (rest, d) =
        subst (λ b. Delivered b (sent e) s.received s.queue feed) gone
          (subst (λ t. Delivered s.aborted t s.received s.queue feed) o v.delivered) in
      rw (settle-aborted e s (v.abort_clears gone)) (
        settled-IsFed after s e s.queue s.queued_bytes feed o v v.summed v.few v.light
          (subst (λ b. Delivered b waiting s.received s.queue feed) (sym gone) (rest, d))
          v.abort_clears)
  | inr live ↦
      let (tail, q, d) =
        subst (λ b. Delivered b (sent e) s.received s.queue feed) live
          (subst (λ t. Delivered s.aborted t s.received s.queue feed) o v.delivered) in
      rw (settle-live e tail s q) (
        settled-IsFed after s e tail (s.queued_bytes - e.bytes) feed o v
          (omega (arith, v.summed, ap total_bytes q)) (omega (arith, v.few, ap length q))
          (omega (arith, v.light))
          (subst (λ b. Delivered b waiting s.received tail feed) (sym live) d) (λ a. cc))
]

-- Each stage of the delivery goroutine keeps the consumer in step with the feed: what it received and
-- what is queued make up the feed in order, with no entry lost, repeated or overtaken; after an abort
-- what it received is a prefix. The cursor and the failure name the last received sequence.
pub deliver-IsFed :
    (after : ℕ) (ready : Ready) (s : Subscription) (feed : List LogEntry)
    → IsFed after s feed
    → IsFed after (deliver ready s) feed
deliver-IsFed after ready s feed v = unfold deliver in at_stage s.stage refl
  where
    at_stage : (stage : Stage) → s.stage ≡ stage → IsFed after (deliver_at stage ready s) feed
    at_stage waiting e = unfold deliver_at in look-IsFed after s feed s.queue e refl v
    at_stage (offering x) e = unfold deliver_at in select-IsFed after s ready x feed e v
    at_stage (sent x) e = unfold deliver_at in settle-IsFed after s x feed e v
    at_stage returned e = unfold deliver_at in v
