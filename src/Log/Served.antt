-- ===== src/Log/Served.antt =====
-- event/log.go: what a consumer may rely on, from its own side.
use spice_agent.Base.{
  ℕ, zero, suc, ◌+◌, ◌*◌, ◌-◌, ◌≡◌, refl, sym, ap, subst, ◌∙◌, Bool, true, false, length, none,
  List, [], ◌∷◌, ◌++◌, arith, All, All-map, ContextError, none, ok, Bytes, max_u64, ◌≤◌, append-nil,
  append_assoc,
}
use spice_agent.Log.Types.{LogEntry, LogLimits, context_done}
use spice_agent.Log.Subscription.{
  Subscription, with_last_delivered, Ready, Stage, waiting, offering, sent, returned, deliver,
  terminate, consumer_ready, context_done_with, deliver_at, look, select_ready,
}
use spice_agent.Log.Store.{Log, new_log_after}
use spice_agent.Log.Pages.{after_cursor}
use spice_agent.Log.Gapless.{
  NumberedFrom, NumberedFrom-append, after_cursor_inside, page_last-NumberedFrom,
}
use spice_agent.Log.Delivery.{Delivered, FailureAt, CursorIs}
use spice_agent.Log.System.{System, Reach, TailOf, IsTracked, IsAsked}
use spice_agent.Log.Deliver.{settle-live, settled}
use spice_agent.Log.Reachable.{Reach-IsTracked, start, start-IsTracked}

-- The consumer has received the first entries behind the cursor that its caller asked for, in order and without a gap. Where
-- delivery has ended, an exhaustion names the last of them, and a subscription that was not aborted
-- and has an empty queue has received all.
pub record IsServed (asked : List (ℕ × ℕ)) (history : List LogEntry) (id : ℕ) (s : Subscription)
    : Type 0 where
  pub after : ℕ
  pub called : IsAsked id after asked
  pub rest : List LogEntry
  pub prefix : s.received ++ rest ≡ after_cursor after history
  pub in_order : NumberedFrom after s.received
  pub cursor :
      s.stage ≡ returned
      → (s.last_delivered ≡ after + length s.received)
        × FailureAt (after + length s.received) s.failure
  pub complete :
      s.stage ≡ returned
      → s.aborted ≡ false
      → s.queue ≡ []
      → s.received ≡ after_cursor after history

prefix_of :
    (b : Bool) (stage : Stage) (received queue feed : List LogEntry)
    → Delivered b stage received queue feed
    → (rest : List LogEntry) × (received ++ rest ≡ feed)
prefix_of false waiting received queue feed d = (queue, d)
prefix_of false (offering e) received queue feed (tail, q, d) = (queue, d)
prefix_of false (sent e) received queue feed (tail, q, d) = (tail, d)
prefix_of false returned received queue feed d = (queue, d)
prefix_of true waiting received queue feed d = d
prefix_of true (offering e) received queue feed (rest, d) = (e ∷ rest, d)
prefix_of true (sent e) received queue feed d = d
prefix_of true returned received queue feed d = d

served :
    (t : System)
    → IsTracked t
    → (p : ℕ × Subscription) → TailOf t p
    → IsServed t.asked t.history p.0 p.1
served t v (id, s) tail =
    let feed = after_cursor tail.after t.history in
    let (rest, p) = prefix_of s.aborted s.stage s.received s.queue feed tail.fed.delivered in
    let (numbered, _) =
      after_cursor_inside tail.after t.log.last_sequence t.history v.numbered tail.below
        tail.reach in
    let in_order = (NumberedFrom-append tail.after s.received rest (rw p numbered)).0 in
    let last = page_last-NumberedFrom tail.after s.received in_order in
    record {
      after = tail.after;
      called = tail.called;
      rest = rest;
      prefix = p;
      in_order = in_order;
      cursor = λ e.
          let (c, f) =
            subst (λ g. CursorIs tail.after g s.received s.last_delivered s.failure) e
              tail.fed.cursor in
          (c ∙ last, subst (λ n. FailureAt n s.failure) (c ∙ last) f);
      complete = λ e live empty.
          let d =
            subst (λ b. Delivered b returned s.received s.queue feed) live
              (subst (λ g. Delivered s.aborted g s.received s.queue feed) e tail.fed.delivered) in
          sym (append-nil s.received) ∙ (rw empty at d);
    }

-- From any new log, after any interleaving of appends, subscriptions, replays, deliveries,
-- cancellations and a close, every consumer in the map of subscribers is served: it has received a
-- prefix of what the log took behind the cursor that a call of Subscribe with its identity asked for, or
-- behind the page that a call of Replay with its identity answered, each sequence one above the one
-- before. When its delivery has ended, its cursor and a typed exhaustion name the last received sequence, so a
-- subscription from there misses nothing and repeats nothing.
pub Reach-IsServed :
    (run : Bytes) (last : ℕ) (limits : LogLimits) (log : Log) (t : System)
    → last ≤ max_u64
    → new_log_after run last limits ≡ ok log
    → Reach (start log) t
    → All (λ p. IsServed t.asked t.history p.0 p.1) t.log.subscribers
Reach-IsServed run last limits log t h made reach =
    let v = Reach-IsTracked (start-IsTracked run last limits log h made) reach in
    All-map (served t v) t.log.subscribers v.tails

-- The delivery goroutine, with a consumer that takes what is sent.
pub drain : ℕ → Subscription → Subscription
drain zero s = s
drain (suc n) s = drain n (deliver consumer_ready s)

-- The three stages that deliver one entry.
deliver_waiting :
    (s : Subscription) (e : LogEntry) (es : List LogEntry)
    → s.stage ≡ waiting
    → s.queue ≡ e ∷ es
    → deliver consumer_ready s ≡ record s { stage = offering e }
unfolding deliver deliver_at look
deliver_waiting s e es w q = ap (λ g. deliver_at g consumer_ready s) w ∙ ap (look s) q

abbrev delivered_one : Subscription → LogEntry → Subscription
delivered_one s e = record s { received = s.received ++ e ∷ []; stage = sent e }

deliver_offering :
    (s : Subscription) (e : LogEntry)
    → deliver consumer_ready (record s { stage = offering e }) ≡ delivered_one s e
unfolding deliver deliver_at select_ready
deliver_offering s e = refl

deliver_sent :
    (s : Subscription) (e : LogEntry) (es : List LogEntry)
    → s.queue ≡ e ∷ es
    → deliver consumer_ready (delivered_one s e)
      ≡ settled e es (s.queued_bytes - e.bytes) (delivered_one s e)
unfolding deliver deliver_at
deliver_sent s e es q = settle-live e es (delivered_one s e) q

deliver_entry :
    (n : ℕ) (s : Subscription) (e : LogEntry) (es : List LogEntry)
    → s.stage ≡ waiting
    → s.queue ≡ e ∷ es
    → drain (suc (suc (suc n))) s
      ≡ drain n (settled e es (s.queued_bytes - e.bytes) (delivered_one s e))
unfolding drain
deliver_entry n s e es w q = ap (drain n) (
    ap (λ x. deliver consumer_ready (deliver consumer_ready x)) (deliver_waiting s e es w q)
    ∙ ap (deliver consumer_ready) (deliver_offering s e)
    ∙ deliver_sent s e es q)

drain_end :
    (s : Subscription)
    → s.stage ≡ waiting
    → s.terminal ≡ true
    → s.queue ≡ []
    → drain 1 s ≡ record s { stage = returned }
unfolding drain deliver deliver_at
drain_end s w t q =
    let ended : look s [] ≡ record s { stage = returned } = unfold look in simp t in
    ap (λ g. deliver_at g consumer_ready s) w ∙ ap (look s) q ∙ ended

-- After a close the queue is delivered whole, in order, and delivery then returns: three stages for
-- each entry and one to see the end.
pub drain-delivers :
    (queue : List LogEntry) (s : Subscription)
    → s.stage ≡ waiting
    → s.terminal ≡ true
    → s.queue ≡ queue
    → ((drain (3 * length queue + 1) s).stage ≡ returned)
      × ((drain (3 * length queue + 1) s).received ≡ s.received ++ queue)
unfolding settled
drain-delivers [] s w t q = rw (drain_end s w t q) (refl, sym (append-nil s.received))
drain-delivers (e ∷ es) s w t q =
    let count : 3 * suc (length es) + 1 ≡ suc (suc (suc (3 * length es + 1))) = omega arith in
    let after = settled e es (s.queued_bytes - e.bytes) (delivered_one s e) in
    let (ended, all) = drain-delivers es after refl t refl in
    rw (count, deliver_entry (3 * length es + 1) s e es w q)
      (ended, all ∙ append_assoc s.received (e ∷ []) es)

-- The goroutine after its return, whatever is ready at each further stage.
pub deliver_all : List Ready → Subscription → Subscription
deliver_all [] s = s
deliver_all (ready ∷ rest) s = deliver_all rest (deliver ready s)

stays_returned :
    (rest : List Ready) (s : Subscription) → s.stage ≡ returned → deliver_all rest s ≡ s
unfolding deliver_all deliver deliver_at
stays_returned [] s r = refl
stays_returned (ready ∷ rest) s r =
    let same : deliver ready s ≡ s = ap (λ g. deliver_at g ready s) r in
    ap (deliver_all rest) same ∙ stays_returned rest s r

cancelled_offer :
    (s : Subscription) (e : LogEntry) (c : ContextError)
    → s.stage ≡ offering e
    → s.terminal ≡ true
    → deliver (context_done_with c) s ≡ record s { stage = returned }
unfolding deliver deliver_at select_ready
cancelled_offer s e c o t =
    let same : terminate (context_done c) s ≡ s = unfold terminate in simp t in
    ap (λ g. deliver_at g (context_done_with c) s) o
    ∙ ap (λ (r : Subscription). record r { stage = returned }) same

-- What a cancelled delivery comes to: of the queue, only `done` was received, and no failure is kept.
abbrev pub CutShort : Subscription → List LogEntry → List LogEntry → Subscription → Type 0
CutShort s done rest after =
    (after.stage ≡ returned)
    × (after.received ≡ s.received ++ done)
    × (after.queue ≡ rest)
    × (after.failure ≡ none)

-- A subscription that Close finished, and whose context ends while the entry `e` is offered, after the
-- entries `done` of its queue were delivered: whatever is ready afterwards, delivery has returned, the
-- consumer has received just `done`, `e` and all behind it stay in the queue, and Wait reports no failure,
-- as after a complete delivery.
pub cancelled_drain :
    (done : List LogEntry) (e : LogEntry) (rest : List LogEntry) (s : Subscription)
    (c : ContextError) (later : List Ready)
    → s.stage ≡ waiting
    → s.terminal ≡ true
    → s.queue ≡ done ++ e ∷ rest
    → s.failure ≡ none
    → CutShort s done (e ∷ rest) (
        deliver_all later
          (deliver (context_done_with c) (deliver consumer_ready (drain (3 * length done) s))))
unfolding drain settled with_last_delivered
cancelled_drain [] e rest s c later w t q f =
    let offered : Subscription = record s { stage = offering e } in
    let cut = cancelled_offer offered e c refl t in
    rw
      (deliver_waiting s e rest w q, cut, stays_returned later (record s { stage = returned }) refl)
      (refl, sym (append-nil s.received), q, f)
cancelled_drain (d ∷ done) e rest s c later w t q f =
    let count : 3 * suc (length done) ≡ suc (suc (suc (3 * length done))) = omega arith in
    let after = settled d (done ++ e ∷ rest) (s.queued_bytes - d.bytes) (delivered_one s d) in
    let none_yet : after.failure ≡ none = rw f in
    let (ended, all, left, failed) =
      cancelled_drain done e rest after c later refl t refl none_yet in
    rw (count, deliver_entry (3 * length done) s d (done ++ e ∷ rest) w q)
      (ended, all ∙ append_assoc s.received (d ∷ []) done, left, failed)
