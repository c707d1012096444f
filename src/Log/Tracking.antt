-- ===== src/Log/Tracking.antt =====
-- event/log.go: the steps of a log keep every subscription fed with exactly the entries behind its
-- cursor.
use spice_agent.Base.{
  ℕ, suc, ◌-◌, ◌≤◌, ◌≡◌, refl, ap, ◌∙◌, inl, inr, Bool, true, false, Bool-cases, leb, ◌==◌, length,
  length-append, List, [], ◌∷◌, ◌++◌, arith, All,
}
use spice_agent.Log.Types.{LogEntry, LogError, context_done}
use spice_agent.Log.Subscription.{
  Subscription, Ready, Stage, waiting, offering, sent, returned, abort_closed, consumer_ready,
  context_done_with, settle, deliver, deliver_at, look, drop_sent, terminate, offer,
}
use spice_agent.Log.Store.{offer_all, finish_all}
use spice_agent.Log.Replay.{delete_subscriber}
use spice_agent.Log.Invariant.{NumberedTo}
use spice_agent.Log.Pages.{after_cursor}
use spice_agent.Log.Delivery.{IsFed, EndsByAbort, offer-IsFed, finish-IsFed, terminate-aborts}
use spice_agent.Log.System.{IsTail, update_subscriber}

pub after_cursor-append :
    (after : ℕ) (xs ys : List LogEntry)
    → after_cursor after (xs ++ ys) ≡ after_cursor after xs ++ after_cursor after ys
after_cursor-append after [] ys = refl
after_cursor-append after (x ∷ xs) ys = elim (Bool-cases (leb x.envelope.sequence after)) [
  | inl old ↦ rw old (after_cursor-append after xs ys)
  | inr new ↦ rw new (ap (λ l. x ∷ l) (after_cursor-append after xs ys))
]

-- Nothing stands behind the last sequence.
pub after_cursor_none :
    (after last : ℕ) (xs : List LogEntry)
    → NumberedTo xs last
    → last ≤ after
    → after_cursor after xs ≡ []
after_cursor_none after last [] n h = refl
after_cursor_none after last (x ∷ xs) (s, p, n) h =
    let old : leb x.envelope.sequence after ≡ true = ground arith in
    rw old (after_cursor_none after last xs n h)

pub NumberedTo-prefix :
    (xs ys : List LogEntry) (last : ℕ)
    → NumberedTo (xs ++ ys) last
    → NumberedTo xs (last - length ys)
NumberedTo-prefix [] ys last n = tt
NumberedTo-prefix (x ∷ xs) ys last (s, p, n) =
    (omega (arith, length-append xs ys), p, NumberedTo-prefix xs ys last n)

offer-IsTail :
    (asked : List (ℕ × ℕ)) (history : List LogEntry) (last : ℕ) (e : LogEntry) (id : ℕ)
    (s : Subscription)
    → e.envelope.sequence ≡ suc last
    → IsTail asked history last false (id, s)
    → IsTail asked (history ++ e ∷ []) e.envelope.sequence false (id, (offer e s).0)
offer-IsTail asked history last e id s seq v =
    let (fed, ends) =
      offer-IsFed v.after s (after_cursor v.after history) e v.fed (v.by_abort refl) in
    let new : leb e.envelope.sequence v.after ≡ false = ground (arith, v.below) in
    let feed : after_cursor v.after (history ++ e ∷ []) ≡ after_cursor v.after history ++ e ∷ [] =
      after_cursor-append v.after history (e ∷ []) ∙ rw new in
    record {
      after = v.after;
      called = v.called;
      below = omega (arith, v.below);
      reach = omega (arith, v.reach, length-append history (e ∷ []));
      fed = rw feed fed;
      by_abort = λ _. ends;
    }

abbrev Tails : List (ℕ × ℕ) → List LogEntry → ℕ → Bool → List (ℕ × Subscription) → Type 0
Tails asked history last closed = All (IsTail asked history last closed)

pub offer_all-Tails :
    (asked : List (ℕ × ℕ)) (history : List LogEntry) (last : ℕ) (e : LogEntry)
    (ss : List (ℕ × Subscription)) (slow : ℕ)
    → e.envelope.sequence ≡ suc last
    → Tails asked history last false ss
    → Tails asked (history ++ e ∷ []) e.envelope.sequence false (offer_all e ss slow).0
unfolding offer_all
offer_all-Tails asked history last e [] slow seq v = tt
offer_all-Tails asked history last e ((id, s) ∷ ss) slow seq (v, vs) =
    (offer-IsTail asked history last e id s seq v, offer_all-Tails asked history last e ss _ seq vs)

pub finish_all-Tails :
    (asked : List (ℕ × ℕ)) (history : List LogEntry) (last : ℕ) (closed : Bool)
    (ss : List (ℕ × Subscription))
    → Tails asked history last closed ss
    → Tails asked history last true (finish_all ss)
unfolding finish_all
finish_all-Tails asked history last closed [] v = tt
finish_all-Tails asked history last closed ((id, s) ∷ ss) (v, vs) = (
  record {
    after = v.after;
    called = v.called;
    below = v.below;
    reach = v.reach;
    fed = finish-IsFed v.after s (after_cursor v.after history) v.fed;
    by_abort = λ e. cc;
  },
  finish_all-Tails asked history last closed ss vs,
)

pub delete_subscriber-Tails :
    (asked : List (ℕ × ℕ)) (history : List LogEntry) (last : ℕ) (closed : Bool) (id : ℕ)
    (ss : List (ℕ × Subscription))
    → Tails asked history last closed ss
    → Tails asked history last closed (delete_subscriber id ss)
unfolding delete_subscriber
delete_subscriber-Tails asked history last closed id [] v = tt
delete_subscriber-Tails asked history last closed id ((j, s) ∷ ss) (v, vs) =
    let rest = delete_subscriber-Tails asked history last closed id ss vs in
    elim (Bool-cases (j == id)) [ inl gone ↦ rw gone rest | inr other ↦ rw other (v, rest) ]

-- What a step on one subscription has to keep.
abbrev pub KeepsFed : (Subscription → Subscription) → Type 0
KeepsFed f =
    (after : ℕ) (s : Subscription) (feed : List LogEntry)
    → IsFed after s feed
    → IsFed after (f s) feed

abbrev pub KeepsEnds : (Subscription → Subscription) → Type 0
KeepsEnds f = (s : Subscription) → EndsByAbort s → EndsByAbort (f s)

pub update_subscriber-Tails :
    (asked : List (ℕ × ℕ)) (history : List LogEntry) (last : ℕ) (closed : Bool) (id : ℕ)
    (f : Subscription → Subscription)
    → KeepsFed f
    → KeepsEnds f
    → (ss : List (ℕ × Subscription)) → Tails asked history last closed ss
    → Tails asked history last closed (update_subscriber id f ss)
unfolding update_subscriber
update_subscriber-Tails asked history last closed id f kf ke [] v = tt
update_subscriber-Tails asked history last closed id f kf ke ((j, s) ∷ ss) (v, vs) =
    let rest = update_subscriber-Tails asked history last closed id f kf ke ss vs in
    elim (Bool-cases (j == id)) [
      | inl hit ↦ rw hit (
        record {
          after = v.after;
          called = v.called;
          below = v.below;
          reach = v.reach;
          fed = kf v.after s (after_cursor v.after history) v.fed;
          by_abort = λ e. ke s (v.by_abort e);
        },
        rest,
      )
      | inr other ↦ rw other (v, rest)
    ]

drop_sent-ends :
    (e : LogEntry) (s : Subscription) (queue : List LogEntry)
    → ((drop_sent e s queue).terminal ≡ s.terminal) × ((drop_sent e s queue).aborted ≡ s.aborted)
unfolding drop_sent
drop_sent-ends e s [] = (refl, refl)
drop_sent-ends e s (x ∷ xs) = ground arith

look-ends :
    (s : Subscription) (queue : List LogEntry)
    → ((look s queue).terminal ≡ s.terminal) × ((look s queue).aborted ≡ s.aborted)
unfolding look
look-ends s [] = ground arith
look-ends s (x ∷ xs) = (refl, refl)

pub terminate-KeepsEnds : (e : LogError) → KeepsEnds (terminate e)
terminate-KeepsEnds e s h = λ _. terminate-aborts e s h

pub deliver-KeepsEnds : (ready : Ready) → KeepsEnds (deliver ready)
deliver-KeepsEnds ready s h = unfold deliver in at_stage s.stage ready
  where
    at_stage : (stage : Stage) (ready : Ready) → EndsByAbort (deliver_at stage ready s)
    at_stage waiting ready = unfold deliver_at in ground (arith, h, look-ends s s.queue)
    at_stage (offering e) abort_closed = unfold deliver_at in ground (arith, h)
    at_stage (offering e) consumer_ready = unfold deliver_at in h
    at_stage (offering e) (context_done_with c) =
        unfold deliver_at in λ _. terminate-aborts (context_done c) s h
    at_stage (sent e) ready =
        unfold deliver_at in unfold settle in ground (arith, h, drop_sent-ends e s s.queue)
    at_stage returned ready = unfold deliver_at in h
