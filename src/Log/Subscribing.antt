-- ===== src/Log/Subscribing.antt =====
-- event/log.go: Subscribe and Replay keep a system tracked, with the call that they answered.
use spice_agent.Base.{
  ℕ, ◌<◌, ◌≡◌, refl, sym, ◌∙◌, ◌⊎◌, inl, inr, true, false, ◌&&◌, not, Bool-cases, ltb, ◌||◌, List,
  [], ◌∷◌, Option, none, some, arith, ContextError, if_intro, Result, ok, err, add64,
}
use spice_agent.Log.Types.{LogEntry, LogError, max_events_range, max_bytes_range}
use spice_agent.Log.Subscription.{Subscription, total_bytes}
use spice_agent.Log.Store.{Log}
use spice_agent.Log.Replay.{
  ReplayRequest, Page, replay, replay_page, subscribe, register, whole_tail, count_exhaustion,
  finish_subscribe, finish_replay,
}
use spice_agent.Log.Invariant.{limits_usable}
use spice_agent.Log.Recovery.{replay_page-IsOutcome, IsOutcome}
use spice_agent.Log.System.{System, IsTracked, noted, noted_tail}
use spice_agent.Log.Tracking.{after_cursor_none}
use spice_agent.Log.Growth.{SameWindow}
use spice_agent.Log.Joining.{
  Registered, replay_page-SameWindow, complete_page, with_log, after_subscribe, after_replay,
  same-IsTracked, register-IsTracked,
}

count_exhaustion-SameWindow : (log : Log) → SameWindow log (count_exhaustion log)
unfolding count_exhaustion
count_exhaustion-SameWindow log = ground arith

trans-SameWindow : (a b c : Log) → SameWindow a b → SameWindow b c → SameWindow a c
trans-SameWindow a b c p q = record {
  entries_same = q.entries_same ∙ p.entries_same;
  last_same = q.last_same ∙ p.last_same;
  closed_same = q.closed_same ∙ p.closed_same;
  bytes_same = q.bytes_same ∙ p.bytes_same;
  limits_same = q.limits_same ∙ p.limits_same;
  run_same = q.run_same ∙ p.run_same;
}

-- The call that a registration is noted as.
register-id :
    (log : Log) (after : ℕ) (events : List LogEntry)
    → (register log after events).1 ≡ add64 log.next_sub_id 1
unfolding register
register-id log after events =
    if_intro (λ (r : Log × ℕ × Subscription). r.1 ≡ add64 log.next_sub_id 1) log.closed (λ _. refl)
      (λ _. refl)

subscribe-more :
    (t : System) (after : ℕ) (log' : Log) (page : Page)
    → page.has_more ≡ true
    → after_subscribe t after (finish_subscribe after log' (ok page))
      ≡ with_log t (count_exhaustion log')
unfolding finish_subscribe noted
subscribe-more t after log' page more = simp more

subscribe-done :
    (t : System) (after : ℕ) (log' : Log) (page : Page)
    → page.has_more ≡ false
    → after_subscribe t after (finish_subscribe after log' (ok page)) ≡ (record {
      log = Registered log' after page.events;
      history = t.history;
      asked = (add64 log'.next_sub_id 1, after) ∷ t.asked;
    })
unfolding finish_subscribe noted
subscribe-done t after log' page more = rw (more, register-id log' after page.events) refl

finish_subscribe-IsTracked :
    (t : System) (log' : Log) (after : ℕ) (result : Result LogError Page)
    → IsTracked t
    → SameWindow t.log log'
    → log'.subscribers ≡ t.log.subscribers
    → IsOutcome t.log (whole_tail t.log.limits after) result
    → IsTracked (after_subscribe t after (finish_subscribe after log' result))
finish_subscribe-IsTracked t log' after (err e) v same subs o =
    unfold finish_subscribe in unfold noted in same-IsTracked t log' v same subs
finish_subscribe-IsTracked t log' after (ok page) v same subs o = elim (Bool-cases page.has_more) [
  | inl more ↦ rw (subscribe-more t after log' page more) (
      same-IsTracked t (count_exhaustion log') v
        (trans-SameWindow t.log log' (count_exhaustion log') same
          (count_exhaustion-SameWindow log'))
        (unfold count_exhaustion in subs))
  | inr done ↦
      let (feed, reach, _) = complete_page t (whole_tail t.log.limits after) page v o done in
      rw (subscribe-done t after log' page done) (
        register-IsTracked t log' after page.events v same subs o.0.0 reach feed
          (omega (arith, o.1.contents.few), omega (arith, o.1.contents.light)))
]

replay-tailed :
    (t : System) (r : ReplayRequest) (log' : Log) (page : Page)
    → (r.tail && not page.has_more && not log'.closed) ≡ true
    → after_replay t (finish_replay r log' (ok page)) ≡ (record {
      log = Registered log' page.page_last_sequence [];
      history = t.history;
      asked = (add64 log'.next_sub_id 1, page.page_last_sequence) ∷ t.asked;
    })
unfolding finish_replay noted_tail
replay-tailed t r log' page h = rw (h, register-id log' page.page_last_sequence []) refl

replay-untailed :
    (t : System) (r : ReplayRequest) (log' : Log) (page : Page)
    → (r.tail && not page.has_more && not log'.closed) ≡ false
    → after_replay t (finish_replay r log' (ok page)) ≡ with_log t log'
unfolding finish_replay noted_tail
replay-untailed t r log' page h = simp h

finish_replay-IsTracked :
    (t : System) (log' : Log) (r : ReplayRequest) (result : Result LogError Page)
    → IsTracked t
    → SameWindow t.log log'
    → log'.subscribers ≡ t.log.subscribers
    → IsOutcome t.log r result
    → IsTracked (after_replay t (finish_replay r log' result))
unfolding total_bytes
finish_replay-IsTracked t log' r (err e) v same subs o =
    unfold finish_replay in unfold noted_tail in same-IsTracked t log' v same subs
finish_replay-IsTracked t log' r (ok page) v same subs o =
    elim (Bool-cases (r.tail && not page.has_more && not log'.closed)) [
      | inr not_tailed ↦
          rw (replay-untailed t r log' page not_tailed) (same-IsTracked t log' v same subs)
      | inl tailed ↦
          let (feed, reach, last) = complete_page t r page v o (ground arith) in
          rw (replay-tailed t r log' page tailed) (
            register-IsTracked t log' page.page_last_sequence [] v same subs (omega (arith, last))
              (omega (arith, last))
              (sym (
                after_cursor_none page.page_last_sequence t.log.last_sequence t.history v.numbered
                  (omega (arith, last))))
              (omega arith, omega arith))
    ]

pub subscribe-IsTracked :
    (t : System) (ctx : Option ContextError) (after : ℕ)
    → IsTracked t
    → IsTracked (after_subscribe t after (subscribe ctx t.log after))
subscribe-IsTracked t (some c) after v = unfold subscribe in unfold noted in v
subscribe-IsTracked t none after v =
    let (same, subs) = replay_page-SameWindow t.log (whole_tail t.log.limits after) in
    let usable = limits_usable t.log.limits v.well_formed.limits_good in
    unfold subscribe in
    finish_subscribe-IsTracked t (replay_page t.log (whole_tail t.log.limits after)).0 after
      (replay_page t.log (whole_tail t.log.limits after)).1 v same subs
      (replay_page-IsOutcome t.log (whole_tail t.log.limits after) v.well_formed usable.page_events)

replay_checked :
    (log : Log) (r : ReplayRequest)
    → ((e : LogError) × (replay none log r ≡ (log, err e)))
      ⊎ ((0 < r.max_events)
          × (replay none log r ≡ finish_replay r (replay_page log r).0 (replay_page log r).1))
replay_checked log r =
    elim (Bool-cases (ltb r.max_events 1 || ltb log.limits.subscriber_max_events r.max_events)) [
      | inl bad ↦ inl (max_events_range, unfold replay in simp bad)
      | inr good ↦
          elim (Bool-cases (ltb r.max_bytes 1 || ltb log.limits.subscriber_max_bytes r.max_bytes)) [
            | inl bad ↦ inl (max_bytes_range, unfold replay in simp (good, bad))
            | inr fine ↦ inr (ground arith, unfold replay in simp (good, fine))
          ]
    ]

pub replay-IsTracked :
    (t : System) (ctx : Option ContextError) (r : ReplayRequest)
    → IsTracked t
    → IsTracked (after_replay t (replay ctx t.log r))
replay-IsTracked t (some c) r v = unfold replay in unfold noted_tail in v
replay-IsTracked t none r v = elim (replay_checked t.log r) [
  | inl (e, same) ↦ rw same (unfold noted_tail in v)
  | inr (pos, run) ↦
      let (same, subs) = replay_page-SameWindow t.log r in
      rw run (
        finish_replay-IsTracked t (replay_page t.log r).0 r (replay_page t.log r).1 v same subs
          (replay_page-IsOutcome t.log r v.well_formed pos))
]
