-- ===== src/Log/Growth.antt =====
-- event/log.go: Append keeps a system tracked, whether it takes the event or not.
use spice_agent.Base.{
  ℕ, ◌≡◌, refl, sym, subst, ◌∙◌, inl, inr, List, [], ◌∷◌, ◌++◌, append_assoc, none, some, All,
}
use spice_agent.Event.Envelope.{Envelope}
use spice_agent.Log.Types.{LogEntry, LogError}
use spice_agent.Log.Store.{Log, Window, append_sized, admit}
use spice_agent.Log.Invariant.{IsWellFormed, NumberedTo-snoc}
use spice_agent.Log.Evict.{Evicted}
use spice_agent.Log.Append.{entry_of, append_cases, append_accepted, Accepts, append-IsWellFormed}
use spice_agent.Log.Reserve.{Accepts-of}
use spice_agent.Log.System.{System, IsTail, IsTracked}
use spice_agent.Log.Tracking.{offer_all-Tails}

-- Two logs that differ in what tracking does not read.
pub record SameWindow (log log' : Log) : Type 0 where
  pub entries_same : log'.entries ≡ log.entries
  pub last_same : log'.last_sequence ≡ log.last_sequence
  pub closed_same : log'.closed ≡ log.closed
  pub bytes_same : log'.bytes ≡ log.bytes
  pub limits_same : log'.limits ≡ log.limits
  pub run_same : log'.run_id ≡ log.run_id

same-IsWellFormed : (log log' : Log) → SameWindow log log' → IsWellFormed log → IsWellFormed log'
same-IsWellFormed log log' same v = record {
  limits_good = rw same.limits_same v.limits_good;
  numbered = rw (same.entries_same, same.last_same) v.numbered;
  in_run = rw (same.entries_same, same.run_same) v.in_run;
  summed = rw (same.entries_same, same.bytes_same) v.summed;
  few = rw (same.entries_same, same.limits_same) v.few;
  light = rw (same.limits_same, same.bytes_same) v.light;
  representable = rw same.last_same v.representable;
  empty_below = rw (same.entries_same, same.last_same) v.empty_below;
}

-- A step that takes no entry and leaves the window alone: only the subscriptions count.
pub keep-IsTracked :
    (t u : System)
    → IsTracked t
    → u.history ≡ t.history
    → SameWindow t.log u.log
    → All (IsTail u.asked t.history t.log.last_sequence t.log.closed) u.log.subscribers
    → IsTracked u
keep-IsTracked t u v h same tails = record {
  well_formed = same-IsWellFormed t.log u.log same v.well_formed;
  old = v.old;
  kept = rw (h, same.entries_same) v.kept;
  numbered = rw (h, same.last_same) v.numbered;
  tails = rw (h, same.last_same, same.closed_same) tails;
}

-- The history behind an eviction.
kept_after :
    (history old entries dropped rest new : List LogEntry)
    → history ≡ old ++ entries
    → entries ≡ dropped ++ rest
    → history ++ new ≡ (old ++ dropped) ++ (rest ++ new)
kept_after history old entries dropped rest new h e = simp (h, e, append_assoc)

admit-IsTracked :
    (t : System) (envelope : Envelope) (size max_events room : ℕ) (w : Window)
    → IsTracked t
    → Accepts t.log envelope size
    → Evicted max_events room t.log.entries w
    → IsWellFormed (admit t.log (entry_of envelope size) w)
    → IsTracked (record {
      log = admit t.log (entry_of envelope size) w;
      history = t.history ++ entry_of envelope size ∷ [];
      asked = t.asked;
    })
unfolding admit
admit-IsTracked t envelope size max_events room w v a r wf = record {
  well_formed = wf;
  old = v.old ++ r.dropped;
  kept =
      kept_after t.history v.old t.log.entries r.dropped w.entries (entry_of envelope size ∷ [])
        v.kept r.split;
  numbered =
      NumberedTo-snoc t.history (entry_of envelope size) t.log.last_sequence v.numbered
        a.next_in_line;
  tails =
      subst
        (λ c.
          All (IsTail t.asked (t.history ++ entry_of envelope size ∷ []) envelope.sequence c)
            (admit t.log (entry_of envelope size) w).subscribers)
        (sym a.still_open)
        (offer_all-Tails t.asked t.history t.log.last_sequence (entry_of envelope size)
          t.log.subscribers t.log.stats.slow_subscriber_disconnects a.next_in_line
          (subst (λ c. All (IsTail t.asked t.history t.log.last_sequence c) t.log.subscribers)
            a.still_open v.tails));
}

pub append_step :
    (t u : System) (envelope : Envelope) (size : ℕ)
    → IsTracked t
    → append_sized t.log envelope size ≡ some (u.log, none)
    → u.history ≡ t.history ++ entry_of envelope size ∷ []
    → u.asked ≡ t.asked
    → IsTracked u
append_step t u envelope size v run h ka =
    let a = Accepts-of t.log u.log envelope size v.well_formed.representable run in
    let (w, done, r) = append_accepted t.log envelope size v.well_formed a in
    let (log', e, again, wf) = append-IsWellFormed t.log envelope size v.well_formed in
    let same : u.log ≡ admit t.log (entry_of envelope size) w = cc in
    let same' : log' ≡ admit t.log (entry_of envelope size) w = cc in
    subst IsTracked (sym (λ i. record { log = same i; history = h i; asked = ka i }))
      (admit-IsTracked t envelope size _ _ w v a r (subst IsWellFormed same' wf))

pub refuse_step :
    (t u : System) (envelope : Envelope) (size : ℕ) (e : LogError)
    → IsTracked t
    → append_sized t.log envelope size ≡ some (u.log, some e)
    → u.history ≡ t.history
    → u.asked ≡ t.asked
    → IsTracked u
refuse_step t u envelope size e v run h ka =
    elim (append_cases t.log envelope size v.well_formed.representable) [
      | inl a ↦ let (w, done, r) = append_accepted t.log envelope size v.well_formed a in cc
      | inr (log', e', refused, stats, _) ↦
          let same : u.log ≡ record (t.log) { stats = log'.stats } =
            (let x : u.log ≡ log' = cc in x ∙ stats) in
          subst IsTracked (sym (λ i. record { log = same i; history = h i; asked = ka i })) (
            keep-IsTracked t
              (record {
                log = record (t.log) { stats = log'.stats };
                history = t.history;
                asked = t.asked;
              })
              v refl
              (record {
                entries_same = refl;
                last_same = refl;
                closed_same = refl;
                bytes_same = refl;
                limits_same = refl;
                run_same = refl;
              })
              v.tails)
    ]
