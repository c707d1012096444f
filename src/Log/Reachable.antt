-- ===== src/Log/Reachable.antt =====
-- event/log.go: what holds of every consumer in every state that calls and goroutines can reach,
-- whatever the order in which they take the locks.
use spice_agent.Base.{
  ℕ, ◌≡◌, refl, sym, true, [], arith, ok, Bool-cases, inl, inr, subst, Bytes, max_u64, ◌≤◌,
}
use spice_agent.Log.Types.{LogLimits, context_done}
use spice_agent.Log.Subscription.{Subscription, deliver, terminate}
use spice_agent.Log.Store.{Log, new_log_after, empty_log, close_log, finish_all}
use spice_agent.Log.Replay.{on_done}
use spice_agent.Log.Invariant.{empty_log-IsWellFormed, new_log_after-inv}
use spice_agent.Log.Deliver.{deliver-IsFed, cancel-IsFed}
use spice_agent.Log.System.{
  System, Step, appends, refuses, subscribes, replays, delivers, cancels, forgets, closes, Reach,
  here, next, IsTracked, in_subscriber,
}
use spice_agent.Log.Tracking.{
  finish_all-Tails, delete_subscriber-Tails, update_subscriber-Tails, deliver-KeepsEnds,
  terminate-KeepsEnds, KeepsFed, KeepsEnds,
}
use spice_agent.Log.Growth.{keep-IsTracked, append_step, refuse_step}
use spice_agent.Log.Joining.{with_log}
use spice_agent.Log.Subscribing.{subscribe-IsTracked, replay-IsTracked}

at_log :
    (t u : System) (log : Log)
    → u.log ≡ log
    → u.history ≡ t.history
    → u.asked ≡ t.asked
    → IsTracked (with_log t log)
    → IsTracked u
at_log t u log e h a v =
    subst IsTracked (sym (λ i. record { log = e i; history = h i; asked = a i })) v

in_subscriber-IsTracked :
    (t : System) (id : ℕ) (f : Subscription → Subscription)
    → KeepsFed f
    → KeepsEnds f
    → IsTracked t
    → IsTracked (with_log t (in_subscriber id f t.log))
unfolding in_subscriber
in_subscriber-IsTracked t id f kf ke v = keep-IsTracked t _ v refl (ground arith) (
    update_subscriber-Tails t.asked t.history t.log.last_sequence t.log.closed id f kf ke
      t.log.subscribers v.tails)

on_done-IsTracked : (t : System) (id : ℕ) → IsTracked t → IsTracked (with_log t (on_done id t.log))
unfolding on_done
on_done-IsTracked t id v = keep-IsTracked t _ v refl (ground arith) (
    delete_subscriber-Tails t.asked t.history t.log.last_sequence t.log.closed id t.log.subscribers
      v.tails)

close_log-IsTracked : (t : System) → IsTracked t → IsTracked (with_log t (close_log t.log))
close_log-IsTracked t v = elim (Bool-cases t.log.closed) [
  | inl shut ↦ let same : close_log t.log ≡ t.log = unfold close_log in simp shut in rw same v
  | inr op ↦
      let ended : close_log t.log
          ≡ record (t.log) { closed = true; subscribers = finish_all t.log.subscribers } =
        unfold close_log in simp op in
      rw ended (record {
        well_formed = record {
          limits_good = v.well_formed.limits_good;
          numbered = v.well_formed.numbered;
          in_run = v.well_formed.in_run;
          summed = v.well_formed.summed;
          few = v.well_formed.few;
          light = v.well_formed.light;
          representable = v.well_formed.representable;
          empty_below = v.well_formed.empty_below;
        };
        old = v.old;
        kept = v.kept;
        numbered = v.numbered;
        tails =
            finish_all-Tails t.asked t.history t.log.last_sequence t.log.closed t.log.subscribers
              v.tails;
      })
]

pub Step-IsTracked : {t u : System} → Step t u → IsTracked t → IsTracked u
Step-IsTracked {t} {u} (appends envelope size run h a) v = append_step t u envelope size v run h a
Step-IsTracked {t} {u} (refuses envelope size e run h a) v =
    refuse_step t u envelope size e v run h a
Step-IsTracked {t} {u} (subscribes ctx after e h a) v =
    subst IsTracked (sym (λ i. record { log = e i; history = h i; asked = a i }))
      (subscribe-IsTracked t ctx after v)
Step-IsTracked {t} {u} (replays ctx r e h a) v =
    subst IsTracked (sym (λ i. record { log = e i; history = h i; asked = a i }))
      (replay-IsTracked t ctx r v)
Step-IsTracked {t} {u} (delivers id ready e h a) v = at_log t u _ e h a (
    in_subscriber-IsTracked t id (deliver ready) (λ after s feed. deliver-IsFed after ready s feed)
      (deliver-KeepsEnds ready) v)
Step-IsTracked {t} {u} (cancels id c e h a) v = at_log t u _ e h a (
    in_subscriber-IsTracked t id (terminate (context_done c))
      (λ after s feed. cancel-IsFed after s c feed) (terminate-KeepsEnds (context_done c)) v)
Step-IsTracked {t} {u} (forgets id e h a) v = at_log t u _ e h a (on_done-IsTracked t id v)
Step-IsTracked {t} {u} (closes e h a) v = at_log t u _ e h a (close_log-IsTracked t v)

pub Reach-IsTracked : {s t : System} → IsTracked s → Reach s t → IsTracked t
Reach-IsTracked h here = h
Reach-IsTracked h (next r st) = Step-IsTracked st (Reach-IsTracked h r)

-- A log at its construction, which took nothing yet.
abbrev pub start : Log → System
start log = record { log = log; history = []; asked = [] }

pub start-IsTracked :
    (run : Bytes) (last : ℕ) (limits : LogLimits) (log : Log)
    → last ≤ max_u64
    → new_log_after run last limits ≡ ok log
    → IsTracked (start log)
start-IsTracked run last limits log h made =
    let (same, good, ne) = new_log_after-inv run last limits log made in
    rw same (record {
      well_formed = empty_log-IsWellFormed run last limits (omega arith) good;
      old = [];
      kept = unfold empty_log in refl;
      numbered = tt;
      tails = unfold empty_log in tt;
    })
