-- ===== src/Log/System.antt =====
-- event/log.go under concurrency: every call and every stage of a delivery goroutine is one step,
-- since each holds a lock. A system is a log together with all the entries that it ever took, and the
-- calls that asked for a subscription: the identity that each was answered, and its cursor.
use spice_agent.Base.{
  ℕ, ◌+◌, ◌≤◌, ◌≡◌, Bool, false, if◌then◌else◌, ◌==◌, length, List, [], ◌∷◌, ◌++◌, Option, none,
  some, ContextError, All, Result, ok, err, ◌⊎◌,
}
use spice_agent.Event.Envelope.{Envelope}
use spice_agent.Log.Types.{LogEntry, LogError, context_done}
use spice_agent.Log.Subscription.{Subscription, Ready, deliver, terminate}
use spice_agent.Log.Store.{Log, append_sized, close_log}
use spice_agent.Log.Replay.{ReplayRequest, Page, replay, subscribe, on_done}
use spice_agent.Log.Invariant.{IsWellFormed, NumberedTo}
use spice_agent.Log.Append.{entry_of}
use spice_agent.Log.Pages.{after_cursor}
use spice_agent.Log.Delivery.{IsFed, EndsByAbort}

-- A change of one subscription of the map.
unfoldable pub update_subscriber :
    ℕ → (Subscription → Subscription) → List (ℕ × Subscription) → List (ℕ × Subscription)
update_subscriber id f [] = []
update_subscriber id f ((j, s) ∷ ss) = (j, if j == id then f s else s) ∷ update_subscriber id f ss

unfoldable pub in_subscriber : ℕ → (Subscription → Subscription) → Log → Log
unfolding update_subscriber
in_subscriber id f log = record log { subscribers = update_subscriber id f log.subscribers }

pub record System : Type 0 where
  pub log : Log
  pub history : List LogEntry
  pub asked : List (ℕ × ℕ)

-- What Subscribe answers, in the calls: the identity of the subscription, for the cursor asked for.
unfoldable pub noted : ℕ → Result LogError (ℕ × Subscription) → List (ℕ × ℕ) → List (ℕ × ℕ)
noted after (err e) asked = asked
noted after (ok (id, s)) asked = (id, after) ∷ asked

-- What Replay answers: its tail continues the page that the caller got.
unfoldable pub noted_tail :
    Result LogError (Page × Option (ℕ × Subscription)) → List (ℕ × ℕ) → List (ℕ × ℕ)
noted_tail (err e) asked = asked
noted_tail (ok (page, none)) asked = asked
noted_tail (ok (page, some (id, s))) asked = (id, page.page_last_sequence) ∷ asked

-- A call asked for this cursor and got this identity.
abbrev pub IsAsked : ℕ → ℕ → List (ℕ × ℕ) → Type 0
IsAsked id after [] = ⊥
IsAsked id after ((i, a) ∷ asked) = ((i ≡ id) × (a ≡ after)) ⊎ IsAsked id after asked

pub data Step (t u : System) : Type 0 where
  appends :
      (envelope : Envelope) (size : ℕ)
      → append_sized t.log envelope size ≡ some (u.log, none)
      → u.history ≡ t.history ++ entry_of envelope size ∷ []
      → u.asked ≡ t.asked
      → Step t u
  refuses :
      (envelope : Envelope) (size : ℕ) (e : LogError)
      → append_sized t.log envelope size ≡ some (u.log, some e)
      → u.history ≡ t.history
      → u.asked ≡ t.asked
      → Step t u
  subscribes :
      (ctx : Option ContextError) (after : ℕ)
      → u.log ≡ (subscribe ctx t.log after).0
      → u.history ≡ t.history
      → u.asked ≡ noted after (subscribe ctx t.log after).1 t.asked
      → Step t u
  replays :
      (ctx : Option ContextError) (r : ReplayRequest)
      → u.log ≡ (replay ctx t.log r).0
      → u.history ≡ t.history
      → u.asked ≡ noted_tail (replay ctx t.log r).1 t.asked
      → Step t u
  delivers :
      (id : ℕ) (ready : Ready)
      → u.log ≡ in_subscriber id (deliver ready) t.log
      → u.history ≡ t.history
      → u.asked ≡ t.asked
      → Step t u
  cancels :
      (id : ℕ) (c : ContextError)
      → u.log ≡ in_subscriber id (terminate (context_done c)) t.log
      → u.history ≡ t.history
      → u.asked ≡ t.asked
      → Step t u
  forgets :
      (id : ℕ) → u.log ≡ on_done id t.log → u.history ≡ t.history → u.asked ≡ t.asked → Step t u
  closes : u.log ≡ close_log t.log → u.history ≡ t.history → u.asked ≡ t.asked → Step t u

pub data Reach (s : System) : System → Type 0 where
  here : Reach s s
  next : {t u : System} → Reach s t → Step t u → Reach s u

-- A subscription that is fed with what the log took behind the cursor that its caller asked for.
pub record IsTail (asked : List (ℕ × ℕ)) (history : List LogEntry) (last : ℕ) (closed : Bool)
    (p : ℕ × Subscription) : Type 0 where
  pub after : ℕ
  pub called : IsAsked p.0 after asked
  pub below : after ≤ last
  pub reach : last ≤ after + length history
  pub fed : IsFed after p.1 (after_cursor after history)
  pub by_abort : closed ≡ false → EndsByAbort p.1

abbrev pub TailOf : System → ℕ × Subscription → Type 0
TailOf t = IsTail t.asked t.history t.log.last_sequence t.log.closed

pub record IsTracked (t : System) : Type 0 where
  pub well_formed : IsWellFormed t.log
  pub old : List LogEntry
  pub kept : t.history ≡ old ++ t.log.entries
  pub numbered : NumberedTo t.history t.log.last_sequence
  pub tails : All (TailOf t) t.log.subscribers
