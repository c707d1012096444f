-- ===== src/Log/Gapless.antt =====
-- event/log.go, replayPageLocked and Replay: a page continues its cursor without a gap, and a refused
-- cursor comes with one that works.
use spice_agent.Base.{
  ℕ, suc, ◌+◌, ◌≤◌, ◌<◌, ◌≡◌, ◌↔◌, refl, ap, sym, ◌∙◌, inl, inr, Bool, true, false, Bool-cases, ltb,
  leb, ◌==◌, length, length-append, List, [], ◌∷◌, ◌++◌, arith, Result, ok, err, if◌then◌else◌,
  append-nil,
}
use spice_agent.Log.Types.{LogEntry, LogError, no_progress}
use spice_agent.Log.Subscription.{total_bytes}
use spice_agent.Log.Store.{Log}
use spice_agent.Log.Replay.{ReplayRequest, Page, page_last, finish_page}
use spice_agent.Log.Invariant.{NumberedTo, IsWellFormed}
use spice_agent.Log.Cursor.{first_of_log, bounds-IsWellFormed, first_of_log-length}
use spice_agent.Log.Pages.{after_cursor, IsPage, IsFull}

-- The sequences that follow `n`, one by one.
abbrev pub NumberedFrom : ℕ → List LogEntry → Type 0
NumberedFrom n [] = Unit {0}
NumberedFrom n (e ∷ es) = (e.envelope.sequence ≡ suc n) × NumberedFrom (suc n) es

pub NumberedFrom-append :
    (n : ℕ) (xs ys : List LogEntry)
    → NumberedFrom n (xs ++ ys)
    → NumberedFrom n xs × NumberedFrom (n + length xs) ys
NumberedFrom-append n [] ys h = (tt, let e : n ≡ n + 0 = omega arith in rw (← e) h)
NumberedFrom-append n (x ∷ xs) ys (s, h) =
    let (a, b) = NumberedFrom-append (suc n) xs ys h in
    let e : suc n + length xs ≡ n + suc (length xs) = omega arith in ((s, a), rw (← e) b)

pub page_last-NumberedFrom :
    (n : ℕ) (xs : List LogEntry) → NumberedFrom n xs → page_last n xs ≡ n + length xs
unfolding page_last
page_last-NumberedFrom n [] h = omega arith
page_last-NumberedFrom n (x ∷ xs) (s, h) = rw s (page_last-NumberedFrom (suc n) xs h ∙ omega arith)

after_cursor_all :
    (n after last : ℕ) (es : List LogEntry)
    → NumberedTo es last
    → n + length es ≡ last
    → after ≤ n
    → NumberedFrom n es × (after_cursor after es ≡ es)
after_cursor_all n after last [] h e l = (tt, refl)
after_cursor_all n after last (x ∷ xs) (s, p, h) e l =
    let (a, b) = after_cursor_all (suc n) after last xs h (omega arith) (omega arith) in
    ((omega arith, a), ground arith)

-- Behind a cursor inside the log stands all that followed it.
pub after_cursor_inside :
    (after last : ℕ) (es : List LogEntry)
    → NumberedTo es last
    → after ≤ last
    → last ≤ after + length es
    → NumberedFrom after (after_cursor after es) × (after + length (after_cursor after es) ≡ last)
after_cursor_inside after last [] h a b = (tt, omega arith)
after_cursor_inside after last (x ∷ xs) (s, p, h) a b =
    elim (Bool-cases (leb x.envelope.sequence after)) [
      | inl old ↦ rw old (after_cursor_inside after last xs h a (ground arith))
      | inr new ↦
          let (n, all) =
            after_cursor_all (suc after) after last xs h (ground arith) (omega arith) in
          rw (new, all) ((ground arith, n), ground arith)
    ]

-- An answer of a page: what it holds, and that its flag and its last sequence are true.
pub record IsAnswer (log : Log) (r : ReplayRequest) (page : Page) : Type 0 where
  pub contents : IsPage r log.entries 0 0 page.events
  pub in_order : NumberedFrom r.after_sequence page.events
  pub last_is : page.page_last_sequence ≡ r.after_sequence + length page.events
  pub latest_is : page.latest ≡ log.last_sequence
  pub earliest_is : page.earliest ≡ first_of_log log.last_sequence log.entries
  pub more_iff : (page.has_more ≡ true) ↔ (page.page_last_sequence < log.last_sequence)
  pub complete : page.has_more ≡ false → page.events ≡ after_cursor r.after_sequence log.entries

abbrev pub IsInside : Log → ℕ → Type 0
IsInside log after =
    (after ≤ log.last_sequence) × (first_of_log log.last_sequence log.entries ≤ suc after)

-- The page that finish_page builds.
abbrev page_of : Log → ReplayRequest → List LogEntry → Bool → Page
page_of log r events more = record {
  earliest = first_of_log log.last_sequence log.entries;
  latest = log.last_sequence;
  page_last_sequence = r.after_sequence + length events;
  events = events;
  has_more = more;
}

abbrev page_result : Log → ReplayRequest → List LogEntry → Result LogError Page
page_result log r events =
    if ltb (r.after_sequence + length events) log.last_sequence
    then (if length events == 0 then err no_progress else ok (page_of log r events true))
    else ok (page_of log r events false)

page_order :
    (log : Log) (r : ReplayRequest) (events : List LogEntry)
    → IsWellFormed log
    → IsInside log r.after_sequence
    → (p : IsPage r log.entries 0 0 events)
    → NumberedFrom r.after_sequence events
      × (r.after_sequence + length events + length p.rest ≡ log.last_sequence)
page_order log r events v (below, above) p =
    let (n, sum) =
      after_cursor_inside r.after_sequence log.last_sequence log.entries v.numbered below
        (omega (arith, first_of_log-length log.last_sequence log.entries v.numbered)) in
    (
      (NumberedFrom-append r.after_sequence events p.rest (rw p.split at n)).0,
      omega (arith, ap length p.split, length-append events p.rest),
    )

finish_page-result :
    (log : Log) (r : ReplayRequest) (events : List LogEntry)
    → IsWellFormed log
    → NumberedFrom r.after_sequence events
    → finish_page log r events ≡ page_result log r events
unfolding finish_page
finish_page-result log r events v n =
    rw (bounds-IsWellFormed log v, page_last-NumberedFrom r.after_sequence events n)

rest_zero :
    (r : ReplayRequest) (events rest : List LogEntry)
    → 0 < r.max_events
    → IsFull r (0 + length events) (0 + total_bytes events) rest
    → length events ≡ 0
    → length rest ≡ 0
rest_zero r events [] pos full none_taken = refl
rest_zero r events (x ∷ rest) pos full none_taken = absurd (omega arith)

rest_nil : (rest : List LogEntry) → length rest ≡ 0 → rest ≡ []
rest_nil [] e = refl
rest_nil (x ∷ rest) e = absurd (omega arith)

complete_of :
    (r : ReplayRequest) (es events : List LogEntry) (p : IsPage r es 0 0 events)
    → length p.rest ≡ 0
    → events ≡ after_cursor r.after_sequence es
complete_of r es events p e =
    sym (p.split ∙ ap (λ l. events ++ l) (rest_nil p.rest e) ∙ append-nil events)

pub finish_page_lem :
    (log : Log) (r : ReplayRequest) (events : List LogEntry)
    → IsWellFormed log
    → 0 < r.max_events
    → IsInside log r.after_sequence
    → IsPage r log.entries 0 0 events
    → (page : Page) × (finish_page log r events ≡ ok page) × IsAnswer log r page
finish_page_lem log r events v pos inside p =
    let (order, sum) = page_order log r events v inside p in
    let run = finish_page-result log r events v order in
    elim (Bool-cases (ltb (r.after_sequence + length events) log.last_sequence)) [
      | inl more ↦ (
        page_of log r events true,
        run ∙ rw more (ground (arith, rest_zero r events p.rest pos p.full)),
        record {
          contents = p;
          in_order = order;
          last_is = refl;
          latest_is = refl;
          earliest_is = refl;
          more_iff = (λ _. ground arith, λ _. refl);
          complete = λ e. cc;
        },
      )
      | inr done ↦ (
        page_of log r events false,
        run ∙ rw done,
        record {
          contents = p;
          in_order = order;
          last_is = refl;
          latest_is = refl;
          earliest_is = refl;
          more_iff = (λ e. cc, λ h. ground arith);
          complete = λ _. complete_of r log.entries events p (ground arith);
        },
      )
    ]
