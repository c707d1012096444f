-- ===== src/Event/Mailbox.antt =====
-- event/event.go, TryPublish and the receives: what a best-effort observer keeps and counts.
use spice_agent.Base.{
  if_intro, suc, ◌+◌, ◌≤◌, ◌<◌, ◌≡◌, refl, Bool, true, false, ltb, length, length-append, List, [],
  ◌∷◌, ◌++◌, arith, All, All-append, max_u64, add64_exact,
}
use spice_agent.Event.Kind.{Kind}
use spice_agent.Event.Envelope.{Envelope}
use spice_agent.Event.Observer.{BestEffortObserver, mem_kind, try_publish}

-- The filter keeps the kind out.
abbrev pub Passes : List Kind → Envelope → Type 0
Passes excluded e = mem_kind e.kind excluded ≡ false

-- The mailbox is within its capacity and holds no excluded kind.
pub record IsBounded (o : BestEffortObserver) : Type 0 where
  pub within : length o.mailbox ≤ o.capacity
  pub passing : All (Passes o.filter.excluded) o.mailbox

-- What a publication does, by its answer and the counters.
pub record IsPublished (envelope : Envelope) (o : BestEffortObserver)
    (r : BestEffortObserver × Bool) : Type 0 where
  pub bounded : IsBounded r.0
  pub kept : r.1 ≡ true → r.0.mailbox ≡ o.mailbox ++ envelope ∷ []
  pub unkept : r.1 ≡ false → r.0.mailbox ≡ o.mailbox
  pub accounted :
      o.closed ≡ false
      → length r.0.mailbox + r.0.dropped + r.0.filtered
        ≡ suc (length o.mailbox + o.dropped + o.filtered)
  pub silent : o.closed ≡ true → r.0 ≡ o

-- TryPublish keeps the mailbox within its capacity and free of excluded kinds. The envelope is
-- appended when the answer is true, and the mailbox stays as it is when it is false. An open observer
-- accounts for every envelope once, in the mailbox or in one of the two counters; a closed one does
-- nothing. The counters are below their last value.
pub try_publish-IsPublished :
    (o : BestEffortObserver) (envelope : Envelope)
    → IsBounded o
    → o.dropped < max_u64
    → o.filtered < max_u64
    → IsPublished envelope o (try_publish o envelope)
unfolding try_publish
try_publish-IsPublished o envelope v few some_filtered =
    if_intro (IsPublished envelope o) o.closed
      (λ shut. record {
        bounded = v;
        kept = λ e. absurd (grind arith);
        unkept = λ _. refl;
        accounted = λ e. absurd (grind arith);
        silent = λ _. refl;
      })
      (λ unclosed.
        if_intro (IsPublished envelope o) (mem_kind envelope.kind o.filter.excluded)
          (λ out. record {
            bounded = record { within = v.within; passing = v.passing };
            kept = λ e. absurd (grind arith);
            unkept = λ _. refl;
            accounted = λ _. omega (arith, add64_exact o.filtered 1);
            silent = λ e. absurd (grind arith);
          })
          (λ passes.
            if_intro (IsPublished envelope o) (ltb (length o.mailbox) o.capacity)
              (λ room. record {
                bounded = record {
                  within = ground (arith, length-append o.mailbox (envelope ∷ []));
                  passing =
                      All-append (Passes o.filter.excluded) o.mailbox (envelope ∷ []) v.passing
                        (passes, tt);
                };
                kept = λ _. refl;
                unkept = λ e. absurd (grind arith);
                accounted = λ _. omega (arith, length-append o.mailbox (envelope ∷ []));
                silent = λ e. absurd (grind arith);
              })
              (λ full. record {
                bounded = record { within = v.within; passing = v.passing };
                kept = λ e. absurd (grind arith);
                unkept = λ _. refl;
                accounted = λ _. omega (arith, add64_exact o.dropped 1);
                silent = λ e. absurd (grind arith);
              })))
