-- ===== src/Stage/Release.antt =====
-- stage/plan.go: ToolPlanLease.ReleaseContext, invokeRelease and finishRelease. A call of ReleaseContext
-- starts the goroutine of the release function at most once; the end of that goroutine, and the end of the
-- context of any lease_when call, each finish the release, and the first of them decides its result.
use spice_agent.Base.{
  ℕ, suc, ◌≤◌, ◌≡◌, refl, ap, Bool, true, false, if◌then◌else◌, if_intro, List, [], ◌∷◌, Option,
  none, some, arith, Bytes, ContextError,
}

-- What the release function does: it returns nil, it returns an error, or it panics.
pub data Returned : Type 0 where
  succeeds panics : Returned
  fails : Bytes → Returned

-- The results of a release, the texts of errors left out.
pub data Released : Type 0 where
  released release_panicked : Released
  release_failed : Bytes → Released
  not_completed : ContextError → Released

-- The two sync.Once of the lease, its result, how often its function was started, and whether the
-- goroutine of the function runs.
pub record PlanLease : Type 0 where
  pub started : Bool
  pub running : Bool
  pub invocations : ℕ
  pub result : Option Released

abbrev pub new_lease : PlanLease
new_lease = record { started = false; running = false; invocations = 0; result = none }

-- finishRelease
finish_with : Option Released → Released → Option Released
finish_with none r = some r
finish_with (some done) r = some done

unfoldable pub finish_release : Released → PlanLease → PlanLease
unfolding finish_with
finish_release r l = record l { result = finish_with l.result r }

-- The start in ReleaseContext.
unfoldable pub start_release : PlanLease → PlanLease
start_release l =
    if l.started
    then l
    else record l { started = true; running = true; invocations = suc l.invocations }

-- invokeRelease, from the end of the release function.
unfoldable pub result_of : Returned → Released
result_of succeeds = released
result_of panics = release_panicked
result_of (fails e) = release_failed e

unfoldable pub invoke_release : Returned → PlanLease → PlanLease
unfolding finish_release result_of
invoke_release r l =
    if l.running then finish_release (result_of r) (record l { running = false }) else l

-- The end of the context of a call that waits, which has started the release.
unfoldable pub expire_release : ContextError → PlanLease → PlanLease
unfolding finish_release
expire_release c l = if l.started then finish_release (not_completed c) l else l

pub data ReleaseEvent : Type 0 where
  calls : ReleaseEvent
  returns : Returned → ReleaseEvent
  expires : ContextError → ReleaseEvent

unfoldable pub release_step : ReleaseEvent → PlanLease → PlanLease
unfolding start_release invoke_release expire_release
release_step calls l = start_release l
release_step (returns r) l = invoke_release r l
release_step (expires c) l = expire_release c l

unfoldable pub release_steps : List ReleaseEvent → PlanLease → PlanLease
unfolding release_step
release_steps [] l = l
release_steps (e ∷ es) l = release_steps es (release_step e l)

-- The first end after the first call, in a sequence of events.
unfoldable pub first_end : Bool → List ReleaseEvent → Option Released
unfolding result_of
first_end started [] = none
first_end started (calls ∷ es) = first_end true es
first_end true (returns r ∷ es) = some (result_of r)
first_end true (expires c ∷ es) = some (not_completed c)
first_end false (returns r ∷ es) = first_end false es
first_end false (expires c ∷ es) = first_end false es

-- A result stays.
release_step-result :
    (e : ReleaseEvent) (l : PlanLease) (r : Released)
    → l.result ≡ some r
    → (release_step e l).result ≡ some r
unfolding release_step start_release invoke_release expire_release finish_release finish_with
release_step-result calls l r h =
    if_intro (λ (x : PlanLease). x.result ≡ some r) l.started (λ _. h) (λ _. h)
release_step-result (returns x) l r h =
    if_intro (λ (y : PlanLease). y.result ≡ some r) l.running
      (λ _. ap (λ o. finish_with o (result_of x)) h) (λ _. h)
release_step-result (expires c) l r h =
    if_intro (λ (y : PlanLease). y.result ≡ some r) l.started
      (λ _. ap (λ o. finish_with o (not_completed c)) h) (λ _. h)

release_steps-result :
    (es : List ReleaseEvent) (l : PlanLease) (r : Released)
    → l.result ≡ some r
    → (release_steps es l).result ≡ some r
unfolding release_steps
release_steps-result [] l r h = h
release_steps-result (e ∷ es) l r h =
    release_steps-result es (release_step e l) r (release_step-result e l r h)

abbrev lease_when : Bool → PlanLease
lease_when true = record { started = true; running = true; invocations = 1; result = none }
lease_when false = new_lease

lease_when-first_end :
    (started : Bool) (es : List ReleaseEvent)
    → (release_steps es (lease_when started)).result ≡ first_end started es
unfolding release_steps release_step start_release invoke_release expire_release first_end
    finish_release finish_with
lease_when-first_end true [] = refl
lease_when-first_end false [] = refl
lease_when-first_end true (calls ∷ es) = lease_when-first_end true es
lease_when-first_end false (calls ∷ es) = lease_when-first_end true es
lease_when-first_end true (returns r ∷ es) = release_steps-result es _ (result_of r) refl
lease_when-first_end true (expires c ∷ es) = release_steps-result es _ (not_completed c) refl
lease_when-first_end false (returns r ∷ es) = lease_when-first_end false es
lease_when-first_end false (expires c ∷ es) = lease_when-first_end false es

-- The result of a release, whatever calls, ends of the release function and ends of contexts come in
-- whatever order, is the first of the ends that follow the first call; there is none as long as no end
-- has come.
pub release_steps-first_end :
    (es : List ReleaseEvent) → (release_steps es new_lease).result ≡ first_end false es
release_steps-first_end es = lease_when-first_end false es

-- The counter of starts is one exactly when the release has started.
abbrev IsOnce : PlanLease → Type 0
IsOnce l = l.invocations ≡ (if l.started then 1 else 0)

release_step-IsOnce : (e : ReleaseEvent) (l : PlanLease) → IsOnce l → IsOnce (release_step e l)
unfolding release_step start_release invoke_release expire_release finish_release
release_step-IsOnce calls l h = ground arith
release_step-IsOnce (returns r) l h = if_intro IsOnce l.running (λ _. h) (λ _. h)
release_step-IsOnce (expires c) l h = if_intro IsOnce l.started (λ _. h) (λ _. h)

steps-IsOnce : (es : List ReleaseEvent) (l : PlanLease) → IsOnce l → IsOnce (release_steps es l)
unfolding release_steps
steps-IsOnce [] l h = h
steps-IsOnce (e ∷ es) l h = steps-IsOnce es (release_step e l) (release_step-IsOnce e l h)

-- Whatever happens to a new lease, its release function is started at most once.
pub release_steps-once : (es : List ReleaseEvent) → (release_steps es new_lease).invocations ≤ 1
release_steps-once es = let h = steps-IsOnce es new_lease refl in ground arith
