-- ===== src/Hub/Reachable.antt =====
-- daemon/pending.go: every hub that the calls and the goroutines can reach from a new one.
use spice_agent.Base.{ℕ, Bool, Option, Bytes, ContextError}
use spice_agent.Interaction.{Scope, Request, Response}
use spice_agent.Hub.Types.{HubError, PendingCall, CallResult}
use spice_agent.Hub.Watchers.{WatcherReady}
use spice_agent.Hub.Store.{PendingHub}
use spice_agent.Hub.Operations.{bind_run, release_run, request, respond, complete_request}
use spice_agent.Hub.Observing.{
  subscribe_pending, detach, deliver_active, in_partition, fence_observers,
}
use spice_agent.Hub.Closing.{close_hub}
use spice_agent.Hub.Sound.{IsSound, bind_run-IsSound, release_run-IsSound}
use spice_agent.Hub.SoundCalls.{request-IsSound, respond-IsSound, complete_request-IsSound}
use spice_agent.Hub.SoundObservers.{
  stopping_stage, subscribe_pending-IsSound, detach-IsSound, deliver_active-IsSound,
  stopping_stage-IsSound, fence_observers-IsSound, close_hub-IsSound,
}

-- One call on the hub under its lock, or one stage of a goroutine.
pub data Step (json_valid : Bytes → Bool) : PendingHub → PendingHub → Type 0 where
  binds :
      {hub : PendingHub}
      → (client : Bytes) (scope : Scope) → Step json_valid hub (bind_run hub client scope).0
  releases : {hub : PendingHub} → (t : ℕ) → Step json_valid hub (release_run t hub)
  requests :
      {hub : PendingHub}
      → (ended : Option ContextError) (scope : Scope) (r : Request)
      → Step json_valid hub (request json_valid ended hub scope r).0
  responds :
      {hub : PendingHub}
      → (client : Bytes) (scope : Scope) (response : Response)
      → Step json_valid hub (respond json_valid hub client scope response).0
  completes :
      {hub : PendingHub}
      → (call : PendingCall) (result : CallResult)
      → Step json_valid hub (complete_request call result hub).0
  subscribes :
      {hub : PendingHub}
      → (ended : Option ContextError) (client : Bytes)
      → Step json_valid hub (subscribe_pending ended hub client).0
  detaches :
      {hub : PendingHub}
      → (e : HubError) (id : ℕ) (client : Bytes)
      → Step json_valid hub (in_partition (detach hub.limits e id) client hub)
  delivers :
      {hub : PendingHub}
      → (ready : WatcherReady) (id : ℕ) (client : Bytes)
      → Step json_valid hub (in_partition (deliver_active ready id) client hub)
  winds_down :
      {hub : PendingHub}
      → (ready : WatcherReady) (id : ℕ) (client : Bytes)
      → Step json_valid hub (in_partition (stopping_stage ready id) client hub)
  fences :
      {hub : PendingHub} → (client : Bytes) → Step json_valid hub (fence_observers hub client).0
  closes : {hub : PendingHub} → Step json_valid hub (close_hub hub)

pub data Reaches (json_valid : Bytes → Bool) (start : PendingHub) : PendingHub → Type 0 where
  starts : Reaches json_valid start start
  follows :
      {hub next : PendingHub}
      → Reaches json_valid start hub
      → Step json_valid hub next
      → Reaches json_valid start next

Step-IsSound :
    (json_valid : Bytes → Bool) (hub next : PendingHub)
    → Step json_valid hub next
    → IsSound hub
    → IsSound next
Step-IsSound json_valid hub _ (binds client scope) s = bind_run-IsSound hub client scope s
Step-IsSound json_valid hub _ (releases t) s = release_run-IsSound t hub s
Step-IsSound json_valid hub _ (requests ended scope r) s =
    request-IsSound json_valid ended hub scope r s
Step-IsSound json_valid hub _ (responds client scope response) s =
    respond-IsSound json_valid hub client scope response s
Step-IsSound json_valid hub _ (completes call result) s = complete_request-IsSound call result hub s
Step-IsSound json_valid hub _ (subscribes ended client) s =
    subscribe_pending-IsSound ended hub client s
Step-IsSound json_valid hub _ (detaches e id client) s = detach-IsSound e id client hub s
Step-IsSound json_valid hub _ (delivers ready id client) s =
    deliver_active-IsSound ready id client hub s
Step-IsSound json_valid hub _ (winds_down ready id client) s =
    stopping_stage-IsSound ready id client hub s
Step-IsSound json_valid hub _ (fences client) s = fence_observers-IsSound hub client s
Step-IsSound json_valid hub _ closes s = close_hub-IsSound hub s

pub Reaches-IsSound :
    (json_valid : Bytes → Bool) (start hub : PendingHub)
    → Reaches json_valid start hub
    → IsSound start
    → IsSound hub
Reaches-IsSound json_valid start _ starts s = s
Reaches-IsSound json_valid start next (follows {hub = hub} before step) s =
    Step-IsSound json_valid hub next step (Reaches-IsSound json_valid start hub before s)
