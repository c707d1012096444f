-- ===== src/Session/Examples.antt =====
-- daemon/session_gate.go, daemon/session_reconnect.go on one client.
use spice_agent.Base.{◌≡◌, refl, false, [], ◌∷◌, none, some, arith, Bytes, add64}
use spice_agent.Session.Types.{Lease, SessionState}
use spice_agent.Session.Gate.{
  try_head, try_acquire_mutation, grant_mutation, release_mutation, signal,
}
use spice_agent.Session.Reconnect.{
  register_reconnect, reconnect_step, step_head, fence_streams, advance_reconnect,
}
use spice_agent.Session.Store.{first_epoch}
use spice_agent.Session.Soundness.{IsSound}
use spice_agent.Session.Reachable.{
  Calls, done, then, commits, ends_commit, registers, reconnects, Calls-IsSound,
}
use spice_agent.Session.Fencing.{IsAdvance, reconnect_step-advances}
use spice_agent.Session.Grants.{IsGrant, try_acquire_mutation-granted}

abbrev client : Bytes
client = 99 ∷ []

-- A commit is taken and given back, a reconnect is registered and advances the epoch.
abbrev committed : SessionState
committed = (try_acquire_mutation first_epoch none 1).0

abbrev released : SessionState
released = release_mutation 2 committed

abbrev registered : SessionState
registered = (register_reconnect 1 released 3).0

abbrev advanced : SessionState
advanced = (reconnect_step false false client 1 3 registered).0

advanced-Calls : Calls first_epoch advanced
advanced-Calls =
    then first_epoch registered advanced
      (then first_epoch released registered
        (then first_epoch committed released
          (then first_epoch first_epoch committed (done first_epoch) (commits first_epoch none 1))
          (ends_commit committed 2))
        (registers released 1 3))
      (reconnects registered false false client 1 3 (omega arith))

Calls-IsSound_example : IsSound advanced
Calls-IsSound_example = Calls-IsSound advanced advanced-Calls

abbrev waiting_reconnect : SessionState
waiting_reconnect = record first_epoch {
  reconnect_waiters = record { token = 3; fencing = false } ∷ [];
}

reconnect_step-advances_example :
    (false ≡ false)
    × waiting_reconnect.epoch ≡ 1
    × IsAdvance 3 1 2 waiting_reconnect (reconnect_step false false client 1 3 waiting_reconnect).0
unfolding reconnect_step step_head fence_streams advance_reconnect add64
reconnect_step-advances_example =
    reconnect_step-advances false false client 1 3 1 2 waiting_reconnect (omega arith) refl

-- A commit waiter at the head of its queue.
abbrev queued_commit : SessionState
queued_commit = record first_epoch { mutation_waiters = 4 ∷ 7 ∷ [] }

abbrev commit_lease : Lease
commit_lease = record { token = 11; epoch = 1 }

try_acquire_mutation-granted_example :
    IsGrant (some 4) commit_lease queued_commit (try_acquire_mutation queued_commit (some 4) 10).0
unfolding try_acquire_mutation try_head grant_mutation signal
try_acquire_mutation-granted_example =
    try_acquire_mutation-granted queued_commit (some 4) 10 commit_lease
      (omega arith, (omega arith, tt)) refl
