-- ===== src/Lib.antt =====
-- Spice Agent: the turns of a run and the admission of runs to the engine, the event log of a run, the
-- ownership of a client's session, the idempotency of operations, and the interactions that wait for a
-- client.
--
-- The program is a daemon that runs agents for remote clients. The engine (agent/agent.go) admits runs
-- under identities that a ledger keeps (agent/run_identity.go, agent/prepared_execution.go) and executes
-- their turns. A run publishes its events through an
-- emitter or a sequencer (agent/agent.go, event/event.go) into a bounded log (event/log.go), from which clients replay pages and
-- follow live tails. A client owns its session through an epoch (daemon/session.go): it commits
-- mutations one at a time and holds stream leases (daemon/session_gate.go), and a reconnect fences
-- both before it moves the epoch (daemon/session_reconnect.go). The idempotency ledger
-- (daemon/idempotency.go) gives each operation one owner and its duplicates the owner's result. The hub of pending interactions
-- (daemon/pending.go) keeps the questions of the runs until a client answers and tells each client's
-- observers of them. A run leases a plan of tools, whose dispatcher is built from decorators
-- (stage/plan.go).
--
-- The files. Base has what all share: byte strings as lists of numbers below 256, 64-bit arithmetic
-- with its wrap-around (`add64`, `sub64`), Boolean tests, results.
-- Event models event/event.go: Kind the kinds, Envelope Reconstruct, EncodedSize and Terminal,
-- Sequencer NewSequencer and Next, Observer the filter and TryPublish.
-- Log models event/log.go. Types, Subscription, Store and Replay are the code: NewLogAfter is
-- `new_log_after`, Append `append_event`, replayPageLocked `replay_page`, Replay `replay`, Subscribe
-- `subscribe`, Close `close_log`, and the delivery goroutine `deliver`, one stage between two of its
-- blocking points at a time. Evict, Invariant, Append and Reserve are about Append; Cursor, Pages,
-- Gapless and Recovery about replay pages; Delivery and Deliver about one subscription; System,
-- Tracking, Growth, Joining, Subscribing and Reachable about all calls and goroutines together, and Served about
-- what a consumer sees.
-- Event.Mailbox is about TryPublish; Log.Feeding relates the sequencer to the log.
-- Interaction models interaction/interaction.go: scopes, requests and responses with their validation.
-- Agent models parts of agent/. Ledger and Transitions are run_identity.go: reserve is `reserve_identity`,
-- transition `transition`, abort `abort_identity`, retire `retire_identity`. Engine has what the engine keeps
-- of its runs and the calls on it under its lock, Lifecycle the prepared executions and runs with theirs:
-- commitPaused is `commit_paused`, Activate `activate`, complete and completeInert are `finalize`, Retire
-- `retire`. Tokens, Counted, Counting and Holding are about the ledger; Admission, Admitting, Handles,
-- Preparing, Steps and Reached about the engine with its handles, one call at a time and in any order, and
-- Draining about a stopped one. Emitter is runEmitter with persist and emit, Emission relates it to the log;
-- Turn has the emissions of a turn and consumeStream, Execute executeTurn,
-- Tools appendToolRound and emitToolStarted; Balance, Turns, Openings and Rounds follow the events of a turn, and
-- Cancelled one that is cancelled at the end of its stream.
-- Hub models daemon/pending.go. Types and Limits are the values and the validation of the limits;
-- Watchers one observer, its queue and the stages of its goroutine; Store the hub and its partitions;
-- Operations BindRun, Release, Request, Respond and complete; Observing Snapshot, Subscribe, the
-- deliveries and FenceObservers; Closing Close. Booking, Accounts and Shares say what the counters stand
-- for, Isolation, Publish, ShareCalls, ShareWatchers and ShareDeliveries follow one client's share of
-- them, Sound, SoundCalls and SoundObservers the whole hub through each call, Reachable every sequence of
-- steps; Takers, Funding and Bounds are what follows. Runs, RunCalls, RunDrops,
-- RunEnds, RunObservers and RunReached count the bound runs. Partitions, KeptCalls and Kept take what every
-- change of one partition keeps to every reachable hub; Replay says what a subscriber makes of its deltas,
-- Changes, Mirror and Watched use Kept for it, Observers and Answers state the outcome.
-- Stage models parts of stage/plan.go: Release the release of a leased plan as a sequence of events,
-- Decorators snapshotDefinitions, sameDefinitions and ApplyToolDispatchDecorators, and Nesting what a
-- decorated dispatcher consists of.
-- Restart models plugin/host/restart.go: Policy is the code, Backoff its delays in closed form.
-- Session models daemon/session.go, session_gate.go, session_reconnect.go and session_errors.go.
-- Types, Gate and Reconnect are what the calls do to the state of one client under the lock;
-- Store is the store of the clients and Turns the calls on it, with one turn of a waiting call's loop
-- as one function.
-- Soundness and Epochs keep the invariant, Reachable takes it over every sequence of calls, Fencing
-- is about the advance of the epoch and Grants about the queue of commits.
-- Ledger models daemon/idempotency.go: Operations has the part of Do that assigns an operation,
-- Settlement the classification of the executor's result, the two ends of an operation and the answers
-- to duplicates; Ownership and Repeats relate them, Kept follows an operation through other calls of
-- Do, and Later is about a turn after them.
--
-- Concurrency. Every Go function modelled holds one lock, so a call is one step, and an interleaving
-- is a sequence of steps (Log.System, Session.Reachable, Hub.Reachable, Agent.Reached). A goroutine that blocks is a stage in the
-- state; a call that waits is repeated by turns. Pointers that the code compares are tokens.
--
-- Bounds. No definition runs on fuel without a reason: the loop of Fresh has the four rounds of the
-- source, and the eviction, the pages and the deliveries recurse on lists. `drain` takes the number of
-- stages, and the theorem about it says which number is enough. Go ints that the constructors check
-- to be positive are natural numbers.
--
-- Parameters. json.Valid and json.Marshal are arguments of the definitions that use them; dispatchers and
-- decorators of tools are known by what their methods answer; a clock reading, random bytes and the tokens
-- of new pointers are arguments of the call. A context is its error, if it has ended. A turn takes what its
-- surroundings do at each emission from a sequence of moments, its requests and streams from the record
-- TurnParts, with KeepsTurn as what it asks of the tool round, and the tool round its checks, occurrences,
-- dispatches and messages from the record ToolParts; a dispatch reports to the emitter only until it
-- answers. MakesTerminals, that every terminal occurrence is made and encoded, fails for a call whose ID
-- and name together take over about 900 bytes as JSON.
--
-- Not modelled: nil receivers and nil contexts, error texts, the copies that accessors make, the
-- Recorder of event/event.go, SessionStore.Shutdown and StreamLease.setCallerStop, which wait or keep a
-- callback, the waits at the end of Request, FenceObservers and Close, plan identities, the lookup of a
-- definition and the guards of stage/plan.go, the rest of the plugin host, and of the agent package the
-- occurrences of tools, the loop over the turns, suspension, interactions, which emit their events beside a
-- turn's, snapshots and plan identities, with panics of observers and providers; the transport, process and client packages.
mod Base
pub mod Event
pub mod Log
pub mod Session
pub mod Stage
pub mod Ledger
pub mod Restart
pub mod Interaction
pub mod Hub
pub mod Agent
