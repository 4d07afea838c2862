-- ===== src/Lib.antt =====
-- quic-flow: a QUIC backbone network (Go). A server keeps a session for each connected client,
-- checks heartbeats, sends messages and awaits their acknowledgements as promises; commands and
-- batches of them are sent over it, and releases are rolled out with callbacks and webhooks.
--
-- Modules, with the files that they model (paths from the repository's root):
--   Prelude           Boolean tests, lists, machine integers, Go's strings and maps
--   Session.Client    pkg/session/session.go: one session
--   Session.Manager   pkg/session/manager.go: the registry and the heartbeat check; below it
--                     Registry (Add, Remove, Get), Sweeps and Rounds (one round of the check),
--                     Strikes (several rounds), Calls (any history); `heartbeat` is the session's
--                     part of handlePing in pkg/transport/server/server.go
--   Session.Paging    ListClientsWithDetailsPaginated of the managers
--   Session.TimeWheel pkg/session/timewheel.go: the wheel of expiries; below it Rounds (onTick and
--                     processExpiredSessions, with History), OnTime
--   Session.Sharded   pkg/session/sharded_manager.go: the registry over shards; below it
--                     Refinement, ShardCount and Lists (Range and the lists), Placement
--   Batch.Task, Job   pkg/batch/executor.go: one client's task with its retries (below it Retries), and
--                     a job with its counters and status (below it Fitting and Counts)
--   Callback.Promise  pkg/callback/promise.go, errors.go: one promise; below it Once
--   Callback.Manager  pkg/callback/manager.go: the registry of promises; below it Removals (the
--                     loop of delayed removals), Counter, Delivery, Cleanup
--   Command.Manager   pkg/command/manager.go: the registry of commands and their status; below it
--                     History and Cleanup
--   Command.Multi     a command to several clients, of the same file; below it Landing, Counts and
--                     Responses
--   Hash              the FNV-1a hash of pkg/dispatcher/multi_queue.go
--   Dispatcher.Config, Queues
--                     pkg/dispatcher/multi_queue.go: how workers and tasks are split over queues;
--                     below Queues RoundRobin (Dispatch) and Order (DispatchByHash beside Dispatch)
--   Dispatcher.Workers, Batch
--                     pkg/dispatcher/dispatcher.go: the dispatcher with one queue, its handlers and
--                     response channels; DispatchBatchSync with the workers beside it: below Batch
--                     Due, Answers and Finishing (its invariant) and Results
--   Webhook.RateLimiter
--                     pkg/release/webhook/rate_limiter.go: the limiter of incoming requests; below
--                     it Bound, History, Blocks
--   Codec             pkg/transport/codec: frames of protobuf.go and optimized.go; below it Streams,
--                     Messages, Pooled (with pkg/pool)
--   Ssh.Protocol      pkg/ssh/protocol.go: the headers of SSH streams and port forward requests;
--                     below it RoundTrip
--   Release.Config, Merge
--                     pkg/release/models/config_merge.go: the settings of containers and clusters
--                     and their merge; below Merge Kept (the settings that nothing overrides), Precedence
--                     and Cluster
--   Release.Retry     pkg/release/callback/retry_queue.go: the queue of callbacks to send again;
--                     below it Bounds and Resend
--   Release.Engine    pkg/release/engine/engine.go: the run of a release over its targets by each
--                     strategy; below it Targets, Rolling, Canary and Ends (where runs leave a
--                     release), Calls (create, start, cancel, promote), Steps (calls and runs
--                     interleaved, the query and the save of a call as two steps), and below
--                     Steps Serial (no two calls at once)
--   Alert.Processor   pkg/alert/processor.go: the active alerts, their notifications and the
--                     silences; below it Boards, Own (one fingerprint alone), Views, Expiry
--   Monitoring.Histogram
--                     pkg/monitoring/histogram.go: latencies in buckets and their percentiles; below
--                     it Samples and Percentiles
--   Examples modules  tests, and the theorems at concrete inputs
--
-- A method that changes its receiver returns the new record. A map of pointers is a map of values:
-- a write through a pointer is a write to the entry. sync.Map and map are association lists, whose
-- order is one in which Go may range. atomic counters are bit patterns with wrap-around. Times are
-- arguments in nanoseconds; a negative duration reads 0 where it is only compared with durations
-- from 0 on. Calls are sequential: goroutines appear as steps in any order, and races inside one
-- method are not modelled, but for the calls of the release engine, whose queries and saves
-- interleave (Release.Engine.Steps). Logging and metrics without effect on the results are left out. The
-- fuel of next_power (Session.Sharded) is 62 doublings, enough up to 2 ^ 62. Every other
-- loop but one is over a list or a counted range, as the attempts of a batch task are.
-- As much fuel as there are targets serves executeRolling (Release.Engine), each batch of which takes
-- one at least.
--
-- Code that is not the repository's, and the network, are parameters: protobuf's Marshal and
-- Unmarshal (Codec.Messages), the writer of a stream (Codec), the message handlers
-- (Dispatcher.Workers), how the attempts of a task, the sending of a command, a callback and the
-- deployment to a target go (Batch.Task, Command.Manager, Command.Multi, Release.Retry,
-- Release.Engine), whether the database takes a write (Alert.Processor), and products of floats
-- (Release.Retry, Monitoring.Histogram).
--
-- Not modelled: QUIC and TLS (quic-go), protobuf encoding, databases (gorm), HTTP handlers, the
-- operating-system collectors, and the command line programs.
pub mod Alert
pub mod Batch
pub mod Callback
pub mod Codec
pub mod Command
pub mod Dispatcher
pub mod Hash
pub mod Monitoring
pub mod Prelude
pub mod Release
pub mod Session
pub mod Ssh
pub mod Webhook
