-- ===== src/Lib.antt =====
-- The inference manager routes the requests of tenants for the inference of models to engines. A
-- server keeps a routing table for each tenant (server/internal/router) and a processor
-- (server/internal/infprocessor): the processor queues a task for each request, chooses an engine
-- for it by the routing table, sends it over the stream to this engine, and hands the results that
-- come back to the HTTP handler; it tries a task again where an engine fails. Engines report their
-- status and their models, and are removed when their stream ends. The task exchanger
-- (server/internal/taskexchanger) lets servers report their engines to each other, so that a task
-- reaches an engine that is connected to another server. A rate limiter (server/internal/rate)
-- stands before the handlers. On the side of the engines, the runtime manager
-- (engine/internal/runtime) pulls models and watches the runtimes that serve them, and an autoscaler
-- (engine/internal/autoscaler) sets the number of replicas of a runtime.
--
-- Base        helpers: Boolean tests and lengths on the native ℕ, association lists in place of Go
--             maps (Base.Maps: insert, lookup, delete), lists in place of sets (contains, add,
--             remove), and the integers.
-- Router      RouteMap: `routeMap` of route_map.go, an operation for each method (getRoute,
--             addRoute, deleteRoute, addOrUpdateEngine, deleteEngine, findLeastLoadedEngine).
--             Routing: `R` of router.go. Table holds the specification of a table as two relations,
--             Load and LeastLoaded the choice of an engine, Valid, Changes and Tenants the invariants.
-- Infprocessor  Task: task.go. State: the state of `P` in infprocessor.go. Engines:
--             AddOrUpdateEngineStatus, RemoveEngine, ProcessTaskResult, the heartbeats and the
--             counters. Schedule: scheduleTask and what it calls, and a round of Run. Results:
--             enqueueAndProcessTask with canRetry and isTaskCompleted; Results.Response:
--             writeTaskResultToHTTPRespCh and processing_stats.go. Send: sendTask and the Send methods
--             of the handlers, sendTaskToEngines. Status: DumpTenantStatus, DumpStatus and
--             LastEngineHeartbeats.
-- Taskexchanger  Sender: task_sender.go. Receiver: task_receiver.go. Exchanger: the exchanger `E` of
--             task_exchanger.go. Sender.Removal, Receiver.Change, Exchanger.Servers and Exchanger.Pods
--             hold the proofs.
-- Rate        Store: config.go, the store in memory of store.go and limiter.go. Clock: the clocks of
--             the store in memory, which take reads, and of gcra_ratelimit.lua. Bound: what the store
--             admits.
-- Runtime     AddressSet: the address set of runtime.go in engine/internal/runtime. Events: events.go.
--             Manager: the state of manager.go, closeWaitChs, and what callers ask of it. World: the
--             answers of the interfaces. Pull, Lifecycle, Readiness and Lora: the handlers of the
--             events (processPullModelEvent and the others). Machine: RunStateMachine. Below
--             Machine, Accounts follows the channels, Settled the runtimes, Readied a pull from its
--             start to its end; Faults are errors that reach further than their event.
-- Pods        the tests of engine/internal/runtime/pod_helper.go. Drifted: drifted_pod_updater.go.
--             Activator: model_activator.go. Adapters: the status and the target of lora_helpers.go,
--             with Reconciler (lora_reconciler.go) and Rebalancer (lora_rebalancer.go). The modules
--             below these hold the proofs.
-- Sse         the split of common/pkg/sse/scanner.go, and the scan of a stream with its buffer.
--             Delimiters: where an event ends. RoundTrip: whole streams.
-- Engine      the registered engines of engine/internal/processor/processor.go, with IsReady. Runtimes:
--             the attempts of sendHTTPRequestToRuntime. Replies: processTask and
--             sendRequestToRuntime. Ready: runs of the processor. Sequence and Relay hold proofs on
--             the results.
-- Modelcache  server/internal/server/model_cache.go. Entries: where they come from. Fresh: how old an
--             answer may be.
-- Autoscaler  Scaler: `scale` of engine/internal/autoscaler/builtin.go and the scaling configuration of
--             config.go. Bounds: what it writes. Registry: Register and Unregister.
-- Examples    concrete runs.
--
-- A Go map is an association list; its iteration order is the order of the list, and a theorem about
-- a choice holds for every order of the list. A task is shared by pointer: tasks live in a heap, and
-- the queue, the map of tasks in progress and the timers hold references. The methods of the
-- processor run under one mutex, so each is a function on the state; where the source releases the
-- lock in between, the parts are functions of their own (assign_task_to_engine after
-- find_most_preferred_engine), so that a step of another goroutine can stand between them. The loop
-- over the results of a task is a fold over the items that come, each with the time at which it is
-- read and the engine that the task has then. The scan of server-sent events has fuel, and
-- more than there are bytes is enough; no other recursion needs any. Its buffer has 4,096 bytes, as
-- in the source; what the scanner of the Go library does with a buffer is as its documentation says. Whether a stream takes a
-- message is a parameter, as is the function that processes a result. Times are nanoseconds, or
-- ticks in the rate limiter: with `rate` tokens to a period, a second is `rate * 10^9` ticks, so
-- that the interval between two tokens is a whole number of ticks where the source has floats. The store in
-- memory reads its own clock, which counts the seconds a second time, as microseconds; what it
-- admits is stated by that clock. The autoscaler's metrics are in a common unit and its rates in thousandths.
--
-- The runtime manager is one state machine: the events of callers and of goroutines come in any
-- order, and a run is a list of them, each with the answers that its handler gets. A channel is a
-- number; the signals of the state are what was done with the channels. A caller that gave a channel
-- receives from it; an event made inside the manager has a channel without a receiver.
--
-- Not modelled: the transport (gRPC, HTTP, Kubernetes, Redis), logging and metrics but for the
-- count of errors, the cancellation of a context, the handlers of the server
-- (server/internal/server but for its cache of models), and of the engine the clients of the
-- runtimes, the requests that its processor builds and the pullers of models. They are transport for the most part, or await a
-- model of their own.
pub mod Base
pub mod Router
pub mod Infprocessor
pub mod Taskexchanger
pub mod Rate
pub mod Runtime
pub mod Pods
pub mod Sse
pub mod Engine
pub mod Modelcache
pub mod Autoscaler
pub mod Examples
