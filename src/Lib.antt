-- ===== src/Lib.antt =====
-- cross-tab-worker-databus: one connection for many tabs. The tabs of an origin elect the worker that
-- owns a topic, share their records through storage, and pass publications on; a tab keeps a history
-- of publications for late subscribers and suppresses duplicates. The development models these parts:
--
--   Types      src/core/types.ts and src/utils/constants.ts: the records and enumerations.
--   Routing    src/core/routing.ts. Load: effectiveWorkerLoad. Select: selectLeastLoadedWorker,
--              selectActiveWorkers, selectRebalanceTarget, hasActiveOwner. Topics: isWildcardTopic,
--              topicMatchesPattern. Payload: approximatePayloadBytes. LoadLaws, SelectLaws,
--              OrderLaws, SortLaws, ActiveLaws and TopicsLaws prove.
--   Dedup      src/core/dedup-manager.ts, the class DedupManager. Manager: its state and
--              operations. Ttl, Entries, Bounded and History prove.
--   Replay     src/core/replay-pruning.ts (Pruning) and src/core/replay-manager.ts, the class
--              ReplayManager. Retry: withPersistenceRetry. Manager: record, deliver, the clears,
--              suspend, resetBuffers, the retention cleanup. Hydration: requestHydration, hydrate,
--              start, deliverReplay. Stats: getStats. Events: all of them as the events of one run.
--              The others prove.
--   Storage    src/core/storage-batch.ts, the class BatchingStorageWriter. Writer: its state and
--              operations. Reads, Keys, Flushing, Attempts and Live prove.
--   Workers    src/workers/port-reaper.ts, the class PortReaper. Reaper: its state and operations.
--              Tracking: all of them as one run. Reaping, Cadence and Interval prove.
--   Cluster    src/core/cluster.ts, the class WorkerClusterRuntime. Frames: what the tabs post, and
--              what a runtime does to the outside. Runtime: its state, and its reads and writes of
--              the shared records. Cache: the route owner cache, resolvePublishTarget,
--              rememberTopic. Registry: the reads and cleanups of the records. Control:
--              writeRecord, updateLoad, sendControl and the queries. Claims: subscribe,
--              unsubscribe, publish, publishBatch. Handoff: handoffAssignedTopics. Passes:
--              reconcile. Inbox: handleMessage. Lifecycle: start, stop, activate, pause and the
--              page events. Tasks: all of them as tasks. Posting, Claiming, Settled,
--              Authority, Release, Handover, Departure, Leaving and Pausing, Coherence, CacheLaws and
--              RegistryLaws prove.
--   Trace      src/core/trace.ts, the class DataBusTraceReporter. Histogram: the latency buckets,
--              percentileMs and roundMs. Window: what the record methods do to a metrics window.
--              Reporter: its state and operations. Calls: all of them as one run. Ranks, Queues,
--              Sound, Valid, Described, Capped, Delivery and Silence prove.
--   Validation src/utils/validation.ts. Checks: the option checks. Accepted and Options prove.
--   Codec      src/core/hash.ts (Hash) and src/core/publication.ts (Publication). HashLaws and
--              PublicationLaws prove.
--   Base       Boolean tests, lists, JavaScript's Map (Base.JsMap), strings (Base.JsString) and
--              numbers (Base.Number).
--   Tests      concrete runs at which the hypotheses of the theorems hold.
--
-- How the model stands to the code. An object is a record, a method a function from the old state
-- to the new one, with what it returns. The clock is an argument of the operations that read it,
-- once for each reading, and times are whole, non-negative milliseconds. A number that another
-- tab's record may have corrupted is an element of the interface Base.Number, which says what the
-- code relies on in floating-point numbers. An asynchronous operation is split where it awaits: the
-- call, and the settlement, are two operations, and a run is any sequence of them, so that a
-- theorem about runs holds for every interleaving of the tasks. A timer is the delay that it is
-- armed with. The durable store and the wrapped storage are parameters: the outcomes of the store's
-- operations are arguments, the storage is a record of functions whose writes may throw. To the
-- other parts the trace reporter, the handlers and the console are logs, or left out where nothing
-- depends on them.
--
-- Loops are structural recursion. The retry loop of withPersistenceRetry recurses on the script of
-- the attempts' outcomes; a script as long as the bound on the attempts is enough for it to end.
--
-- The cluster's registry is its records behind the JSON and the storage keys: a table per kind of
-- record, as reads through the batching writer see it. What reads see once a tab that leaves has
-- discarded the writes that the storage refused is a parameter of the configuration (discards).
-- The close of the channel, which the code queues as a task of its own, is logged where it is
-- queued. A task of a tab (a call, a page event, a heartbeat or a frame) runs at one instant of
-- the clock, and a handler that it calls does not call back into the runtime before it ends.
-- Whether the channel takes a frame may depend on all that has happened before; the payloads are a
-- parameter, and their sizes arguments.
--
-- A 32-bit value of the hash is its residue modulo 2 ^ 32, with the eight hexadecimal digits that
-- it may have as the fuel of its printing.
--
-- In the trace reporter a reading of the clock is a whole number or NaN, the average and the ranks
-- are exact fractions, and latencies are printed in tenths of a millisecond. A checked option is
-- what untyped code may pass, and a finite number in it is a fraction.
--
-- Not modelled: the bus (src/core/data-bus.ts), the transports, the framework hooks, and the
-- browser bindings. Of the modelled files, the snapshot of the runtime and
-- assertStructuredCloneable, which asks the platform, are left out, and that a runtime looks for
-- its tab's id among the records before it is made. In the constructor of DedupManager two adjacent
-- readings of the clock are one. In the port reaper a timeout is three times a whole interval, so
-- that the division by three is exact.
pub mod Base
pub mod Cluster
pub mod Codec
pub mod Dedup
pub mod Replay
pub mod Routing
pub mod Storage
pub mod Tests
pub mod Trace
pub mod Types
pub mod Validation
pub mod Workers
