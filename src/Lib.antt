-- ===== src/Lib.antt =====
-- ya-router: routing of model requests to providers, and the store of long-running operations.
--
-- The program is a Go daemon. A request names a model; the router (internal/routing/router.go)
-- finds the provider that serves it, by the model map, by a provider prefix, as a virtual model, in
-- the catalogs, or by default. A virtual model is an ordered list of targets. To choose one the
-- router reads the cooldowns of every provider of the registry (internal/provider/registry.go),
-- builds an availability snapshot (internal/availability/availability.go), and takes the first
-- target that the snapshot calls routable (internal/routing/selector.go). The outcome of a dispatch
-- goes back to the cooldown registry (internal/routing/cooldown.go), whose entries survive a restart
-- in a state file, and every step is counted (internal/routing/metrics.go). Beside this, the control
-- plane keeps its operations in a durable store (internal/operation), answers repeated mutations with
-- the first response (internal/control/idempotency.go), keeps the configuration under revisions
-- (internal/state), builds and retires providers (internal/provider/manager.go), and publishes them
-- as snapshots that requests lease (internal/runtime). Requests are counted (internal/telemetry).
--
-- Files and what they model:
--   Common            texts, keys, maps, lists, sorting, integers, with their lemmas
--   Provider          IDs and capabilities; a provider as the record of what it answers the router
--   Provider/Registry Register, NewRegistry, Unregister, Freeze, Get, All
--   Availability      NewSnapshot and Evaluate, with the normalised and joined keys
--   Config            the routing part of internal/config/types.go; Config/Validate: validate.go
--   Routing/Prefixes  internal/routing/prefixes.go
--   Routing/Decision, Routing/Selector   SelectPriorityTarget, SelectPriorityTargetExcluding
--   Routing/Metrics   the counters and their snapshot
--   Routing/Cooldown  Entry: keys and durations; Policy: cooldownReason, cooldownPolicy,
--                     RecordOutcome; Registry: Record, Clear, Cooldowns, OpenCooldownRegistry;
--                     File: the content of the state file, written and read back
--   Routing/Preferred the last successful target of a virtual model
--   Routing/Router    the snapshot of a router, resolveVirtualModelExcluding, ResolveNext,
--                     RecordPreferred; Router/Resolve: Resolve and what it calls
--   Routing/Diagnostics  VirtualModelReadinessFor
--   Operation/Types, Operation/Metadata   the data and what a request may hold
--   Operation/Store   the state of the store, events, pruning, persistence, subscribers
--   Operation/Lifecycle, Operation/Create Transition, UpdateProgress, Cancel, Create
--   Operation/Recovery                    Open and recoverLocked
--   Operation/Calls   any sequence of calls of a store
--   Runtime           internal/runtime: snapshots, leases, publication, retirement; Runtime/Steps: a
--                     run of it; Runtime/Acquire: the loop of Acquire among such steps
--   State             internal/state: the data and persist; State/Mutations: Apply, Rollback,
--                     SetEffective, Close; State/Load: load
--   Telemetry         internal/telemetry
--   Idempotency       internal/control/idempotency.go; Idempotency/Steps: concurrent requests
--   Provider/Lifecycle  descriptors, lifecycle events, health records
--   Provider/Manager  internal/provider/manager.go: RegisterFactory and build; Manager/Reconcile;
--                     Manager/Changes: Replace, Remove, UnregisterFactory, List, RefreshHealth
--   Dispatch          src/proxy.go: the failover loop of processProxyRequest; Dispatch/Upstream: the
--                     circuit breaker, retries, and the writer of an attempt
--   Tests             runs at concrete inputs
--
-- How the code is read:
--   * A method that changes its receiver is a function from the old state to the new one and the
--     result. A mutex makes each call one step, so an interleaving is a sequence of calls;
--     a call that locks several times is several steps, so
--     that the second part of Cancel, of Finish, of a release or of a publication runs on whatever
--     state others have left.
--   * A text is the list of its bytes. Trimming and lower case are those of ASCII; texts of the
--     configuration with other letters are outside the model.
--   * A Go map is an association list, and a loop over it goes through that list: the theorems hold
--     for every list, so for every order of iteration. Sorting is by insertion and keeps the order
--     of equal elements, where `sort.Slice` promises nothing about them.
--   * Each reading of the clock is an argument. A time is the number of nanoseconds since Go's zero
--     time; a duration is an integer of nanoseconds, and no sum comes near 64 bits. Sequence
--     numbers and counters are `uint64` and wrap around.
--   * Writing a state file has an outcome, which is an argument: done, failed before the rename, or
--     failed after it. Decoded JSON is the value that was encoded. The content of the file is a
--     component of the state.
--     The files of the state manager may be cut off at each point between two of its writes.
--   * A pointer to a shared object (a snapshot, a lease, an entry, a handle, an instance) is a
--     number, under which a map of the model holds the object.
--   * SHA-256 and the random IDs of operations are arguments; so are the digest of a configuration,
--     the paths in which two of them differ, the loader and the validator of the state manager. The
--     validator may change what it is given, and so returns it.
--   * What a provider answers during one request (health, catalog, allow list) is a component of
--     the provider, so it does not change during that request.
--   * Every loop is a structural recursion but the failover loop, which has fuel: one attempt more
--     than the virtual model has targets is enough; the retries of a request, whose fuel is the bound
--     of their loop; and the loop of Acquire, whose fuel is the list of what others do in each round: a
--     round without a publication or a close between its load and its attempt is enough.
--
-- Not modelled: the HTTP handlers of the control plane, the terminal client, the providers' own
-- clients, the translation of Anthropic requests, secrets, logging, the manager that runs
-- operations in goroutines, and the writers of the dispatcher that rewrite or read a response.
pub mod Common
pub mod Provider
pub mod Availability
pub mod Config
pub mod Routing
pub mod Operation
pub mod Dispatch
pub mod Runtime
pub mod State
pub mod Telemetry
pub mod Idempotency
pub mod Tests
