-- ===== src/Lib.antt =====
-- Vulcan, a distributed load-testing platform, modelled and verified: the control plane, which
-- keeps tests, workers and assignments in PostgreSQL, hands idle workers to tests, and sizes the
-- fleet of workers; the workers, which call it over HTTP and send the load; and the aggregator and the
-- dashboard, which bring the counts of the workers together and show them.
--
-- Parts, and how they interact. The services (internal/service) check requests and call the
-- repositories (internal/repository), which send SQL. A test is created as CREATED. To start it is
-- to claim it (CREATED to STARTING, one conditional UPDATE), to compute how many workers its rate
-- needs (internal/scheduler), to have the autoscaler (internal/autoscaler) or the provisioner make
-- up for missing workers and to wait for them, to reserve them with one assignment for each, and to
-- set it RUNNING; a step that fails rolls the claim back. Workers poll for their assignment and
-- report that it starts, completes or fails. A health loop (internal/reconciler) marks workers
-- OFFLINE whose heartbeat is old and fails their assignments and tests. The autoscaler compares the
-- usable workers with the demand of the tests, and provisions or drains. The handlers
-- (internal/api) put the services on HTTP, and the client of internal/controlplane calls them for a
-- worker. A worker's engine (internal/execution) sends requests at a fixed rate, its collector counts
-- them, and its buckets go over NATS to the aggregator (internal/aggregator), which merges them into a
-- window for each test and reports it every second to VictoriaMetrics, where the dashboard
-- (internal/dashboard) reads.
--
-- Files:
--   Prelude        names of the library, lists, the machine integer `int` as ℤ with wrap-around
--                  at 64 bits, rulesets
--   Errors         internal/api/apierrors/errors.go; `wrap` is fmt.Errorf with %w
--   Models         internal/models: Test, Worker, Assignment and their statuses
--   Rps            internal/scheduler/rps.go; Rps/Bounds has its theorems
--   Driver         what the code relies on of pgx and PostgreSQL: statements, transactions
--   Repository     internal/repository: Tests is test_repository.go (PostgresTestRepository), Workers
--                  is worker_repository.go, Assignments is assignment.go (PostgresWorkerRepository),
--                  Rows the WHERE and SET clauses that they share; Effects, Keys, Tables and Atomic
--                  say what an operation leaves committed, History is any sequence of operations,
--                  Fleet and Ledger (with Fleet/Steps and Ledger/Steps) what every sequence keeps of
--                  workers and assignments,
--                  Reservations, Claims, Outcomes and Releases what single operations achieve;
--                  Kept and Kept/Operations are for all that the other parts put together from them
--   Autoscaler     Capacity is capacity.go, Reconciler is reconciler.go; Capacity/Demand,
--                  Reconciler/Decision, Reconciler/Floor and Kept have their theorems
--   Validation     internal/validation/validation.go
--   Service        Tests is test_service.go with scheduler.go, Workers is worker_service.go,
--                  assignment.go and assignment_transition.go; Tests/Start, Tests/Stop, Reads
--                  and Kept have theorems
--   Ticker         the loops that select between a ticker and the end of a context
--   Health         internal/reconciler/worker_reconciler.go; Health/Sweep has its theorem
--   Metrics        internal/metrics: collector.go, bucket.go, request.go; Publisher is publisher.go;
--                  Metrics/Counts has the theorems
--   Runner         internal/worker: worker.go (Worker is Runner here), executor.go and runtime.go;
--                  Runner/Stops and Runner/Registration have its theorems, and
--                  Runner/Published what its buckets count
--   Runner/Online  the same worker with its calls of the control plane made, and its loops:
--                  heartbeat.go, polling.go, runtime.go; Completion, Lost and Stopping have the theorems,
--                  Replies relates it to Runner
--   Api            internal/api/response; Endpoints and Router are router/router.go, Tests is
--                  handlers/test_handler.go, Workers is handlers/worker_handler.go and assignment.go,
--                  Metrics is handlers/dashboard.go; Errors and Kept have the theorems
--   Client         internal/controlplane/client.go; Client/Serving and Client/Stops compose it with the
--                  router, the handlers and the services
--   Execution      internal/execution: scheduler.go, engine.go, http_executor.go, result.go, config.go;
--                  Execution/Pacing has its theorems
--   Aggregator     internal/aggregator: window.go, store.go, subscriber.go, snapshot.go and
--                  aggregator.go; Payload is victoria.go, Loop is reporter.go and the goroutines of
--                  aggregator.go; Windows, Conservation, Races, Delivery and Written have its
--                  theorems, the last two with the executions of Runner/Published
--   Victoria       internal/victoria/writer.go
--   Config         internal/config/config.go and internal/worker/config.go; Config/Checks has theorems
--   Provisioner    internal/provisioner/provisioner.go; Provisioner/Fleet has its theorem
--   Dashboard      internal/dashboard: parser.go, queries.go, models.go, service.go; Client is client.go;
--                  Parsing and Live have the theorems, Live with the payload of the aggregator
--   ControlPlane   cmd/server/main.go and internal/db/db.go; ControlPlane/Runs has its theorem
--   Processes      cmd/worker/main.go and cmd/aggregator/main.go
--   Examples       a small fleet, and in the modules below it the theorems at it
--
-- State and operations. `Db` is the committed content of the three tables, as lists of rows. `Conn`
-- has the committed database, the copy that an open transaction works on, and the number of calls
-- so far. An operation is a function from `Conn` to a result and a `Conn`, named as the method of the
-- source in lower case (`reserve_workers_for_test` is ReserveWorkersForTest). The last half of a
-- long method is a definition of its own (`reserve_rows`, `complete_rows`, `release_rows`,
-- `terminate_rows`). `Env` is the rest of the world: which calls fail,
-- which of those the server has carried out all the same (a commit or a statement on the pool whose
-- answer is lost), the clock, what other clients
-- commit between two calls, and which rows other transactions hold locked. A transaction sees what is
-- committed when it begins and the rows that it locks stay as they are until it ends, so other
-- clients act in the model at its begin and at statements on the pool. ORDER BY is a sort that
-- keeps ties in the order of the table. The key of test_workers and its reference to tests are
-- tests before the insertion; nothing else of the migrations is used.
--
-- A worker's execution is a function of the events that its `select` receives, in their order; what
-- the control plane and the engine answer is part of them. The result is `none` where the loop still
-- waits. Runner/Online has the transport of the calls as a parameter, which may lose a request or an
-- answer; its heartbeats are among what an execution receives, since they go out beside it.
-- The average of a bucket, a float64, is kept as the two operands of its division.
--
-- A handler is a function from `Conn` to a response and a `Conn`. A `Server` has what the handlers work
-- with; `serve` is the table of routes and `control_plane` the server as a client sees it when nothing
-- is lost on the way. encoding/json and the texts of errors are records of encoders and decoders, which
-- may fail; a theorem across the two ends asks that one reads what the other has written. chi, which
-- finds the route of a path, is a parameter of the server.
--
-- The scheduler's run is a function of what its loop receives and of the requests that end, in their
-- order. The aggregator is a table of windows with the address of each; the callback of a bucket is two
-- steps, between which a report may come. The arithmetic of float64, its printing and its parsing are
-- parameters, without laws but where a theorem names one. The provisioner's table of processes is a list
-- with each hostname once; the operating system says which calls fail.
--
-- Bounds. `int` has 64 bits and wraps around; theorems on rates assume that the rate and the
-- capacity add up to no more than the largest `int`. Times are natural numbers. The wait for workers
-- is recursion on the number of ticks of its ticker before its timeout, which is a field of the
-- service here (60 for 30 s at 500 ms), so it ends for any number. Nothing else is on fuel.
--
-- Not modelled: the texts of errors beyond their prefix, and logs; the mutex of the autoscaler, since
-- one cycle is one call; Go's strings.TrimSpace and ToUpper and the ULIDs, which are parameters; HTTP,
-- NATS and VictoriaMetrics themselves, the headers of requests, and the requests that the executor
-- sends, which are input and output; the environment and the path of a worker's command; signals and
-- sockets of the processes; two goroutines that touch the status of a worker at the same instant; the
-- traffic simulator of internal/metrics, which is random.
mod Prelude
pub mod Errors
pub mod Rps
pub mod Models
pub mod Driver
pub mod Ticker
pub mod ControlPlane
pub mod Repository
pub mod Autoscaler
pub mod Validation
pub mod Service
pub mod Health
pub mod Api
pub mod Client
pub mod Execution
pub mod Config
pub mod Provisioner
pub mod Dashboard
pub mod Metrics
pub mod Victoria
pub mod Aggregator
pub mod Runner
pub mod Processes
mod Examples
