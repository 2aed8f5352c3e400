-- ===== src/Lib.antt =====
-- tsdb-operator: a Kubernetes operator that runs Prometheus clusters, with validated
-- configuration, scheduled backups to an object store, health checks, and sets of clusters.
--
-- The parts of the program, the files that model them, and how they interact:
--
-- - api/v1/prometheuscluster_types.go, api/v1/prometheusclusterset_types.go: the two custom
--   resources. `Types` has their specs and statuses as records, with the parts of Kubernetes
--   objects that the operator sets. Resource quantities and label selectors are type parameters,
--   for the program never looks into them. The kinds that they and groupversion_info.go register
--   are in `Registration`, with those of cmd/main.go.
-- - internal/webhook/prometheuscluster_webhook.go: `Webhook` is the validation, as the list of
--   field errors that the Go code appends; `Webhook.Admissible` describes the clusters that pass,
--   and `Webhook.Faults` each fault with its error and its path. The parsers of cron expressions
--   and of YAML are parameters.
-- - internal/controller/prometheuscluster_controller.go: `Reconcile` is the pass over one
--   cluster, step by step as in Reconcile, finalize, updatePhase, reconcileConfigMap and
--   reconcileHeadlessService; `Config` is renderConfig, additionalScrapePath and
--   wrapScrapeConfigs, and `Workload` buildStatefulSet with buildReloaderSidecar and
--   buildThanosSidecar. A pass calls the builders, the metrics and, for clusters with backup, the
--   scheduler's Register: `Reconcile.Scheduled` has both together. `Config.Reader` is a reader of
--   prometheus.yml that knows nothing of how it was written.
-- - internal/controller/prometheusclusterset_controller.go: `Sets` is the pass over a set:
--   allowedNamespaces, the loop with overlayBackup, the sort and the counts; with
--   internal/controller/prometheusclusterset_helpers.go, the sets that a change of a cluster
--   enqueues.
-- - internal/backup/backup.go: `Backups` is Register, over its map of entries and the cron
--   library, Start, RunOnce with snapshot, tarStreamToS3 and cleanupSnapshot, and byteReader;
--   `Backups.Schedules` has the schedule of each cluster, which is the contract of Register.
-- - The goroutines of tarStreamToS3, with internal/backup/exec.go and s3client.go: in
--   `Backups.Stream` the goroutine that runs tar and the caller, which uploads, take steps in any
--   order; they meet at the two ends of an io.Pipe and at a channel with room for one error.
--   `Backups.Stream.Clients` is NewSPDYExecutor, Exec, NewS3Client and StreamUpload. The rest of
--   `Backups` takes the streaming for one call, which `Backups.Stream.Refined` ties to the steps.
-- - internal/ha/ha.go: `Failover` is Start, checkAll, checkCluster and triggerFailover.
-- - internal/audit/audit.go: `Audit` is Open, Close, Record, Query, Prune, RowCount and the
--   pruner's Start, over the statements that they run on the table; `Audit.Table` says what the
--   statements do to its rows.
-- - pkg/api/server.go: `Api` has the table of routes and the handlers, and `Api.Listen`
--   ListenAndServe. The handlers call the Kubernetes client, RunOnce of `Backups`, and Record and
--   Query of `Audit`. gin and the HTTP server are parameters; a handler that panics has no answer
--   of its own.
-- - cmd/main.go: `Startup` has the flags with their defaults, the options of the metrics and
--   webhook servers, and the start: it makes the parts above, gives them to the manager of
--   controller-runtime, and ends with a status. `U` is the world in which the manager runs them.
-- - cmd/tsdb-ctl/main.go: `Restore` is the order of list, and latestKey; `Restore.Command` has
--   the two commands with their calls, their output and the exit statuses.
-- - internal/metrics/metrics.go: `Metrics` is SetPhase and DeleteCluster; the metric vectors of
--   the client library are the operations of `Registry`, which the other parts share. Their names
--   and labels are in `Registration`, with what SetupWithManager of each controller watches.
-- - Go's standard library, as far as the program uses it, is in `Base`: texts, splitting at
--   newlines and the %q and %d verbs (`Base.Text`, with a reader of quoted texts in
--   `Base.Text.Quoted`), the order of strings and sorting (`Base.Order`), the time stamp of an
--   object's key (`Base.Clock`), the int32 (`Base.Int`).
--
-- State and errors. A call that acts outside the program is an `Action W A`, a function from a
-- world `W` to a result and the world after it; a result is a value, an error with the reasons
-- that the program tells apart, or a run-time panic (`Base.Results`). What runs the calls (the
-- API server, controller-runtime's helpers, HTTP, the object store, cron, the clock) is a record
-- of such actions, a parameter. `Base.Hoare` has the rules by which assertions go through a
-- sequence of calls, and `Base.Total` those for calls that succeed. What the theorems rely on of
-- these services is stated in records of laws, as `Kube.Laws` does for the API server: it says
-- what a call that succeeds leaves in the store, while no other client writes during the pass.
-- `Reconcile.Available` says what it takes for every write to go through, and that an update lets
-- an object go that is being deleted and has no finalizers left.
-- `Kube.Memory`, `Audit.Memory` and `Backups.Memory` are servers in memory that have such laws,
-- and `Samples` has the clusters and packages that the examples run on; the examples of a part
-- are in its module `Tests`. A loop over a ticker is run over the list of what wakes it
-- (`Base.Loops`), and is over when its context is. Goroutines that run at once are a step relation
-- (`Run` in `Backups.Stream`): a run is any sequence of steps of either.
--
-- Bounds. Loops over data run over lists and are structural recursions, so no fuel is needed; a
-- stream has as much as its command's `step_bound`, and `drive-ends` says that this is enough.
-- Counts of a set's members are int32, durations int64 with their wrap-around (`Base.Int`), and
-- `Sets.Status` asks that the API server lists fewer than 2^31 clusters. The object's time stamp
-- has four digits for the year. The part of strconv.IsPrint above code point 0xFF is a parameter
-- of the quoting.
--
-- Not modelled: logging, status conditions (no code reads or writes them), and the generated deep
-- copies (api/v1/zz_generated.deepcopy.go): values of the model share nothing. Where an update
-- decodes the server's answer into the object sent, a field that the program reads afterwards is
-- read from the answer, except the wanted replicas of a cluster after its StatefulSet was
-- updated: the server is taken to answer with the replicas that it was sent. What a command in a
-- pod writes and the multipart upload are parameters: a command is a finite tree of writes,
-- which writes only until Exec returns, and an upload is a function of what its reads gave.
-- Timeouts, intervals and the constructors that set them are behind the parameters. The helpers
-- of the end-to-end tests (test/utils) are no part of the program.
pub mod Api
pub mod Audit
pub mod Backups
pub mod Base
pub mod Config
pub mod Failover
pub mod Kube
pub mod Metrics
pub mod Reconcile
pub mod Registration
pub mod Restore
pub mod Samples
pub mod Sets
pub mod Startup
pub mod Types
pub mod Webhook
pub mod Workload
