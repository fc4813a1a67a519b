-- ===== src/Lib.antt =====
-- devflow-service: a verification library for the release and the runtime service.
--
-- The repository holds five Go services that bring an application from a manifest to a running
-- deployment. The release service owns a release: its steps, its status, the control loop over
-- what the cluster reports, timeouts, and the requests of an operator. The runtime service
-- watches the clusters and reports to it how a rollout goes. This library models these two and
-- proves what makes them correct.
--
-- Files.
--   Base                 booleans, lists, integers and tests that the other modules share
--   Text                 strings as lists of code points, with the functions of Go's package
--                        strings that the code calls. `lower_rune` changes the characters whose lower
--                        case is an ASCII letter, and leaves others such as É: no name that the code
--                        compares has one
--   Release.Types        internal/release/domain/types.go, release.go: the data
--   Release.Steps        DeriveReleaseStatusFromSteps, DefaultReleaseSteps; in its children
--                        normalizeReleaseStepKey (Keys), normalizeReleaseSteps and
--                        inferReleaseType (Canonical), applyReleaseStepUpdate and
--                        markReleaseStepCompleted (Update) of internal/release/service/release.go
--   Release.Names        deriveArgoApplicationName and what it calls, of the same file
--   Release.Artifact     deriveOCIApplicationArtifact and what it calls, of the same file, and the
--                        references of internal/release/service/release_prepare_runtime.go
--   Control.Lifecycle    internal/release/domain/control_status.go, control_rules.go
--   Control.State        control_state.go, control_decision.go, control_failure.go of that folder
--   Control.Engine       internal/release/control/engine.go, controller.go, errors.go
--   Control.Timeout      internal/release/control/timeout_evaluator.go, timeout_scanner.go
--   Control.Operation    internal/release/domain/control_operation.go
--   Control.Remediation  internal/release/domain/control_remediation.go
--   Control.Rolling      internal/release/strategy/rolling/controller.go
--   Service.World        the state of the service and its errors
--   Service.Store        internal/release/repository/repository.go
--   Service.Status       internal/release/service/release_status_manager.go,
--                        release_remediation_manager.go, loadRelease
--   Service.Step         UpdateStep of internal/release/service/release.go
--   Service.Artifact     Update and UpdateArtifact of the same file
--   Service.Timeouts     internal/release/service/release_timeout_runtime.go,
--                        release_operation_runtime.go
--   Service.Operations   internal/release/service/release_operation_manager.go
--   Service.Create       Create of internal/release/service/release.go
--   Service.Dispatch     DispatchRelease of that file, over the phases as a parameter; Service.Quiet:
--                        what it leaves to its caller
--   Service.Calm         the statements of the store when none of them fails
--   Service.Terminal     what the calls of the service keep, one module per file above
--   Intent.Table         internal/intent/repository/repository.go: the statements but the claims
--   Intent.Claim         the claims of that file; Intent.Lease: runs of statements
--   Intent.Worker        internal/release/service/release_executor.go, and CreateReleaseIntent of
--                        internal/intent/service/intent.go
--   Platform.Pagination  internal/platform/httpx/pagination.go
--   Runtime.Types        internal/runtime/domain/runtime_spec.go
--   Runtime.Store        internal/runtime/repository/memory.go: the specs; in its children the
--                        workloads and pods (Workloads), the revisions and operations (Revisions)
--   Runtime.Observed     internal/runtime/reconcile/release_observed_state.go: Deployments, with
--                        observation_mapper.go; Rollouts, BlueGreen, Canary; Normalize, the entry
--                        points, with normalizeObservedStateForReconcile of release_reconciler.go
--   Runtime.Reconcile    internal/runtime/reconcile/release_reconciler.go, with GetRelease of
--                        internal/runtime/bootstrap/release_runtime.go; Timeouts and Run in its
--                        children
--   Transport.Writeback  internal/release/transport/http/release_writeback.go, writeback_support.go
--   Bootstrap            internal/release/service/release_bootstrap.go: the gates of a release
--   Manifest.Store       internal/manifest/repository/repository.go; Manifest.Types: its rows
--   Manifest.Updates     the updates of internal/manifest/service/manifest.go
--   Manifest.Tekton      internal/release/transport/http/manifest_writeback.go
--   Manifest.Snapshot    internal/runtime/watch/tekton_cache.go: the snapshots and their result
--   Manifest.Reconciler  internal/runtime/reconcile/manifest_reconciler.go, with the writer of
--                        internal/runtime/bootstrap/manifest_runtime.go. Manifest.Rows, Kept,
--                        Handlers, Lost, Results and Repeats hold the proofs about manifests
--   Tests                concrete inputs and runs on them
--
-- How the parts interact. A strategy controller turns an observation into a decision; the engine
-- checks the decision against the lifecycle. The service keeps rows of releases, whose lifecycle
-- it infers from the status and the steps; the timeout evaluator, the operation rules and the
-- remediation rules decide, and the service carries the decision out by writes to the rows. Only
-- the engine asks the transition table: a step update and a timeout write a status without it.
--
-- State. The service's state is `World`: the rows of the three tables, and the answers that the
-- database gives to the calls that follow (`faults`): before each call the next answer is taken,
-- and an error there makes the call fail without a change. A theorem over every world is therefore
-- one over every pattern of database errors. Times are natural numbers and a nil time is `none`;
-- identifiers are natural numbers. Where the code makes a fresh id or reads the clock, the value
-- is an argument.
--
-- The runtime service keeps `MemoryStore`, an index of specs with what was observed of them. Its
-- reconciler reads a workload, makes step writes of it and sends them to the release service. What
-- it calls there, in Kubernetes and in the library for UUIDs are the fields of `Reconciler`; the
-- theorems take what the documentation of that library says as hypotheses (`IsUuidText`,
-- `IsUuidParse`). The counts of replicas are those of an `int32` that is not negative, and the
-- products and conversions that can leave that range wrap around in the model.
--
-- A build is reported in the same manner: the runtime service reads the pipeline runs and task runs
-- of Tekton, and its reconciler posts them to the handlers of the release service, which change the
-- manifest. A lost connection is not told apart from an answer that is an error. `Create` reads the
-- manifest and freezes the inputs of a release, and an intent or a direct call dispatches it.
--
-- The clients of Kubernetes and Argo that the gates use are the parameter `Cluster`, and what their
-- documentation says of reads and writes is the hypothesis `IsCluster`. What `Create` asks of other
-- services is the parameter `CreateClients`, and the phases of a dispatch are a parameter too.
--
-- A claim of an intent is one statement with `for update skip locked`; concurrent claims are
-- therefore modelled as statements in a sequence, in any order.
--
-- An `int` of Go has 64 bits; only the offset of a page can leave that range, and there the model
-- wraps around. Other counts are natural numbers.
--
-- Every loop goes over a list, and needs no fuel; `decimal` prints at most ten digits, which is
-- enough for the 32-bit progress of a step.
--
-- Not modelled: rendering of Kubernetes objects, the publishing of bundles, the requests that the
-- clients of Argo, Tekton and Kubernetes send, the creation of pipeline runs, the binding of HTTP requests, metrics and traces, the observers and queues
-- of the runtime service, which are client-go's caches around the parts above, and the other three
-- services.
pub mod Base
pub mod Text
pub mod Release
pub mod Control
pub mod Intent
pub mod Platform
pub mod Service
pub mod Runtime
pub mod Manifest
pub mod Bootstrap
pub mod Transport
pub mod Tests
