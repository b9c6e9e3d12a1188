-- ===== src/Lib.antt =====
-- The controllers of the OCM Kubernetes toolkit. Custom resources of the kinds Repository,
-- Component, Resource, Replication and Deployer (api/v1alpha1) have one controller each
-- (internal/controller): a Component refers to a Repository and chooses a version of an OCM
-- component in it, a Resource refers to a Component and fetches one of its resources, a Replication
-- copies a component to another repository, and a Deployer applies a resource to the cluster. They
-- share the effective configuration, the choice and comparison of versions, and the verification of
-- signatures (internal/ocm), the fetching of ready objects (internal/util), and the conditions and
-- events of an object (internal/status, internal/event). The deployer registers watches with an
-- informer manager (internal/controller/deployer/dynamic).
--
-- Files and code:
-- - Prelude, Sorting: shared names, lists over native numbers, a sort, and the order on bytes.
-- - Errors: errors as values, errors.Is, errors.Join and wrapping; the error types of
--   internal/util/k8s.go and the sentinels of internal/ocm/hash.go. A call of another package
--   returns a Reply or an optional Fault.
-- - Api: the types of api/v1alpha1 that the kinds share. An Object has a spec, the shared part of its
--   status, and the part that is the kind's own. Api.History: AddHistoryRecord and IsInHistory of
--   api/v1alpha1/replication_types.go; a panic is none.
-- - Library: the conditions and finalizers packages as a record of functions, with their laws as a
--   second record; Library.Sample: functions that meet the laws.
-- - Exec: the body of a handler, a function on a state that goes on, returns or fails; what was
--   written before stays written. Exec.World: the state, that is the object in memory, the events
--   that are recorded and the calls that leave the process.
-- - Status: MarkNotReady, MarkAsStalled, MarkReady, UpdateStatus (internal/status) and New
--   (internal/event/event.go).
-- - Kube: Get, GetNamespaced and GetReadyObject (internal/util/k8s.go).
-- - Config: GetEffectiveConfig (internal/ocm/ocm.go).
-- - Hash: internal/ocm/hash.go and hashBytesHex of internal/ocm/context_cache.go; Hash.Compare:
--   CompareCachedAndLiveHashes.
-- - Versions: RegexpFilter, GetLatestValidVersion, IsDowngradable (internal/ocm/ocm.go) and
--   DetermineEffectiveVersionFromLiveRepo (internal/controller/component/component_controller.go).
-- - ContextCache: GetSession, Clear and Start of internal/ocm/context_cache.go; the LRU caches are an
--   interface. ContextCache.Configure: ConfigureContextForSecretOrConfigMap (internal/ocm/ocm.go).
-- - Informers: internal/controller/deployer/dynamic/informer_manager.go. Informers.Workers: Start and
--   work of that file as a step relation. Register is two steps of a goroutine, the lookup and the
--   rest. Unregister is the lookup and then up to four: the loop of stopTask over the tasks,
--   which is taken to see one state of the map, RemoveEventHandler, RemoveInformer, and Delete. The
--   change of the map and the change of the gauge that goes with it are one step.
--   Informers.Workers.Alone: the parts without another goroutine between them are Unregister.
--   Informers.Delivery: the event handler of Register.
-- - Signatures: internal/ocm/verification.go.
-- - Reconcile: what the Reconcile functions share: fetching, the deferred UpdateStatus, finalizers,
--   and the removal of a finalizer once no object refers to the one under deletion.
-- - Repository, Component, Resource, Replication: the controllers of internal/controller; each has
--   its data and what it takes from other packages in a child module. Resource.Access:
--   internal/ocm/resource.go; Resource.Fields: setResourceStatus and what it calls.
-- - Deployer: Reconcile of internal/controller/deployer/deployer_controller.go. Deployer.Manifest:
--   DownloadResourceWithOCM; Deployer.Contents: getResource and decodeObjectsFromManifest;
--   Deployer.Rollout: applyConcurrently, trackConcurrently and Untrack; Deployer.Watching: the
--   functions of the informer manager that the deployer is given; Deployer.Objects: the references
--   to deployed objects; Deployer.Digest: digestSpec; Deployer.Ownership: labels.go and
--   annotations.go; Deployer.Downloads: Load of the cache of downloads (deployer/cache).
-- - Cel: BindingToOCI of internal/cel/functions/oci.go.
-- - DescriptorList: internal/ocm/descriptors.go.
-- - Tests: the theorems at concrete inputs.
--
-- Numbers and bounds: counters, gauges and times are natural numbers, so that a gauge stops at
-- 0 where the one of Prometheus would be negative; the history capacity is an integer.
-- Every loop of the code is a recursion over a list, so no fuel is needed; the loop of the informer
-- manager's goroutines is a step relation. Go maps are lists of entries in the order in which a loop
-- meets them. The goroutines of an error group are taken in the
-- order in which they end. A pointer that the code takes to be there is a value of the model; a digest
-- that may be missing is an option. A label that is cut at 63 bytes loses a character that the cut
-- would split.
--
-- Parameters: the Kubernetes client, the OCM library with its sessions and repositories, semver,
-- regular expressions, SHA-256, cel-go, JSON, the LRU cache and the informers of
-- controller-runtime; the controllers take GetSession as a parameter. What a property
-- assumes of them is among its hypotheses.
--
-- Not modelled: the registration of the CEL function, the end of a context but where the code selects on
-- it, logging, the transformer of
-- cached objects, and the process itself (cmd/main.go). A panic of AddHistoryRecord ends a
-- reconciliation like an error; the metadata of events and the times of conditions are left out;
-- texts of errors that name objects are shortened.
pub mod Prelude
pub mod Errors
pub mod Api
pub mod Library
pub mod Exec
pub mod Status
pub mod Kube
pub mod Config
pub mod Sorting
pub mod Hash
pub mod Versions
pub mod Informers
pub mod Reconcile
pub mod Repository
pub mod Signatures
pub mod Component
pub mod Resource
pub mod Replication
pub mod ContextCache
pub mod Deployer
pub mod Cel
pub mod DescriptorList
pub mod Tests
