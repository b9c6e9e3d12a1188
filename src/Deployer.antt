-- ===== src/Deployer.antt =====
-- internal/controller/deployer.
pub mod Digest
pub mod Objects
pub mod Ownership
pub mod Downloads
pub mod References
pub mod Ops
pub mod Contents
pub mod Manifest
pub mod Rollout
pub mod Grouped
pub mod Applied
pub mod Watching
pub mod Events
pub mod Untracked
pub mod Fresh
pub mod Cached
pub mod Deployed
use ocm_k8s_toolkit.Prelude.{
  ℕ, String, str_append, Bool, true, false, Option, none, some, List, [], ◌∷◌, ◌==◌, map,
  if◌then◌else◌,
}
use ocm_k8s_toolkit.Errors.{
  Error, Fault, new, external, wrap, join_errors, ignore_not_found, Outcome, ok, err, Reply, got,
  fault, failure,
}
use ocm_k8s_toolkit.Api.{Object, ObjectKey}
use ocm_k8s_toolkit.Library.{Library}
use ocm_k8s_toolkit.Kube.{Fetched, found, missing, Fetch, get_ready_object, is_unavailable}
use ocm_k8s_toolkit.Config.{Providers}
use ocm_k8s_toolkit.ContextCache.{Lru}
use ocm_k8s_toolkit.Exec.{
  Flow, next, halt, fail, halt_with, Exec, ◌>>=◌, ◌>>◌, pure, stop, raise, attempt, modify, check,
  when,
}
use ocm_k8s_toolkit.Exec.World.{World, Result}
use ocm_k8s_toolkit.Status.{mark_ready, update_status}
use ocm_k8s_toolkit.Reconcile.{
  select_indexed, set_finalizers, mark, refuse, no_requeue, requeue_in, result_of, error_of,
  resource_is_not_available,
}
use ocm_k8s_toolkit.Component.Ops.{ComponentInfo}
use ocm_k8s_toolkit.Resource.Ops.{Resource, ResourceInfo, DeployerRef}
use ocm_k8s_toolkit.Deployer.Downloads.{Downloads as DownloadCache, load}
use ocm_k8s_toolkit.Deployer.Objects.{DeployedObject, update_deployed_object_status_references}
use ocm_k8s_toolkit.Deployer.Ops.{
  DeployerSpec, DeployerStatus, Deployer, DeployerOps, ApplyOps, WatchOps, Process, start_process,
}
use ocm_k8s_toolkit.Deployer.Manifest.{on_world, download_resource_with_ocm}
use ocm_k8s_toolkit.Deployer.Rollout.{
  Deployable, apply_concurrently, track_concurrently, untrack, resource_watch_finalizer,
}

abbrev pub apply_failed_reason : String
apply_failed_reason = "ApplyFailed"

abbrev pub resource_not_synced_reason : String
resource_not_synced_reason = "ResourceNotSynced"

-- the index `.spec.resourceRef` on deployers
unfoldable pub resource_ref_index : DeployerRef → List String
resource_ref_index d = str_append d.resource_namespace (str_append "/" d.resource_name) ∷ []

-- the map function of the watch on resources
unfoldable pub resource_requests : Library → Reply (List DeployerRef) → ObjectKey → List ObjectKey
unfolding select_indexed resource_ref_index
resource_requests lib (fault f) key = []
resource_requests lib (got l) key =
    map (λ d. record { namespace = d.namespace; name = d.name })
      (select_indexed resource_ref_index (lib.key_text key) l)

-- What the status of a ready resource holds. A pointer that is not set panics, here an error: the
-- resource's at its digest, which follows; the component's later, at the download or, on a hit of
-- the cache, at the annotations.
abbrev pub deployable_of :
    Resource → Option ResourceInfo → Option ComponentInfo → Outcome Deployable
deployable_of r (some i) (some c) = ok (record { resource = r; info = i; component = c })
deployable_of r none c = err (new "invalid memory address or nil pointer dereference")
deployable_of r (some i) none = err (new "invalid memory address or nil pointer dereference")

abbrev pub outcome_of : {A : Type 0} → Flow (Unit {0}) A → Outcome A
outcome_of (next a) = ok a
outcome_of (halt r) = err (new "")
outcome_of (fail e) = err e
outcome_of (halt_with r e) = err e

abbrev pub Act : Type 0 → Type 0
Act A = Exec Process Result A

module _ (lib : Library) where
  abbrev pub refusing : {A : Type 0} → String → String → Error → Act A
  refusing reason context e = on_world (refuse lib reason context e)

  -- a call that returns an error, or nothing
  abbrev pub result : (Process → Option Error × Process) → Act (Option Error)
  result m p = (next (m p).0, (m p).1)

  abbrev pub writing :
      (World DeployerSpec DeployerStatus → World DeployerSpec DeployerStatus) → Act (Unit {0})
  writing f p = (next tt, record p { world = f p.world })

  -- the answer to a resource that is not ready
  unfoldable pub not_available : {A : Type 0} → Error → Act A
  unfolding is_unavailable
  not_available e =
      on_world (mark lib resource_is_not_available (lib.error_text e))
      >> (if is_unavailable e
          then stop no_requeue
          else raise (wrap "failed to get ready resource" e))

  abbrev pub set_deployed :
      List DeployedObject → World DeployerSpec DeployerStatus → World DeployerSpec DeployerStatus
  set_deployed objs w = record w {
    object = record w.object {
      status = record {
        deployed = update_deployed_object_status_references objs w.status.deployed;
      };
    };
  }

  abbrev pub watching : World DeployerSpec DeployerStatus → World DeployerSpec DeployerStatus
  watching w = set_finalizers lib (lib.add_finalizer w.meta.finalizers resource_watch_finalizer).0 w

  -- what follows a rollout without an error
  unfoldable pub conclude_rollout : Deployable → List DeployedObject → Act Result
  unfolding mark_ready update_deployed_object_status_references
  conclude_rollout d objs = do
    writing (set_deployed objs)
    writing watching
    writing (mark_ready lib (str_append "Applied version " d.info.version))
    pure (requeue_in d.resource.spec.interval)

  module _ (cluster : ApplyOps) (watch : WatchOps)
      (order : List DeployedObject → List DeployedObject) where
    -- from the objects on
    unfoldable pub roll_out : Deployable → Deployer → List DeployedObject → Act Result
    unfolding apply_concurrently track_concurrently conclude_rollout
    roll_out d o objs = do
      applied ← result (apply_concurrently lib cluster order d o objs)
      check applied (refusing apply_failed_reason "failed to apply resources")
      tracked ← result (track_concurrently cluster watch order objs)
      check tracked (refusing resource_not_synced_reason "failed to sync deployed resources")
      conclude_rollout d objs

  module _ (watch : WatchOps) (resources : Fetch Resource) where
    abbrev pub resource_key : Deployer → ObjectKey
    resource_key o = record {
      namespace =
          if o.spec.resource_ref.namespace == ""
          then o.meta.namespace
          else o.spec.resource_ref.namespace;
      name = o.spec.resource_ref.name;
    }

    abbrev pub untracking : Act (Option Error)
    untracking p = (next (error_of (untrack lib watch p).0), (untrack lib watch p).1)

    -- Reconcile up to the download: the resource that is to be deployed
    unfoldable pub find_deployable : Deployer → Act Deployable
    unfolding untrack not_available get_ready_object
    find_deployable o = do
      when o.spec.suspend (stop no_requeue)
      when o.meta.deleting (do
        e ← untracking
        check e (λ f. raise (wrap "failed to untrack deployer" f))
        raise (new "deployer is being deleted, waiting for resource watches to be removed"))
      resource ← attempt (get_ready_object lib resources (resource_key o)) not_available
      attempt (deployable_of resource resource.status.resource resource.status.component) raise

-- The state: the cache of downloads, and what the reconciliation changes besides.
module _ (lib : Library) (lru : Lru String (List DeployedObject)) (len : lru.Cache → ℕ) where
  abbrev pub State : Type 0
  State = DownloadCache lru len Process

  abbrev pub on_process : {A : Type 0} → Act A → Exec State Result A
  on_process m s = ((m s.outside).0, record s { outside = (m s.outside).1 })

  module _ {D : Type 0} (ocm : DeployerOps D) (providers : Providers) where
    -- `r.DownloadCache.Load` with DownloadResourceWithOCM as the fallback
    unfoldable pub load_objects :
        Deployable → Deployer → State → Outcome (List DeployedObject) × State
    unfolding load download_resource_with_ocm
    load_objects d o = load lru len Process d.info.digest (λ p.
        let (f, q) =
          download_resource_with_ocm lib ocm providers o d.resource.spec d.info d.component p in
        (outcome_of f, q))

    -- the call of Load
    abbrev pub loading : Deployable → Deployer → Exec State Result (List DeployedObject)
    loading d o s =
        attempt (load_objects d o s).0
          (λ e. raise (wrap "failed to download resource from OCM or retrieve it from the cache" e))
          (load_objects d o s).1

    module _ (cluster : ApplyOps) (watch : WatchOps)
        (order : List DeployedObject → List DeployedObject) (resources : Fetch Resource) where
      unfoldable pub deploy : Deployable → Deployer → Exec State Result Result
      unfolding load_objects roll_out
      deploy d o = do objs ← loading d o; on_process (roll_out lib cluster watch order d o objs)

      unfoldable pub reconcile_body : Deployer → Exec State Result Result
      unfolding find_deployable deploy
      reconcile_body o = do d ← on_process (find_deployable lib watch resources o); deploy d o

      -- the body and the deferred update of the status
      unfoldable pub reconcile_found :
          (Object DeployerSpec DeployerStatus → Option Fault)
          → Deployer
          → State
          → Result × Option Error × State
      unfolding reconcile_body update_status
      reconcile_found patch o s =
          let (f, t) = reconcile_body o (record s { outside = start_process o }) in
          let (e, w) = update_status lib (λ p. failure (patch p)) 0 (error_of f) t.outside.world in
          (
            result_of f,
            join_errors (error_of f) e,
            record t { outside = record t.outside { world = w } },
          )

      -- Reconcile
      unfoldable pub reconcile :
          (Object DeployerSpec DeployerStatus → Option Fault)
          → Fetched Deployer
          → State
          → Result × Option Error × State
      unfolding reconcile_found
      reconcile patch (missing f) s = (no_requeue, ignore_not_found (external f), s)
      reconcile patch (found o) s = reconcile_found patch o s
