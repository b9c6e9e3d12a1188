-- ===== src/Deployer/Rollout.antt =====
-- applyConcurrently, trackConcurrently and Untrack of
-- internal/controller/deployer/deployer_controller.go. The goroutines of a group all run; they are
-- taken in the order in which they end, and the group returns the first error.
use ocm_k8s_toolkit.Prelude.{
  String, Bool, true, false, ◌||◌, Option, none, some, List, [], ◌∷◌, ◌++◌, ltb, length,
  if◌then◌else◌,
}
use ocm_k8s_toolkit.Errors.{Error, Fault, new, external, wrap, Reply, got, fault}
use ocm_k8s_toolkit.Library.{Library}
use ocm_k8s_toolkit.Exec.{Exec, next, ◌>>=◌, ◌>>◌, pure, raise, modify, when}
use ocm_k8s_toolkit.Informers.{WatchObject}
use ocm_k8s_toolkit.Status.{new_event, severity_info}
use ocm_k8s_toolkit.Reconcile.{set_finalizers}
use ocm_k8s_toolkit.Component.Ops.{ComponentInfo}
use ocm_k8s_toolkit.Resource.Ops.{Resource, ResourceInfo}
use ocm_k8s_toolkit.Deployer.Ownership.{ownership_labels, ownership_annotations}
use ocm_k8s_toolkit.Deployer.Objects.{DeployedObject}
use ocm_k8s_toolkit.Deployer.Ops.{Deployer, ApplyOps, WatchOps, Process}

-- the error that a group keeps
abbrev pub first_error : Option Error → Option Error → Option Error
first_error (some e) f = some e
first_error none f = f

-- errgroup.Group over the objects
unfoldable pub in_group :
    (DeployedObject → Process → Option Error × Process)
    → List DeployedObject
    → Option Error
    → Process
    → Option Error × Process
in_group task [] e p = (e, p)
in_group task (obj ∷ objs) e p = let (f, q) = task obj p in in_group task objs (first_error e f) q

-- the resource that is deployed, with what its status holds
pub record Deployable : Type 0 where
  pub resource : Resource
  pub info : ResourceInfo
  pub component : ComponentInfo

-- setOwnershipLabels and setOwnershipAnnotations
unfoldable pub with_ownership : Deployable → Deployer → DeployedObject → DeployedObject
unfolding ownership_labels ownership_annotations
with_ownership d o obj = record obj {
  labels = ownership_labels d.resource.meta.name d.resource.meta.uid d.info o.meta.name obj.labels;
  annotations = ownership_annotations d.info d.component obj.annotations;
}

module _ (ops : ApplyOps) where
  -- given what SetControllerReference returns
  unfoldable pub patch_object : Reply DeployedObject → Process → Option Error × Process
  patch_object (fault f) p =
      (some (wrap "failed to set controller reference on object" (external f)), p)
  patch_object (got obj) p = (
    elim (ops.patch obj) [
      | none ↦ none
      | some f ↦ some (wrap "failed to apply object" (external f))
    ],
    record p { patched = p.patched ++ obj ∷ [] },
  )

  -- apply, on a copy of the object
  unfoldable pub apply : Deployable → Deployer → DeployedObject → Process → Option Error × Process
  unfolding patch_object with_ownership
  apply d o obj = patch_object (ops.set_controller_reference o (with_ownership d o obj))

abbrev pub several_objects : String
several_objects =
    "multiple objects found in manifest,the current deployer implementation does not officially support this yet,and will not prune diffs properly."

module _ (lib : Library) (ops : ApplyOps) where
  abbrev pub note_several : List DeployedObject → Process → Process
  note_several objs p =
      if ltb 1 (length objs)
      then record p { world = new_event lib severity_info several_objects p.world }
      else p

  -- applyConcurrently, whose tasks end in the given order
  unfoldable pub apply_concurrently :
      (List DeployedObject → List DeployedObject)
      → Deployable
      → Deployer
      → List DeployedObject
      → Process
      → Option Error × Process
  unfolding in_group apply new_event
  apply_concurrently order d o objs p =
      in_group (apply ops d o) (order objs) none (note_several objs p)

module _ (gvk : ApplyOps) (watch : WatchOps) where
  -- an object, as the informer manager looks at it
  abbrev pub watch_object : DeployedObject → WatchObject
  watch_object obj = record { gvk = gvk.gvk_of obj; namespace = obj.namespace; name = obj.name }

  -- track
  unfoldable pub track : DeployedObject → Process → Option Error × Process
  track obj p =
      if watch.has_synced (watch_object obj)
      then (none, p)
      else elim (watch.register (watch_object obj)) [
        | some f ↦
            (some (wrap "context canceled while unregistering resource watch" (external f)), p)
        | none ↦ (
          some (new "object is not yet registered and synced, waiting for registration"),
          record p { registrations = p.registrations ++ watch_object obj ∷ [] },
        )
      ]

  -- trackConcurrently
  unfoldable pub track_concurrently :
      (List DeployedObject → List DeployedObject)
      → List DeployedObject
      → Process
      → Option Error × Process
  unfolding in_group track
  track_concurrently order objs = in_group track (order objs) none

abbrev pub resource_watch_finalizer : String
resource_watch_finalizer = "delivery.ocm.software/watch"

-- the object and its events, with other finalizers
abbrev pub finalized : Library → List String → Process → Process
finalized lib l p = record p { world = set_finalizers lib l p.world }

module _ (lib : Library) (watch : WatchOps) where
  abbrev pub send_unregister : WatchObject → Option Fault → Exec Process (Unit {0}) Bool
  send_unregister obj (some f) p =
      raise (wrap "context canceled while unregistering resource watch" (external f)) p
  send_unregister obj none p =
      (next true, record p { unregistrations = p.unregistrations ++ obj ∷ [] })

  -- the body of the loop: whether the watch had to be stopped
  unfoldable pub stop_watch : WatchObject → Exec Process (Unit {0}) Bool
  stop_watch obj =
      if watch.is_stopped obj then pure false else send_unregister obj (watch.unregister obj)

  unfoldable pub stop_watches : List WatchObject → Bool → Exec Process (Unit {0}) Bool
  unfolding stop_watch
  stop_watches [] needed = pure needed
  stop_watches (obj ∷ objs) needed = stop_watch obj >>= λ b. stop_watches objs (needed || b)

  -- Untrack
  unfoldable pub untrack : Exec Process (Unit {0}) (Unit {0})
  unfolding stop_watches
  untrack = do
    needed ← stop_watches watch.watches false
    when needed (raise (new "waiting for at least one resource watch to be removed"))
    modify (λ p.
        finalized lib (lib.remove_finalizer p.world.meta.finalizers resource_watch_finalizer).0 p)
