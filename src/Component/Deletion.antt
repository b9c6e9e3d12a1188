-- ===== src/Component/Deletion.antt =====
-- A component is not removed while resources refer to it.
use ocm_k8s_toolkit.Prelude.{◌≡◌, ◌≢◌, Bool, true, false, List, []}
use ocm_k8s_toolkit.Errors.{Reply, got}
use ocm_k8s_toolkit.Library.{Library, Laws}
use ocm_k8s_toolkit.Kube.{found, Fetch}
use ocm_k8s_toolkit.Config.{Providers}
use ocm_k8s_toolkit.Exec.{Exec, when, stop, raise, check, ◌>>=◌, ◌>>◌}
use ocm_k8s_toolkit.Exec.World.{Result, start}
use ocm_k8s_toolkit.Reconcile.{Client, call, no_requeue, ensure_finalizer, reconcile_object}
use ocm_k8s_toolkit.Reconcile.Release.{
  Ends, Kept, Refused, Refused->>, with_status_update-Refused, raised_deletion-Refused,
}
use ocm_k8s_toolkit.Repository.{Repository}
use ocm_k8s_toolkit.Component.Ops.{
  ComponentSpec, ComponentInfo, Component, ResourceRef, ComponentOps,
}
use ocm_k8s_toolkit.Component.{
  W, component_finalizer, release_texts, referring, reconcile_spec, reconcile_delete,
  reconcile_body, reconcile,
}

module _ {D : Type 0} (lib : Library) (laws : Laws lib) (ocm : ComponentOps D) where
  -- Reconciling a component that is being deleted, while the list of resources that name it in the
  -- index cannot be read or is not empty, ends with an error; its finalizers and the rest of its
  -- metadata are what they were, the only call is the patch of the status, and it is not ready for
  -- the reason DeletionFailed.
  pub component-Kept :
      (client : Client ComponentSpec ComponentInfo) (providers : Providers)
      (repositories : Fetch Repository) (resources : Reply (List ResourceRef)) (o : Component)
      → o.meta.deleting ≡ true
      → referring resources o.meta.name ≢ got []
      → Ends
          (Kept lib laws client o)
          (reconcile lib ocm client providers repositories resources (found o))
  unfolding reconcile reconcile_object reconcile_body reconcile_delete
  component-Kept client providers repositories resources o d h =
      with_status_update-Refused lib laws client o.spec.interval
        (reconcile_body lib ocm client providers repositories resources o) o
        (Refused->> lib laws client {A = Result} (when o.meta.deleting deletion)
          (do
            ensure_finalizer lib client component_finalizer
            when o.spec.suspend (stop no_requeue)
            reconcile_spec lib ocm client providers repositories resources o)
          (start o) (deleted o.meta.deleting d))
    where
      deletion : Exec W Result (Unit {0})
      deletion = do
        e ←
            call lib client
              (reconcile_delete lib ocm client providers repositories resources o.meta.name)
        check e raise
        stop no_requeue

      deleted :
          (b : Bool)
          → b ≡ true
          → Refused lib laws client {A = Unit {0}} (start o) (when b deletion (start o))
      deleted false e = cc
      deleted true e =
          raised_deletion-Refused lib laws client component_finalizer release_texts
            (referring resources o.meta.name) (start o) h
