-- ===== src/Resource/Deletion.antt =====
-- A resource is not removed while deployers refer to it.
use ocm_k8s_toolkit.Prelude.{◌≡◌, ◌≢◌, Bool, true, false, List, []}
use ocm_k8s_toolkit.Errors.{Reply, got}
use ocm_k8s_toolkit.Library.{Library, Laws}
use ocm_k8s_toolkit.Kube.{found, Fetch}
use ocm_k8s_toolkit.Config.{Providers}
use ocm_k8s_toolkit.Exec.{Exec, when, stop, raise, check, ◌>>=◌, ◌>>◌}
use ocm_k8s_toolkit.Exec.World.{Result, start}
use ocm_k8s_toolkit.Reconcile.{
  Client, call, release, no_requeue, ensure_finalizer, reconcile_object,
}
use ocm_k8s_toolkit.Reconcile.Release.{
  Ends, Kept, Refused, Refused->>, with_status_update-Refused, raised_deletion-Refused,
}
use ocm_k8s_toolkit.Component.Ops.{Component}
use ocm_k8s_toolkit.Resource.Ops.{ResourceSpec, ResourceStatus, Resource, DeployerRef, ResourceOps}
use ocm_k8s_toolkit.Resource.{
  W, resource_finalizer, release_texts, referring, reconcile_spec, reconcile_body, reconcile,
}

module _ (lib : Library) (laws : Laws lib) (deployers : Reply (List DeployerRef)) {D : Type 0}
    (ocm : ResourceOps D) where
  -- Reconciling a resource that is being deleted and is not suspended, while the list of deployers
  -- that name it in the index cannot be read or is not empty, ends with an error; its finalizers and
  -- the rest of its metadata are what they were, the only call is the patch of the status, and it is
  -- not ready for the reason DeletionFailed.
  pub resource-Kept :
      (client : Client ResourceSpec ResourceStatus) (providers : Providers)
      (components : Fetch Component) (o : Resource)
      → o.spec.suspend ≡ false
      → o.meta.deleting ≡ true
      → referring lib deployers o ≢ got []
      → Ends
          (Kept lib laws client o)
          (reconcile lib deployers ocm client providers components (found o))
  unfolding reconcile reconcile_object reconcile_body
  resource-Kept client providers components o s d h =
      with_status_update-Refused lib laws client o.spec.interval
        (reconcile_body lib deployers ocm client providers components o) o (active o.spec.suspend s)
    where
      deletion : Exec W Result (Unit {0})
      deletion = do
        e ←
            call lib client
              (release lib client resource_finalizer release_texts (referring lib deployers o))
        check e raise
        stop no_requeue

      deleted :
          (b : Bool)
          → b ≡ true
          → Refused lib laws client {A = Unit {0}} (start o) (when b deletion (start o))
      deleted false e = cc
      deleted true e =
          raised_deletion-Refused lib laws client resource_finalizer release_texts
            (referring lib deployers o) (start o) h

      rest : Exec W Result Result
      rest = do
        ensure_finalizer lib client resource_finalizer
        reconcile_spec lib deployers ocm client providers components o

      active :
          (b : Bool)
          → b ≡ false
          → Refused lib laws client {A = Result}
              (start o)
              ((when b (stop no_requeue) >> (when o.meta.deleting deletion >> rest)) (start o))
      active true e = cc
      active false e =
          Refused->> lib laws client {A = Result} (when o.meta.deleting deletion) rest (start o)
            (deleted o.meta.deleting d)
