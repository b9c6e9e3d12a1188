-- ===== src/Repository/Deletion.antt =====
-- A repository is not removed while components refer to it.
use ocm_k8s_toolkit.Prelude.{◌≡◌, ◌≢◌, Bool, true, false, not, if◌then◌else◌, List, []}
use ocm_k8s_toolkit.Errors.{Reply, got}
use ocm_k8s_toolkit.Library.{Library, Laws}
use ocm_k8s_toolkit.Kube.{found}
use ocm_k8s_toolkit.Config.{Providers}
use ocm_k8s_toolkit.Exec.World.{Result, start}
use ocm_k8s_toolkit.Exec.{when, stop, check, ◌>>=◌, ◌>>◌}
use ocm_k8s_toolkit.Reconcile.{
  ensure_finalizer, Client, call, refuse, no_requeue, deletion_failed_reason, reconcile_object,
}
use ocm_k8s_toolkit.Reconcile.Release.{
  Ends, Kept, Refused, Refused->>, with_status_update-Refused, deletion-Refused,
}
use ocm_k8s_toolkit.Repository.Validation.{OcmOps}
use ocm_k8s_toolkit.Repository.{
  RepositorySpec, Repository, ComponentRef, repository_finalizer, release_texts, referring,
  delete_repository, reconcile_delete, reconcile_body, reconcile_spec, reconcile,
}

module _ (lib : Library) (laws : Laws lib) (client : Client RepositorySpec (Unit {0}))
    (providers : Providers) (ocm : OcmOps) (components : Reply (List ComponentRef)) where
  -- Reconciling a repository that is being deleted and carries the finalizer, while the list of
  -- components that name it in the index cannot be read or is not empty, ends with an error; its
  -- finalizers and the rest of its metadata are what they were, the only call is the patch of the
  -- status, and it is not ready for the reason DeletionFailed.
  pub repository-Kept :
      (o : Repository)
      → o.meta.deleting ≡ true
      → lib.contains_finalizer o.meta.finalizers repository_finalizer ≡ true
      → referring lib client providers ocm components o.meta.name ≢ got []
      → Ends (Kept lib laws client o) (reconcile lib client providers ocm components (found o))
  unfolding reconcile reconcile_object reconcile_body reconcile_delete delete_repository
  repository-Kept o d c h =
      with_status_update-Refused lib laws client o.spec.interval
        (reconcile_body lib client providers ocm components o) o
        (Refused->> lib laws client {A = Result}
          (when o.meta.deleting (reconcile_delete lib client providers ocm components o))
          (do
            ensure_finalizer lib client repository_finalizer
            when o.spec.suspend (stop no_requeue)
            reconcile_spec lib client providers ocm components o)
          (start o) (deleted o.meta.deleting d))
    where
      deleted :
          (b : Bool)
          → b ≡ true
          → Refused lib laws client {A = Unit {0}}
              (start o)
              (when b (reconcile_delete lib client providers ocm components o) (start o))
      deleted false e = cc
      deleted true e = guarded (lib.contains_finalizer o.meta.finalizers repository_finalizer) c
        where
          guarded :
              (b : Bool)
              → b ≡ true
              → Refused lib laws client {A = Unit {0}} (start o) (
                  (if not b then stop no_requeue else (do
                    e ←
                        call lib client
                          (delete_repository lib client providers ocm components o.meta.name)
                    check e (refuse lib deletion_failed_reason "failed to delete OCM repository")
                    stop no_requeue))
                    (start o))
          guarded false e = cc
          guarded true e =
              deletion-Refused lib laws client repository_finalizer _ release_texts _ (start o) h
