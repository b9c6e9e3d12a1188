-- ===== src/Repository.antt =====
-- internal/controller/repository/repository_controller.go, api/v1alpha1/repository_types.go.
pub mod Validation
pub mod Deletion
use ocm_k8s_toolkit.Prelude.{
  ℕ, String, str_append, Bool, true, false, not, Option, none, some, List, [], ◌∷◌, ◌==◌, map,
  filter, if◌then◌else◌,
}
use ocm_k8s_toolkit.Errors.{
  Error, Fault, external, wrap, wrapping, Outcome, ok, err, Reply, got, fault, outcome, failure,
}
use ocm_k8s_toolkit.Api.{Object, ObjectKey, Meta, OcmConfiguration}
use ocm_k8s_toolkit.Library.{Library}
use ocm_k8s_toolkit.Kube.{Fetched, found, missing, Fetch}
use ocm_k8s_toolkit.Config.{Providers, get_effective_config}
use ocm_k8s_toolkit.Exec.{Exec, ◌>>=◌, ◌>>◌, pure, stop, raise, attempt, modify, check, when}
use ocm_k8s_toolkit.Exec.World.{World, Result}
use ocm_k8s_toolkit.Status.{mark_ready}
use ocm_k8s_toolkit.Repository.Validation.{OcmOps, validate}
use ocm_k8s_toolkit.Reconcile.{
  Client, select_indexed, set_effective_config, ReleaseTexts, Reconciled, mark, refuse, call,
  release, ensure_finalizer, reconcile_object, no_requeue, requeue_in, deletion_failed_reason,
  configure_context_failed_reason, get_repository_failed_reason,
}

pub record RepositorySpec : Type 0 where
  pub repository_spec : String
  pub ocm_config : List OcmConfiguration
  pub interval : ℕ
  pub suspend : Bool

abbrev pub Repository : Type 0
Repository = Object RepositorySpec (Unit {0})

abbrev pub repository_finalizer : String
repository_finalizer = "finalizers.ocm.software/repository"

-- A component of the cluster, as the index of the repository controller sees it.
pub record ComponentRef : Type 0 where
  pub namespace : String
  pub name : String
  pub repository_ref : String

-- the index `.spec.repositoryRef`
unfoldable pub repository_index : ComponentRef → List String
repository_index c = c.repository_ref ∷ []

-- the map function of the watch on components: only a repository that is being deleted
unfoldable pub component_requests : Fetch Repository → ComponentRef → List ObjectKey
component_requests fetch c =
    elim (fetch (record { namespace = c.namespace; name = c.repository_ref })) [
      | missing f ↦ []
      | found r ↦
          if r.meta.deleting
          then record { namespace = r.meta.namespace; name = r.meta.name } ∷ []
          else []
    ]

abbrev pub full_name : ComponentRef → String
full_name c = str_append c.namespace (str_append "/" c.name)

abbrev pub release_texts : ReleaseTexts
release_texts = record {
  list_failed = "failed to list components";
  still_referenced = "OCM repository cannot be removed as components are still referencing it: ";
  still_finalized = "OCM repository is being deleted and still has existing finalizers";
}

abbrev pub named :
    Reply (List ComponentRef) → (List ComponentRef → List String) → Reply (List String)
named (got l) f = got (f l)
named (fault e) f = fault e

module _ (lib : Library) (client : Client RepositorySpec (Unit {0})) (providers : Providers)
    (ocm : OcmOps) (components : Reply (List ComponentRef)) where
  -- the components that refer to the repository, by the index
  unfoldable pub referring : String → Reply (List String)
  unfolding select_indexed repository_index
  referring name = named components (λ l. map full_name (select_indexed repository_index name l))

  -- deleteRepository
  unfoldable pub delete_repository :
      String → Exec (World RepositorySpec (Unit {0})) (Unit {0}) (Unit {0})
  unfolding release
  delete_repository name = release lib client repository_finalizer release_texts (referring name)

  -- the block of a repository that is being deleted
  unfoldable pub reconcile_delete :
      Repository → Exec (World RepositorySpec (Unit {0})) Result (Unit {0})
  unfolding delete_repository
  reconcile_delete o =
      if not (lib.contains_finalizer o.meta.finalizers repository_finalizer)
      then stop no_requeue
      else do
        e ← call lib client (delete_repository o.meta.name)
        check e (refuse lib deletion_failed_reason "failed to delete OCM repository")
        stop no_requeue

  -- from the configuration on
  unfoldable pub reconcile_spec : Repository → Exec (World RepositorySpec (Unit {0})) Result Result
  unfolding validate
  reconcile_spec o = do
    configs ←
        attempt (get_effective_config providers o.meta.namespace o.spec.ocm_config)
          (refuse lib configure_context_failed_reason "failed to get effective config")
    pair ←
        attempt (ocm.get_session o.spec.repository_spec configs)
          (refuse lib configure_context_failed_reason "failed to get session")
    attempt (validate ocm pair.0 pair.1 o.spec.repository_spec)
        (refuse lib get_repository_failed_reason "failed to validate ocm repository")
    modify (set_effective_config lib configs)
    modify (mark_ready lib "Successfully reconciled OCM repository")
    pure (requeue_in o.spec.interval)

  unfoldable pub reconcile_body : Repository → Exec (World RepositorySpec (Unit {0})) Result Result
  unfolding reconcile_delete ensure_finalizer reconcile_spec
  reconcile_body o = do
    when o.meta.deleting (reconcile_delete o)
    ensure_finalizer lib client repository_finalizer
    when o.spec.suspend (stop no_requeue)
    reconcile_spec o

  -- Reconcile
  unfoldable pub reconcile : Fetched Repository → Reconciled RepositorySpec (Unit {0})
  unfolding reconcile_body reconcile_object
  reconcile fetched = reconcile_object lib client fetched (λ o. o.spec.interval) reconcile_body
