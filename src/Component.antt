-- ===== src/Component.antt =====
-- internal/controller/component/component_controller.go.
pub mod Ops
pub mod Ready
pub mod Deletion
use ocm_k8s_toolkit.Prelude.{
  ℕ, String, str_append, Bool, true, false, not, ◌&&◌, Option, none, some, List, [], ◌∷◌, ◌==◌, map,
  filter, if◌then◌else◌,
}
use ocm_k8s_toolkit.Errors.{
  Error, Fault, not_found, failed, external, wrap, unstable_hash, hash_mismatch, join_errors,
  Outcome, ok, err, Reply, got, fault, outcome, failure,
}
use ocm_k8s_toolkit.Api.{Object, ObjectKey, OcmConfiguration, Verification}
use ocm_k8s_toolkit.Library.{Library}
use ocm_k8s_toolkit.Kube.{Fetched, found, missing, Fetch, get_ready_object, is_unavailable}
use ocm_k8s_toolkit.Config.{Providers, get_effective_config}
use ocm_k8s_toolkit.Exec.{
  Exec, ◌>>=◌, ◌>>◌, pure, stop, raise, attempt, modify, check, when, deferring,
}
use ocm_k8s_toolkit.Exec.World.{World, Result, close_session, close_repository, emit}
use ocm_k8s_toolkit.Status.{mark_ready, severity_info, new_event}
use ocm_k8s_toolkit.Hash.Compare.{DigestSpec, returns, compare_cached_and_live_hashes}
use ocm_k8s_toolkit.Signatures.{Signing, verify_component_version}
use ocm_k8s_toolkit.Versions.{determine_effective_version}
use ocm_k8s_toolkit.Repository.{Repository, ComponentRef}
use ocm_k8s_toolkit.Component.Ops.{
  ComponentSpec, ComponentInfo, Component, ResourceRef, CachedVersion, LiveAccess, ComponentOps,
}
use ocm_k8s_toolkit.Reconcile.{
  Client, select_indexed, set_effective_config, ReleaseTexts, Reconciled, mark, refuse, call,
  release, ensure_finalizer, reconcile_object, no_requeue, requeue_in, deletion_failed_reason,
  configure_context_failed_reason, get_resource_failed_reason, get_component_version_failed_reason,
  check_version_failed_reason,
}

abbrev pub component_finalizer : String
component_finalizer = "finalizers.ocm.software/component"

-- the index `.spec.componentRef.Name`
unfoldable pub resource_index : ResourceRef → List String
resource_index r = r.component_ref ∷ []

-- the index `spec.repositoryRef.name`
unfoldable pub component_index : ComponentRef → List String
component_index c = c.repository_ref ∷ []

abbrev pub full_name : ResourceRef → String
full_name r = str_append r.namespace (str_append "/" r.name)

-- the map function of the watch on repositories
unfoldable pub repository_requests : Reply (List ComponentRef) → String → List ObjectKey
unfolding select_indexed component_index
repository_requests (fault f) name = []
repository_requests (got l) name =
    map (λ c. record { namespace = c.namespace; name = c.name })
      (select_indexed component_index name l)

-- the map function of the watch on resources: only a component that is being deleted
unfoldable pub resource_requests : Fetch Component → ResourceRef → List ObjectKey
resource_requests fetch r =
    elim (fetch (record { namespace = r.namespace; name = r.component_ref })) [
      | missing f ↦ []
      | found c ↦
          if c.meta.deleting
          then record { namespace = c.meta.namespace; name = c.meta.name } ∷ []
          else []
    ]

abbrev pub release_texts : ReleaseTexts
release_texts = record {
  list_failed = "failed to list resource";
  still_referenced = "component cannot be removed as resources are still referencing it: ";
  still_finalized = "component is being deleted and still has existing finalizers";
}

abbrev pub referring : Reply (List ResourceRef) → String → Reply (List String)
referring (got l) name = got (map full_name (select_indexed resource_index name l))
referring (fault f) name = fault f

abbrev pub W : Type 0
W = World ComponentSpec ComponentInfo

abbrev pub set_status : ComponentInfo → W → W
set_status i w = record w { object = record w.object { status = i } }

abbrev pub component_info : Component → String → String → Option DigestSpec → ComponentInfo
component_info o repository_spec version digest = record {
  repository_spec = repository_spec;
  component = o.spec.component;
  version = version;
  digest = digest;
}

-- `errors.Join(e, session.Close())`
abbrev pub with_close : Error → Option Error → Error
with_close e none = e
with_close e (some c) = Error.join e c

module _ {D : Type 0} (lib : Library) (ocm : ComponentOps D) where
  abbrev pub closing_session : {A : Type 0} → ℕ → (Error → Error) → Error → Exec W Result A
  closing_session session f e w =
      raise (f (with_close e (failure (ocm.close_session session)))) (emit close_session w)

  -- the switch on the result of the lookup in the session
  unfoldable pub cached_version : ℕ → Reply (CachedVersion D) → Exec W Result (CachedVersion D)
  cached_version session (got cv) = pure cv
  cached_version session (fault (not_found m)) =
      closing_session session (wrap "cached component version access was not found")
        (external (not_found m))
  cached_version session (fault (failed m)) =
      refuse lib get_component_version_failed_reason "failed to get component version"
        (external (failed m))

  -- the switch on the result of CompareCachedAndLiveHashes
  unfoldable pub after_comparison :
      ℕ → Option DigestSpec → Option Error → Exec W Result (Option DigestSpec)
  unfolding new_event
  after_comparison session spec none = pure spec
  after_comparison session spec (some e) =
      if returns (some e) unstable_hash
      then (modify (new_event lib severity_info (lib.formatted (lib.error_text e))) >> pure spec)
      else if returns (some e) hash_mismatch
      then closing_session session (λ e. e) e
      else refuse lib check_version_failed_reason "failed to compare cached and live hashes" e

  -- the answer to a repository that is not ready
  unfoldable pub not_available : {A : Type 0} → Error → Exec W Result A
  unfolding is_unavailable
  not_available e =
      mark lib get_resource_failed_reason "OCM Repository is not ready"
      >> (if is_unavailable e
          then stop no_requeue
          else raise (wrap "failed to get ready repository" e))

  -- from the effective version on, with the live repository open
  unfoldable pub reconcile_live :
      Component → String → List OcmConfiguration → ℕ → ℕ → ℕ → LiveAccess D → Exec W Result Result
  unfolding cached_version after_comparison verify_component_version
  reconcile_live o repository_spec configs octx session spec live = do
    version ←
        attempt
          (determine_effective_version ocm.semver (live.through session) o.spec.component
            o.spec.downgrade_policy o.spec.semver_filter o.spec.semver o.status.version)
          (refuse lib check_version_failed_reason "failed to determine effective version")
    repository ← attempt (outcome (ocm.lookup_repository session octx spec)) (λ e.
        mark lib get_component_version_failed_reason "Failed looking up repository"
        >> raise (wrap "failed looking up repository" e))
    cv ←
        cached_version session
          (ocm.lookup_component_version session repository o.spec.component version)
    let compared =
        compare_cached_and_live_hashes ocm.descriptors ocm.json_normalisation_v3 "SHA-256"
          cv.descriptor (live.lookup_component_version o.spec.component version)
    digest ← after_comparison session compared.0 compared.1
    verified ←
        attempt (verify_component_version cv.signing (map (λ v. v.signature) o.spec.verify))
          (refuse lib get_component_version_failed_reason "failed to verify component version")
    modify (set_status (component_info o repository_spec version digest))
    modify (set_effective_config lib configs)
    modify (mark_ready lib (str_append "Applied version " version))
    pure (requeue_in o.spec.interval)

  module _ (client : Client ComponentSpec ComponentInfo) (providers : Providers)
      (repositories : Fetch Repository) (resources : Reply (List ResourceRef)) where
    -- from the repository on
    unfoldable pub reconcile_spec : Component → Exec W Result Result
    unfolding not_available reconcile_live
    reconcile_spec o = do
      repo ←
          attempt
            (get_ready_object lib repositories
              (record { namespace = o.meta.namespace; name = o.spec.repository_ref }))
            not_available
      configs ←
          attempt (get_effective_config providers o.meta.namespace o.spec.ocm_config)
            (refuse lib configure_context_failed_reason "failed to get effective config")
      pair ←
          attempt (ocm.get_session repo.spec.repository_spec configs o.spec.verify)
            (refuse lib configure_context_failed_reason "failed to get session")
      spec ←
          attempt (outcome (ocm.repository_spec_for_config pair.0 repo.spec.repository_spec))
            (refuse lib get_component_version_failed_reason "failed to get repository spec")
      live ←
          attempt (outcome (ocm.repository_for_spec pair.0 spec))
            (refuse lib get_component_version_failed_reason "failed to get live repository access")
      deferring (failure live.close) (emit close_repository)
          (reconcile_live o repo.spec.repository_spec configs pair.0 pair.1 spec live)

    -- reconcileDelete
    unfoldable pub reconcile_delete : String → Exec W (Unit {0}) (Unit {0})
    unfolding release select_indexed resource_index
    reconcile_delete name =
        release lib client component_finalizer release_texts (referring resources name)

    unfoldable pub reconcile_body : Component → Exec W Result Result
    unfolding reconcile_delete ensure_finalizer reconcile_spec
    reconcile_body o = do
      when o.meta.deleting
          (do e ← call lib client (reconcile_delete o.meta.name); check e raise; stop no_requeue)
      ensure_finalizer lib client component_finalizer
      when o.spec.suspend (stop no_requeue)
      reconcile_spec o

    -- Reconcile
    unfoldable pub reconcile : Fetched Component → Reconciled ComponentSpec ComponentInfo
    unfolding reconcile_body reconcile_object
    reconcile fetched = reconcile_object lib client fetched (λ o. o.spec.interval) reconcile_body
