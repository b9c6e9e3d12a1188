-- ===== src/Resource.antt =====
-- internal/controller/resource/resource_controller.go.
pub mod Access
pub mod Ops
pub mod Fields
pub mod Deletion
use ocm_k8s_toolkit.Prelude.{
  ℕ, String, str_append, Bool, true, false, not, Option, none, some, List, [], ◌∷◌, ◌==◌, map,
  filter, if◌then◌else◌,
}
use ocm_k8s_toolkit.Errors.{
  Error, Fault, external, wrap, Outcome, ok, err, Reply, got, fault, outcome, failure,
}
use ocm_k8s_toolkit.Api.{Object, ObjectKey, OcmConfiguration}
use ocm_k8s_toolkit.Library.{Library}
use ocm_k8s_toolkit.Kube.{Fetched, found, missing, Fetch, get_ready_object, is_unavailable}
use ocm_k8s_toolkit.Config.{Providers, get_effective_config}
use ocm_k8s_toolkit.Exec.{Exec, ◌>>=◌, ◌>>◌, pure, stop, raise, attempt, modify, check, when}
use ocm_k8s_toolkit.Exec.World.{World, Result}
use ocm_k8s_toolkit.Status.{mark_ready}
use ocm_k8s_toolkit.Signatures.{verify_and_list_descriptors}
use ocm_k8s_toolkit.Component.Ops.{ComponentInfo, Component, ResourceRef}
use ocm_k8s_toolkit.Resource.Access.{get_resource_access}
use ocm_k8s_toolkit.Resource.Ops.{
  ResourceSpec, ResourceStatus, Resource, DeployerRef, ResourceAccess, ResourceOps,
}
use ocm_k8s_toolkit.Resource.Fields.{set_resource_status}
use ocm_k8s_toolkit.Reconcile.{
  Client, select_indexed, set_effective_config, ReleaseTexts, Reconciled, mark, refuse, call,
  release, ensure_finalizer, reconcile_object, no_requeue, requeue_in,
  configure_context_failed_reason, resource_is_not_available, get_component_version_failed_reason,
  get_ocm_resource_failed_reason, marshal_failed_reason, status_set_failed_reason,
}

abbrev pub resource_finalizer : String
resource_finalizer = "finalizers.ocm.software/resource"

-- the index `Resource.spec.resourceRef` on deployers
unfoldable pub deployer_index : DeployerRef → List String
deployer_index d = str_append d.resource_namespace (str_append "/" d.resource_name) ∷ []

-- the index `spec.componentRef.name` on resources
unfoldable pub component_index : ResourceRef → List String
component_index r = r.component_ref ∷ []

-- the map function of the watch on components
unfoldable pub component_requests : Reply (List ResourceRef) → String → List ObjectKey
unfolding select_indexed component_index
component_requests (fault f) name = []
component_requests (got l) name =
    map (λ r. record { namespace = r.namespace; name = r.name })
      (select_indexed component_index name l)

-- the map function of the watch on deployers: only a resource that is being deleted
unfoldable pub deployer_requests : Fetch Resource → DeployerRef → List ObjectKey
deployer_requests fetch d =
    elim (fetch (record { namespace = d.resource_namespace; name = d.resource_name })) [
      | missing f ↦ []
      | found r ↦
          if r.meta.deleting
          then record { namespace = r.meta.namespace; name = r.meta.name } ∷ []
          else []
    ]

abbrev pub release_texts : ReleaseTexts
release_texts = record {
  list_failed = "failed to list deployers";
  still_referenced = "resource cannot be removed as deployers are still referencing it: ";
  still_finalized = "resource is being deleted and still has existing finalizers";
}

abbrev pub W : Type 0
W = World ResourceSpec ResourceStatus

abbrev pub set_status : ResourceStatus → W → W
set_status s w = record w { object = record w.object { status = s } }

module _ (lib : Library) (deployers : Reply (List DeployerRef)) where
  abbrev pub named : Reply (List DeployerRef) → String → Reply (List String)
  named (got l) key = got (map (λ d. d.name) (select_indexed deployer_index key l))
  named (fault f) key = fault f

  -- the names of the deployers that refer to the resource, by the index
  unfoldable pub referring : Resource → Reply (List String)
  unfolding select_indexed deployer_index
  referring o =
      named deployers (lib.key_text (record { namespace = o.meta.namespace; name = o.meta.name }))

  module _ {D : Type 0} (ocm : ResourceOps D) where
    -- the answer to a component that is not ready
    unfoldable pub not_available : {A : Type 0} → Error → Exec W Result A
    unfolding is_unavailable
    not_available e =
        mark lib resource_is_not_available (lib.error_text e)
        >> (if is_unavailable e
            then stop no_requeue
            else raise (wrap "failed to get ready component" e))

    -- the call of setResourceStatus
    unfoldable pub apply_status :
        List OcmConfiguration → ResourceAccess → ComponentInfo → Resource → Exec W Result (Unit {0})
    unfolding set_resource_status
    apply_status configs access component o w =
        let (s, e) =
          set_resource_status ocm.cel access component o.spec.additional_status_fields w.status in
        (do
          check e (refuse lib status_set_failed_reason "failed to set resource status")
          modify (set_effective_config lib configs))
          (set_status s w)

    -- from the session on
    unfoldable pub reconcile_version :
        Resource → Component → List OcmConfiguration → ℕ → ℕ → Exec W Result Result
    unfolding verify_and_list_descriptors get_resource_access apply_status
    reconcile_version o component configs octx session = do
      spec ←
          attempt (outcome (ocm.repository_spec_for_config octx component.status.repository_spec))
            (refuse lib get_component_version_failed_reason "failed to get repository spec")
      repo ←
          attempt (outcome (ocm.lookup_repository session octx spec))
            (refuse lib get_component_version_failed_reason "failed to lookup repository")
      cv ←
          attempt
            (outcome (
              ocm.lookup_component_version session repo component.status.component
                component.status.version))
            (refuse lib get_component_version_failed_reason "failed to lookup component version")
      cds ←
          attempt
            (verify_and_list_descriptors cv.signing (map (λ v. v.signature) component.spec.verify))
            (refuse lib get_component_version_failed_reason "failed to list verified descriptors")
      pair ←
          attempt
            (get_resource_access ocm.accesses session repo cv.descriptor o.spec.reference cds
              o.spec.skip_verify)
            (refuse lib get_ocm_resource_failed_reason "failed to get resource access")
      raw ←
          attempt (outcome pair.1.marshal_repository_spec)
            (refuse lib marshal_failed_reason "failed to marshal resource spec")
      apply_status configs pair.0
          (record {
            repository_spec = raw;
            component = pair.1.name;
            version = pair.1.version;
            digest = none;
          })
          o
      modify (mark_ready lib (str_append "Applied version " pair.0.meta.version))
      pure (requeue_in o.spec.interval)

    module _ (client : Client ResourceSpec ResourceStatus) (providers : Providers)
        (components : Fetch Component) where
      -- from the component on
      unfoldable pub reconcile_spec : Resource → Exec W Result Result
      unfolding not_available reconcile_version
      reconcile_spec o = do
        component ←
            attempt
              (get_ready_object lib components
                (record { namespace = o.meta.namespace; name = o.spec.component_ref }))
              not_available
        configs ←
            attempt (get_effective_config providers o.meta.namespace o.spec.ocm_config)
              (refuse lib configure_context_failed_reason "failed to configure context")
        pair ←
            attempt (ocm.get_session component.status.repository_spec configs component.spec.verify)
              (refuse lib configure_context_failed_reason "failed to get session")
        reconcile_version o component configs pair.0 pair.1

      unfoldable pub reconcile_body : Resource → Exec W Result Result
      unfolding referring release ensure_finalizer reconcile_spec
      reconcile_body o = do
        when o.spec.suspend (stop no_requeue)
        when o.meta.deleting (do
          e ← call lib client (release lib client resource_finalizer release_texts (referring o))
          check e raise
          stop no_requeue)
        ensure_finalizer lib client resource_finalizer
        reconcile_spec o

      -- Reconcile
      unfoldable pub reconcile : Fetched Resource → Reconciled ResourceSpec ResourceStatus
      unfolding reconcile_body reconcile_object
      reconcile fetched = reconcile_object lib client fetched (λ o. o.spec.interval) reconcile_body
