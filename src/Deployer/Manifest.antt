-- ===== src/Deployer/Manifest.antt =====
-- DownloadResourceWithOCM of internal/controller/deployer/deployer_controller.go.
use ocm_k8s_toolkit.Prelude.{ℕ, String, not, Option, none, some, List, [], ◌∷◌, ◌++◌, ◌==◌}
use ocm_k8s_toolkit.Errors.{Error, new, outcome, failure, join}
use ocm_k8s_toolkit.Library.{Library}
use ocm_k8s_toolkit.Config.{Providers, get_effective_config}
use ocm_k8s_toolkit.Exec.{
  Flow, next, halt, fail, halt_with, Exec, ◌>>=◌, ◌>>◌, pure, raise, attempt, when,
}
use ocm_k8s_toolkit.Exec.World.{World}
use ocm_k8s_toolkit.Component.Ops.{ComponentInfo}
use ocm_k8s_toolkit.Resource.Ops.{ResourceInfo, ResourceSpec}
use ocm_k8s_toolkit.Resource.Access.{get_resource_access}
use ocm_k8s_toolkit.Reconcile.{
  mark, refuse, configure_context_failed_reason, get_component_version_failed_reason,
  get_ocm_resource_failed_reason, marshal_failed_reason,
}
use ocm_k8s_toolkit.Deployer.Contents.{decode_objects, get_resource}
use ocm_k8s_toolkit.Deployer.Objects.{DeployedObject}
use ocm_k8s_toolkit.Deployer.Ops.{DeployerSpec, DeployerStatus, Deployer, DeployerOps, Process}

-- a statement on the deployer and its events
abbrev pub on_world :
    {R A : Type 0} → Exec (World DeployerSpec DeployerStatus) R A → Exec Process R A
on_world m p = ((m p.world).0, record p { world = (m p.world).1 })

-- `err = errors.Join(err, c)` in a deferred call, for results that an error makes void
abbrev pub join_close : {A : Type 0} → Option Error → Flow (Unit {0}) A → Flow (Unit {0}) A
join_close none f = f
join_close (some c) (next a) = fail c
join_close (some c) (fail e) = fail (join e c)
join_close (some c) (halt r) = halt_with r c
join_close (some c) (halt_with r e) = halt_with r (join e c)

module _ (lib : Library) {D : Type 0} (ops : DeployerOps D) where
  abbrev pub failing : {A : Type 0} → String → String → Error → Exec Process (Unit {0}) A
  failing reason context e = on_world (refuse lib reason context e)

  -- the objects of a manifest with the digest of the resource
  unfoldable pub checked_objects :
      ResourceInfo → ℕ × String → Exec Process (Unit {0}) (List DeployedObject)
  unfolding decode_objects
  checked_objects info manifest = do
    when (not (info.digest == manifest.1)) (do
      on_world (mark lib get_ocm_resource_failed_reason "resource digest mismatch")
      raise (new "resource digest mismatch"))
    attempt (decode_objects (ops.decode manifest.0))
        (failing marshal_failed_reason "failed to decode objects")

  -- the deferred Close of the manifest
  unfoldable pub closing :
      ℕ
      → Exec Process (Unit {0}) (List DeployedObject)
      → Exec Process (Unit {0}) (List DeployedObject)
  closing manifest m p = (
    join_close (failure (ops.close manifest)) (m p).0,
    record (m p).1 { closed = (m p).1.closed ++ manifest ∷ [] },
  )

  -- the context, the session, the repository and the component version of a download
  unfoldable pub look_up_version :
      Providers → Deployer → ComponentInfo → Exec Process (Unit {0}) (ℕ × ℕ × ℕ × ℕ)
  look_up_version providers o component = do
    configs ←
        attempt (get_effective_config providers o.meta.namespace o.spec.ocm_config)
          (failing configure_context_failed_reason "failed to get effective config")
    pair ←
        attempt (ops.get_session component.repository_spec configs)
          (failing configure_context_failed_reason "failed to get session")
    spec ←
        attempt (outcome (ops.repository_spec_for_config pair.0 component.repository_spec))
          (failing get_component_version_failed_reason "failed to get repository spec")
    repo ←
        attempt (outcome (ops.lookup_repository pair.1 pair.0 spec))
          (failing get_component_version_failed_reason "invalid repository spec")
    cv ←
        attempt
          (outcome (ops.lookup_component_version pair.1 repo component.component component.version))
          (failing get_component_version_failed_reason "failed to get component version")
    pure (pair.0, pair.1, repo, cv)

  -- from the component version on
  unfoldable pub download_version :
      ResourceSpec → ResourceInfo → ℕ × ℕ × ℕ × ℕ → Exec Process (Unit {0}) (List DeployedObject)
  unfolding get_resource checked_objects closing get_resource_access
  download_version resource info (octx, session, repo, cv) = do
    access ←
        attempt
          (get_resource_access ops.accesses session (ops.compound_resolver repo octx)
            (ops.descriptor cv) resource.reference (ops.descriptor cv ∷ []) resource.skip_verify)
          (failing get_ocm_resource_failed_reason "failed to get resource access")
    manifest ←
        attempt (get_resource ops octx cv access.0)
          (failing get_ocm_resource_failed_reason "failed to get  manifest")
    closing manifest.0 (checked_objects info manifest)

  -- DownloadResourceWithOCM, given what the status of the resource holds
  unfoldable pub download_resource_with_ocm :
      Providers
      → Deployer
      → ResourceSpec
      → ResourceInfo
      → ComponentInfo
      → Exec Process (Unit {0}) (List DeployedObject)
  unfolding look_up_version download_version
  download_resource_with_ocm providers o resource info component = do
    held ← look_up_version providers o component
    download_version resource info held
