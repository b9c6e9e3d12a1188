-- ===== src/Tests/Deletions.antt =====
-- Objects under deletion that others refer to.
use ocm_k8s_toolkit.Prelude.{refl, true, false, [], ◌∷◌}
use ocm_k8s_toolkit.Errors.{got}
use ocm_k8s_toolkit.Library.Sample.{contains, sample, sample_laws}
use ocm_k8s_toolkit.Kube.{found}
use ocm_k8s_toolkit.Reconcile.Release.{Ends, Kept}
use ocm_k8s_toolkit.Repository
use ocm_k8s_toolkit.Repository.Deletion.{repository-Kept}
use ocm_k8s_toolkit.Component
use ocm_k8s_toolkit.Component.Deletion.{component-Kept}
use ocm_k8s_toolkit.Resource
use ocm_k8s_toolkit.Resource.Deletion.{resource-Kept}
use ocm_k8s_toolkit.Tests.Samples.{
  client, providers, repository, repository_ops, component, component_ops, resource, resource_ops,
  component_ref, resource_ref, deployer_ref,
}

repository-Kept_example : Ends (Kept sample sample_laws client (repository true)) (
    Repository.reconcile sample client providers repository_ops
      (got (component_ref ∷ []))
      (found (repository true)))
unfolding contains Repository.referring
repository-Kept_example =
    repository-Kept sample sample_laws client providers repository_ops (got (component_ref ∷ []))
      (repository true) refl refl (λ h. cc)

component-Kept_example : Ends (Kept sample sample_laws client (component true)) (
    Component.reconcile sample component_ops client providers
      (λ k. found (repository false))
      (got (resource_ref ∷ []))
      (found (component true)))
unfolding Component.reconcile_delete
component-Kept_example =
    component-Kept sample sample_laws component_ops client providers (λ k. found (repository false))
      (got (resource_ref ∷ [])) (component true) refl (λ h. cc)

resource-Kept_example : Ends (Kept sample sample_laws client (resource false)) (
    Resource.reconcile sample
      (got (deployer_ref ∷ []))
      resource_ops
      client
      providers
      (λ k. found (component false))
      (found (resource false)))
unfolding Resource.referring
resource-Kept_example =
    resource-Kept sample sample_laws (got (deployer_ref ∷ [])) resource_ops client providers
      (λ k. found (component false)) (resource false) refl refl (λ h. cc)
