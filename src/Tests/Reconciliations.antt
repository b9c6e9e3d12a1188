-- ===== src/Tests/Reconciliations.antt =====
-- A reconciliation of a deployer from the download to the rollout.
use mathlib.Core.List.Permᴰ
use ocm_k8s_toolkit.Library.Sample.{sample}
use ocm_k8s_toolkit.Kube.{found}
use ocm_k8s_toolkit.Deployer.{State, reconcile_body}
use ocm_k8s_toolkit.Deployer.Deployed.{Deployed}
use ocm_k8s_toolkit.Tests.Samples.{providers}
use ocm_k8s_toolkit.Tests.Rollouts.{
  deployed_resource, rolling, cluster, watch, single_objects, deployer_ops, idle,
}

abbrev after : State sample single_objects (λ c. 0)
after =
    (reconcile_body sample single_objects (λ c. 0) deployer_ops providers cluster watch (λ l. l)
      (λ k. found deployed_resource) rolling idle).1
