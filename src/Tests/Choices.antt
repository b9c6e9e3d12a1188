-- ===== src/Tests/Choices.antt =====
-- The choice of versions and the reconciliation of components at concrete inputs.
use ocm_k8s_toolkit.Prelude.{◌≡◌, refl, true, false, [], ◌∷◌}
use ocm_k8s_toolkit.Library.Sample.{find, put, drop_type, sample, sample_laws}
use ocm_k8s_toolkit.Exec.World.{start}
use ocm_k8s_toolkit.Versions.{enforce, determine_effective_version}
use ocm_k8s_toolkit.Versions.Deny.{determine_effective_version_deny}
use ocm_k8s_toolkit.Versions.Latest.{Settled, determine_effective_version-Settled}
use ocm_k8s_toolkit.Sorting.{sort}
use ocm_k8s_toolkit.Tests.Semver.{semver_laws}
use ocm_k8s_toolkit.Hash.Compare.{compare_cached_and_live_hashes}
use ocm_k8s_toolkit.Reconcile.{requeue_in}
use ocm_k8s_toolkit.Component.{reconcile_live}
use ocm_k8s_toolkit.Component.Ready.{Recorded, reconcile_live-Recorded}
use ocm_k8s_toolkit.Tests.Samples.{semver, live_repo, settings, component, live, component_ops}

determine_effective_version-Settled_example :
    Settled semver semver_laws live_repo "acme.org/app" enforce "*" "3" "2"
unfolding determine_effective_version sort
determine_effective_version-Settled_example =
    determine_effective_version-Settled semver semver_laws live_repo "acme.org/app" enforce "" "*"
      "3" "2" refl

determine_effective_version_deny_example :
    (latest : semver.Version) × ("2" ≡ semver.original latest)
    × (semver.greater_than_equal latest 1 ≡ true)
unfolding determine_effective_version sort
determine_effective_version_deny_example =
    determine_effective_version_deny semver live_repo "acme.org/app" "" "*" "1" "2" 1 refl refl refl

reconcile_live-Recorded_example :
    Recorded sample sample_laws component_ops
      (component false)
      "registry"
      (settings ∷ [])
      0
      0
      live
      (reconcile_live sample component_ops
        (component false)
        "registry"
        (settings ∷ [])
        0
        0
        0
        live
        (start (component false))).1
unfolding reconcile_live sort find put drop_type determine_effective_version
    compare_cached_and_live_hashes
reconcile_live-Recorded_example =
    reconcile_live-Recorded sample sample_laws component_ops (component false) "registry"
      (settings ∷ []) 0 0 0 live (start (component false)) _ (requeue_in 60) refl
