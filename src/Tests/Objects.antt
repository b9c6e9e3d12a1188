-- ===== src/Tests/Objects.antt =====
-- Objects, their conditions and their configuration at concrete inputs.
use ocm_k8s_toolkit.Prelude.{◌≡◌, ◌↔◌, refl, true, false, none, [], ◌∷◌, ◌==◌}
use ocm_k8s_toolkit.Errors.{sentinel, deletion_error, ok}
use ocm_k8s_toolkit.Library.Sample.{sample, sample_laws}
use ocm_k8s_toolkit.Kube.{
  found, get_ready_object, get_ready_object_iff, is_unavailable, is_unavailable-get_ready_object,
}
use ocm_k8s_toolkit.Config.{get_effective_config}
use ocm_k8s_toolkit.Config.Effective.{AllData, get_effective_config-AllData}
use ocm_k8s_toolkit.Versions.{get_latest_valid_version}
use ocm_k8s_toolkit.Versions.Latest.{IsLatest, get_latest_valid_version_unfiltered}
use ocm_k8s_toolkit.Sorting.{sort}
use ocm_k8s_toolkit.Tests.Semver.{semver_laws}
use ocm_k8s_toolkit.Api.{Verification}
use ocm_k8s_toolkit.Errors.{got}
use ocm_k8s_toolkit.Signatures.{get_verifications}
use ocm_k8s_toolkit.Signatures.Keys.{AllKeyed, get_verifications-Keyed}
use ocm_k8s_toolkit.Tests.Samples.{semver, settings, providers, component}

get_ready_object_iff_example :
    (get_ready_object sample
        (λ k. found (component false))
        (record { namespace = "default"; name = "app" })
      ≡ ok (component false))
    ↔ ((found (component false) ≡ found (component false))
        × ((component false).meta.deleting ≡ false)
        × (sample.is_ready (component false).conditions ≡ true))
get_ready_object_iff_example =
    get_ready_object_iff sample (λ k. found (component false))
      (record { namespace = "default"; name = "app" }) (component false)

is_unavailable-get_ready_object_example :
    is_unavailable (sentinel (deletion_error "default/app")) ≡ false
unfolding get_ready_object
is_unavailable-get_ready_object_example =
    is_unavailable-get_ready_object sample sample_laws (λ k. found (component true))
      (record { namespace = "default"; name = "app" }) (sentinel (deletion_error "default/app"))
      refl

get_effective_config-AllData_example :
    AllData (get_effective_config providers "default" (settings ∷ []))
get_effective_config-AllData_example =
    get_effective_config-AllData providers
      (record { at = λ k key. (record { kind = refl; namespaced = refl }, tt) }) "default"
      (settings ∷ []) refl

get_latest_valid_version_unfiltered_example :
    IsLatest semver ("1" ∷ "2" ∷ []) "*" 2
    × ((w : semver.Version)
        → get_latest_valid_version semver ("1" ∷ "2" ∷ []) "*" none ≡ ok w
        → (semver.greater_than_equal 2 w ≡ true) × (semver.greater_than_equal w 2 ≡ true))
unfolding get_latest_valid_version sort
get_latest_valid_version_unfiltered_example =
    get_latest_valid_version_unfiltered semver semver_laws ("1" ∷ "2" ∷ []) "*" (λ v. v == "1") 2
      refl

abbrev in_secret : Verification
in_secret = record { signature = "acme"; secret_ref = "keys"; value = "" }

get_verifications-Keyed_example :
    AllKeyed
      (λ t. got t)
      (λ k. got (("acme", "public") ∷ []))
      "default"
      (in_secret ∷ [])
      (record { signature = "acme"; public_key = "public" } ∷ [])
unfolding get_verifications
get_verifications-Keyed_example =
    get_verifications-Keyed (λ t. got t) (λ k. got (("acme", "public") ∷ [])) "default"
      (in_secret ∷ []) (record { signature = "acme"; public_key = "public" } ∷ []) refl
