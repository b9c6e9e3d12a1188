-- ===== src/Tests/Deployers.antt =====
-- Two objects of a manifest, and a download that fails at first.
use ocm_k8s_toolkit.Prelude.{ℕ, zero, suc, none, String, ◌≡◌, refl, [], ◌∷◌}
use ocm_k8s_toolkit.Errors.{Outcome, ok, err, new}
use ocm_k8s_toolkit.Hash.{bytes_eq}
use ocm_k8s_toolkit.Sorting.Bytes.{Bytes}
use ocm_k8s_toolkit.Deployer.Objects.{
  DeployedObject, reference_of, update_deployed_object_status_references,
}
use ocm_k8s_toolkit.Deployer.References.{update_deployed_object_status_references_collapse}
use ocm_k8s_toolkit.Deployer.Downloads.{Downloads}
use ocm_k8s_toolkit.Tests.Contexts.{single}

abbrev pub object : String → String → DeployedObject
object name uid = record {
  api_version = "v1";
  kind = "ConfigMap";
  name = name;
  namespace = "default";
  uid = uid;
  labels = [];
  annotations = [];
  owners = [];
  content = "{}";
}

update_deployed_object_status_references_collapse_example :
    update_deployed_object_status_references (object "one" "" ∷ object "two" "" ∷ []) []
    ≡ reference_of (object "two" "") ∷ []
update_deployed_object_status_references_collapse_example =
    update_deployed_object_status_references_collapse "" (object "one" "") (object "two" "" ∷ [])
      (refl, (refl, tt))

abbrev at_second : ℕ → Outcome ℕ × ℕ
at_second zero = (err (new "no connection"), 1)
at_second (suc n) = (ok n, suc (suc n))

abbrev unloaded : Downloads (single {K = Bytes} {V = ℕ} bytes_eq) (λ c. 0) ℕ
unloaded = record { cache = none; calls = []; outside = 1 }
