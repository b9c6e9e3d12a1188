-- ===== src/Deployer/Ownership.antt =====
-- The labels and annotations that mark an object as the deployer's: labels.go and annotations.go of
-- internal/controller/deployer.
pub mod Labels
pub mod Annotations
use Prim.Native.Char.{len_utf8}
use Prim.Native.String
use Prim.Native.String.{len}
use ocm_k8s_toolkit.Prelude.{
  ℕ, ◌-◌, String, Option, none, some, List, [], ◌∷◌, ◌==◌, ltb, leb, str_append, if◌then◌else◌,
}
use ocm_k8s_toolkit.Errors.{Outcome, ok, err}
use ocm_k8s_toolkit.Component.Ops.{ComponentInfo}
use ocm_k8s_toolkit.Resource.Ops.{ResourceInfo}
use ocm_k8s_toolkit.Deployer.Digest.{DigestSpec, digest_spec}
use ocm_k8s_toolkit.Deployer.Objects.{DeployedObject}

abbrev pub StringMap : Type 0
StringMap = List (String × String)

-- `m[k] = v`
unfoldable pub set_entry : String → String → StringMap → StringMap
set_entry k v [] = (k, v) ∷ []
set_entry k v (e ∷ m) = let rest = set_entry k v m in if e.0 == k then (k, v) ∷ m else e ∷ rest

-- `m[k]`
unfoldable pub entry : String → StringMap → Option String
entry k [] = none
entry k (e ∷ m) = let rest = entry k m in if e.0 == k then some e.1 else rest

abbrev pub managed_by_label : String
managed_by_label = "app.kubernetes.io/managed-by"

abbrev pub version_label : String
version_label = "app.kubernetes.io/version"

abbrev pub part_of_label : String
part_of_label = "app.kubernetes.io/part-of"

abbrev pub instance_label : String
instance_label = "app.kubernetes.io/instance"

abbrev pub name_label : String
name_label = "app.kubernetes.io/name"

abbrev pub component_label : String
component_label = "app.kubernetes.io/component"

abbrev pub deployer_manager : String
deployer_manager = "deployer.delivery.ocm.software"

-- validation.LabelValueMaxLength
abbrev pub label_value_max_length : ℕ
label_value_max_length = 63

-- `v[:n]`; a character that the cut would divide is left out whole
unfoldable pub take_bytes : ℕ → String → String
take_bytes n String.[] = String.[]
take_bytes n (String.◌∷◌ c s) =
    let rest = take_bytes (n - len_utf8 c) s in
    if leb (len_utf8 c) n then String.◌∷◌ c rest else String.[]

unfoldable pub limit : String → String
unfolding take_bytes
limit v = if ltb label_value_max_length (len v) then take_bytes label_value_max_length v else v

-- setOwnershipLabels, on the labels of the object: the name and UID of the resource, what its status
-- says of the OCM resource, and the name of the deployer
unfoldable pub ownership_labels : String → String → ResourceInfo → String → StringMap → StringMap
unfolding set_entry limit
ownership_labels name uid info deployer labels = set_entry managed_by_label deployer_manager (
    set_entry part_of_label (limit deployer) (
      set_entry instance_label (limit uid) (
        set_entry version_label (limit info.version)
          (set_entry name_label (limit name) (set_entry component_label (limit name) labels)))))

abbrev pub resource_access_annotation : String
resource_access_annotation = "resource.delivery.ocm.software/access"

abbrev pub component_name_annotation : String
component_name_annotation = "component.delivery.ocm.software/name"

abbrev pub component_version_annotation : String
component_version_annotation = "component.delivery.ocm.software/version"

abbrev pub identity_key : String → String
identity_key k = str_append "identity.resource.delivery.ocm.software/" k

abbrev pub digest_value_annotation : String
digest_value_annotation = "digest.resource.delivery.ocm.software/value"

abbrev pub digest_algorithm_annotation : String
digest_algorithm_annotation = "digest.resource.delivery.ocm.software/hashAlgorithm"

abbrev pub digest_normalisation_annotation : String
digest_normalisation_annotation = "digest.resource.delivery.ocm.software/normalisationAlgorithm"

abbrev pub raw_digest_annotation : String
raw_digest_annotation = "digest.resource.delivery.ocm.software/raw"

-- the loop over the extra identity
unfoldable pub set_identity : StringMap → StringMap → StringMap
unfolding set_entry
set_identity [] m = m
set_identity (e ∷ extra) m = set_identity extra (set_entry (identity_key e.0) e.1 m)

-- given what digestSpec makes of the digest
unfoldable pub set_digest_parts : String → Outcome DigestSpec → StringMap → StringMap
unfolding set_entry
set_digest_parts digest (ok spec) m =
    set_entry digest_normalisation_annotation spec.normalisation_algorithm (
      set_entry digest_algorithm_annotation spec.hash_algorithm
        (set_entry digest_value_annotation spec.value m))
set_digest_parts digest (err e) m = set_entry raw_digest_annotation digest m

unfoldable pub set_digest : String → StringMap → StringMap
unfolding set_digest_parts digest_spec
set_digest digest m = if digest == "" then m else set_digest_parts digest (digest_spec digest) m

-- setOwnershipAnnotations, on the annotations of the object
unfoldable pub ownership_annotations : ResourceInfo → ComponentInfo → StringMap → StringMap
unfolding set_entry set_identity set_digest
ownership_annotations info component m = set_entry component_version_annotation component.version (
    set_entry component_name_annotation component.component (
      set_entry resource_access_annotation info.access (
        set_digest info.digest (
          set_identity info.extra_identity (
            set_entry (identity_key "version") info.version
              (set_entry (identity_key "name") info.name m))))))
