-- ===== src/Deployer/Ownership/Annotations.antt =====
-- The annotations of an applied object, by their keys.
use ocm_k8s_toolkit.Prelude.{
  String, ◌≡◌, sym, ap, ◌∙◌, false, Option, some, ◌==◌, arith, Bool-cases, inl, inr, eq_iff,
}
use ocm_k8s_toolkit.Errors.{ok}
use ocm_k8s_toolkit.Component.Ops.{ComponentInfo}
use ocm_k8s_toolkit.Resource.Ops.{ResourceInfo}
use ocm_k8s_toolkit.Deployer.Digest.{DigestSpec, digest_spec}
use ocm_k8s_toolkit.Deployer.Digest.RoundTrip.{digest_text, digest_spec_iff}
use ocm_k8s_toolkit.Deployer.Ownership.{
  StringMap, set_entry, entry, set_digest_parts, set_digest, set_identity, ownership_annotations,
  resource_access_annotation, component_name_annotation, component_version_annotation, identity_key,
  digest_value_annotation, digest_algorithm_annotation, digest_normalisation_annotation,
  raw_digest_annotation,
}
use ocm_k8s_toolkit.Deployer.Ownership.Labels.{entry-set_entry}

-- The digest that the annotations of an object tell: the print of its parts, or the raw text.
abbrev pub printed_parts :
    Option String → Option String → Option String → Option String → Option String
printed_parts (some a) (some n) (some v) raw =
    some (digest_text (record { hash_algorithm = a; normalisation_algorithm = n; value = v }))
printed_parts a n v raw = raw

abbrev pub annotated_digest : StringMap → Option String
annotated_digest m =
    printed_parts (entry digest_algorithm_annotation m) (entry digest_normalisation_annotation m)
      (entry digest_value_annotation m) (entry raw_digest_annotation m)

read_parts :
    (spec : DigestSpec) (m : StringMap) (info : ResourceInfo) (component : ComponentInfo)
    (digest : String)
    → annotated_digest (
        set_entry component_version_annotation component.version (
          set_entry component_name_annotation component.component (
            set_entry resource_access_annotation info.access
              (set_digest_parts digest (ok spec) m))))
      ≡ some (digest_text spec)
unfolding set_digest_parts
read_parts spec m info component digest = simp (entry-set_entry)

-- What setOwnershipAnnotations tells of the resource of an object.
pub record Annotated (info : ResourceInfo) (component : ComponentInfo) (after : StringMap)
    : Type 0 where
  pub digest : annotated_digest after ≡ some info.digest
  pub access : entry resource_access_annotation after ≡ some info.access
  pub component_name : entry component_name_annotation after ≡ some component.component
  pub component_version : entry component_version_annotation after ≡ some component.version

digest_spec-ne :
    (digest : String) (spec : DigestSpec) → digest_spec digest ≡ ok spec → (digest == "") ≡ false
unfolding digest_spec
digest_spec-ne digest spec h = elim (Bool-cases (digest == "")) [
  | inl e ↦ absurd (ground (arith, ap digest_spec (sym ((eq_iff digest "").0 e)) ∙ h))
  | inr n ↦ n
]

-- If digestSpec reads the digest of a resource, then the parts that setOwnershipAnnotations sets on
-- an object make up that digest again, whatever annotations the object had and whatever the extra
-- identity is; the access and the name and version of the component are there as well.
pub ownership_annotations-Annotated :
    (spec : DigestSpec) (info : ResourceInfo) (component : ComponentInfo) (m : StringMap)
    → digest_spec info.digest ≡ ok spec
    → Annotated info component (ownership_annotations info component m)
unfolding ownership_annotations set_digest
ownership_annotations-Annotated spec info component m h =
    let printed = (digest_spec_iff info.digest spec).0 h in
    let before : StringMap = set_identity info.extra_identity (
      set_entry (identity_key "version") info.version
        (set_entry (identity_key "name") info.name m)) in
    rw (digest_spec-ne info.digest spec h, h)
      (record {
        digest = read_parts spec before info component info.digest ∙ ap some (sym printed.1);
        access = simp (entry-set_entry);
        component_name = simp (entry-set_entry);
        component_version = simp (entry-set_entry);
      })
