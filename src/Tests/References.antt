-- ===== src/Tests/References.antt =====
-- The parts of an image reference at a concrete value.
use ocm_k8s_toolkit.Prelude.{String, ◌≡◌, refl, subst, some, [], ◌∷◌, ◌==◌, ap, false}
use ocm_k8s_toolkit.Errors.{ok, Reply, got}
use ocm_k8s_toolkit.Cel.{
  Value, mapping, text_value, RefSpec, OciParts, reference_in, binding_to_oci, image_reference,
  text_or_empty,
}
use ocm_k8s_toolkit.Cel.Parts.{RefLaws, Agrees, binding_to_oci-Agrees}

abbrev sample : RefSpec
sample = record {
  host = "ghcr.io";
  repository = "/org/app";
  tag = some "1.0.0";
  digest = some "sha256:ab";
}

abbrev parse : String → Reply RefSpec
parse s = got sample

abbrev value : Value
value = mapping (("imageReference", text_value "ghcr.io/org/app:1.0.0@sha256:ab") ∷ [])

abbrev ref_or_sample : Reply RefSpec → RefSpec
ref_or_sample (got r) = r
ref_or_sample _ = sample

sample_laws : RefLaws sample
sample_laws = record {
  tag = λ t h. subst (λ o. (text_or_empty o == "") ≡ false) h refl;
  digest = λ d h. subst (λ o. (text_or_empty o == "") ≡ false) h refl;
}

binding_to_oci-Agrees_example :
    (m : OciParts) × (binding_to_oci parse value ≡ ok m) × Agrees sample m
unfolding image_reference reference_in
binding_to_oci-Agrees_example =
    binding_to_oci-Agrees parse (λ s r h. subst RefLaws (ap ref_or_sample h) sample_laws) value
      "ghcr.io/org/app:1.0.0@sha256:ab" sample refl refl
