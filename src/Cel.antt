-- ===== src/Cel.antt =====
-- The CEL function toOCI, internal/cel/functions/oci.go. The parser of references is a parameter.
pub mod Parts
use Prim.Native.Char.{code}
use Prim.Native.String
use ocm_k8s_toolkit.Prelude.{
  ℕ, String, str_append, Option, none, some, List, [], ◌∷◌, ◌==◌, nat_eq, if◌then◌else◌,
}
use ocm_k8s_toolkit.Errors.{new, Outcome, ok, err, ◌>>=◌, Reply, outcome}

-- a value of a map[string]any, as far as the function tells them apart
pub data MapValue : Type 0 where
  text_value : String → MapValue
  other_value : MapValue

-- a CEL value, as far as the function tells them apart
pub data Value : Type 0 where
  text : String → Value
  mapping : List (String × MapValue) → Value
  other : Value

-- oci.RefSpec, the digest as its text
pub record RefSpec : Type 0 where
  pub host : String
  pub repository : String
  pub tag : Option String
  pub digest : Option String

-- the map that the function returns, by its keys
pub record OciParts : Type 0 where
  pub host : String
  pub registry : String
  pub repository : String
  pub reference : String
  pub digest : String
  pub tag : String

-- `v["imageReference"]`
unfoldable pub image_reference : List (String × MapValue) → Option MapValue
image_reference [] = none
image_reference ((k, v) ∷ m) =
    let rest = image_reference m in if k == "imageReference" then some v else rest

abbrev pub text_of : Option MapValue → Outcome String
text_of none = err (new "expected map with key 'imageReference'")
text_of (some (text_value t)) = ok t
text_of (some other_value) = err (new "expected map with key 'imageReference' to be a string")

-- the reference of a value
unfoldable pub reference_in : Value → Outcome String
unfolding image_reference
reference_in (text t) = ok t
reference_in (mapping m) = text_of (image_reference m)
reference_in other = err (new "expected string or map with key 'imageReference'")

-- strings.TrimLeft with a slash
unfoldable pub trim_slashes : String → String
trim_slashes String.[] = String.[]
trim_slashes (String.◌∷◌ c s) =
    let rest = trim_slashes s in if nat_eq (code c) b'/' then rest else String.◌∷◌ c s

-- the text of a pointer, which stays empty for nil
abbrev pub text_or_empty : Option String → String
text_or_empty none = ""
text_or_empty (some t) = t

abbrev pub reference_text : Option String → Option String → String
reference_text (some tag) (some digest) = str_append tag (str_append "@" digest)
reference_text (some tag) none = tag
reference_text none (some digest) = digest
reference_text none none = ""

unfoldable pub parts_of : RefSpec → OciParts
unfolding trim_slashes
parts_of r = record {
  host = r.host;
  registry = r.host;
  repository = trim_slashes r.repository;
  reference = reference_text r.tag r.digest;
  digest = text_or_empty r.digest;
  tag = text_or_empty r.tag;
}

-- BindingToOCI
unfoldable pub binding_to_oci : (String → Reply RefSpec) → Value → Outcome OciParts
unfolding reference_in parts_of
binding_to_oci parse_ref v = do
  reference ← reference_in v
  r ← outcome (parse_ref reference)
  ok (parts_of r)
