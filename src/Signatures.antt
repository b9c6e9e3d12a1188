-- ===== src/Signatures.antt =====
-- internal/ocm/verification.go: the keys to verify with, and the verification of a component version.
pub mod Keys
use ocm_k8s_toolkit.Prelude.{
  String, Bool, true, false, not, ◌&&◌, Option, none, some, List, [], ◌∷◌, ◌==◌, map, is_empty,
  if◌then◌else◌,
}
use ocm_k8s_toolkit.Errors.{
  Fault, new, external, wrap, terminal, Outcome, ok, err, ◌>>=◌, ◌>>◌, Reply, got, fault, outcome,
}
use ocm_k8s_toolkit.Api.{ObjectKey, Verification}

-- the Verification of internal/ocm; a key that is not set is empty
pub record VerificationKey : Type 0 where
  pub signature : String
  pub public_key : String

abbrev pub SecretData : Type 0
SecretData = List (String × String)

abbrev pub key_in : String → SecretData → String → String
key_in name [] default = default
key_in name (e ∷ l) default = if e.0 == name then e.1 else key_in name l default

module _ (decode_string : String → Reply String) (get_secret : ObjectKey → Reply SecretData)
    (namespace : String) where
  -- `if verification.Value != "" { … }`
  unfoldable pub inline_key : Verification → Outcome String
  inline_key v = if v.value == "" then ok "" else outcome (decode_string v.value)

  -- `if verification.SecretRef.Name != "" { … }`
  unfoldable pub secret_key : Verification → String → Outcome String
  secret_key v key = if v.secret_ref == "" then ok key else do
    entries ← outcome (get_secret (record { namespace = namespace; name = v.secret_ref }))
    ok (key_in v.signature entries key)

  abbrev pub build_key : Verification → Outcome VerificationKey
  build_key v = do
    inline ← inline_key v
    key ← secret_key v inline
    ok (record { signature = v.signature; public_key = key })

  -- the body of the loop
  unfoldable pub get_verification : Verification → Outcome VerificationKey
  unfolding inline_key secret_key
  get_verification v =
      if v.value == "" && v.secret_ref == ""
      then err (terminal (new "value and secret ref cannot both be empty for signature"))
      else if not (v.value == "") && not (v.secret_ref == "")
      then err (terminal (new "value and secret ref cannot both be set for signature"))
      else build_key v

  -- GetVerifications
  unfoldable pub get_verifications : List Verification → Outcome (List VerificationKey)
  unfolding get_verification
  get_verifications [] = ok []
  get_verifications (v ∷ vs) = do k ← get_verification v; ks ← get_verifications vs; ok (k ∷ ks)

-- What signing.Apply and ListComponentDescriptors offer for one component version, whose
-- descriptors have the type `D`.
pub record Signing (D : Type 0) : Type 0 where
  pub apply : List String → Option Fault
  pub verified_descriptors : List String → List D
  pub list_descriptors : Reply (List D)

module _ {D : Type 0} (signing : Signing D) where
  abbrev pub applied : Option Fault → List D → Outcome (Option (List D))
  applied none l = ok (some l)
  applied (some f) l = err (wrap "failed to verify component signatures" (external f))

  -- VerifyComponentVersion; the version is there
  unfoldable pub verify_component_version : List String → Outcome (Option (List D))
  verify_component_version sigs =
      if is_empty sigs
      then ok none
      else applied (signing.apply sigs) (signing.verified_descriptors sigs)

  -- the descriptors, if the verification collected any, or else those that are listed
  abbrev pub collected : Outcome (Option (List D)) → Outcome (List D)
  collected (err e) = err (wrap "failed to verify component" e)
  collected (ok (some (d ∷ l))) = ok (d ∷ l)
  collected (ok _) = listed signing.list_descriptors
    where
      listed : Reply (List D) → Outcome (List D)
      listed (got l) = ok l
      listed (fault f) = err (wrap "failed to list component descriptors" (external f))

  -- VerifyComponentVersionAndListDescriptors
  unfoldable pub verify_and_list_descriptors : List String → Outcome (List D)
  unfolding verify_component_version
  verify_and_list_descriptors sigs = collected (verify_component_version sigs)
