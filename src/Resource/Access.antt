-- ===== src/Resource/Access.antt =====
-- GetResourceAccessForComponentVersion of internal/ocm/resource.go.
use ocm_k8s_toolkit.Prelude.{ℕ, String, Bool, true, false, Option, none, some, List, [], ◌∷◌}
use ocm_k8s_toolkit.Errors.{
  Fault, new, external, wrap, wrapping, Outcome, ok, err, ◌>>=◌, ◌>>◌, Reply, outcome,
}

-- v1.ResourceReference: the identity of a resource and the path of references to it
pub record ResourceReference : Type 0 where
  pub resource : List (String × String)
  pub reference_path : List (List (String × String))

-- What the OCM library offers on a component version in which a resource was looked up. `D` is the
-- type of component descriptors, `A` that of resource accesses.
pub record ResourceVersion (D A : Type 0) : Type 0 where
  pub name : String
  pub version : String
  pub select_resources : List (String × String) → Reply (List A)
  -- VerifyResourceDigestByResourceAccess against the descriptor of the version
  pub verify_digest : A → Bool × Option Fault
  pub marshal_repository_spec : Reply String

pub record AccessOps (D A : Type 0) : Type 0 where
  -- ResolveResourceReference: the identity of the resource, and the descriptor that has it
  pub resolve_resource_reference :
      D → ResourceReference → List D → Reply (List (String × String) × D)
  pub descriptor_name : D → String
  pub descriptor_version : D → String
  -- the session's lookup through the resolver of a repository
  pub lookup_component_version : ℕ → ℕ → String → String → Reply (ResourceVersion D A)
  pub access_method : A → Option Fault

abbrev pub the_one {ℓ} : {A : Type ℓ} → List A → Outcome A
the_one [] = err (new "no resources selected")
the_one (a ∷ []) = ok a
the_one (a ∷ b ∷ l) = err (new "cannot determine the resource access unambiguously")

abbrev pub digest_verified : Bool × Option Fault → Outcome (Unit {0})
digest_verified (false, some f) = err (wrap "verification failed" (external f))
digest_verified (false, none) =
    err (new "expected signature verification to be relevant, but it was not")
digest_verified (true, some f) = err (wrap "failed to verify resource digest" (external f))
digest_verified (true, none) = ok tt

abbrev pub after_access_method : Option Fault → Outcome (Unit {0}) → Outcome (Unit {0})
after_access_method none r = r
after_access_method (some f) r = err (wrap "failed to create access method" (external f))

module _ {D A : Type 0} (ops : AccessOps D A) where
  -- verifyResource
  unfoldable pub verify_resource : A → ResourceVersion D A → Outcome (Unit {0})
  verify_resource access cv =
      after_access_method (ops.access_method access) (digest_verified (cv.verify_digest access))

  -- `if !skipVerification { … }`
  unfoldable pub unless_skipped : Bool → A → ResourceVersion D A → Outcome (Unit {0})
  unfolding verify_resource
  unless_skipped true access cv = ok tt
  unless_skipped false access cv = wrapping "failed to verify resource" (verify_resource access cv)

  -- GetResourceAccessForComponentVersion
  unfoldable pub get_resource_access :
      ℕ → ℕ → D → ResourceReference → List D → Bool → Outcome (A × ResourceVersion D A)
  unfolding unless_skipped
  get_resource_access session resolver descriptor reference descriptors skip_verification = do
    resolved ←
        wrapping "failed to resolve resource reference"
          (outcome (ops.resolve_resource_reference descriptor reference descriptors))
    cv ← wrapping "failed to lookup component version for resource" (
        outcome (
          ops.lookup_component_version session resolver (ops.descriptor_name resolved.1)
            (ops.descriptor_version resolved.1)))
    accesses ← wrapping "failed to select resources" (outcome (cv.select_resources resolved.0))
    access ← the_one accesses
    unless_skipped skip_verification access cv
    ok (access, cv)
