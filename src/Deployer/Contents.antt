-- ===== src/Deployer/Contents.antt =====
-- getResource and decodeObjectsFromManifest of internal/controller/deployer/deployer_controller.go.
use ocm_k8s_toolkit.Prelude.{ℕ, String, Option, none, some, List, [], ◌∷◌, ◌++◌}
use ocm_k8s_toolkit.Errors.{
  new, external, wrap, wrapping, Outcome, ok, err, ◌>>=◌, Reply, got, fault, outcome,
}
use ocm_k8s_toolkit.Resource.Ops.{ResourceAccess}
use ocm_k8s_toolkit.Deployer.Digest.{DigestSpec}
use ocm_k8s_toolkit.Deployer.Digest.RoundTrip.{digest_text}
use ocm_k8s_toolkit.Deployer.Objects.{DeployedObject}
use ocm_k8s_toolkit.Deployer.Ops.{RawResource, DeployerOps}

-- the loop over the decoder, given the objects before
unfoldable pub decode_all :
    List (Reply DeployedObject) → List DeployedObject → Outcome (List DeployedObject)
decode_all [] objs = ok objs
decode_all (fault f ∷ rs) objs = err (wrap "failed to unmarshal manifest" (external f))
decode_all (got o ∷ rs) objs = decode_all rs (objs ++ o ∷ [])

unfoldable pub some_objects : Outcome (List DeployedObject) → Outcome (List DeployedObject)
some_objects (ok []) = err (new "no objects found in  manifest")
some_objects (ok (o ∷ objs)) = ok (o ∷ objs)
some_objects (err e) = err e

-- decodeObjectsFromManifest, on what the decoder returns
unfoldable pub decode_objects : List (Reply DeployedObject) → Outcome (List DeployedObject)
unfolding decode_all some_objects
decode_objects rs = some_objects (decode_all rs [])

module _ {D : Type 0} (ops : DeployerOps D) where
  -- getResource, given the resource of the descriptor
  unfoldable pub read_resource :
      ℕ → ℕ → ResourceAccess → RawResource → Option DigestSpec → Outcome (ℕ × String)
  read_resource octx cv access raw none = err (new "digest not found in resource access")
  read_resource octx cv access raw (some recorded) = do
    acc ←
        wrapping "failed getting access for resource"
          (outcome (ops.access_spec_for_spec octx raw.access))
    meth ← wrapping "failed getting access method" (outcome (ops.spec_access_method acc cv))
    blob ← wrapping "failed to create access method" (outcome (ops.access_method access))
    digest ←
        wrapping "failed determining digest for resource"
          (outcome (ops.determine_digest raw.type recorded meth blob))
    manifest ← wrapping "failed getting resource data" (outcome (ops.reader blob))
    ok (manifest, digest_text digest)

  -- getResource: the manifest and its digest
  unfoldable pub get_resource : ℕ → ℕ → ResourceAccess → Outcome (ℕ × String)
  unfolding read_resource
  get_resource octx cv access =
      let raw = ops.raw_resource (ops.descriptor cv) access in
      read_resource octx cv access raw raw.digest
