-- ===== src/Deployer/Objects.antt =====
-- The objects that a deployer applies, and the references to them in its status
-- (api/v1alpha1/deployer_types.go and updateDeployedObjectStatusReferences).
use ocm_k8s_toolkit.Prelude.{String, List, [], ◌∷◌, ◌==◌, if◌then◌else◌}

-- An object of a manifest: what the deployer reads and writes of it, and the rest of it as a text.
pub record DeployedObject : Type 0 where
  pub api_version : String
  pub kind : String
  pub name : String
  pub namespace : String
  pub uid : String
  pub labels : List (String × String)
  pub annotations : List (String × String)
  pub owners : List String
  pub content : String

-- DeployedObjectReference
pub record DeployedObjectReference : Type 0 where
  pub api_version : String
  pub kind : String
  pub name : String
  pub namespace : String
  pub uid : String

abbrev pub reference_of : DeployedObject → DeployedObjectReference
reference_of obj = record {
  api_version = obj.api_version;
  kind = obj.kind;
  name = obj.name;
  namespace = obj.namespace;
  uid = obj.uid;
}

-- the reference in the place of the first one with its UID, or after the others
unfoldable pub put_reference :
    DeployedObjectReference → List DeployedObjectReference → List DeployedObjectReference
put_reference ref [] = ref ∷ []
put_reference ref (r ∷ l) =
    let rest = put_reference ref l in if r.uid == ref.uid then ref ∷ l else r ∷ rest

-- updateDeployedObjectStatusReferences, on `deployer.Status.Deployed`
unfoldable pub update_deployed_object_status_references :
    List DeployedObject → List DeployedObjectReference → List DeployedObjectReference
unfolding put_reference
update_deployed_object_status_references [] deployed = deployed
update_deployed_object_status_references (obj ∷ objs) deployed =
    update_deployed_object_status_references objs (put_reference (reference_of obj) deployed)
