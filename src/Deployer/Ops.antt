-- ===== src/Deployer/Ops.antt =====
-- The data of internal/controller/deployer/deployer_controller.go and api/v1alpha1/deployer_types.go,
-- and what other packages offer to it.
use ocm_k8s_toolkit.Prelude.{ℕ, String, Bool, Option, List, []}
use ocm_k8s_toolkit.Errors.{Fault, Outcome, Reply}
use ocm_k8s_toolkit.Api.{Object, ObjectKey, OcmConfiguration}
use ocm_k8s_toolkit.Exec.World.{World, start}
use ocm_k8s_toolkit.Informers.{Gvk, WatchObject}
use ocm_k8s_toolkit.Resource.Ops.{ResourceAccess}
use ocm_k8s_toolkit.Resource.Access.{AccessOps}
use ocm_k8s_toolkit.Deployer.Digest.{DigestSpec}
use ocm_k8s_toolkit.Deployer.Objects.{DeployedObject, DeployedObjectReference}

pub record DeployerSpec : Type 0 where
  pub resource_ref : ObjectKey
  pub ocm_config : List OcmConfiguration
  pub suspend : Bool

pub record DeployerStatus : Type 0 where
  pub deployed : List DeployedObjectReference

abbrev pub Deployer : Type 0
Deployer = Object DeployerSpec DeployerStatus

-- A resource of a component descriptor: its type, its digest and its access specification, a name.
pub record RawResource : Type 0 where
  pub type : String
  pub digest : Option DigestSpec
  pub access : ℕ

-- The OCM library. Contexts, sessions, specifications, repositories, resolvers, component versions,
-- access methods, blobs and manifests are names; `D` is the type of component descriptors.
pub record DeployerOps (D : Type 0) : Type 0 where
  pub accesses : AccessOps D ResourceAccess
  pub get_session : String → List OcmConfiguration → Outcome (ℕ × ℕ)
  pub repository_spec_for_config : ℕ → String → Reply ℕ
  pub lookup_repository : ℕ → ℕ → ℕ → Reply ℕ
  pub lookup_component_version : ℕ → ℕ → String → String → Reply ℕ
  pub descriptor : ℕ → D
  pub compound_resolver : ℕ → ℕ → ℕ
  -- the resource of the descriptor at the index of the access
  pub raw_resource : D → ResourceAccess → RawResource
  pub access_spec_for_spec : ℕ → ℕ → Reply ℕ
  pub spec_access_method : ℕ → ℕ → Reply ℕ
  pub access_method : ResourceAccess → Reply ℕ
  -- the first digest of the method redirected to the blob, for the type of a digest
  pub determine_digest : String → DigestSpec → ℕ → ℕ → Reply DigestSpec
  pub reader : ℕ → Reply ℕ
  -- what the calls of Decode return up to the end of the manifest
  pub decode : ℕ → List (Reply DeployedObject)
  pub close : ℕ → Option Fault

-- The client, and controllerutil.SetControllerReference for the deployer; the schema.GroupVersionKind
-- of an object.
pub record ApplyOps : Type 0 where
  pub gvk_of : DeployedObject → Gvk
  pub set_controller_reference : Deployer → DeployedObject → Reply DeployedObject
  pub patch : DeployedObject → Option Fault

-- The functions and channels of the Reconciler that the informer manager fills, for one deployer. A
-- send fails if the context is done first.
pub record WatchOps : Type 0 where
  pub has_synced : WatchObject → Bool
  pub is_stopped : WatchObject → Bool
  pub watches : List WatchObject
  pub register : WatchObject → Option Fault
  pub unregister : WatchObject → Option Fault

-- What a reconciliation changes: the deployer with its events, the objects in the order in which
-- their Patch is called, the events that are sent on the two channels, and the closed manifests.
pub record Process : Type 0 where
  pub world : World DeployerSpec DeployerStatus
  pub patched : List DeployedObject
  pub registrations : List WatchObject
  pub unregistrations : List WatchObject
  pub closed : List ℕ

abbrev pub start_process : Deployer → Process
start_process o = record {
  world = start o;
  patched = [];
  registrations = [];
  unregistrations = [];
  closed = [];
}
