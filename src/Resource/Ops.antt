-- ===== src/Resource/Ops.antt =====
-- The data of internal/controller/resource/resource_controller.go and api/v1alpha1/resource_types.go,
-- and what other packages offer to it.
use ocm_k8s_toolkit.Prelude.{ℕ, String, Bool, Option, List}
use ocm_k8s_toolkit.Errors.{Outcome, Reply}
use ocm_k8s_toolkit.Api.{Object, OcmConfiguration, Verification}
use ocm_k8s_toolkit.Signatures.{Signing}
use ocm_k8s_toolkit.Component.Ops.{ComponentInfo}
use ocm_k8s_toolkit.Resource.Access.{ResourceReference, AccessOps}

pub record ResourceSpec : Type 0 where
  pub component_ref : String
  pub reference : ResourceReference
  pub ocm_config : List OcmConfiguration
  pub skip_verify : Bool
  pub interval : ℕ
  pub suspend : Bool
  pub additional_status_fields : List (String × String)

pub record MergeAlgorithm : Type 0 where
  pub algorithm : String
  pub config : String

-- a label of a component descriptor, and the Label of the API, which has the same fields
pub record Label : Type 0 where
  pub name : String
  pub value : String
  pub version : String
  pub signing : Bool
  pub merge : Option MergeAlgorithm

pub record ResourceInfo : Type 0 where
  pub name : String
  pub type : String
  pub version : String
  pub extra_identity : List (String × String)
  pub access : String
  pub digest : String
  pub labels : List Label

pub record ResourceStatus : Type 0 where
  pub resource : Option ResourceInfo
  pub component : Option ComponentInfo
  pub additional : List (String × String)

abbrev pub Resource : Type 0
Resource = Object ResourceSpec ResourceStatus

-- A deployer of the cluster, as the index of the resource controller sees it.
pub record DeployerRef : Type 0 where
  pub namespace : String
  pub name : String
  pub resource_namespace : String
  pub resource_name : String

-- ResourceMeta of the OCM library
pub record ResourceMeta : Type 0 where
  pub name : String
  pub type : String
  pub version : String
  pub extra_identity : List (String × String)
  pub digest : String
  pub labels : List Label

-- The access of a resource: its metadata and its access specification, a name.
pub record ResourceAccess : Type 0 where
  pub meta : ResourceMeta
  pub access : Reply ℕ

-- cel-go and encoding/json; environments, programs, values and maps are names.
pub record CelOps : Type 0 where
  pub base_env : Reply ℕ
  pub extend : ℕ → Reply ℕ
  pub compile : ℕ → String → Reply ℕ
  pub program : ℕ → ℕ → Reply ℕ
  pub eval : ℕ → ℕ → Reply ℕ
  pub marshal_value : ℕ → Reply String
  pub marshal_spec : ℕ → Reply String
  pub generic_map : ResourceMeta → ℕ → Reply ℕ

-- A component version that the session holds.
pub record HeldVersion (D : Type 0) : Type 0 where
  pub descriptor : D
  pub signing : Signing D

-- Contexts, sessions, specifications and repositories are names.
pub record ResourceOps (D : Type 0) : Type 0 where
  pub cel : CelOps
  pub accesses : AccessOps D ResourceAccess
  pub get_session : String → List OcmConfiguration → List Verification → Outcome (ℕ × ℕ)
  pub repository_spec_for_config : ℕ → String → Reply ℕ
  pub lookup_repository : ℕ → ℕ → ℕ → Reply ℕ
  pub lookup_component_version : ℕ → ℕ → String → String → Reply (HeldVersion D)
