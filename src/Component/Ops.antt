-- ===== src/Component/Ops.antt =====
-- The data of internal/controller/component/component_controller.go, and what the OCM library and
-- the context cache offer to it.
use ocm_k8s_toolkit.Prelude.{ℕ, String, Bool, Option, List}
use ocm_k8s_toolkit.Errors.{Fault, Outcome, Reply}
use ocm_k8s_toolkit.Api.{Object, OcmConfiguration, Verification}
use ocm_k8s_toolkit.Hash.Compare.{DigestSpec, Descriptors, Opened}
use ocm_k8s_toolkit.Signatures.{Signing}
use ocm_k8s_toolkit.Versions.{Semver, DowngradePolicy, LiveRepo}

pub record ComponentSpec : Type 0 where
  pub repository_ref : String
  pub component : String
  pub downgrade_policy : DowngradePolicy
  pub semver : String
  pub semver_filter : String
  pub verify : List Verification
  pub ocm_config : List OcmConfiguration
  pub interval : ℕ
  pub suspend : Bool

pub record ComponentInfo : Type 0 where
  pub repository_spec : String
  pub component : String
  pub version : String
  pub digest : Option DigestSpec

abbrev pub Component : Type 0
Component = Object ComponentSpec ComponentInfo

-- A resource of the cluster, as the index of the component controller sees it.
pub record ResourceRef : Type 0 where
  pub namespace : String
  pub name : String
  pub component_ref : String

-- A component version that the session holds.
pub record CachedVersion (D : Type 0) : Type 0 where
  pub descriptor : D
  pub signing : Signing D

-- A repository that was opened for one reconciliation.
pub record LiveAccess (D : Type 0) : Type 0 where
  pub through : ℕ → LiveRepo  -- with the lookups of a session
  pub lookup_component_version : String → String → Reply (Opened D)
  pub close : Option Fault

-- Contexts, sessions, specifications and repositories are names.
pub record ComponentOps (D : Type 0) : Type 1 where
  pub json_normalisation_v3 : String
  pub semver : Semver
  pub descriptors : Descriptors D
  pub get_session : String → List OcmConfiguration → List Verification → Outcome (ℕ × ℕ)
  pub repository_spec_for_config : ℕ → String → Reply ℕ
  pub repository_for_spec : ℕ → ℕ → Reply (LiveAccess D)
  pub lookup_repository : ℕ → ℕ → ℕ → Reply ℕ
  pub lookup_component_version : ℕ → ℕ → String → String → Reply (CachedVersion D)
  pub close_session : ℕ → Option Fault
