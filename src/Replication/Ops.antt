-- ===== src/Replication/Ops.antt =====
-- The data of internal/controller/replication/replication_controller.go and
-- api/v1alpha1/replication_types.go, and what the OCM library and the context cache offer to it.
use ocm_k8s_toolkit.Prelude.{ℕ, String, Bool, Option, List}
use ocm_k8s_toolkit.Errors.{Fault, Outcome, Reply}
use ocm_k8s_toolkit.Api.{Object, ObjectKey, OcmConfiguration, Verification}
use ocm_k8s_toolkit.Api.History.{ℤ, TransferStatus}

pub record ReplicationSpec : Type 0 where
  pub component_ref : ObjectKey
  pub target_repository_ref : ObjectKey
  pub interval : ℕ
  pub suspend : Bool
  pub history_capacity : ℤ
  pub verify : List Verification
  pub ocm_config : List OcmConfiguration

-- the history of the transfers is what the status has of its own
abbrev pub Replication : Type 0
Replication = Object ReplicationSpec (List TransferStatus)

-- The result of checking a component version: whether it is empty, and its JSON text.
pub record CheckResult : Type 0 where
  pub is_empty : Bool
  pub marshalled : Reply String

-- Contexts, sessions, repositories, component versions and transfer options are names.
pub record ReplicationOps : Type 0 where
  pub get_session : String → List OcmConfiguration → Outcome (ℕ × ℕ)
  pub lookup_repository_for_config : ℕ → ℕ → String → Reply ℕ
  pub lookup_component_version : ℕ → ℕ → String → String → Reply ℕ
  pub no_options : ℕ
  pub options_from : ℕ → ℕ → Reply ℕ
  pub transfer : ℕ → ℕ → ℕ → Option Fault
  pub check_version : ℕ → String → String → Reply CheckResult
  pub now : ℕ  -- when the transfer starts
  pub later : ℕ  -- when it ends
