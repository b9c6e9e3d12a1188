-- ===== src/Api.antt =====
-- The API types (api/v1alpha1): what the kinds have in common.
pub mod History
use ocm_k8s_toolkit.Prelude.{ℕ, String, Bool, List}

-- metav1.ObjectMeta, as far as the controllers read or write it
pub record Meta : Type 0 where
  pub namespace : String
  pub name : String
  pub uid : String
  pub generation : ℕ
  pub deleting : Bool  -- the deletion timestamp is not zero
  pub finalizers : List String
  pub labels : List (String × String)
  pub annotations : List (String × String)

pub data ConditionStatus : Type 0 where
  is_true is_false is_unknown : ConditionStatus

-- metav1.Condition without its times
pub record Condition : Type 0 where
  pub type : String
  pub status : ConditionStatus
  pub reason : String
  pub message : String

pub data ConfigurationPolicy : Type 0 where
  propagate do_not_propagate : ConfigurationPolicy

-- OCMConfiguration, with the fields of the embedded reference
pub record OcmConfiguration : Type 0 where
  pub api_version : String
  pub kind : String
  pub name : String
  pub namespace : String
  pub policy : ConfigurationPolicy

pub record ObjectKey : Type 0 where
  pub namespace : String
  pub name : String

-- A custom resource: `S` is its spec, `T` the part of its status that is its own.
pub record Object (S T : Type 0) : Type 0 where
  pub meta : Meta
  pub spec : S
  pub conditions : List Condition
  pub observed_generation : ℕ
  pub effective_ocm_config : List OcmConfiguration
  pub status : T

-- Verification of common_types.go: the signature, the name of a secret, an inline key
pub record Verification : Type 0 where
  pub signature : String
  pub secret_ref : String
  pub value : String
