-- ===== src/Exec/World.antt =====
-- What a reconciliation changes: the object in memory, the events that are recorded, and the calls
-- that leave the process.
use ocm_k8s_toolkit.Prelude.{String, ℕ, Bool, List, [], ◌∷◌, ◌++◌}
use ocm_k8s_toolkit.Api.{Object}

pub data EventType : Type 0 where
  normal warning : EventType

pub record EventRecord : Type 0 where
  pub type : EventType
  pub reason : String
  pub message : String

pub data Effect (O : Type 0) : Type 0 where
  update : O → Effect O  -- client.Update
  patch : O → Effect O  -- SerialPatcher.Patch
  close_session : Effect O
  close_repository : Effect O

pub record World (S T : Type 0) : Type 0 where
  pub object : Object S T
  pub open object use {meta, spec, conditions, observed_generation, effective_ocm_config, status}
  pub events : List EventRecord
  pub effects : List (Effect (Object S T))

-- ctrl.Result
pub record Result : Type 0 where
  pub requeue : Bool
  pub requeue_after : ℕ

module _ {S T : Type 0} where
  abbrev pub emit : Effect (Object S T) → World S T → World S T
  emit e w = record w { effects = w.effects ++ e ∷ [] }

  abbrev pub start : Object S T → World S T
  start o = record { object = o; events = []; effects = [] }
