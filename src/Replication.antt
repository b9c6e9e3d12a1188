-- ===== src/Replication.antt =====
-- internal/controller/replication/replication_controller.go.
pub mod Ops
pub mod Once
use ocm_k8s_toolkit.Prelude.{
  ℕ, String, str_append, Bool, true, false, ◌&&◌, Option, none, some, List, [], ◌∷◌, ◌==◌, map,
  if◌then◌else◌,
}
use ocm_k8s_toolkit.Errors.{
  Error, Fault, new, external, wrap, Outcome, Reply, got, fault, outcome, failure,
}
use ocm_k8s_toolkit.Api.{Object, ObjectKey, OcmConfiguration}
use ocm_k8s_toolkit.Api.History.{TransferStatus, add_history_record, is_in_history}
use ocm_k8s_toolkit.Library.{Library}
use ocm_k8s_toolkit.Kube.{Fetched, Fetch, get_ready_object, is_unavailable}
use ocm_k8s_toolkit.Config.{Providers, get_effective_config}
use ocm_k8s_toolkit.Exec.{
  Flow, next, fail, Exec, ◌>>=◌, ◌>>◌, pure, stop, raise, attempt, modify, check, when,
}
use ocm_k8s_toolkit.Exec.World.{World, Result}
use ocm_k8s_toolkit.Status.{mark_ready}
use ocm_k8s_toolkit.Repository.{Repository}
use ocm_k8s_toolkit.Component.Ops.{ComponentInfo, Component}
use ocm_k8s_toolkit.Replication.Ops.{ReplicationSpec, Replication, CheckResult, ReplicationOps}
use ocm_k8s_toolkit.Reconcile.{
  Client, select_indexed, set_effective_config, Reconciled, mark, refuse, error_of,
  reconcile_object, no_requeue, requeue_now, requeue_in, configure_context_failed_reason,
  get_resource_failed_reason, replication_failed_reason,
}

-- componentNameExtractor
unfoldable pub component_name_extractor : Replication → List String
component_name_extractor r = r.spec.component_ref.name ∷ []

-- targetRepoNameExtractor
unfoldable pub target_repo_name_extractor : Replication → List String
target_repo_name_extractor r = r.spec.target_repository_ref.name ∷ []

abbrev pub requests_of : List Replication → List ObjectKey
requests_of = map (λ r. record { namespace = r.meta.namespace; name = r.meta.name })

-- what a watch of the controller is triggered by
pub data Trigger : Type 0 where
  component_changed : String → Trigger
  repository_changed : String → Trigger
  other_changed : Trigger

-- replicationMapFunc, given what listing the replications returns
unfoldable pub replication_map_func : Reply (List Replication) → Trigger → List ObjectKey
unfolding select_indexed component_name_extractor target_repo_name_extractor
replication_map_func (got l) (component_changed name) =
    requests_of (select_indexed component_name_extractor name l)
replication_map_func (got l) (repository_changed name) =
    requests_of (select_indexed target_repo_name_extractor name l)
replication_map_func (fault f) t = []
replication_map_func (got l) other_changed = []

-- the reference, with the namespace of the replication where it names none
abbrev pub located : String → ObjectKey → ObjectKey
located namespace key = record {
  namespace = if key.namespace == "" then namespace else key.namespace;
  name = key.name;
}

abbrev pub W : Type 0
W = World ReplicationSpec (List TransferStatus)

abbrev pub set_history : List TransferStatus → W → W
set_history h w = record w { object = record w.object { status = h } }

module _ (lib : Library) (ocm : ReplicationOps) where
  abbrev pub complete : CheckResult → Exec W (Unit {0}) (Unit {0})
  complete r =
      if r.is_empty
      then pure tt
      else (attempt (outcome r.marshalled) (λ e.
            raise (wrap "cannot marshal the result of component version check in repository" e))
          >>= λ msg. raise (
              new (str_append "component version is not completely contained in repository: " msg)))

  -- validate
  unfoldable pub validate : ℕ → ℕ → String → String → Exec W (Unit {0}) (Unit {0})
  validate session repo name version = do
    cv ←
        attempt (outcome (ocm.lookup_component_version session repo name version))
          (λ e. raise (wrap "cannot lookup component version in repository" e))
    result ←
        attempt (outcome (ocm.check_version repo name version))
          (λ e. raise (wrap "cannot verify that component version exists in repository" e))
    complete result

  -- transfer, up to the validation: its error is the result, and it may mark the replication
  unfoldable pub transfer_version :
      List OcmConfiguration → ComponentInfo → String → Exec W (Unit {0}) (Unit {0})
  unfolding validate
  transfer_version configs info target = do
    source ←
        attempt (ocm.get_session info.repository_spec configs)
          (refuse lib configure_context_failed_reason "failed to get session")
    source_repo ←
        attempt (outcome (ocm.lookup_repository_for_config source.1 source.0 info.repository_spec))
          (λ e. raise (wrap "cannot lookup repository for RepositorySpec" e))
    cv ←
        attempt
          (outcome (ocm.lookup_component_version source.1 source_repo info.component info.version))
          (λ e. raise (wrap "cannot lookup component version in source repository" e))
    destination ←
        attempt (ocm.get_session target configs)
          (refuse lib configure_context_failed_reason "failed to get session")
    target_repo ←
        attempt (outcome (ocm.lookup_repository_for_config destination.1 destination.0 target))
          (λ e. raise (wrap "cannot lookup repository for RepositorySpec" e))
    source_options ←
        attempt (outcome (ocm.options_from source.0 ocm.no_options))
          (λ e. raise (wrap "cannot retrieve transfer options from OCM context" e))
    options ←
        attempt (outcome (ocm.options_from destination.0 source_options))
          (λ e. raise (wrap "cannot retrieve transfer options from OCM context" e))
    check (failure (ocm.transfer cv target_repo options))
        (λ e. raise (wrap "cannot transfer component version to target repository" e))
    validate destination.1 target_repo info.component info.version

  -- the record that transfer returns, with the error that its caller writes into it
  unfoldable pub transfer_record : ComponentInfo → String → Option Error → TransferStatus
  transfer_record info target e = record {
    component = info.component;
    version = info.version;
    source_repository_spec = info.repository_spec;
    target_repository_spec = target;
    start_time = ocm.now;
    end_time = ocm.later;
    error = elim e [ none ↦ "" | some e ↦ lib.error_text e ];
    success = elim e [ none ↦ true | some e ↦ false ];
  }

  -- the call of transfer: its error and its record
  abbrev pub transfer :
      List OcmConfiguration → ComponentInfo → String → Exec W Result (Option Error × TransferStatus)
  transfer configs info target w =
      let (f, u) = transfer_version configs info target w in
      (next (error_of f, transfer_record info target (error_of f)), u)

  abbrev pub history_set :
      Option (List TransferStatus) → List OcmConfiguration → Exec W Result (Unit {0})
  history_set none configs = raise (new "panic: slice bounds out of range")
  history_set (some h) configs = modify (set_history h) >> modify (set_effective_config lib configs)

  -- setReplicationStatus; a panic ends the reconciliation like an error
  unfoldable pub set_replication_status :
      List OcmConfiguration → Replication → TransferStatus → Exec W Result (Unit {0})
  unfolding add_history_record
  set_replication_status configs o rec w =
      history_set (add_history_record o.spec.history_capacity rec w.status) configs w

  -- what follows the transfer
  unfoldable pub conclude :
      Replication
      → List OcmConfiguration
      → Option Error × TransferStatus
      → String
      → Exec W Result Result
  unfolding set_replication_status
  conclude o configs (some e, rec) msg = do
    set_replication_status configs o rec
    mark lib replication_failed_reason (lib.error_text e)
    raise e
  conclude o configs (none, rec) msg = do
    set_replication_status configs o rec
    modify (mark_ready lib (str_append "Successfully replicated " msg))
    pure (requeue_in o.spec.interval)

  -- the answer to a component or repository that is not ready
  unfoldable pub not_available : {A : Type 0} → String → String → Error → Exec W Result A
  unfolding is_unavailable
  not_available msg context e =
      mark lib get_resource_failed_reason msg
      >> (if is_unavailable e then stop no_requeue else raise (wrap context e))

  module _ (providers : Providers) (components : Fetch Component)
      (repositories : Fetch Repository) where
    -- from the two objects on: nothing to do, or a transfer
    unfoldable pub replicate : Replication → Component → Repository → Exec W Result Result
    unfolding transfer_version transfer_record conclude is_in_history
    replicate o comp repo = do
      let target = repo.spec.repository_spec
      let msg = str_append comp.meta.name (str_append " to " repo.meta.name)
      when
          (lib.is_ready o.conditions
            && is_in_history comp.status.component comp.status.version target o.status)
          (do
            modify (mark_ready lib (str_append "Replicated in previous reconciliations: " msg))
            stop (requeue_in o.spec.interval))
      configs ←
          attempt (get_effective_config providers o.meta.namespace o.spec.ocm_config)
            (λ e. mark lib configure_context_failed_reason (lib.error_text e) >> raise e)
      transferred ← transfer configs comp.status target
      conclude o configs transferred msg

    unfoldable pub reconcile_body : Replication → Exec W Result Result
    unfolding not_available replicate
    reconcile_body o = do
      when o.meta.deleting (stop requeue_now)
      when o.spec.suspend (stop no_requeue)
      comp ←
          attempt (get_ready_object lib components (located o.meta.namespace o.spec.component_ref))
            (not_available "Component is not ready" "failed to get ready component")
      repo ←
          attempt
            (get_ready_object lib repositories
              (located o.meta.namespace o.spec.target_repository_ref))
            (not_available "OCM repository is not ready" "failed to get ready OCM repository")
      replicate o comp repo

    -- Reconcile
    unfoldable pub reconcile :
        Client ReplicationSpec (List TransferStatus)
        → Fetched Replication
        → Reconciled ReplicationSpec (List TransferStatus)
    unfolding reconcile_body reconcile_object
    reconcile client fetched =
        reconcile_object lib client fetched (λ o. o.spec.interval) reconcile_body
