-- ===== src/Reconcile.antt =====
-- What the Reconcile functions of internal/controller share: fetching the object, the deferred
-- status update, finalizers, and the guarded removal of a finalizer under deletion.
pub mod Release
use ocm_k8s_toolkit.Prelude.{
  ℕ, String, str_append, Bool, true, false, not, Option, none, some, List, [], ◌∷◌, ◌==◌, filter,
  any, is_empty, if◌then◌else◌,
}
use ocm_k8s_toolkit.Errors.{
  Error, Fault, new, external, wrap, join_errors, ignore_not_found, Reply, got, fault, outcome,
  failure,
}
use ocm_k8s_toolkit.Api.{Object, OcmConfiguration}
use ocm_k8s_toolkit.Library.{Library}
use ocm_k8s_toolkit.Kube.{Fetched, found, missing}
use ocm_k8s_toolkit.Exec.{
  Flow, next, halt, fail, halt_with, Exec, ◌>>=◌, ◌>>◌, pure, stop, raise, attempt, modify, check,
  when,
}
use ocm_k8s_toolkit.Exec.World.{World, Result, Effect, update, emit, start}
use ocm_k8s_toolkit.Status.{mark_not_ready, update_status}

-- api/v1alpha1/condition_types.go
abbrev pub configure_context_failed_reason : String
configure_context_failed_reason = "ConfigureContextFailed"

abbrev pub check_version_failed_reason : String
check_version_failed_reason = "CheckVersionFailed"

abbrev pub resource_is_not_available : String
resource_is_not_available = "ResourceIsNotAvailable"

abbrev pub replication_failed_reason : String
replication_failed_reason = "ReplicationFailed"

abbrev pub get_repository_failed_reason : String
get_repository_failed_reason = "GetRepositoryFailed"

abbrev pub get_component_version_failed_reason : String
get_component_version_failed_reason = "GetComponentVersionFailed"

abbrev pub get_ocm_resource_failed_reason : String
get_ocm_resource_failed_reason = "GetOCMResourceFailed"

abbrev pub marshal_failed_reason : String
marshal_failed_reason = "MarshalFailed"

abbrev pub get_resource_failed_reason : String
get_resource_failed_reason = "GetResourceFailed"

abbrev pub status_set_failed_reason : String
status_set_failed_reason = "StatusSetFailed"

abbrev pub deletion_failed_reason : String
deletion_failed_reason = "DeletionFailed"

-- `ctrl.Result{}`, `{Requeue: true}` and `{RequeueAfter: d}`
abbrev pub no_requeue : Result
no_requeue = record { requeue = false; requeue_after = 0 }

abbrev pub requeue_now : Result
requeue_now = record { requeue = true; requeue_after = 0 }

abbrev pub requeue_in : ℕ → Result
requeue_in d = record { requeue = false; requeue_after = d }

-- strings.Join
unfoldable pub join_texts : String → List String → String
join_texts sep [] = ""
join_texts sep (t ∷ []) = t
join_texts sep (t ∷ u ∷ ts) = str_append t (str_append sep (join_texts sep (u ∷ ts)))

-- What the client and the library offer to one reconciliation of an object of kind `S`, `T`.
pub record Client (S T : Type 0) : Type 0 where
  pub update : Object S T → Option Fault
  pub patch : Object S T → Option Fault

-- `client.List` with a field selector: the objects that have the value among their index values
unfoldable pub select_indexed {ℓ} : {A : Type ℓ} → (A → List String) → String → List A → List A
unfolding filter any
select_indexed index value = filter (λ a. any (λ v. v == value) (index a))

-- A result of a Reconcile that found its object, or the error of one that did not.
pub data Reconciled (S T : Type 0) : Type 0 where
  ignored : Option Error → Reconciled S T
  finished : Result → Option Error → World S T → Reconciled S T

abbrev pub result_of : Flow Result Result → Result
result_of (next r) = r
result_of (halt r) = r
result_of (fail e) = no_requeue
result_of (halt_with r e) = r

abbrev pub error_of : {R A : Type 0} → Flow R A → Option Error
error_of (next a) = none
error_of (halt r) = none
error_of (fail e) = some e
error_of (halt_with r e) = some e

-- The texts in which the three guarded deletions differ.
pub record ReleaseTexts : Type 0 where
  pub list_failed : String
  pub still_referenced : String
  pub still_finalized : String

module _ (lib : Library) {S T : Type 0} where
  abbrev pub mark : {R : Type 0} → String → String → Exec (World S T) R (Unit {0})
  mark reason msg = modify (mark_not_ready lib reason msg)

  -- `status.MarkNotReady(…, err.Error()); return …, fmt.Errorf("…: %w", err)`
  abbrev pub refuse : {R A : Type 0} → String → String → Error → Exec (World S T) R A
  refuse reason context e = mark reason (lib.error_text e) >> raise (wrap context e)

  abbrev pub set_finalizers : List String → World S T → World S T
  set_finalizers l w = record w {
    object = record w.object { meta = record w.meta { finalizers = l } };
  }

  abbrev pub set_effective_config : List OcmConfiguration → World S T → World S T
  set_effective_config c w = record w { object = record w.object { effective_ocm_config = c } }

  module _ (client : Client S T) where
    -- `r.Update(ctx, obj)`
    abbrev pub update_object : {R : Type 0} → Exec (World S T) R (Option Error)
    update_object w = (next (failure (client.update w.object)), emit (update w.object) w)

    -- the call of a function that returns an error
    abbrev pub call :
        {R : Type 0} → Exec (World S T) (Unit {0}) (Unit {0}) → Exec (World S T) R (Option Error)
    call m w = (next (error_of (m w).0), (m w).1)

    -- the finalizer is removed and the object written, or there are other finalizers
    unfoldable pub drop_finalizer : String → ReleaseTexts → Exec (World S T) (Unit {0}) (Unit {0})
    drop_finalizer finalizer texts w =
        let v = set_finalizers (lib.remove_finalizer w.meta.finalizers finalizer).0 w in
        if (lib.remove_finalizer w.meta.finalizers finalizer).1
        then (do
          e ← update_object
          check e (refuse deletion_failed_reason "failed to remove finalizer"))
            v
        else mark deletion_failed_reason texts.still_finalized v

    unfoldable pub unless_referenced :
        String → ReleaseTexts → List String → Exec (World S T) (Unit {0}) (Unit {0})
    unfolding drop_finalizer join_texts
    unless_referenced finalizer texts [] = drop_finalizer finalizer texts
    unless_referenced finalizer texts (r ∷ rs) =
        let msg = str_append texts.still_referenced (join_texts "," (r ∷ rs)) in
        mark deletion_failed_reason msg >> raise (new msg)

    -- deleteRepository, reconcileDelete and the deletion in the Reconcile of resources, given the
    -- names of the objects that still refer to the one to be deleted
    unfoldable pub release :
        String → ReleaseTexts → Reply (List String) → Exec (World S T) (Unit {0}) (Unit {0})
    unfolding unless_referenced
    release finalizer texts (fault f) = refuse deletion_failed_reason texts.list_failed (external f)
    release finalizer texts (got names) = unless_referenced finalizer texts names

    -- `if updated := controllerutil.AddFinalizer(…); updated { … }`
    unfoldable pub ensure_finalizer : String → Exec (World S T) Result (Unit {0})
    ensure_finalizer finalizer w =
        let v = set_finalizers (lib.add_finalizer w.meta.finalizers finalizer).0 w in
        if (lib.add_finalizer w.meta.finalizers finalizer).1
        then (do
          e ← update_object
          check e (λ e. raise (wrap "failed to add finalizer" e))
          stop requeue_now)
            v
        else (next tt, v)

    -- the body and the deferred update of the status
    unfoldable pub with_status_update :
        ℕ → Exec (World S T) Result Result → Object S T → Reconciled S T
    unfolding join_errors
    with_status_update requeue body o =
        let (f, w) = body (start o) in
        let (pe, u) = update_status lib (λ p. failure (client.patch p)) requeue (error_of f) w in
        finished (result_of f) (join_errors (error_of f) pe) u

    -- `r.Get`, and nothing to do if the object is gone
    unfoldable pub reconcile_object :
        Fetched (Object S T)
        → (Object S T → ℕ)
        → (Object S T → Exec (World S T) Result Result)
        → Reconciled S T
    unfolding with_status_update ignore_not_found
    reconcile_object (missing f) requeue body = ignored (ignore_not_found (external f))
    reconcile_object (found o) requeue body = with_status_update (requeue o) (body o) o
