-- ===== src/Status.antt =====
-- internal/status and internal/event: conditions, events and the final status update.
pub mod Marks
pub mod Updates
use ocm_k8s_toolkit.Prelude.{
  ℕ, zero, suc, String, ◌≡◌, Bool, true, false, ◌&&◌, Option, none, some, List, [], ◌∷◌, ◌++◌, ◌==◌,
  ltb, str_append, if◌then◌else◌,
}
use ocm_k8s_toolkit.Errors.{Error, join_errors}
use ocm_k8s_toolkit.Api.{Object, Condition}
use ocm_k8s_toolkit.Library.{Library, ready_condition, reconciling_condition, stalled_condition}
use ocm_k8s_toolkit.Exec.World.{World, EventType, normal, warning, EventRecord, Effect, patch, emit}

-- the severities of fluxcd events
pub data Severity : Type 0 where
  severity_info severity_error : Severity

abbrev pub severity_text : Severity → String
severity_text severity_info = "info"
severity_text severity_error = "error"

-- `meta.SucceededReason` and `meta.ProgressingWithRetryReason`
abbrev pub succeeded_reason : String
succeeded_reason = "Succeeded"

abbrev pub progressing_with_retry_reason : String
progressing_with_retry_reason = "ProgressingWithRetry"

-- `conditions.GetReason`: the reason of the condition, or the empty text
unfoldable pub get_reason : Library → List Condition → String → String
get_reason lib c t = elim (lib.get c t) [ none ↦ "" | some d ↦ d.reason ]

abbrev pub type_of_severity : Severity → EventType
type_of_severity severity_error = warning
type_of_severity severity_info = normal

has_error : Option Error → Bool
has_error none = false
has_error (some e) = true

module _ (lib : Library) {S T : Type 0} where
  -- event.New; the metadata of the event is left out
  unfoldable pub new_event : Severity → String → World S T → World S T
  unfolding get_reason
  new_event severity msg w =
      let r = get_reason lib w.conditions ready_condition in
      let reason = if r == "" then severity_text severity else r in
      record w {
        events =
            w.events
            ++ record { type = type_of_severity severity; reason = reason; message = msg } ∷ [];
      }

  unfoldable pub set_conditions : List Condition → World S T → World S T
  set_conditions c w = record w { object = record w.object { conditions = c } }

  unfoldable pub mark_not_ready : String → String → World S T → World S T
  unfolding set_conditions new_event
  mark_not_ready reason msg w =
      let c = lib.delete w.conditions reconciling_condition in
      new_event severity_error (lib.formatted msg)
        (set_conditions (lib.mark_false c ready_condition reason msg) w)

  unfoldable pub mark_as_stalled : String → String → World S T → World S T
  unfolding set_conditions new_event
  mark_as_stalled reason msg w =
      let c = lib.delete w.conditions reconciling_condition in
      let d = lib.mark_false c ready_condition reason msg in
      new_event severity_error (lib.formatted msg)
        (set_conditions (lib.mark_true d stalled_condition reason msg) w)

  unfoldable pub mark_ready : String → World S T → World S T
  unfolding set_conditions new_event
  mark_ready msg w =
      let c = lib.mark_true w.conditions ready_condition succeeded_reason msg in
      new_event severity_info msg (set_conditions (lib.delete c reconciling_condition) w)

  -- the first block of UpdateStatus
  note_retry : Option Condition → World S T → World S T
  unfolding set_conditions new_event
  note_retry none w = w
  note_retry (some d) w = new_event severity_error "Reconciliation did not succeed, keep retrying" (
      set_conditions (lib.set w.conditions (record d { reason = progressing_with_retry_reason })) w)

  -- the second block of UpdateStatus
  observe : ℕ → World S T → World S T
  unfolding new_event
  observe requeue w =
      let o = record w.object { observed_generation = w.meta.generation } in
      new_event severity_info
        (if ltb 0 requeue
          then str_append "Reconciliation finished, next run in " (lib.duration_text requeue)
          else "Reconciliation finished, no further runs scheduled until next change")
        (record w { object = o })

  -- if the object is still reconciling and the reconciliation failed
  unfoldable pub progress : Option Error → World S T → World S T
  unfolding note_retry has_error
  progress err w =
      if lib.is_reconciling w.conditions && has_error err
      then note_retry (lib.get w.conditions reconciling_condition) w
      else w

  -- if the object is ready
  unfoldable pub settle : ℕ → World S T → World S T
  unfolding observe
  settle requeue v = if lib.is_ready v.conditions then observe requeue v else v

  -- UpdateStatus; `patched` is what the patch of the object returns
  unfoldable pub update_status :
      (Object S T → Option Error) → ℕ → Option Error → World S T → Option Error × World S T
  update_status patched requeue err w =
      let u = settle requeue (progress err w) in (patched u.object, emit (patch u.object) u)
