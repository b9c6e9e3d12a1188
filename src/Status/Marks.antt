-- ===== src/Status/Marks.antt =====
-- What the three marks of internal/status/mutate_condition_status.go leave on an object.
use mathlib.Core.Bool.{false≢true}
use ocm_k8s_toolkit.Prelude.{
  String, ◌≡◌, ◌≢◌, refl, ◌∙◌, false, none, some, List, [], ◌∷◌, ◌++◌, ◌==◌, eq_iff, Bool-cases,
  inl, inr,
}
use ocm_k8s_toolkit.Api.{Condition, ConditionStatus, is_true, is_false}
use ocm_k8s_toolkit.Library.{
  Library, Laws, ready_condition, reconciling_condition, stalled_condition,
}
use ocm_k8s_toolkit.Exec.World.{World, normal, warning}
use ocm_k8s_toolkit.Status.{
  get_reason, mark_not_ready, mark_as_stalled, mark_ready, succeeded_reason,
}

abbrev pub ready_as : ConditionStatus → String → String → Condition
ready_as s r m = record { type = ready_condition; status = s; reason = r; message = m }

pub ready≢reconciling : ready_condition ≢ reconciling_condition
ready≢reconciling h = false≢true ((eq_iff ready_condition reconciling_condition).1 h)

pub reconciling≢ready : reconciling_condition ≢ ready_condition
reconciling≢ready h = false≢true ((eq_iff reconciling_condition ready_condition).1 h)

stalled≢ready : stalled_condition ≢ ready_condition
stalled≢ready h = false≢true ((eq_iff stalled_condition ready_condition).1 h)

stalled≢reconciling : stalled_condition ≢ reconciling_condition
stalled≢reconciling h = false≢true ((eq_iff stalled_condition reconciling_condition).1 h)

module _ (lib : Library) (laws : Laws lib) where
  -- conditions whose Ready condition is false do not count as ready
  pub not_ready_of_false :
      (c : List Condition) (d : Condition)
      → lib.get c ready_condition ≡ some d
      → d.status ≡ is_false
      → lib.is_ready c ≡ false
  not_ready_of_false c d e f = elim (Bool-cases (lib.is_ready c)) [
    | inl h ↦ absurd (clash (laws.ready_status c d h e) f)
    | inr h ↦ h
  ]
    where
      clash : d.status ≡ is_true → d.status ≡ is_false → ⊥
      clash p q = cc

  pub get_reason-some :
      (c : List Condition) (t : String) (d : Condition)
      → lib.get c t ≡ some d
      → get_reason lib c t ≡ d.reason
  unfolding get_reason
  get_reason-some c t d h = rw (h, get_reason)

module _ (lib : Library) (laws : Laws lib) {S T : Type 0} (reason msg : String)
    (w : World S T) where
  -- After MarkNotReady the Ready condition is false with the given reason and message, the
  -- Reconciling condition is gone, the object does not count as ready, and one warning event with
  -- that reason and the message as the recorder formats it was recorded, if the reason is not empty.
  pub mark_not_ready_lem :
      (reason == "") ≡ false
      → (lib.get (mark_not_ready lib reason msg w).conditions ready_condition
          ≡ some (ready_as is_false reason msg))
        × (lib.get (mark_not_ready lib reason msg w).conditions reconciling_condition ≡ none)
        × (lib.is_ready (mark_not_ready lib reason msg w).conditions ≡ false)
        × ((mark_not_ready lib reason msg w).events
            ≡ w.events
              ++ record { type = warning; reason = reason; message = lib.formatted msg } ∷ [])
  unfolding mark_not_ready
  mark_not_ready_lem h =
      let c = lib.delete w.conditions reconciling_condition in
      let marked = laws.get-mark_false c ready_condition reason msg in
      (
        marked,
        laws.get-mark_false_ne c ready_condition reconciling_condition reason msg ready≢reconciling
            ∙ laws.get-delete w.conditions reconciling_condition,
        not_ready_of_false lib laws _ (ready_as is_false reason msg) marked refl,
        rw (get_reason-some lib laws _ ready_condition _ marked, h),
      )

  -- After MarkAsStalled the Ready condition is false and the Stalled condition true, both with the
  -- given reason and message, the Reconciling condition is gone, and the object is not ready.
  mark_as_stalled_lem :
      (lib.get (mark_as_stalled lib reason msg w).conditions ready_condition
        ≡ some (ready_as is_false reason msg))
      × (lib.get (mark_as_stalled lib reason msg w).conditions stalled_condition
          ≡ some (record {
            type = stalled_condition;
            status = is_true;
            reason = reason;
            message = msg;
          }))
      × (lib.get (mark_as_stalled lib reason msg w).conditions reconciling_condition ≡ none)
      × (lib.is_ready (mark_as_stalled lib reason msg w).conditions ≡ false)
  unfolding mark_as_stalled
  mark_as_stalled_lem =
      let c = lib.delete w.conditions reconciling_condition in
      let d = lib.mark_false c ready_condition reason msg in
      let marked =
        laws.get-mark_true_ne d stalled_condition ready_condition reason msg stalled≢ready
        ∙ laws.get-mark_false c ready_condition reason msg in
      (
        marked,
        laws.get-mark_true d stalled_condition reason msg,
        laws.get-mark_true_ne d stalled_condition reconciling_condition reason msg
              stalled≢reconciling
            ∙ laws.get-mark_false_ne c ready_condition reconciling_condition reason msg
                ready≢reconciling
            ∙ laws.get-delete w.conditions reconciling_condition,
        not_ready_of_false lib laws _ (ready_as is_false reason msg) marked refl,
      )

module _ (lib : Library) (laws : Laws lib) {S T : Type 0} (msg : String) (w : World S T) where
  -- After MarkReady the Ready condition is true with the reason Succeeded and the message, the
  -- Reconciling condition is gone, and one normal event with both was recorded.
  pub mark_ready_lem :
      (lib.get (mark_ready lib msg w).conditions ready_condition
        ≡ some (ready_as is_true succeeded_reason msg))
      × (lib.get (mark_ready lib msg w).conditions reconciling_condition ≡ none)
      × ((mark_ready lib msg w).events
          ≡ w.events ++ record { type = normal; reason = succeeded_reason; message = msg } ∷ [])
  unfolding mark_ready
  mark_ready_lem =
      let c = lib.mark_true w.conditions ready_condition succeeded_reason msg in
      let marked =
        laws.get-delete_ne c reconciling_condition ready_condition reconciling≢ready
        ∙ laws.get-mark_true w.conditions ready_condition succeeded_reason msg in
      (
        marked,
        laws.get-delete c reconciling_condition,
        rw (get_reason-some lib laws _ ready_condition _ marked),
      )
