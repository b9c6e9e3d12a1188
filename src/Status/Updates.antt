-- ===== src/Status/Updates.antt =====
-- What UpdateStatus of internal/status/register_status_defer.go does at the end of a reconciliation.
use ocm_k8s_toolkit.Prelude.{
  ℕ, ◌≡◌, refl, sym, ap, ◌∙◌, ◌&&◌, Option, none, some, [], ◌∷◌, ◌++◌, Bool-cases, inl, inr,
  if◌then◌else◌,
}
use ocm_k8s_toolkit.Errors.{Error}
use ocm_k8s_toolkit.Api.{Object, Condition}
use ocm_k8s_toolkit.Library.{Library, Laws, ready_condition, reconciling_condition}
use ocm_k8s_toolkit.Exec.World.{World, patch}
use ocm_k8s_toolkit.Status.{
  update_status, note_retry, has_error, progress, settle, progressing_with_retry_reason,
}
use ocm_k8s_toolkit.Status.Marks.{reconciling≢ready}

abbrev pub Kept : (lib : Library) {S T : Type 0} → World S T → World S T → Type 0
Kept lib w u =
    (lib.get u.conditions ready_condition ≡ lib.get w.conditions ready_condition)
    × (u.meta ≡ w.meta)
    × (u.status ≡ w.status)
    × (u.spec ≡ w.spec)
    × (u.effective_ocm_config ≡ w.effective_ocm_config)
    × (u.effects ≡ w.effects)

module _ (lib : Library) (laws : Laws lib) {S T : Type 0} (requeue : ℕ) (err : Option Error)
    (w : World S T) where
  note_retry-keeps :
      (o : Option Condition)
      → lib.get w.conditions reconciling_condition ≡ o
      → Kept lib w (note_retry lib o w)
        × ((note_retry lib o w).observed_generation ≡ w.observed_generation)
  unfolding note_retry
  note_retry-keeps none e = ((refl, refl, refl, refl, refl, refl), refl)
  note_retry-keeps (some d) e = (
    (
      laws.get-set_ne w.conditions (record d { reason = progressing_with_retry_reason })
          ready_condition (λ p. reconciling≢ready (sym (laws.get_type _ _ _ e) ∙ p)),
      refl,
      refl,
      refl,
      refl,
      refl,
    ),
    refl,
  )

  progress-keeps :
      Kept lib w (progress lib err w)
      × ((progress lib err w).observed_generation ≡ w.observed_generation)
  unfolding progress
  progress-keeps = elim (Bool-cases (lib.is_reconciling w.conditions && has_error err)) [
    | inl h ↦ rw h (note_retry-keeps _ refl)
    | inr h ↦ rw h ((refl, refl, refl, refl, refl, refl), refl)
  ]

  settle_lem :
      Kept lib w (settle lib requeue w)
      × ((settle lib requeue w).observed_generation ≡ (
          if lib.is_ready (settle lib requeue w).conditions
          then w.meta.generation
          else w.observed_generation))
  unfolding settle
  settle_lem = elim (Bool-cases (lib.is_ready w.conditions)) [
    | inl h ↦ rw h ((refl, refl, refl, refl, refl, refl), rw h)
    | inr h ↦ rw h ((refl, refl, refl, refl, refl, refl), rw h)
  ]

module _ (lib : Library) (laws : Laws lib) {S T : Type 0} (patched : Object S T → Option Error)
    (requeue : ℕ) (err : Option Error) (w : World S T) where
  -- UpdateStatus leaves the Ready condition alone, sets the observed generation to the generation
  -- exactly if the object counts as ready and leaves it otherwise, leaves the metadata, the kind's own
  -- status and the effective configuration, patches the resulting object as
  -- its one effect, and returns what the patch returns.
  pub update_status_lem :
      let (e, u) = update_status lib patched requeue err w in
      (lib.get u.conditions ready_condition ≡ lib.get w.conditions ready_condition)
      × (u.observed_generation
          ≡ (if lib.is_ready u.conditions then w.meta.generation else w.observed_generation))
      × (u.effects ≡ w.effects ++ patch u.object ∷ [])
      × (e ≡ patched u.object)
      × (u.meta ≡ w.meta)
      × (u.status ≡ w.status)
      × (u.effective_ocm_config ≡ w.effective_ocm_config)
  unfolding update_status
  update_status_lem =
      let v = progress lib err w in
      let k = progress-keeps lib laws requeue err w in
      let s = settle_lem lib laws requeue err v in
      (
        s.0.0 ∙ k.0.0,
        cc (s.1, k.0.1, k.1),
        ap (λ es. es ++ patch (settle lib requeue v).object ∷ []) (s.0.5 ∙ k.0.5),
        refl,
        s.0.1 ∙ k.0.1,
        s.0.2 ∙ k.0.2,
        s.0.4 ∙ k.0.4,
      )
