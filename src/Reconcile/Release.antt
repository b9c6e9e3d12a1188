-- ===== src/Reconcile/Release.antt =====
-- A finalizer is not removed while other objects refer to the one that is to be deleted.
use ocm_k8s_toolkit.Prelude.{
  ℕ, String, ◌≡◌, ◌≢◌, refl, ap, ◌∙◌, false, Option, none, some, List, [], ◌∷◌, ◌++◌, ◌==◌,
}
use ocm_k8s_toolkit.Errors.{Error, join_errors, Reply, got, fault, failure}
use ocm_k8s_toolkit.Api.{Object, is_false}
use ocm_k8s_toolkit.Library.{Library, Laws, ready_condition}
use ocm_k8s_toolkit.Exec.{
  Exec, Flow, next, halt, fail, halt_with, continue, ◌>>◌, ◌>>=◌, check, stop, raise,
}
use ocm_k8s_toolkit.Exec.World.{World, Result, patch, start}
use ocm_k8s_toolkit.Status.{mark_not_ready, update_status}
use ocm_k8s_toolkit.Status.Marks.{mark_not_ready_lem, ready_as}
use ocm_k8s_toolkit.Status.Updates.{update_status_lem}
use ocm_k8s_toolkit.Reconcile.{
  Client, ReleaseTexts, Reconciled, ignored, finished, release, error_of, result_of,
  with_status_update, deletion_failed_reason, refuse, call, no_requeue,
}

-- what holds at the end of a reconciliation
abbrev pub Ends :
    {S T : Type 0} → (Result → Option Error → World S T → Type 0) → Reconciled S T → Type 0
Ends P (ignored e) = Unit
Ends P (finished r e u) = P r e u

module _ (lib : Library) (laws : Laws lib) {S T : Type 0} (client : Client S T) where
  -- the object as the deletion found it, not ready for the reason of a failed deletion
  abbrev pub Held : World S T → World S T → Type 0
  Held w u =
      (u.meta ≡ w.meta)
      × (u.effects ≡ w.effects)
      × (m : String) × (lib.get u.conditions ready_condition
          ≡ some (ready_as is_false deletion_failed_reason m))

  -- the end of a reconciliation that did not remove the object
  abbrev pub Kept : Object S T → Result → Option Error → World S T → Type 0
  Kept o r e u =
      (e ≢ none)
      × (u.meta ≡ o.meta)
      × (u.effects ≡ patch u.object ∷ [])
      × (m : String) × (lib.get u.conditions ready_condition
          ≡ some (ready_as is_false deletion_failed_reason m))

  marked_deletion :
      (m : String) (w : World S T)
      → lib.get (mark_not_ready lib deletion_failed_reason m w).conditions ready_condition
        ≡ some (ready_as is_false deletion_failed_reason m)
  marked_deletion m w = (mark_not_ready_lem lib laws deletion_failed_reason m w reason_text).0
    where
      reason_text : (deletion_failed_reason == "") ≡ false
      reason_text = refl

  -- Unless the list of referring objects was read and is empty, the deletion fails, the finalizers
  -- stay, nothing is written, and the object is marked not ready with the reason DeletionFailed.
  pub release-Held :
      (finalizer : String) (texts : ReleaseTexts) (referrers : Reply (List String)) (w : World S T)
      → referrers ≢ got []
      → (error_of (release lib client finalizer texts referrers w).0 ≢ none)
        × Held w (release lib client finalizer texts referrers w).1
  unfolding release mark_not_ready
  release-Held finalizer texts (fault f) w h = (λ e. cc, (refl, refl, _, marked_deletion _ w))
  release-Held finalizer texts (got []) w h = absurd (h refl)
  release-Held finalizer texts (got (r ∷ rs)) w h = (λ e. cc, (refl, refl, _, marked_deletion _ w))

  -- What the deferred status update makes of the result of a body.
  pub with_status_update_lem :
      (requeue : ℕ) (body : Exec (World S T) Result Result) (o : Object S T)
      → let (f, w) = body (start o) in
        Ends
          (λ r e u.
            (r ≡ result_of f)
            × (u.meta ≡ w.meta)
            × (u.status ≡ w.status)
            × (u.effective_ocm_config ≡ w.effective_ocm_config)
            × (lib.get u.conditions ready_condition ≡ lib.get w.conditions ready_condition)
            × (u.effects ≡ w.effects ++ patch u.object ∷ [])
            × (e ≡ join_errors (error_of f) (failure (client.patch u.object))))
          (with_status_update lib client requeue body o)
  unfolding with_status_update
  with_status_update_lem requeue body o =
      let (f, w) = body (start o) in
      let u = update_status_lem lib laws (λ p. failure (client.patch p)) requeue (error_of f) w in
      (refl, u.4, u.5, u.6, u.0, u.2, ap (join_errors (error_of f)) u.3)

  -- a body that does not get past its first statement
  abbrev pub Refused : {A : Type 0} → World S T → Flow Result A × World S T → Type 0
  Refused w x = (error_of x.0 ≢ none) × Held w x.1

  pub Refused->> :
      {A : Type 0} (m : Exec (World S T) Result (Unit {0})) (k : Exec (World S T) Result A)
      (w : World S T)
      → Refused w (m w)
      → Refused w ((m >> k) w)
  Refused->> m k w h = through (m w).0 h.0
    where
      through :
          (f : Flow Result (Unit {0})) → error_of f ≢ none → Refused w (continue f (λ _. k) (m w).1)
      through (next a) n = absurd (n refl)
      through (halt a) n = absurd (n refl)
      through (fail e) n = (n, h.1)
      through (halt_with r e) n = (n, h.1)

  -- the error of a deletion function leads to one of the reconciliation
  pub deletion-Refused :
      (finalizer context : String) (texts : ReleaseTexts) (referrers : Reply (List String))
      (w : World S T)
      → referrers ≢ got []
      → Refused {A = Unit {0}} w (
          (do
            e ← call lib client (release lib client finalizer texts referrers)
            check e (refuse lib deletion_failed_reason context)
            stop no_requeue)
            w)
  unfolding mark_not_ready
  deletion-Refused finalizer context texts referrers w h = through (error_of r.0) k.0
    where
      r : Flow (Unit {0}) (Unit {0}) × World S T
      r = release lib client finalizer texts referrers w

      k : (error_of r.0 ≢ none) × Held w r.1
      k = release-Held finalizer texts referrers w h

      through :
          (e : Option Error)
          → e ≢ none
          → Refused {A = Unit {0}} w
              ((check e (refuse lib deletion_failed_reason context) >> stop no_requeue) r.1)
      through none n = absurd (n refl)
      through (some e) n = (λ p. cc, (k.1.0, k.1.1, _, marked_deletion _ r.1))

  pub raised_deletion-Refused :
      (finalizer : String) (texts : ReleaseTexts) (referrers : Reply (List String)) (w : World S T)
      → referrers ≢ got []
      → Refused {A = Unit {0}} w (
          (do
            e ← call lib client (release lib client finalizer texts referrers)
            check e raise
            stop no_requeue)
            w)
  raised_deletion-Refused finalizer texts referrers w h = through (error_of r.0) k.0
    where
      r : Flow (Unit {0}) (Unit {0}) × World S T
      r = release lib client finalizer texts referrers w

      k : (error_of r.0 ≢ none) × Held w r.1
      k = release-Held finalizer texts referrers w h

      through :
          (e : Option Error)
          → e ≢ none
          → Refused {A = Unit {0}} w ((check e raise >> stop no_requeue) r.1)
      through none n = absurd (n refl)
      through (some e) n = (λ p. cc, k.1)

  -- Such a body ends with an error, the object is not ready for the reason of a failed deletion,
  -- its finalizers are what they were, and the only call is the patch of the status.
  pub with_status_update-Refused :
      (requeue : ℕ) (body : Exec (World S T) Result Result) (o : Object S T)
      → Refused (start o) (body (start o))
      → Ends (Kept o) (with_status_update lib client requeue body o)
  unfolding with_status_update join_errors
  with_status_update-Refused requeue body o h =
      let u =
        update_status_lem lib laws (λ p. failure (client.patch p)) requeue
          (error_of (body (start o)).0) (body (start o)).1 in
      (
        λ n. h.0 (joined (error_of (body (start o)).0) _ n),
        u.4 ∙ h.1.0,
        u.2
            ∙ ap
                (λ l.
                  l
                  ++ patch
                      (update_status lib (λ p. failure (client.patch p)) requeue
                        (error_of (body (start o)).0) (body (start o)).1).1.object
                    ∷ [])
                h.1.1,
        h.1.2,
        u.0 ∙ h.1.3,
      )
    where
      joined : (a b : Option Error) → join_errors a b ≡ none → a ≡ none
      joined none b n = refl
      joined (some a) none n = cc
      joined (some a) (some b) n = cc
