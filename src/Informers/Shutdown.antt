-- ===== src/Informers/Shutdown.antt =====
-- The shutdown of the informer manager, when its watches belong to parents of one kind.
use ocm_k8s_toolkit.Prelude.{
  ℕ, ◌-◌, ◌≡◌, refl, sym, ap, ◌∙◌, subst, false, Option, none, [], ◌∷◌, All, any, arith, length,
}
use ocm_k8s_toolkit.Errors.{Error, join_errors}
use ocm_k8s_toolkit.Informers.{
  Gvk, WatchTaskKey, WatchTask, InformerOps, Manager, load, delete, shares, is_last_watch,
  stop_task, stop_all, graceful_shutdown,
}
use ocm_k8s_toolkit.Informers.Keys.{Tasks, Distinct, gvk_eq_iff, key_eq_refl, delete_absent}
use ocm_k8s_toolkit.Informers.Lifecycle.{IsValid}

-- every watch belongs to parents of one kind
abbrev pub AllOf : Gvk → Tasks → Type 0
AllOf p = All (λ e. e.0.parent ≡ p)

-- the informers let go of their handlers, and the cache of its informers
pub record Willing (ops : InformerOps) : Type 0 where
  pub handlers : (i r : ℕ) → ops.remove_event_handler i r ≡ none
  pub informers : (g : Gvk) → ops.remove_informer g ≡ none

pub unshared :
    (p : Gvk) (k : WatchTaskKey) (l : Tasks) → k.parent ≡ p → AllOf p l → any (shares k) l ≡ false
unfolding any shares
unshared p k [] e h = refl
unshared p k ((j, t) ∷ l) e (f, h) =
    ground (arith, (gvk_eq_iff j.parent k.parent).1 (f ∙ sym e), unshared p k l e h)

module _ (ops : InformerOps) (willing : Willing ops) (p : Gvk) where
  -- a task was stopped
  record Ended (k : WatchTaskKey) (m : Manager) (r : Option Error × Manager) : Type 0 where
    fine : r.0 ≡ none
    tasks : r.1.tasks ≡ delete k m.tasks
    active_tasks : r.1.active_tasks ≡ m.active_tasks - 1

  stop_task-Ended :
      (k : WatchTaskKey) (t : WatchTask) (m : Manager)
      → k.parent ≡ p
      → AllOf p m.tasks
      → Ended k m (stop_task ops k t m)
  unfolding stop_task is_last_watch
  stop_task-Ended k t m e a =
      rw
        (
          unshared p k m.tasks e a,
          willing.handlers t.informer t.registration,
          willing.informers k.gvk,
        )
        (record { fine = refl; tasks = refl; active_tasks = refl })

  delete_head :
      (k : WatchTaskKey) (t : WatchTask) (l : Tasks) → load k l ≡ none → delete k ((k, t) ∷ l) ≡ l
  unfolding delete
  delete_head k t l h = rw (key_eq_refl k) (delete_absent k l h)

  -- an error, and a manager
  abbrev AllStopped : Option Error × Manager → Type 0
  AllStopped r = (r.0 ≡ none) × (r.1.tasks ≡ []) × (r.1.active_tasks ≡ 0)

  stop_all-AllStopped :
      (l : Tasks) (m : Manager)
      → m.tasks ≡ l
      → Distinct l
      → m.active_tasks ≡ length l
      → AllOf p l
      → AllStopped (stop_all ops l none m)
  unfolding stop_all join_errors
  stop_all-AllStopped [] m s d n a = (refl, s, n)
  stop_all-AllStopped ((k, t) ∷ l) m s d n a =
      let first = stop_task-Ended k t m a.0 (subst (AllOf p) (sym s) a) in
      let r = stop_task ops k t m in
      subst (λ e. AllStopped (stop_all ops l e r.1)) (sym first.fine)
        (stop_all-AllStopped l r.1 (first.tasks ∙ ap (delete k) s ∙ delete_head k t l d.0) d.1
          (first.active_tasks ∙ omega (arith, n)) a.1)

  -- If no key stands twice, the gauge is the number of tasks, every watch belongs to parents of one
  -- kind, and the informers let go of their handlers, then
  -- GracefulShutdown reports no error and leaves no task, no active task in the gauge, and no queue.
  pub graceful_shutdown-stopped :
      (m : Manager)
      → IsValid m
      → AllOf p m.tasks
      → ((graceful_shutdown ops m).0 ≡ none)
        × ((graceful_shutdown ops m).1.tasks ≡ [])
        × ((graceful_shutdown ops m).1.active_tasks ≡ 0)
        × ((graceful_shutdown ops m).1.queue ≡ none)
  unfolding graceful_shutdown
  graceful_shutdown-stopped m v a =
      let (e, s, n) = stop_all-AllStopped m.tasks m refl v.distinct v.counted a in (e, s, n, refl)
