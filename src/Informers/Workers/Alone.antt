-- ===== src/Informers/Workers/Alone.antt =====
-- An Unregister whose parts run without another goroutine between them.
use ocm_k8s_toolkit.Prelude.{
  ℕ, zero, suc, ◌≡◌, refl, Bool, true, false, not, Option, none, some, if◌then◌else◌,
}
use ocm_k8s_toolkit.Errors.{Fault}
use ocm_k8s_toolkit.Informers.{
  WatchTaskKey, WatchTask, Manager, InformerOps, is_last_watch, stop_task, drop_handler,
  drop_informer, unregister_task, count_unregistered,
}
use ocm_k8s_toolkit.Informers.Workers.{
  Stage, loaded, checked, handler_answered, informer_answered, advance_from,
}

module _ (ops : InformerOps) (k : WatchTaskKey) (t : WatchTask) where
  run_parts : ℕ → Option Stage × Manager → Manager
  run_parts zero (o, m) = m
  run_parts (suc n) (none, m) = m
  run_parts (suc n) (some g, m) = run_parts n (advance_from ops g k t m)

  informer_part :
      (r : Option Fault) (m : Manager)
      → run_parts 1 (informer_answered ops k r m)
        ≡ (count_unregistered ops (drop_informer ops k r m)).1
  unfolding run_parts advance_from informer_answered drop_informer
  informer_part none m = refl
  informer_part (some f) m = refl

  handler_part :
      (r : Option Fault) (m : Manager)
      → run_parts 2 (handler_answered ops t r m)
        ≡ (count_unregistered ops (drop_handler ops k t r m)).1
  unfolding run_parts advance_from handler_answered drop_handler
  handler_part none m = informer_part (ops.remove_informer k.gvk) _
  handler_part (some f) m = refl

  checked_part :
      (b : Bool) (m : Manager)
      → run_parts 3 (checked ops b m)
        ≡ (count_unregistered ops (
            if not b
            then (none, m)
            else drop_handler ops k t (ops.remove_event_handler t.informer t.registration) m)).1
  unfolding run_parts advance_from checked
  checked_part true m = handler_part (ops.remove_event_handler t.informer t.registration) m
  checked_part false m = refl

  -- The four parts, one after the other, do what Unregister does on a task that it finds.
  run_parts-unregister_task :
      (m : Manager) → run_parts 4 (some loaded, m) ≡ (unregister_task ops k (some t) m).1
  unfolding run_parts advance_from unregister_task stop_task
  run_parts-unregister_task m = checked_part (is_last_watch k m.tasks) m
