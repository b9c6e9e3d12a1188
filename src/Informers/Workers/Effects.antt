-- ===== src/Informers/Workers/Effects.antt =====
-- What Register and Unregister do to the tasks and to the gauge of active tasks.
use ocm_k8s_toolkit.Prelude.{
  ℕ, ◌+◌, ◌-◌, ◌≡◌, refl, Bool, true, false, Option, none, some, ◌∷◌, ◌⊎◌, inl, inr,
}
use ocm_k8s_toolkit.Errors.{Fault, Reply, got, fault}
use ocm_k8s_toolkit.Informers.Workers.{
  Stage, loaded, last_watch, handler_gone, informer_gone, checked, handler_answered,
  informer_answered, advance_from,
}
use ocm_k8s_toolkit.Informers.{
  WatchTaskKey, WatchTask, Manager, InformerOps, delete, is_last_watch, add_handler, set_queue,
}

-- what the second part of Register does to the tasks
pub record Stored (k : WatchTaskKey) (m n : Manager) : Type 0 where
  pub task : WatchTask
  pub tasks : n.tasks ≡ (k, task) ∷ delete k m.tasks
  pub active_tasks : n.active_tasks ≡ m.active_tasks + 1

-- what the last part of Unregister does to the tasks
pub record Deleted (k : WatchTaskKey) (m n : Manager) : Type 0 where
  pub tasks : n.tasks ≡ delete k m.tasks
  pub active_tasks : n.active_tasks ≡ m.active_tasks - 1

pub record Untouched (m n : Manager) : Type 0 where
  pub tasks : n.tasks ≡ m.tasks
  pub active_tasks : n.active_tasks ≡ m.active_tasks

module _ (ops : InformerOps) where
  handled :
      (k : WatchTaskKey) (i : ℕ) (m : Manager) (r : Reply ℕ)
      → ops.add_event_handler i ≡ r
      → Untouched m (add_handler ops k (got i) m).1 ⊎ Stored k m (add_handler ops k (got i) m).1
  unfolding add_handler
  handled k i m (fault f) e = rw (add_handler, e) (inl record { tasks = refl; active_tasks = refl })
  handled k i m (got r) e =
      rw (add_handler, e) (inr record { task = _; tasks = refl; active_tasks = refl })

  pub add_handler-Stored :
      (k : WatchTaskKey) (r : Reply ℕ) (m : Manager)
      → Untouched m (add_handler ops k r m).1 ⊎ Stored k m (add_handler ops k r m).1
  unfolding add_handler
  add_handler-Stored k (fault f) m = inl record { tasks = refl; active_tasks = refl }
  add_handler-Stored k (got i) m = handled k i m (ops.add_event_handler i) refl

  checked-Untouched : (b : Bool) (m : Manager) → Untouched m (checked ops b m).1
  unfolding checked
  checked-Untouched true m = record { tasks = refl; active_tasks = refl }
  checked-Untouched false m = record { tasks = refl; active_tasks = refl }

  handler_answered-Untouched :
      (t : WatchTask) (r : Option Fault) (m : Manager) → Untouched m (handler_answered ops t r m).1
  unfolding handler_answered
  handler_answered-Untouched t none m = record { tasks = refl; active_tasks = refl }
  handler_answered-Untouched t (some f) m = record { tasks = refl; active_tasks = refl }

  informer_answered-Untouched :
      (k : WatchTaskKey) (r : Option Fault) (m : Manager)
      → Untouched m (informer_answered ops k r m).1
  unfolding informer_answered
  informer_answered-Untouched k none m = record { tasks = refl; active_tasks = refl }
  informer_answered-Untouched k (some f) m = record { tasks = refl; active_tasks = refl }

  -- only the last part of Unregister changes the tasks and the gauge
  pub advance-Deleted :
      (g : Stage) (k : WatchTaskKey) (t : WatchTask) (m : Manager)
      → Untouched m (advance_from ops g k t m).1
        ⊎ ((g ≡ informer_gone) × Deleted k m (advance_from ops g k t m).1)
  unfolding advance_from
  advance-Deleted loaded k t m = inl (checked-Untouched (is_last_watch k m.tasks) m)
  advance-Deleted last_watch k t m =
      inl (handler_answered-Untouched t (ops.remove_event_handler t.informer t.registration) m)
  advance-Deleted handler_gone k t m =
      inl (informer_answered-Untouched k (ops.remove_informer k.gvk) m)
  advance-Deleted informer_gone k t m = inr (refl, record { tasks = refl; active_tasks = refl })

  pub set_queue-Untouched : (q : ℕ) (m : Manager) → Untouched m (set_queue ops q m).1
  unfolding set_queue
  set_queue-Untouched q m = bound m.queue refl
    where
      bound : (o : Option ℕ) → m.queue ≡ o → Untouched m (set_queue ops q m).1
      bound none e = rw e record { tasks = refl; active_tasks = refl }
      bound (some p) e = rw e record { tasks = refl; active_tasks = refl }
