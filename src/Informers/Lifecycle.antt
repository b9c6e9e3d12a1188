-- ===== src/Informers/Lifecycle.antt =====
-- The invariant of the manager, and what Register and Unregister do to a watch.
use ocm_k8s_toolkit.Prelude.{
  ℕ, ◌≡◌, ◌≢◌, refl, true, false, Option, none, some, arith, length, if◌then◌else◌,
}
use ocm_k8s_toolkit.Errors.{Error, Reply, got, fault}
use ocm_k8s_toolkit.Informers.{
  WatchObject, WatchTaskKey, WatchTask, Manager, InformerOps, load, key_of, key_eq, register,
  unregister, stop_task, is_last_watch, register_unless, unregister_task, count_unregistered,
}
use ocm_k8s_toolkit.Informers.Keys.{
  Distinct, load-delete, Distinct-delete, length-delete, key_eq_refl, delete_absent,
}

-- No key stands twice among the tasks, and the gauge of active tasks is their number.
pub record IsValid (m : Manager) : Type 0 where
  pub distinct : Distinct m.tasks
  pub counted : m.active_tasks ≡ length m.tasks

module _ (ops : InformerOps) where
  register_unless-IsValid :
      (o : Option WatchTask) (parent obj : WatchObject) (r : Reply ℕ) (m : Manager)
      → load (key_of parent obj) m.tasks ≡ o
      → ops.get_informer obj ≡ r
      → IsValid m
      → IsValid (register_unless ops o parent obj m).1
  unfolding register_unless
  register_unless-IsValid (some t) parent obj r m e i v = v
  register_unless-IsValid none parent obj (fault f) m e i v = rw i v
  register_unless-IsValid none parent obj (got n) m e i v = rw i (
      ground (
        arith,
        load-delete (key_of parent obj) (key_of parent obj) m.tasks,
        delete_absent (key_of parent obj) m.tasks,
      ))

  -- Register keeps the invariant, whether it succeeds or not.
  register-IsValid :
      (parent obj : WatchObject) (m : Manager) → IsValid m → IsValid (register ops parent obj m).1
  unfolding register
  register-IsValid parent obj m v = register_unless-IsValid _ parent obj _ m refl refl v

  stop_task-IsValid :
      (k : WatchTaskKey) (t : WatchTask) (m : Manager)
      → load k m.tasks ≡ some t
      → IsValid m
      → IsValid (stop_task ops k t m).1
  unfolding stop_task
  stop_task-IsValid k t m e v = ground (arith, length-delete k t m.tasks, Distinct-delete k m.tasks)

  count_unregistered-IsValid :
      (r : Option Error × Manager) → IsValid r.1 → IsValid (count_unregistered ops r).1
  count_unregistered-IsValid (none, m) v = record { distinct = v.distinct; counted = v.counted }
  count_unregistered-IsValid (some e, m) v = v

  unregister_task-IsValid :
      (k : WatchTaskKey) (o : Option WatchTask) (m : Manager)
      → load k m.tasks ≡ o
      → IsValid m
      → IsValid (unregister_task ops k o m).1
  unfolding unregister_task
  unregister_task-IsValid k none m e v = v
  unregister_task-IsValid k (some t) m e v =
      count_unregistered-IsValid (stop_task ops k t m) (stop_task-IsValid k t m e v)

  -- Unregister keeps the invariant, whether it succeeds or not: the gauge of active tasks stays the
  -- number of tasks.
  unregister-IsValid :
      (parent obj : WatchObject) (m : Manager) → IsValid m → IsValid (unregister ops parent obj m).1
  unfolding unregister
  unregister-IsValid parent obj m v = unregister_task-IsValid (key_of parent obj) _ m refl v

  load-register_unless :
      (o : Option WatchTask) (parent obj : WatchObject) (r : Reply ℕ) (m : Manager)
      → load (key_of parent obj) m.tasks ≡ o
      → ops.get_informer obj ≡ r
      → (register_unless ops o parent obj m).0 ≡ none
      → (load (key_of parent obj) (register_unless ops o parent obj m).1.tasks ≢ none)
        × ((j : WatchTaskKey)
            → key_eq (key_of parent obj) j ≡ false
            → load j (register_unless ops o parent obj m).1.tasks ≡ load j m.tasks)
  unfolding register_unless load
  load-register_unless (some t) parent obj r m e i h = (λ p. cc, λ j n. refl)
  load-register_unless none parent obj (fault f) m e i h = absurd (ground arith)
  load-register_unless none parent obj (got n) m e i h = rw i (
    λ p. ground (arith, key_eq_refl (key_of parent obj)),
    λ j n. ground (arith, load-delete (key_of parent obj) j m.tasks),
  )

  -- After a Register that succeeds the watch of the parent and the object is among the tasks, and
  -- the tasks under other keys are as they were.
  load-register :
      (parent obj : WatchObject) (m : Manager)
      → (register ops parent obj m).0 ≡ none
      → (load (key_of parent obj) (register ops parent obj m).1.tasks ≢ none)
        × ((j : WatchTaskKey)
            → key_eq (key_of parent obj) j ≡ false
            → load j (register ops parent obj m).1.tasks ≡ load j m.tasks)
  unfolding register
  load-register parent obj m h = load-register_unless _ parent obj _ m refl refl h

  -- A watch that is the last one for its kind and namespace is gone after Unregister, if the cache
  -- lets go of its handler and its informer; the other watches stay.
  load-unregister :
      (parent obj : WatchObject) (t : WatchTask) (m : Manager)
      → load (key_of parent obj) m.tasks ≡ some t
      → is_last_watch (key_of parent obj) m.tasks ≡ true
      → ops.remove_event_handler t.informer t.registration ≡ none
      → ops.remove_informer obj.gvk ≡ none
      → (j : WatchTaskKey)
      → load j (unregister ops parent obj m).1.tasks
        ≡ (if key_eq (key_of parent obj) j then none else load j m.tasks)
  unfolding unregister stop_task
  load-unregister parent obj t m e last h i j =
      rw (e, last, h, i) (load-delete (key_of parent obj) j m.tasks)
