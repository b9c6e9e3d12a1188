-- ===== src/Informers/Workers/Valid.antt =====
-- The gauge of active tasks through the parts of Register and Unregister.
use ocm_k8s_toolkit.Prelude.{◌≡◌, none, some, arith}
use ocm_k8s_toolkit.Informers.{WatchTaskKey, WatchTask, Manager, load}
use ocm_k8s_toolkit.Informers.Keys.{Distinct-delete, length-delete, delete_absent}
use ocm_k8s_toolkit.Informers.Lifecycle.{IsValid}
use ocm_k8s_toolkit.Informers.Workers.Effects.{Stored, Deleted, Untouched}

pub Untouched-IsValid : (m n : Manager) → Untouched m n → IsValid m → IsValid n
Untouched-IsValid m n u v = record {
  distinct = rw u.tasks v.distinct;
  counted = rw (u.tasks, u.active_tasks) v.counted;
}

pub Stored-IsValid :
    (k : WatchTaskKey) (m n : Manager)
    → Stored k m n
    → load k m.tasks ≡ none
    → IsValid m
    → IsValid n
Stored-IsValid k m n u h v = record {
  distinct = rw (u.tasks, delete_absent k m.tasks h) (h, v.distinct);
  counted = rw (u.tasks, u.active_tasks, delete_absent k m.tasks h) (omega (arith, v.counted));
}

pub Deleted-IsValid :
    (k : WatchTaskKey) (t : WatchTask) (m n : Manager)
    → Deleted k m n
    → load k m.tasks ≡ some t
    → IsValid m
    → IsValid n
Deleted-IsValid k t m n u h v = record {
  distinct = rw u.tasks (Distinct-delete k m.tasks v.distinct);
  counted =
      rw (u.tasks, u.active_tasks)
        (omega (arith, length-delete k t m.tasks v.distinct h, v.counted));
}
