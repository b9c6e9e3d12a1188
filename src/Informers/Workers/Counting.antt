-- ===== src/Informers/Workers/Counting.antt =====
-- The tasks and the gauge of active tasks under any interleaving of the goroutines.
use ocm_k8s_toolkit.Prelude.{ℕ, ◌≡◌, ap, ◌∙◌, none, inl, inr, subst, if◌then◌else◌}
use ocm_k8s_toolkit.Informers.{WatchTaskKey, Manager, InformerOps, load}
use ocm_k8s_toolkit.Informers.Keys.{Distinct, Distinct-delete, load-delete, key_eq_refl}
use ocm_k8s_toolkit.Informers.Lifecycle.{IsValid}
use ocm_k8s_toolkit.Informers.Workers.{
  event_key, Pool, Work, already_active, register_begun, register_finished, already_gone,
  unregister_begun, unregister_advanced, worked, sent_register, sent_unregister, queue_set,
  Reachable, here, later, new_pool,
}
use ocm_k8s_toolkit.Informers.Workers.Serial.{Reachable-IsSerial}
use ocm_k8s_toolkit.Informers.Workers.Effects.{
  Stored, Deleted, Untouched, add_handler-Stored, advance-Deleted, set_queue-Untouched,
}

Untouched-Distinct : (m n : Manager) → Untouched m n → Distinct m.tasks → Distinct n.tasks
Untouched-Distinct m n u v = rw u.tasks v

Stored-Distinct :
    (k : WatchTaskKey) (m n : Manager) → Stored k m n → Distinct m.tasks → Distinct n.tasks
Stored-Distinct k m n u v = rw u.tasks (
  load-delete k k m.tasks ∙ ap (λ b. if b then none else load k m.tasks) (key_eq_refl k),
  Distinct-delete k m.tasks v,
)

Deleted-Distinct :
    (k : WatchTaskKey) (m n : Manager) → Deleted k m n → Distinct m.tasks → Distinct n.tasks
Deleted-Distinct k m n u v = rw u.tasks (Distinct-delete k m.tasks v)

module _ (ops : InformerOps) where
  module _ (workers : ℕ) where
    Work-Distinct :
        {s t : Pool} → Work ops workers s t → Distinct s.manager.tasks → Distinct t.manager.tasks
    Work-Distinct (already_active s e es t h f l) v = v
    Work-Distinct (register_begun s e es h f l) v = v
    Work-Distinct (register_finished s before e after h) v =
        elim (add_handler-Stored ops (event_key e) (ops.get_informer e.child) s.manager) [
          | inl u ↦ Untouched-Distinct s.manager _ u v
          | inr u ↦ Stored-Distinct (event_key e) s.manager _ u v
        ]
    Work-Distinct (already_gone s e es h f l) v = v
    Work-Distinct (unregister_begun s e es t h f l) v = v
    Work-Distinct (unregister_advanced s before x after h) v =
        elim (advance-Deleted ops x.stage (event_key x.event) x.task s.manager) [
          | inl u ↦ Untouched-Distinct s.manager _ u v
          | inr (g, u) ↦ Deleted-Distinct (event_key x.event) s.manager _ u v
        ]

    Reachable-Distinct :
        (buffer : ℕ) {t : Pool} → Reachable ops workers buffer new_pool t → Distinct t.manager.tasks
    Reachable-Distinct buffer here = tt
    Reachable-Distinct buffer (later r (worked w)) = Work-Distinct w (Reachable-Distinct buffer r)
    Reachable-Distinct buffer (later r (sent_register s e h)) = Reachable-Distinct buffer r
    Reachable-Distinct buffer (later r (sent_unregister s e h)) = Reachable-Distinct buffer r
    Reachable-Distinct buffer (later r (queue_set s q)) =
        Untouched-Distinct s.manager _ (set_queue-Untouched ops q s.manager)
          (Reachable-Distinct buffer r)

  -- Whatever the number of goroutines and the size of the channels, and however the parts of
  -- Register and Unregister interleave, in every state that is reached from a new manager no key
  -- stands twice among the tasks. With one goroutine the gauge of active tasks is their number.
  pub Reachable-IsCounted :
      (workers buffer : ℕ) (t : Pool)
      → Reachable ops workers buffer new_pool t
      → Distinct t.manager.tasks × (workers ≡ 1 → IsValid t.manager)
  Reachable-IsCounted workers buffer t r = (
    Reachable-Distinct workers buffer r,
    λ one.
        (Reachable-IsSerial ops buffer
          (subst (λ w. Reachable ops w buffer new_pool t) one r)).valid,
  )
