-- ===== src/Informers/Delivery.antt =====
-- The event handler that Register adds to an informer, and the queue that it feeds.
use ocm_k8s_toolkit.Prelude.{
  ℕ, ◌≡◌, refl, ap, ◌∙◌, Option, none, some, List, [], ◌∷◌, ◌++◌, Bool, true, false,
}
use ocm_k8s_toolkit.Errors.{Fault, Reply, got, fault, new}
use ocm_k8s_toolkit.Informers.{
  WatchTaskKey, WatchTask, Manager, InformerOps, is_last_watch, add_handler, set_queue,
}
use ocm_k8s_toolkit.Informers.Workers.{
  Pool, Work, already_active, register_begun, register_finished, already_gone, unregister_begun,
  unregister_advanced, Stage, loaded, last_watch, handler_gone, informer_gone, checked,
  handler_answered, informer_answered, advance_from, Reachable, worked, sent_register,
  sent_unregister, queue_set, here, later, event_key,
}

-- what an informer reports of an object
pub data EventType : Type 0 where
  add update delete : EventType

-- a call of the handler, which counts as an event of the metrics: the queue that it may fill, the
-- event and the object
pub record Handled : Type 0 where
  pub queue : ℕ
  pub event : EventType
  pub object : ℕ

-- AddFunc, UpdateFunc and DeleteFunc: without a queue the event is dropped
unfoldable pub handle_event : EventType → ℕ → Manager → List Handled → List Handled
handle_event event object m l = elim m.queue [
  | none ↦ l
  | some q ↦ l ++ record { queue = q; event = event; object = object } ∷ []
]

module _ (ops : InformerOps) where
  queue-handled :
      (k : WatchTaskKey) (i : ℕ) (m : Manager) (r : Reply ℕ)
      → ops.add_event_handler i ≡ r
      → (add_handler ops k (got i) m).1.queue ≡ m.queue
  unfolding add_handler
  queue-handled k i m (fault f) e = rw (add_handler, e) refl
  queue-handled k i m (got r) e = rw (add_handler, e) refl

  queue-add_handler :
      (k : WatchTaskKey) (r : Reply ℕ) (m : Manager) → (add_handler ops k r m).1.queue ≡ m.queue
  unfolding add_handler
  queue-add_handler k (fault f) m = refl
  queue-add_handler k (got i) m = queue-handled k i m (ops.add_event_handler i) refl

  queue-checked : (b : Bool) (m : Manager) → (checked ops b m).1.queue ≡ m.queue
  unfolding checked
  queue-checked true m = refl
  queue-checked false m = refl

  queue-handler_answered :
      (t : WatchTask) (r : Option Fault) (m : Manager)
      → (handler_answered ops t r m).1.queue ≡ m.queue
  unfolding handler_answered
  queue-handler_answered t none m = refl
  queue-handler_answered t (some f) m = refl

  queue-informer_answered :
      (k : WatchTaskKey) (r : Option Fault) (m : Manager)
      → (informer_answered ops k r m).1.queue ≡ m.queue
  unfolding informer_answered
  queue-informer_answered k none m = refl
  queue-informer_answered k (some f) m = refl

  queue-advance_from :
      (g : Stage) (k : WatchTaskKey) (t : WatchTask) (m : Manager)
      → (advance_from ops g k t m).1.queue ≡ m.queue
  unfolding advance_from
  queue-advance_from loaded k t m = queue-checked (is_last_watch k m.tasks) m
  queue-advance_from last_watch k t m =
      queue-handler_answered t (ops.remove_event_handler t.informer t.registration) m
  queue-advance_from handler_gone k t m = queue-informer_answered k (ops.remove_informer k.gvk) m
  queue-advance_from informer_gone k t m = refl

  -- the answer to a queue when there is one
  refused :
      (p q : ℕ) (m : Manager)
      → m.queue ≡ some q
      → set_queue ops p m ≡ (some (new "another queue is already registered"), m)
  unfolding set_queue
  refused p q m h = simp (set_queue, h)

  module _ (workers : ℕ) where
    queue-Work : {s t : Pool} → Work ops workers s t → t.manager.queue ≡ s.manager.queue
    queue-Work (already_active s e es t h f l) = refl
    queue-Work (register_begun s e es h f l) = refl
    queue-Work (register_finished s before e after h) =
        queue-add_handler (event_key e) (ops.get_informer e.child) s.manager
    queue-Work (already_gone s e es h f l) = refl
    queue-Work (unregister_begun s e es t h f l) = refl
    queue-Work (unregister_advanced s before x after h) =
        queue-advance_from x.stage (event_key x.event) x.task s.manager

    kept :
        (buffer : ℕ) (q : ℕ) (s : Pool) {t : Pool}
        → s.manager.queue ≡ some q
        → Reachable ops workers buffer s t
        → t.manager.queue ≡ some q
    kept buffer q s h here = h
    kept buffer q s h (later r (worked w)) = queue-Work w ∙ kept buffer q s h r
    kept buffer q s h (later r (sent_register u e b)) = kept buffer q s h r
    kept buffer q s h (later r (sent_unregister u e b)) = kept buffer q s h r
    kept buffer q s h (later r (queue_set u p)) =
        let before = kept buffer q s h r in
        ap (λ x. x.1.queue) (refused p q u.manager before) ∙ before

    -- Once a queue is bound, then after any steps of the goroutines, of the senders and of further
    -- calls of SetQueue, every event that an informer reports is handled with that queue, and a
    -- further call of SetQueue fails.
    pub Reachable-handles :
        (buffer q : ℕ) (s t : Pool)
        → s.manager.queue ≡ some q
        → Reachable ops workers buffer s t
        → ((e : EventType) (object : ℕ) (l : List Handled)
            → handle_event e object t.manager l
              ≡ l ++ record { queue = q; event = e; object = object } ∷ [])
          × ((p : ℕ)
              → (set_queue ops p t.manager).0 ≡ some (new "another queue is already registered"))
    unfolding handle_event
    Reachable-handles buffer q s t h r =
        let bound = kept buffer q s h r in
        (
          λ e object l. rw (handle_event, bound) refl,
          λ p. ap (λ x. x.0) (refused p q t.manager bound),
        )
