-- ===== src/Informers/Workers/Racing.antt =====
-- Two goroutines that register the same watch.
use ocm_k8s_toolkit.Prelude.{
  ℕ, ◌+◌, ◌≤◌, ◌≡◌, ◌++◌, any, refl, subst, ap, ◌∙◌, none, some, [], ◌∷◌, arith, eq_refl,
}
use ocm_k8s_toolkit.Errors.{got}
use ocm_k8s_toolkit.Informers.{
  Manager, WatchTaskKey, WatchTask, InformerOps, handler_added, handler_removed, informer_removed,
  load, delete, shares, is_last_watch, add_handler,
}
use ocm_k8s_toolkit.Informers.Keys.{key_eq_refl}
use ocm_k8s_toolkit.Informers.Sharing.{gvk_eq_refl}
use ocm_k8s_toolkit.Informers.Workers.{
  Event, event_key, Pool, register_begun, register_finished, unregister_begun, unregister_advanced,
  Stage, loaded, last_watch, handler_gone, informer_gone, Stopping, still, checked,
  handler_answered, informer_answered, advance_from, advance, worked, sent_register,
  sent_unregister, Reachable, here, later, finish_register, new_pool,
}

module _ (ops : InformerOps) where
  -- no watch is left, but the gauge counts one, and one handler was added more than removed
  pub record Leaked (e : Event) (i r : ℕ) (m : Manager) : Type 0 where
    pub tasks : m.tasks ≡ []
    pub active_tasks : m.active_tasks ≡ 1
    pub calls :
        m.calls
        ≡ handler_added i
          ∷ handler_added i
          ∷ handler_removed i r
          ∷ informer_removed e.child.gvk
          ∷ []

  -- the manager once a Register has stored its task
  abbrev with_task : Event → ℕ → ℕ → Manager → Manager
  with_task e i r m = record m {
    tasks = (event_key e, record { informer = i; registration = r }) ∷ delete (event_key e) m.tasks;
    active_tasks = m.active_tasks + 1;
    register_total = m.register_total + 1;
    calls = m.calls ++ handler_added i ∷ [];
  }

  handled :
      (e : Event) (i r : ℕ) (m : Manager)
      → ops.add_event_handler i ≡ got r
      → (add_handler ops (event_key e) (got i) m).1 ≡ with_task e i r m
  unfolding add_handler
  handled e i r m a = rw (add_handler, a) refl

  stored :
      (e : Event) (i r : ℕ) (m : Manager)
      → ops.get_informer e.child ≡ got i
      → ops.add_event_handler i ≡ got r
      → finish_register ops e m ≡ with_task e i r m
  stored e i r m g a = ap (λ x. (add_handler ops (event_key e) x m).1) g ∙ handled e i r m a

  only_task : (k : WatchTaskKey) (t : WatchTask) → delete k ((k, t) ∷ []) ≡ []
  unfolding delete
  only_task k t = rw (key_eq_refl k) refl

  -- the manager once both Registers have stored their tasks
  abbrev twice : Event → ℕ → ℕ → Manager
  twice e i r = record new_pool.manager {
    tasks = (event_key e, record { informer = i; registration = r }) ∷ [];
    active_tasks = 2;
    register_total = 2;
    calls = handler_added i ∷ handler_added i ∷ [];
  }

  stored_twice :
      (e : Event) (i r : ℕ)
      → ops.get_informer e.child ≡ got i
      → ops.add_event_handler i ≡ got r
      → finish_register ops e (finish_register ops e new_pool.manager) ≡ twice e i r
  unfolding delete
  stored_twice e i r g a =
      ap (finish_register ops e) (stored e i r new_pool.manager g a)
      ∙ stored e i r (with_task e i r new_pool.manager) g a
      ∙ ap
          (λ l. record (twice e i r) {
            tasks = (event_key e, record { informer = i; registration = r }) ∷ l;
          })
          (only_task (event_key e) (record { informer = i; registration = r }))

  -- the parts of the Unregister, one after the other
  abbrev stopping : Event → ℕ → ℕ → Stage → Stopping
  stopping e i r g = record {
    event = e;
    task = record { informer = i; registration = r };
    stage = g;
  }

  last_twice :
      (e : Event) (i r : ℕ)
      → advance ops (stopping e i r loaded) (twice e i r) ≡ (some last_watch, twice e i r)
  unfolding advance_from checked is_last_watch shares any
  last_twice e i r =
      rw (gvk_eq_refl e.child.gvk, eq_refl e.child.namespace, gvk_eq_refl e.parent.gvk) refl

  abbrev without_handler : Event → ℕ → ℕ → Manager
  without_handler e i r = record (twice e i r) {
    calls = handler_added i ∷ handler_added i ∷ handler_removed i r ∷ [];
  }

  handler_twice :
      (e : Event) (i r : ℕ)
      → ops.remove_event_handler i r ≡ none
      → advance ops (stopping e i r last_watch) (twice e i r)
        ≡ (some handler_gone, without_handler e i r)
  unfolding advance_from handler_answered
  handler_twice e i r h = rw h refl

  abbrev without_informer : Event → ℕ → ℕ → Manager
  without_informer e i r = record (twice e i r) {
    calls =
        handler_added i ∷ handler_added i ∷ handler_removed i r ∷ informer_removed e.child.gvk ∷ [];
  }

  informer_twice :
      (e : Event) (i r : ℕ)
      → ops.remove_informer e.child.gvk ≡ none
      → advance ops (stopping e i r handler_gone) (without_handler e i r)
        ≡ (some informer_gone, without_informer e i r)
  unfolding advance_from informer_answered
  informer_twice e i r d = rw d refl

  unwatched_twice :
      (e : Event) (i r : ℕ)
      → Leaked e i r (advance ops (stopping e i r informer_gone) (without_informer e i r)).1
  unfolding advance_from
  unwatched_twice e i r = record {
    tasks = only_task (event_key e) (record { informer = i; registration = r });
    active_tasks = refl;
    calls = refl;
  }

  module _ (workers buffer : ℕ) where
    -- the states on the way to the leak
    abbrev asked : Event → Pool
    asked e = record new_pool { registers = e ∷ e ∷ [] }

    abbrev begun : Event → Pool
    begun e = record new_pool { pending = e ∷ e ∷ [] }

    abbrev registered : Event → Pool
    registered e = record new_pool {
      manager = finish_register ops e (finish_register ops e new_pool.manager);
    }

    reach_begun :
        2 ≤ workers → 2 ≤ buffer → (e : Event) → Reachable ops workers buffer new_pool (begun e)
    unfolding load
    reach_begun w b e =
        later
          (later
            (later (later here (sent_register new_pool e (omega (arith, b))))
              (sent_register (record new_pool { registers = e ∷ [] }) e (omega (arith, b))))
            (worked (register_begun (asked e) e (e ∷ []) refl (ground (arith, w)) refl)))
          (worked (
            register_begun (record new_pool { registers = e ∷ []; pending = e ∷ [] }) e [] refl
              (ground (arith, w)) refl))

    reach_registered :
        2 ≤ workers
        → 2 ≤ buffer
        → (e : Event) → Reachable ops workers buffer new_pool (registered e)
    reach_registered w b e =
        later (later (reach_begun w b e) (worked (register_finished (begun e) [] e (e ∷ []) refl)))
          (worked (register_finished _ [] e [] refl))

    -- the goroutine is within the Unregister
    abbrev within : Event → ℕ → ℕ → Stage → Manager → Pool
    within e i r g m = record new_pool { manager = m; stopping = stopping e i r g ∷ [] }

    step_within :
        (e : Event) (i r : ℕ) (g h : Stage) (m n : Manager)
        → advance ops (stopping e i r g) m ≡ (some h, n)
        → Reachable ops workers buffer new_pool (within e i r g m)
        → Reachable ops workers buffer new_pool (within e i r h n)
    step_within e i r g h m n a reach =
        subst
          (λ x.
            Reachable ops workers buffer new_pool
              (record new_pool { manager = x.1; stopping = still (stopping e i r g) x.0 [] }))
          a
          (later reach
            (worked (unregister_advanced (within e i r g m) [] (stopping e i r g) [] refl)))

    reach_loaded :
        2 ≤ workers
        → 2 ≤ buffer
        → (e : Event) (i r : ℕ) → Reachable ops workers buffer new_pool (registered e)
        → registered e ≡ record new_pool { manager = twice e i r }
        → Reachable ops workers buffer new_pool (within e i r loaded (twice e i r))
    unfolding load
    reach_loaded w b e i r reach same =
        let there : Pool = record new_pool { manager = twice e i r } in
        later
          (later (subst (λ s. Reachable ops workers buffer new_pool s) same reach)
            (sent_unregister there e (omega (arith, b))))
          (worked (
            unregister_begun (record there { unregisters = e ∷ [] }) e []
              (record { informer = i; registration = r }) refl (ground (arith, w))
              (rw (key_eq_refl (event_key e)) refl)))

    -- With two goroutines and room for two events, a watch that is asked for twice can be stored
    -- twice: both Registers look for the task before either stores one. If the cache agrees to every
    -- call, then after one Unregister there is no watch left, the gauge of active tasks still counts
    -- one, and two event handlers were added and one was removed.
    pub register_race :
        2 ≤ workers
        → 2 ≤ buffer
        → (e : Event) (i r : ℕ) → ops.get_informer e.child ≡ got i
        → ops.add_event_handler i ≡ got r
        → ops.remove_event_handler i r ≡ none
        → ops.remove_informer e.child.gvk ≡ none
        → (t : Pool) × Reachable ops workers buffer new_pool t × Leaked e i r t.manager
    register_race w b e i r g a h d =
        let same : registered e ≡ record new_pool { manager = twice e i r } =
          ap (λ m. record new_pool { manager = m }) (stored_twice e i r g a) in
        let one = reach_loaded w b e i r (reach_registered w b e) same in
        let two = step_within e i r _ _ _ _ (last_twice e i r) one in
        let three = step_within e i r _ _ _ _ (handler_twice e i r h) two in
        let four = step_within e i r _ _ _ _ (informer_twice e i r d) three in
        (
          _,
          later four (
              worked (
                unregister_advanced (within e i r informer_gone (without_informer e i r)) []
                  (stopping e i r informer_gone) [] refl)),
          unwatched_twice e i r,
        )
