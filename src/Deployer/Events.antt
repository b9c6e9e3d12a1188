-- ===== src/Deployer/Events.antt =====
-- The informer manager while it handles the events of Untrack.
use ocm_k8s_toolkit.Prelude.{
  ◌≡◌, refl, sym, ap, ◌∙◌, subst, Bool, true, false, not, Option, none, some, List, [], ◌∷◌, ◌⊎◌,
  inl, inr, All, All-mono, Any, any, filter, arith, Bool-cases,
}
use ocm_k8s_toolkit.Informers.{
  Gvk, WatchObject, WatchTaskKey, WatchTask, InformerOps, Manager, key_eq, key_of, load, delete,
  is_last_watch, unregister, unregister_task, stop_task, is_stopped, active_for_parent,
}
use ocm_k8s_toolkit.Informers.Shutdown.{AllOf, Willing, unshared}
use ocm_k8s_toolkit.Informers.Keys.{
  Tasks, gvk_eq_iff, key_eq_iff, key_eq_refl, load-delete, delete_absent,
}
use ocm_k8s_toolkit.Deployer.Watching.{unregister_events}

AllOf-delete : (p : Gvk) (k : WatchTaskKey) (l : Tasks) → AllOf p l → AllOf p (delete k l)
unfolding delete
AllOf-delete p k [] h = tt
AllOf-delete p k ((j, t) ∷ l) (f, h) = elim (Bool-cases (key_eq j k)) [
  | inl e ↦ rw e (AllOf-delete p k l h)
  | inr n ↦ rw n (f, AllOf-delete p k l h)
]

module _ (ops : InformerOps) (willing : Willing ops) (parent : WatchObject) where
  unregistered :
      (obj : WatchObject) (m : Manager) (found : Option WatchTask)
      → load (key_of parent obj) m.tasks ≡ found
      → AllOf parent.gvk m.tasks
      → (unregister_task ops (key_of parent obj) found m).1.tasks
        ≡ delete (key_of parent obj) m.tasks
  unfolding unregister_task stop_task is_last_watch
  unregistered obj m none h a = sym (delete_absent (key_of parent obj) m.tasks h)
  unregistered obj m (some t) h a = rw (
    unshared parent.gvk (key_of parent obj) m.tasks refl a,
    willing.handlers t.informer t.registration,
    willing.informers obj.gvk,
  )

  tasks-unregister :
      (obj : WatchObject) (m : Manager)
      → AllOf parent.gvk m.tasks
      → (unregister ops parent obj m).1.tasks ≡ delete (key_of parent obj) m.tasks
  unfolding unregister
  tasks-unregister obj m a = unregistered obj m (load (key_of parent obj) m.tasks) refl a

  -- an event for the key is among the events
  abbrev pub Asked : List WatchObject → WatchTaskKey → Type 0
  Asked es k = any (λ e. key_eq (key_of parent e) k) es ≡ true

  -- every watch that the manager knows has a stopped informer, or is among the events
  abbrev pub Covered : List WatchObject → Tasks → Type 0
  Covered es l =
      (k : WatchTaskKey) (t : WatchTask)
      → load k l ≡ some t
      → (ops.is_stopped t.informer ≡ true) ⊎ Asked es k

  -- after the events there are only watches with stopped informers, and none that was not there
  pub record Ended (before after : Tasks) : Type 0 where
    pub only_stopped :
        (k : WatchTaskKey) (t : WatchTask)
        → load k after ≡ some t
        → (ops.is_stopped t.informer ≡ true) × (load k before ≡ some t)
    pub all_of : AllOf parent.gvk after

  kept_load :
      (j k : WatchTaskKey) (t : WatchTask) (l : Tasks)
      → load k (delete j l) ≡ some t
      → (key_eq j k ≡ false) × (load k l ≡ some t)
  kept_load j k t l h = ground (arith, load-delete j k l, h)

  uncovered :
      (e : WatchObject) (es : List WatchObject) (l : Tasks)
      → Covered (e ∷ es) l
      → Covered es (delete (key_of parent e) l)
  unfolding any
  uncovered e es l c k t h =
      let (apart, old) = kept_load (key_of parent e) k t l h in
      elim (c k t old) [
        | inl stopped ↦ inl stopped
        | inr event ↦ inr (ground (arith, apart, event))
      ]

  pub events-Ended :
      (es : List WatchObject) (m : Manager)
      → AllOf parent.gvk m.tasks
      → Covered es m.tasks
      → Ended m.tasks (unregister_events ops parent es m).tasks
  unfolding unregister_events any
  events-Ended [] m a c = record {
    only_stopped = λ k t h.
        (elim (c k t h) [ inl stopped ↦ stopped | inr event ↦ absurd (ground (arith, event)) ], h);
    all_of = a;
  }
  events-Ended (e ∷ es) m a c =
      let tasks = tasks-unregister e m a in
      let rest =
        events-Ended es (unregister ops parent e m).1
          (subst (AllOf parent.gvk) (sym tasks)
            (AllOf-delete parent.gvk (key_of parent e) m.tasks a))
          (subst (Covered es) (sym tasks) (uncovered e es m.tasks c)) in
      record {
        only_stopped = λ k t h.
            let (stopped, old) = rest.only_stopped k t h in
            (
              stopped,
              (kept_load (key_of parent e) k t m.tasks
                  (subst (λ l. load k l ≡ some t) tasks old)).1,
            );
        all_of = rest.all_of;
      }

  -- the objects for whose watches Untrack sends an event
  abbrev pub unstopped : Manager → List WatchObject
  unstopped m = filter (λ o. not (is_stopped ops parent o m)) (active_for_parent parent.gvk m.tasks)

  -- the active objects have the keys of the tasks
  active-Any :
      (k : WatchTaskKey) (t : WatchTask) (l : Tasks)
      → AllOf parent.gvk l
      → load k l ≡ some t
      → Any (λ o. key_of parent o ≡ k) (active_for_parent parent.gvk l)
  unfolding load active_for_parent
  active-Any k t [] a h = ground (arith, h)
  active-Any k t ((j, u) ∷ l) (f, a) h = elim (Bool-cases (key_eq j k)) [
    | inl e ↦
        rw ((gvk_eq_iff j.parent parent.gvk).1 f) (inl (ground (arith, f, (key_eq_iff j k).0 e)))
    | inr n ↦ rw ((gvk_eq_iff j.parent parent.gvk).1 f) (inr (active-Any k t l a (rw n at h)))
  ]

  is_stopped-load :
      (o : WatchObject) (t : WatchTask) (m : Manager)
      → load (key_of parent o) m.tasks ≡ some t
      → is_stopped ops parent o m ≡ ops.is_stopped t.informer
  unfolding is_stopped
  is_stopped-load o t m h =
      ap
        (λ (f : Option WatchTask). elim f as (λ x. Bool) [
          | none ↦ false
          | some u ↦ ops.is_stopped u.informer
        ])
        h

  asked :
      (k : WatchTaskKey) (t : WatchTask) (m : Manager) (l : List WatchObject)
      → load k m.tasks ≡ some t
      → ops.is_stopped t.informer ≡ false
      → Any (λ o. key_of parent o ≡ k) l
      → Asked (filter (λ o. not (is_stopped ops parent o m)) l) k
  unfolding any filter
  asked k t m [] h n a = absurd a
  asked k t m (o ∷ l) h n (inl e) =
      let found : load (key_of parent o) m.tasks ≡ some t = rw e h in
      let running : is_stopped ops parent o m ≡ false = is_stopped-load o t m found ∙ n in
      rw (← e) (rw running (ground (arith, key_eq_refl (key_of parent o))))
  asked k t m (o ∷ l) h n (inr a) = elim (Bool-cases (is_stopped ops parent o m)) [
    | inl e ↦ rw e (asked k t m l h n a)
    | inr f ↦ rw f (ground (arith, asked k t m l h n a))
  ]

  pub unstopped-Covered : (m : Manager) → AllOf parent.gvk m.tasks → Covered (unstopped m) m.tasks
  unstopped-Covered m a k t h = elim (Bool-cases (ops.is_stopped t.informer)) [
    | inl e ↦ inl e
    | inr n ↦
        inr (asked k t m (active_for_parent parent.gvk m.tasks) h n (active-Any k t m.tasks a h))
  ]

  -- an event that is among the first ones is among the others, by its key
  abbrev pub Includes : List WatchObject → List WatchObject → Type 0
  Includes es fs = (k : WatchTaskKey) → Asked es k → Asked fs k

  -- every active object of a manager whose watches are stopped is stopped
  abbrev pub AllStopped : Manager → List WatchObject → Type 0
  AllStopped m = All (λ o. is_stopped ops parent o m ≡ true)

  abbrev pub Loads : Tasks → WatchTaskKey × WatchTask → Type 0
  Loads l e = (t : WatchTask) × (load e.0 l ≡ some t)

  pub load_throughout : (l : Tasks) → All (Loads l) l
  unfolding load
  load_throughout [] = tt
  load_throughout ((j, u) ∷ l) = (
    (u, rw (key_eq_refl j)),
    All-mono (Loads l) (Loads ((j, u) ∷ l)) l
        (λ e (t, h). elim (Bool-cases (key_eq j e.0)) [ inl b ↦ (u, rw b) | inr b ↦ (t, rw b h) ])
        (load_throughout l),
  )

  pub active-stopped :
      (m : Manager) (l : Tasks)
      → ((k : WatchTaskKey) (t : WatchTask)
          → load k m.tasks ≡ some t
          → ops.is_stopped t.informer ≡ true)
      → AllOf parent.gvk l
      → All (λ e. (t : WatchTask) × (load e.0 m.tasks ≡ some t)) l
      → AllStopped m (active_for_parent parent.gvk l)
  unfolding active_for_parent
  active-stopped m [] s a h = tt
  active-stopped m ((j, u) ∷ l) s (f, a) ((t, e), h) = rw ((gvk_eq_iff j.parent parent.gvk).1 f) (
    is_stopped-load (record { gvk = j.gvk; namespace = j.namespace; name = "" }) t m
          (subst (λ x. load x m.tasks ≡ some t) (ground (arith, f)) e)
        ∙ s j t e,
    active-stopped m l s a h,
  )
