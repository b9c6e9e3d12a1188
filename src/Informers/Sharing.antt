-- ===== src/Informers/Sharing.antt =====
-- What happens to a watch when several parents, or several namespaces, watch one kind.
use ocm_k8s_toolkit.Prelude.{
  ◌≡◌, refl, sym, ap, ◌∙◌, Bool, true, false, not, none, some, List, [], ◌∷◌, ◌++◌, arith, ◌==◌,
  eq_iff, eq_refl, any, if◌then◌else◌, Bool-cases, inl, inr,
}
use ocm_k8s_toolkit.Informers.{
  Gvk, WatchObject, WatchTaskKey, WatchTask, Manager, InformerOps, load, key_of, key_eq, gvk_eq,
  unregister, stop_task, is_last_watch, shares, informer_removed, handler_removed,
}
use ocm_k8s_toolkit.Informers.Keys.{Tasks, gvk_eq_iff, key_eq_iff, load-delete}

pub gvk_eq_refl : (g : Gvk) → gvk_eq g g ≡ true
gvk_eq_refl g = (gvk_eq_iff g g).1 refl

pub any-load :
    (p : WatchTaskKey × WatchTask → Bool) (k : WatchTaskKey) (t : WatchTask) (l : Tasks)
    → load k l ≡ some t
    → ((u : WatchTask) → p (k, u) ≡ true)
    → any p l ≡ true
unfolding load any
any-load p k t [] h q = cc
any-load p k t ((i, u) ∷ l) h q = elim (Bool-cases (key_eq i k)) [
  | inl e ↦ rw (ap (λ x. p (x, u)) ((key_eq_iff i k).0 e) ∙ q u) refl
  | inr e ↦ ground (arith, any-load p k t l (rw e at h) q)
]

-- two keys that differ in the parent alone
abbrev pub for_parent : Gvk → WatchTaskKey → WatchTaskKey
for_parent p k = record k { parent = p }

shares-for_parent :
    (k : WatchTaskKey) (p : Gvk) (u : WatchTask)
    → gvk_eq p k.parent ≡ false
    → shares k (for_parent p k, u) ≡ true
unfolding shares
shares-for_parent k p u h = rw (gvk_eq_refl k.gvk, eq_refl k.namespace, h)

not_last_watch :
    (k : WatchTaskKey) (p : Gvk) (t : WatchTask) (l : Tasks)
    → gvk_eq p k.parent ≡ false
    → load (for_parent p k) l ≡ some t
    → is_last_watch k l ≡ false
unfolding is_last_watch
not_last_watch k p t l h e =
    ap not (any-load (shares k) (for_parent p k) t l e (λ u. shares-for_parent k p u h))

gvk_eq_sym : (a b : Gvk) → gvk_eq a b ≡ false → gvk_eq b a ≡ false
gvk_eq_sym a b h = elim (Bool-cases (gvk_eq b a)) [
  | inl e ↦ absurd (clash ((gvk_eq_iff a b).1 (sym ((gvk_eq_iff b a).0 e))))
  | inr e ↦ e
]
  where
    clash : gvk_eq a b ≡ true → ⊥
    clash e = cc

apart :
    (parent obj other : WatchObject)
    → (obj.namespace == other.namespace) ≡ false
    → key_eq (key_of parent obj) (key_of parent other) ≡ false
apart parent obj other n = elim (Bool-cases (key_eq (key_of parent obj) (key_of parent other))) [
  | inl e ↦ absurd (clash (ap (λ k. k.namespace) ((key_eq_iff _ _).0 e)))
  | inr e ↦ e
]
  where
    clash : obj.namespace ≡ other.namespace → ⊥
    clash e = ground (arith, eq_iff obj.namespace other.namespace)

module _ (ops : InformerOps) where
  -- A run of Unregister calls, each for one of two parents of the same object.
  unfoldable pub unregister_each :
      WatchObject → WatchObject → WatchObject → List Bool → Manager → Manager
  unregister_each a b obj [] m = m
  unregister_each a b obj (c ∷ cs) m =
      unregister_each a b obj cs (unregister ops (if c then a else b) obj m).1

  unregister_shared :
      (a b obj : WatchObject) (t u : WatchTask) (m : Manager)
      → gvk_eq b.gvk a.gvk ≡ false
      → load (key_of a obj) m.tasks ≡ some t
      → load (key_of b obj) m.tasks ≡ some u
      → ((unregister ops a obj m).1.tasks ≡ m.tasks) × ((unregister ops a obj m).1.calls ≡ m.calls)
  unfolding unregister stop_task
  unregister_shared a b obj t u m h e f =
      rw (e, not_last_watch (key_of a obj) b.gvk u m.tasks h f) (refl, refl)

  kept_sharing :
      (a b obj : WatchObject) (t u : WatchTask) (cs : List Bool) (m n : Manager)
      → gvk_eq a.gvk b.gvk ≡ false
      → gvk_eq b.gvk a.gvk ≡ false
      → load (key_of a obj) m.tasks ≡ some t
      → load (key_of b obj) m.tasks ≡ some u
      → n.tasks ≡ m.tasks
      → n.calls ≡ m.calls
      → ((unregister_each a b obj cs n).tasks ≡ m.tasks)
        × ((unregister_each a b obj cs n).calls ≡ m.calls)
  unfolding unregister_each
  kept_sharing a b obj t u [] m n h k e f p q = (p, q)
  kept_sharing a b obj t u (c ∷ cs) m n h k e f p q =
      let at = λ (g : WatchTaskKey). ap (load g) p in
      let step = one c (at (key_of a obj) ∙ e) (at (key_of b obj) ∙ f) in
      kept_sharing a b obj t u cs m (unregister ops (if c then a else b) obj n).1 h k e f
        (step.0 ∙ p) (step.1 ∙ q)
    where
      one :
          (c : Bool)
          → load (key_of a obj) n.tasks ≡ some t
          → load (key_of b obj) n.tasks ≡ some u
          → ((unregister ops (if c then a else b) obj n).1.tasks ≡ n.tasks)
            × ((unregister ops (if c then a else b) obj n).1.calls ≡ n.calls)
      one true e f = unregister_shared a b obj t u n k e f
      one false e f = unregister_shared b a obj u t n h f e

  -- Once parents of two kinds watch one object kind in a namespace, no sequence of Unregister calls
  -- for the two parents ends either watch: the tasks stay as they are and the cache is not called,
  -- even after both parents have asked.
  pub shared_watch_persists :
      (a b obj : WatchObject) (t u : WatchTask) (cs : List Bool) (m : Manager)
      → gvk_eq a.gvk b.gvk ≡ false
      → load (key_of a obj) m.tasks ≡ some t
      → load (key_of b obj) m.tasks ≡ some u
      → ((unregister_each a b obj cs m).tasks ≡ m.tasks)
        × ((unregister_each a b obj cs m).calls ≡ m.calls)
  shared_watch_persists a b obj t u cs m h e f =
      kept_sharing a b obj t u cs m m h (gvk_eq_sym a.gvk b.gvk h) e f refl refl

  -- Unregister lets go of the informer of a kind when the last watch in one namespace ends, although
  -- a watch of the same kind in another namespace is still among the tasks afterwards.
  pub informer_removed_under_other_namespace :
      (parent obj other : WatchObject) (t u : WatchTask) (m : Manager)
      → other.gvk ≡ obj.gvk
      → (obj.namespace == other.namespace) ≡ false
      → load (key_of parent obj) m.tasks ≡ some t
      → load (key_of parent other) m.tasks ≡ some u
      → is_last_watch (key_of parent obj) m.tasks ≡ true
      → ops.remove_event_handler t.informer t.registration ≡ none
      → ops.remove_informer obj.gvk ≡ none
      → ((unregister ops parent obj m).1.calls
          ≡ (m.calls ++ handler_removed t.informer t.registration ∷ [])
            ++ informer_removed other.gvk ∷ [])
        × (load (key_of parent other) (unregister ops parent obj m).1.tasks ≡ some u)
  unfolding unregister stop_task
  informer_removed_under_other_namespace parent obj other t u m g n e f last h i =
      rw (e, last, h, i)
        (
          rw g refl,
          load-delete (key_of parent obj) (key_of parent other) m.tasks
              ∙ rw (apart parent obj other n) f,
        )
