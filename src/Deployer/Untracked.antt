-- ===== src/Deployer/Untracked.antt =====
-- The deletion of a deployer together with the informer manager.
use ocm_k8s_toolkit.Prelude.{
  ◌≡◌, refl, sym, ap, ◌∙◌, Bool, true, false, not, ◌&&◌, ◌||◌, Option, none, some, List, [], ◌∷◌,
  ◌++◌, inl, inr, All, any, filter, arith, Bool-cases, Option-cases, if◌then◌else◌,
}
use mathlib.Core.List.{append-nil, append_assoc}
use ocm_k8s_toolkit.Errors.{new}
use ocm_k8s_toolkit.Library.{Library, Laws}
use ocm_k8s_toolkit.Exec.{Flow, next, ◌>>◌, when, raise, modify}
use ocm_k8s_toolkit.Informers.{
  WatchObject, WatchTask, InformerOps, Manager, key_of, load, has_synced,
}
use ocm_k8s_toolkit.Deployer.Ops.{WatchOps, Process}
use ocm_k8s_toolkit.Deployer.Rollout.{
  stop_watch, stop_watches, untrack, resource_watch_finalizer, finalized,
}
use ocm_k8s_toolkit.Deployer.Watching.{manager_watch, unregister_events}
use ocm_k8s_toolkit.Informers.Shutdown.{AllOf, Willing}
use ocm_k8s_toolkit.Deployer.Events.{
  Includes, unstopped, events-Ended, unstopped-Covered, load_throughout, active-stopped,
}

module _ (lib : Library) (watch : WatchOps) where
  -- the sends succeed
  abbrev pub Sends : Type 0
  Sends = (o : WatchObject) → watch.unregister o ≡ none

  stop_watch-sends :
      (o : WatchObject) (p : Process)
      → Sends
      → stop_watch lib watch o p ≡ (
        next (not (watch.is_stopped o)),
        record p {
          unregistrations = p.unregistrations ++ (if not (watch.is_stopped o) then o ∷ [] else []);
        },
      )
  unfolding stop_watch
  stop_watch-sends o p s = elim (Bool-cases (watch.is_stopped o)) [
    | inl e ↦ rw e (
        ap (λ l. (next false, record p { unregistrations = l }))
          (sym (append-nil p.unregistrations)))
    | inr n ↦ rw (n, s o)
  ]

  sending : Process → List WatchObject → Bool → Flow (Unit {0}) Bool × Process
  sending p l b = (next b, record p { unregistrations = l })

  or_false : (b : Bool) → (b || false) ≡ b
  or_false b = ground arith

  or_assoc : (a b c : Bool) → ((a || b) || c) ≡ (a || (b || c))
  or_assoc a b c = ground arith

  appended :
      (u : List WatchObject) (b : Bool) (o : WatchObject) (l : List WatchObject)
      → (u ++ (if b then o ∷ [] else [])) ++ l ≡ u ++ (if b then o ∷ l else l)
  appended u true o l = append_assoc u (o ∷ []) l
  appended u false o l = ap (λ x. x ++ l) (append-nil u)

  stop_watches-sends :
      (l : List WatchObject) (needed : Bool) (p : Process)
      → Sends
      → stop_watches lib watch l needed p ≡ (
        next (needed || any (λ o. not (watch.is_stopped o)) l),
        record p {
          unregistrations = p.unregistrations ++ filter (λ o. not (watch.is_stopped o)) l;
        },
      )
  unfolding stop_watches any filter sending
  stop_watches-sends [] needed p s =
      ap (sending p p.unregistrations) (sym (or_false needed))
      ∙ ap (λ l. sending p l (needed || false)) (sym (append-nil p.unregistrations))
  stop_watches-sends (o ∷ l) needed p s =
      let b = not (watch.is_stopped o) in
      let rest = any (λ x. not (watch.is_stopped x)) l in
      let sent = filter (λ x. not (watch.is_stopped x)) l in
      rw (stop_watch-sends o p s) (
        stop_watches-sends l (needed || b)
          (record p { unregistrations = p.unregistrations ++ (if b then o ∷ [] else []) }) s
        ∙ ap (sending p ((p.unregistrations ++ (if b then o ∷ [] else [])) ++ sent))
            (or_assoc needed b rest)
        ∙ ap (λ u. sending p u (needed || (b || rest))) (appended p.unregistrations b o sent))

  -- the watches are all stopped
  none_needed :
      (l : List WatchObject)
      → All (λ o. watch.is_stopped o ≡ true) l
      → any (λ o. not (watch.is_stopped o)) l ≡ false
  unfolding any
  none_needed [] h = refl
  none_needed (o ∷ l) (e, h) = rw e (none_needed l h)

  after_loop :
      (b : Bool) (q : Process)
      → ◌≡◌
          ((when {R = Unit {0}} b
                (raise (new "waiting for at least one resource watch to be removed"))
              >> modify (λ p.
                finalized lib
                  (lib.remove_finalizer p.world.meta.finalizers resource_watch_finalizer).0
                  p))
            q).1.unregistrations
          q.unregistrations
  after_loop true q = refl
  after_loop false q = refl

  untrack-sends :
      (p : Process)
      → Sends
      → (untrack lib watch p).1.unregistrations
        ≡ p.unregistrations ++ filter (λ o. not (watch.is_stopped o)) watch.watches
  unfolding untrack
  untrack-sends p s =
      rw (stop_watches-sends watch.watches false p s)
        (after_loop (any (λ o. not (watch.is_stopped o)) watch.watches) _)

  untrack-finalized :
      (p : Process)
      → Sends
      → All (λ o. watch.is_stopped o ≡ true) watch.watches
      → ((untrack lib watch p).0 ≡ next tt)
        × ((untrack lib watch p).1.world.meta.finalizers
            ≡ (lib.remove_finalizer p.world.meta.finalizers resource_watch_finalizer).0)
  unfolding untrack
  untrack-finalized p s h =
      rw (stop_watches-sends watch.watches false p s, none_needed watch.watches h) (refl, refl)

module _ (lib : Library) (laws : Laws lib) (ops : InformerOps) (willing : Willing ops)
    (parent : WatchObject) where
  has_synced-none :
      (other obj : WatchObject) (m : Manager)
      → load (key_of other obj) m.tasks ≡ none
      → has_synced ops other obj m ≡ false
  unfolding has_synced
  has_synced-none other obj m h =
      ap
        (λ (f : Option WatchTask). elim f as (λ x. Bool) [
          | none ↦ false
          | some t ↦
              ops.informer_synced t.informer && ops.registration_synced t.informer t.registration
        ])
        h

  -- What the deletion of a deployer comes to, with the informer manager before and after the events.
  pub record Untracked (m : Manager) (p q : Process) (after : Manager) : Type 0 where
    pub sent :
        (untrack lib (manager_watch parent ops m) p).1.unregistrations
        ≡ p.unregistrations ++ unstopped ops willing parent m
    pub succeeds : (untrack lib (manager_watch parent ops after) q).0 ≡ next tt
    pub released :
        lib.contains_finalizer
          (untrack lib (manager_watch parent ops after) q).1.world.meta.finalizers
          resource_watch_finalizer
        ≡ false
    pub foreign :
        (other obj : WatchObject) (t : WatchTask)
        → other.gvk ≡ parent.gvk
        → load (key_of other obj) m.tasks ≡ some t
        → ops.is_stopped t.informer ≡ false
        → has_synced ops other obj after ≡ false

  -- If every watch of the manager belongs to parents of the deployer's kind, and the informers let go
  -- of their handlers, then the deletion of a deployer comes to an end: Untrack sends an event for
  -- each watch whose informer is not stopped, and once Unregister has handled these events, in any
  -- order and among others, Untrack succeeds and takes the finalizer away. The watches of the other
  -- deployers have ended as well: each object of another deployer counts as not synced afterwards.
  pub untrack-Untracked :
      (m : Manager) (p q : Process) (es : List WatchObject)
      → AllOf parent.gvk m.tasks
      → Includes ops willing parent (unstopped ops willing parent m) es
      → Untracked m p q (unregister_events ops parent es m)
  untrack-Untracked m p q es a i =
      let after = unregister_events ops parent es m in
      let ended = events-Ended ops willing parent es m a (λ k t h.
        elim (unstopped-Covered ops willing parent m a k t h) [
          | inl stopped ↦ inl stopped
          | inr event ↦ inr (i k event)
        ]) in
      let done =
        untrack-finalized lib (manager_watch parent ops after) q (λ o. refl)
          (active-stopped ops willing parent after after.tasks
            (λ k t h. (ended.only_stopped k t h).0) ended.all_of
            (load_throughout ops willing parent after.tasks)) in
      record {
        sent = untrack-sends lib (manager_watch parent ops m) p (λ o. refl);
        succeeds = done.0;
        released =
            ap (λ l. lib.contains_finalizer l resource_watch_finalizer) done.1
            ∙ laws.contains-remove q.world.meta.finalizers resource_watch_finalizer;
        foreign = λ other obj t same h running.
            elim (Option-cases (load (key_of other obj) after.tasks)) [
              | inl gone ↦ has_synced-none other obj after gone
              | inr (u, e) ↦
                  let (stopped, old) = ended.only_stopped (key_of other obj) u e in
                  absurd (ground (arith, stopped, old, h, running))
            ];
      }
