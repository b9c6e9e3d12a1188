-- ===== src/Informers/Workers/Cleared.antt =====
-- What an Unregister that is under way has seen of the other watches.
use ocm_k8s_toolkit.Prelude.{
  ℕ, ◌≡◌, refl, ap, subst, Bool, true, false, Option, none, some, List, [], ◌∷◌, ◌++◌, All, inl,
  inr,
}
use ocm_k8s_toolkit.Errors.{Fault}
use ocm_k8s_toolkit.Informers.{WatchTaskKey, Manager, InformerOps, is_last_watch}
use ocm_k8s_toolkit.Informers.Workers.{
  event_key, Stage, loaded, last_watch, handler_gone, informer_gone, Stopping, still, checked,
  handler_answered, informer_answered, advance_from, Pool, Work, already_active, register_begun,
  register_finished, already_gone, unregister_begun, unregister_advanced,
}
use ocm_k8s_toolkit.Informers.Workers.Runs.{
  Keys, WasWatched, WasAlone, once, is_there, watched, is_last_watch-IsAlone,
}

-- of an element in the middle of a list, and of the rest
pub All-split :
    {A : Type 0} (P : A → Type 0) (before : List A) (x : A) (after : List A)
    → All P (before ++ x ∷ after)
    → P x × All P (before ++ after)
All-split P [] x after h = h
All-split P (b ∷ before) x after (p, h) = let (q, r) = All-split P before x after h in (q, (p, r))

-- An Unregister that has loaded its task has seen it among the watches, and one that has found it
-- to be the last watch has then or later seen no other parent.
abbrev pub ClearedAt : Stage → WatchTaskKey → List Keys → Type 0
ClearedAt loaded k seen = WasWatched k seen
ClearedAt last_watch k seen = WasAlone k seen
ClearedAt handler_gone k seen = WasAlone k seen
ClearedAt informer_gone k seen = WasAlone k seen

abbrev pub Cleared : List Keys → Stopping → Type 0
Cleared seen x = ClearedAt x.stage (event_key x.event) seen

keeps_seeing :
    (g : Stage) (k : WatchTaskKey) (f : Keys) (seen : List Keys)
    → ClearedAt g k seen
    → ClearedAt g k (f ∷ seen)
keeps_seeing loaded k f seen h = inr h
keeps_seeing last_watch k f seen h = inr h
keeps_seeing handler_gone k f seen h = inr h
keeps_seeing informer_gone k f seen h = inr h

pub all_keep_seeing :
    (f : Keys) (seen : List Keys) (l : List Stopping)
    → All (Cleared seen) l
    → All (Cleared (f ∷ seen)) l
all_keep_seeing f seen [] h = tt
all_keep_seeing f seen (x ∷ l) (p, h) =
    (keeps_seeing x.stage (event_key x.event) f seen p, all_keep_seeing f seen l h)

module _ (ops : InformerOps) where
  checked-Cleared :
      (x : Stopping) (b : Bool) (m : Manager) (f : Keys) (past : List Keys) (l : List Stopping)
      → is_last_watch (event_key x.event) m.tasks ≡ b
      → WasWatched (event_key x.event) (watched m ∷ past)
      → All (Cleared (f ∷ watched m ∷ past)) l
      → All (Cleared (f ∷ watched m ∷ past)) (still x (checked ops b m).0 l)
  unfolding checked
  checked-Cleared x true m f past l e c h =
      (inr (inl (is_last_watch-IsAlone (event_key x.event) m e, c)), h)
  checked-Cleared x false m f past l e c h = h

  handler_answered-Cleared :
      (x : Stopping) (r : Option Fault) (m : Manager) (seen : List Keys) (l : List Stopping)
      → WasAlone (event_key x.event) seen
      → All (Cleared seen) l
      → All (Cleared seen) (still x (handler_answered ops x.task r m).0 l)
  unfolding handler_answered
  handler_answered-Cleared x none m seen l e h = (e, h)
  handler_answered-Cleared x (some f) m seen l e h = h

  informer_answered-Cleared :
      (x : Stopping) (r : Option Fault) (m : Manager) (seen : List Keys) (l : List Stopping)
      → WasAlone (event_key x.event) seen
      → All (Cleared seen) l
      → All (Cleared seen) (still x (informer_answered ops (event_key x.event) r m).0 l)
  unfolding informer_answered
  informer_answered-Cleared x none m seen l e h = (e, h)
  informer_answered-Cleared x (some f) m seen l e h = h

  advance-Cleared :
      (x : Stopping) (g : Stage) (m : Manager) (f : Keys) (past : List Keys) (l : List Stopping)
      → ClearedAt g (event_key x.event) (watched m ∷ past)
      → All (Cleared (f ∷ watched m ∷ past)) l
      → All
          (Cleared (f ∷ watched m ∷ past))
          (still x (advance_from ops g (event_key x.event) x.task m).0 l)
  unfolding advance_from
  advance-Cleared x loaded m f past l c h =
      checked-Cleared x (is_last_watch (event_key x.event) m.tasks) m f past l refl c h
  advance-Cleared x last_watch m f past l c h =
      handler_answered-Cleared x (ops.remove_event_handler x.task.informer x.task.registration) m
        (f ∷ watched m ∷ past) l (inr c) h
  advance-Cleared x handler_gone m f past l c h =
      informer_answered-Cleared x (ops.remove_informer x.event.child.gvk) m (f ∷ watched m ∷ past) l
        (inr c) h
  advance-Cleared x informer_gone m f past l c h = h

  pub Work-Cleared :
      (workers : ℕ) {s t : Pool}
      → Work ops workers s t
      → (past : List Keys) → All (Cleared (watched s.manager ∷ past)) s.stopping
      → All (Cleared (watched t.manager ∷ watched s.manager ∷ past)) t.stopping
  Work-Cleared workers (already_active s e es t h f l) past c = all_keep_seeing _ _ s.stopping c
  Work-Cleared workers (register_begun s e es h f l) past c = all_keep_seeing _ _ s.stopping c
  Work-Cleared workers (register_finished s before e after h) past c =
      all_keep_seeing _ _ s.stopping c
  Work-Cleared workers (already_gone s e es h f l) past c = all_keep_seeing _ _ s.stopping c
  Work-Cleared workers (unregister_begun s e es t h f l) past c =
      (inr (inl (ap is_there l)), all_keep_seeing _ _ s.stopping c)
  Work-Cleared workers (unregister_advanced s before x after h) past c =
      let (p, q) = All-split (Cleared (watched s.manager ∷ past)) before x after (rw h at c) in
      advance-Cleared x x.stage s.manager _ past (before ++ after) p
        (all_keep_seeing _ _ (before ++ after) q)

  pub gone_once :
      (s : Pool) (past : List Keys)
      → All (Cleared (watched s.manager ∷ past)) s.stopping
      → (before : List Stopping) (x : Stopping) (after : List Stopping)
      → s.stopping ≡ before ++ x ∷ after
      → x.stage ≡ informer_gone
      → once (watched s.manager) past (event_key x.event)
  gone_once s past c before x after h g =
      let (p, q) = All-split (Cleared (watched s.manager ∷ past)) before x after (rw h at c) in
      subst (λ st. ClearedAt st (event_key x.event) (watched s.manager ∷ past)) g p
