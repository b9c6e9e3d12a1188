-- ===== src/Informers/Workers/Serial.antt =====
-- One goroutine: what holds in every state that it reaches.
use ocm_k8s_toolkit.Prelude.{
  ℕ, suc, ◌+◌, ◌≤◌, ◌≡◌, refl, ap, ◌∙◌, Bool, true, false, Option, none, some, List, [], ◌∷◌, ◌++◌,
  inl, inr, arith, length, length-append, All, ltb,
}
use ocm_k8s_toolkit.Errors.{Fault}
use ocm_k8s_toolkit.Informers.{WatchTaskKey, Manager, InformerOps, load, is_last_watch}
use ocm_k8s_toolkit.Informers.Lifecycle.{IsValid}
use ocm_k8s_toolkit.Informers.Workers.{
  event_key, Stage, loaded, last_watch, handler_gone, informer_gone, Stopping, still, checked,
  handler_answered, informer_answered, advance_from, advance, Pool, Work, already_active,
  register_begun, register_finished, already_gone, unregister_begun, unregister_advanced, worked,
  sent_register, sent_unregister, queue_set, Reachable, here, later, new_pool,
}
use ocm_k8s_toolkit.Informers.Workers.Valid.{Untouched-IsValid, Stored-IsValid, Deleted-IsValid}
use ocm_k8s_toolkit.Informers.Workers.Effects.{
  Untouched, add_handler-Stored, advance-Deleted, set_queue-Untouched,
}

module _ (ops : InformerOps) where
  -- what an Unregister has found out holds still: its task is there, and is the last watch
  abbrev pub Checked : Stage → WatchTaskKey → Manager → Type 0
  Checked loaded k m = Unit
  Checked last_watch k m = is_last_watch k m.tasks ≡ true
  Checked handler_gone k m = is_last_watch k m.tasks ≡ true
  Checked informer_gone k m = is_last_watch k m.tasks ≡ true

  abbrev pub Holds : Stopping → Manager → Type 0
  Holds x m =
      (load (event_key x.event) m.tasks ≡ some x.task) × Checked x.stage (event_key x.event) m

  -- one goroutine: at most one event is under way; while it is registered there is no task under
  -- its key, and while it is unregistered what was found out holds still
  pub record IsSerial (s : Pool) : Type 0 where
    pub valid : IsValid s.manager
    pub single : length s.pending + length s.stopping ≤ 1
    pub absent : All (λ e. load (event_key e) s.manager.tasks ≡ none) s.pending
    pub holds : All (λ x. Holds x s.manager) s.stopping

  nothing_there : {A : Type 0} (l : List A) → length l ≤ 0 → l ≡ []
  nothing_there [] h = refl
  nothing_there (e ∷ l) h = absurd (omega (arith, h))

  idle :
      {A B : Type 0} (l : List A) (m : List B)
      → ltb (length l + length m) 1 ≡ true
      → (l ≡ []) × (m ≡ [])
  idle l m h = (nothing_there l (ground (arith, h)), nothing_there m (ground (arith, h)))

  single_of :
      {A : Type 0} (l before after : List A) (e : A) (n : ℕ)
      → l ≡ before ++ e ∷ after
      → length l + n ≤ 1
      → (before ++ after ≡ []) × (l ≡ e ∷ []) × (n ≤ 0)
  single_of l before after e n h b =
      let total : length l ≡ length before + suc (length after) =
        ap length h ∙ length-append before (e ∷ after) in
      let first = nothing_there before (omega (arith, total, b)) in
      let last = nothing_there after (omega (arith, total, b)) in
      (rw (first, last) refl, rw (first, last) at h, omega (arith, total, b))

  checked-Holds :
      (x : Stopping) (b : Bool) (m : Manager)
      → is_last_watch (event_key x.event) m.tasks ≡ b
      → load (event_key x.event) m.tasks ≡ some x.task
      → All (λ y. Holds y (checked ops b m).1) (still x (checked ops b m).0 [])
  unfolding checked
  checked-Holds x true m e h = ((h, e), tt)
  checked-Holds x false m e h = tt

  handler_answered-Holds :
      (x : Stopping) (r : Option Fault) (m : Manager)
      → is_last_watch (event_key x.event) m.tasks ≡ true
      → load (event_key x.event) m.tasks ≡ some x.task
      → All
          (λ y. Holds y (handler_answered ops x.task r m).1)
          (still x (handler_answered ops x.task r m).0 [])
  unfolding handler_answered
  handler_answered-Holds x none m e h = ((h, e), tt)
  handler_answered-Holds x (some f) m e h = tt

  informer_answered-Holds :
      (x : Stopping) (r : Option Fault) (m : Manager)
      → is_last_watch (event_key x.event) m.tasks ≡ true
      → load (event_key x.event) m.tasks ≡ some x.task
      → All
          (λ y. Holds y (informer_answered ops (event_key x.event) r m).1)
          (still x (informer_answered ops (event_key x.event) r m).0 [])
  unfolding informer_answered
  informer_answered-Holds x none m e h = ((h, e), tt)
  informer_answered-Holds x (some f) m e h = tt

  advance-Holds :
      (x : Stopping) (g : Stage) (m : Manager)
      → load (event_key x.event) m.tasks ≡ some x.task
      → Checked g (event_key x.event) m
      → All
          (λ y. Holds y (advance_from ops g (event_key x.event) x.task m).1)
          (still x (advance_from ops g (event_key x.event) x.task m).0 [])
  unfolding advance_from
  advance-Holds x loaded m h c =
      checked-Holds x (is_last_watch (event_key x.event) m.tasks) m refl h
  advance-Holds x last_watch m h c =
      handler_answered-Holds x (ops.remove_event_handler x.task.informer x.task.registration) m c h
  advance-Holds x handler_gone m h c =
      informer_answered-Holds x (ops.remove_informer x.event.child.gvk) m c h
  advance-Holds x informer_gone m h c = tt

  still_single : (x : Stopping) (o : Option Stage) → length (still x o []) ≤ 1
  still_single x none = omega arith
  still_single x (some g) = omega arith

  Untouched-Holds :
      (m n : Manager)
      → Untouched m n
      → (l : List Stopping) → All (λ x. Holds x m) l
      → All (λ x. Holds x n) l
  Untouched-Holds m n u [] h = tt
  Untouched-Holds m n u (x ∷ l) (h, rest) = (kept x.stage h, Untouched-Holds m n u l rest)
    where
      kept :
          (g : Stage)
          → (load (event_key x.event) m.tasks ≡ some x.task) × Checked g (event_key x.event) m
          → (load (event_key x.event) n.tasks ≡ some x.task) × Checked g (event_key x.event) n
      kept loaded (a, c) = (rw u.tasks a, tt)
      kept last_watch (a, c) = (rw u.tasks a, rw u.tasks c)
      kept handler_gone (a, c) = (rw u.tasks a, rw u.tasks c)
      kept informer_gone (a, c) = (rw u.tasks a, rw u.tasks c)

  advanced-IsSerial :
      (s : Pool) (x : Stopping)
      → IsSerial s
      → s.pending ≡ []
      → s.stopping ≡ x ∷ []
      → IsSerial (record s {
        manager = (advance ops x s.manager).1;
        stopping = still x (advance ops x s.manager).0 [];
      })
  advanced-IsSerial s x v p h =
      let (there, checked) = (rw h at v.holds).0 in
      record {
        valid = elim (advance-Deleted ops x.stage (event_key x.event) x.task s.manager) [
          | inl u ↦ Untouched-IsValid s.manager _ u v.valid
          | inr (g, u) ↦ Deleted-IsValid (event_key x.event) x.task s.manager _ u there v.valid
        ];
        single = rw p (omega (arith, still_single x (advance ops x s.manager).0));
        absent = rw p tt;
        holds = advance-Holds x x.stage s.manager there checked;
      }

  Work-IsSerial : {s t : Pool} → Work ops 1 s t → IsSerial s → IsSerial t
  Work-IsSerial (already_active s e es t h f l) v = record {
    valid = v.valid;
    single = v.single;
    absent = v.absent;
    holds = v.holds;
  }
  Work-IsSerial (register_begun s e es h f l) v =
      let (p, q) = idle s.pending s.stopping f in
      record {
        valid = v.valid;
        single = rw (p, q) (omega arith);
        absent = (l, v.absent);
        holds = v.holds;
      }
  Work-IsSerial (register_finished s before e after h) v =
      let (none_left, only, free) =
        single_of s.pending before after e (length s.stopping) h v.single in
      let missing : load (event_key e) s.manager.tasks ≡ none = (rw only at v.absent).0 in
      let quiet = nothing_there s.stopping free in
      record {
        valid = elim (add_handler-Stored ops (event_key e) (ops.get_informer e.child) s.manager) [
          | inl u ↦ Untouched-IsValid s.manager _ u v.valid
          | inr u ↦ Stored-IsValid (event_key e) s.manager _ u missing v.valid
        ];
        single = rw (none_left, quiet) (omega arith);
        absent = rw none_left tt;
        holds = rw quiet tt;
      }
  Work-IsSerial (already_gone s e es h f l) v = record {
    valid = v.valid;
    single = v.single;
    absent = v.absent;
    holds = v.holds;
  }
  Work-IsSerial (unregister_begun s e es t h f l) v =
      let (p, q) = idle s.pending s.stopping f in
      record {
        valid = v.valid;
        single = rw (p, q) (omega arith);
        absent = v.absent;
        holds = ((l, tt), v.holds);
      }
  Work-IsSerial (unregister_advanced s before x after h) v =
      let (none_left, only, free) =
        single_of s.stopping before after x (length s.pending) h (omega (arith, v.single)) in
      rw none_left (advanced-IsSerial s x v (nothing_there s.pending free) only)

  pub Reachable-IsSerial : (buffer : ℕ) {t : Pool} → Reachable ops 1 buffer new_pool t → IsSerial t
  Reachable-IsSerial buffer here = record {
    valid = record { distinct = tt; counted = refl };
    single = omega arith;
    absent = tt;
    holds = tt;
  }
  Reachable-IsSerial buffer (later r (worked w)) = Work-IsSerial w (Reachable-IsSerial buffer r)
  Reachable-IsSerial buffer (later r (sent_register s e h)) =
      let v = Reachable-IsSerial buffer r in
      record { valid = v.valid; single = v.single; absent = v.absent; holds = v.holds }
  Reachable-IsSerial buffer (later r (sent_unregister s e h)) =
      let v = Reachable-IsSerial buffer r in
      record { valid = v.valid; single = v.single; absent = v.absent; holds = v.holds }
  Reachable-IsSerial buffer (later r (queue_set s q)) =
      let v = Reachable-IsSerial buffer r in
      let u = set_queue-Untouched ops q s.manager in
      record {
        valid = Untouched-IsValid s.manager _ u v.valid;
        single = v.single;
        absent = rw u.tasks v.absent;
        holds = Untouched-Holds s.manager _ u s.stopping v.holds;
      }
