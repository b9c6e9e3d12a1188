-- ===== src/Informers/Workers/Draining.antt =====
-- The goroutines of work come to an end with the events in the channels.
use Prim.Native.Nat.{◌*◌}
use ocm_k8s_toolkit.Prelude.{
  Bool, false, Option, none, some, ◌++◌, ℕ, zero, suc, ◌+◌, ◌≤◌, ◌<◌, ◌≡◌, refl, true, List, [],
  ◌∷◌, arith, length, length-append, ltb, ◌⊎◌, inl, inr, Option-cases,
}
use ocm_k8s_toolkit.Errors.{Fault}
use ocm_k8s_toolkit.Informers.{Manager, InformerOps, load, is_last_watch}
use ocm_k8s_toolkit.Informers.Workers.{
  Event, event_key, Pool, Work, already_active, register_begun, register_finished, already_gone,
  unregister_begun, unregister_advanced, Stage, loaded, last_watch, handler_gone, informer_gone,
  Stopping, still, checked, handler_answered, informer_answered, advance_from,
}

-- the parts of an Unregister that are left
abbrev pub parts_left : Stage → ℕ
parts_left loaded = 4
parts_left last_watch = 3
parts_left handler_gone = 2
parts_left informer_gone = 1

abbrev pub all_parts_left : List Stopping → ℕ
all_parts_left [] = 0
all_parts_left (x ∷ l) = parts_left x.stage + all_parts_left l

-- the number of steps that the events ask for, at most
abbrev pub remaining : Pool → ℕ
remaining s =
    2 * length s.registers + 5 * length s.unregisters + length s.pending + all_parts_left s.stopping

-- no event waits, and no Register or Unregister is under way
pub record IsIdle (s : Pool) : Type 0 where
  pub registers : s.registers ≡ []
  pub unregisters : s.unregisters ≡ []
  pub pending : s.pending ≡ []
  pub stopping : s.stopping ≡ []

module _ (ops : InformerOps) (workers : ℕ) where
  -- a number of steps of the goroutines
  pub data Run : Pool → ℕ → Pool → Type 0 where
    rest : (s : Pool) → Run s 0 s
    more : {n : ℕ} {s t u : Pool} → Work ops workers s t → Run t n u → Run s (suc n) u

  all_parts_left-append :
      (l m : List Stopping) → all_parts_left (l ++ m) ≡ all_parts_left l + all_parts_left m
  all_parts_left-append [] m = omega arith
  all_parts_left-append (x ∷ l) m = omega (arith, all_parts_left-append l m)

  checked-parts :
      (x : Stopping) (b : Bool) (l : List Stopping) (m : Manager)
      → all_parts_left (still x (checked ops b m).0 l) < 4 + all_parts_left l
  unfolding checked
  checked-parts x true l m = omega arith
  checked-parts x false l m = omega arith

  handler_answered-parts :
      (x : Stopping) (r : Option Fault) (l : List Stopping) (m : Manager)
      → all_parts_left (still x (handler_answered ops x.task r m).0 l) < 3 + all_parts_left l
  unfolding handler_answered
  handler_answered-parts x none l m = omega arith
  handler_answered-parts x (some f) l m = omega arith

  informer_answered-parts :
      (x : Stopping) (r : Option Fault) (l : List Stopping) (m : Manager)
      → all_parts_left (still x (informer_answered ops (event_key x.event) r m).0 l)
        < 2 + all_parts_left l
  unfolding informer_answered
  informer_answered-parts x none l m = omega arith
  informer_answered-parts x (some f) l m = omega arith

  advance-parts :
      (x : Stopping) (g : Stage) (l : List Stopping) (m : Manager)
      → all_parts_left (still x (advance_from ops g (event_key x.event) x.task m).0 l)
        < parts_left g + all_parts_left l
  unfolding advance_from
  advance-parts x loaded l m = checked-parts x (is_last_watch (event_key x.event) m.tasks) l m
  advance-parts x last_watch l m =
      handler_answered-parts x (ops.remove_event_handler x.task.informer x.task.registration) l m
  advance-parts x handler_gone l m =
      informer_answered-parts x (ops.remove_informer x.event.child.gvk) l m
  advance-parts x informer_gone l m = omega arith

  remaining-Work : {s t : Pool} → Work ops workers s t → remaining t < remaining s
  remaining-Work (already_active s e es t h f l) = rw h (omega arith)
  remaining-Work (register_begun s e es h f l) = rw h (omega arith)
  remaining-Work (register_finished s before e after h) =
      rw h (omega (arith, length-append before after, length-append before (e ∷ after)))
  remaining-Work (already_gone s e es h f l) = rw h (omega arith)
  remaining-Work (unregister_begun s e es t h f l) = rw h (omega arith)
  remaining-Work (unregister_advanced s before x after h) = rw h (
      omega (
        arith,
        advance-parts x x.stage (before ++ after) s.manager,
        all_parts_left-append before after,
        all_parts_left-append before (x ∷ after),
      ))

  remaining-Run : {s t : Pool} {n : ℕ} → Run s n t → n + remaining t ≤ remaining s
  remaining-Run (rest s) = omega arith
  remaining-Run (more w r) = omega (arith, remaining-Work w, remaining-Run r)

  idle_free :
      (s : Pool)
      → 1 ≤ workers
      → s.pending ≡ []
      → s.stopping ≡ []
      → ltb (length s.pending + length s.stopping) workers ≡ true
  idle_free s p h q = rw (h, q) (ground arith)

  abbrev Progress : Pool → Type 0
  Progress s = (t : Pool) × Work ops workers s t

  begin :
      (s : Pool) (e : Event) (es : List Event)
      → ltb (length s.pending + length s.stopping) workers ≡ true
      → s.registers ≡ e ∷ es
      → Progress s
  begin s e es f r = elim (Option-cases (load (event_key e) s.manager.tasks)) [
    | inl gone ↦ (_, register_begun s e es r f gone)
    | inr (t, there) ↦ (_, already_active s e es t r f there)
  ]

  begin_unregister :
      (s : Pool) (e : Event) (es : List Event)
      → ltb (length s.pending + length s.stopping) workers ≡ true
      → s.unregisters ≡ e ∷ es
      → Progress s
  begin_unregister s e es f u = elim (Option-cases (load (event_key e) s.manager.tasks)) [
    | inl gone ↦ (_, already_gone s e es u f gone)
    | inr (t, there) ↦ (_, unregister_begun s e es t u f there)
  ]

  -- unless the pool is idle there is a step
  progress :
      (s : Pool) (registers unregisters pending : List Event) (stopping : List Stopping)
      → 1 ≤ workers
      → s.registers ≡ registers
      → s.unregisters ≡ unregisters
      → s.pending ≡ pending
      → s.stopping ≡ stopping
      → IsIdle s ⊎ Progress s
  progress s rs us (e ∷ es) xs p r u h q = inr (_, register_finished s [] e es h)
  progress s rs us [] (x ∷ xs) p r u h q = inr (_, unregister_advanced s [] x xs q)
  progress s (e ∷ es) us [] [] p r u h q = inr (begin s e es (idle_free s p h q) r)
  progress s [] (e ∷ es) [] [] p r u h q = inr (begin_unregister s e es (idle_free s p h q) u)
  progress s [] [] [] [] p r u h q =
      inl record { registers = r; unregisters = u; pending = h; stopping = q }

  abbrev pub Finished : Pool → Type 0
  Finished s = (n : ℕ) × (t : Pool) × Run s n t × IsIdle t

  finish : (fuel : ℕ) (s : Pool) → 1 ≤ workers → remaining s ≤ fuel → Finished s
  finish zero s p b =
      elim (progress s s.registers s.unregisters s.pending s.stopping p refl refl refl refl) [
        | inl i ↦ (0, s, rest s, i)
        | inr (t, w) ↦ absurd (omega (arith, remaining-Work w, b))
      ]
  finish (suc fuel) s p b =
      elim (progress s s.registers s.unregisters s.pending s.stopping p refl refl refl refl) [
        | inl i ↦ (0, s, rest s, i)
        | inr (t, w) ↦
            let (n, u, r, i) = finish fuel t p (omega (arith, remaining-Work w, b)) in
            (suc n, u, more w r, i)
      ]

  -- If there is a goroutine, then, while nobody sends, every sequence of steps has at most two steps
  -- for each event to register, five for each event to unregister, one for each Register that is
  -- under way, and for each Unregister that is under way as many as it has parts left; and the
  -- goroutines can always go on until no event is left and none is under way.
  pub Run-Finished : 1 ≤ workers → (s t : Pool) (n : ℕ) → Run s n t → (n ≤ remaining s) × Finished t
  Run-Finished p s t n r = (omega (arith, remaining-Run r), finish (remaining t) t p (omega arith))
