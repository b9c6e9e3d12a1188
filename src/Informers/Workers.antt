-- ===== src/Informers/Workers.antt =====
-- Start and work of internal/controller/deployer/dynamic/informer_manager.go: goroutines that take
-- events from two channels. Register looks for the task first and stores it later; Unregister looks
-- for the task, ranges over the tasks, removes the event handler, removes the informer, and deletes
-- the task. Other goroutines may run between all of these.
pub mod Effects
pub mod Valid
pub mod Serial
pub mod Counting
pub mod Draining
pub mod Runs
pub mod Cleared
pub mod Abstraction
pub mod Racing
pub mod Alone
use ocm_k8s_toolkit.Prelude.{
  ℕ, ◌+◌, ◌-◌, ◌<◌, ◌≡◌, Bool, true, false, Option, none, some, List, [], ◌∷◌, ◌++◌, ltb, length,
}
use ocm_k8s_toolkit.Errors.{Fault}
use ocm_k8s_toolkit.Informers.{
  WatchObject, WatchTaskKey, WatchTask, Manager, InformerOps, load, delete, key_of, is_last_watch,
  handler_removed, informer_removed, add_handler, set_queue,
}

pub record Event : Type 0 where
  pub parent : WatchObject
  pub child : WatchObject

abbrev pub event_key : Event → WatchTaskKey
event_key e = key_of e.parent e.child

-- How far an Unregister is whose task was found: it was loaded, it was found to be the last watch,
-- its event handler is removed, its informer is removed.
pub data Stage : Type 0 where
  loaded last_watch handler_gone informer_gone : Stage

-- an Unregister that a goroutine is within
pub record Stopping : Type 0 where
  pub event : Event
  pub task : WatchTask
  pub stage : Stage

-- The manager, the events in the two channels, the events whose Register has found no task and has
-- still to store one, and the Unregisters that have found their task.
pub record Pool : Type 0 where
  pub manager : Manager
  pub registers : List Event
  pub unregisters : List Event
  pub pending : List Event
  pub stopping : List Stopping

-- the Unregister that goes on, if it does
abbrev pub still : Stopping → Option Stage → List Stopping → List Stopping
still x none l = l
still x (some stage) l = record x { stage = stage } ∷ l

abbrev pub count_unregister : Manager → Manager
count_unregister m = record m { unregister_total = m.unregister_total + 1 }

module _ (ops : InformerOps) where
  -- after the loop over the tasks: another watch ends Unregister
  unfoldable pub checked : Bool → Manager → Option Stage × Manager
  checked true m = (some last_watch, m)
  checked false m = (none, count_unregister m)

  unfoldable pub handler_answered : WatchTask → Option Fault → Manager → Option Stage × Manager
  handler_answered t (some f) m = (none, m)
  handler_answered t none m = (
    some handler_gone,
    record m { calls = m.calls ++ handler_removed t.informer t.registration ∷ [] },
  )

  unfoldable pub informer_answered : WatchTaskKey → Option Fault → Manager → Option Stage × Manager
  informer_answered k (some f) m = (none, m)
  informer_answered k none m =
      (some informer_gone, record m { calls = m.calls ++ informer_removed k.gvk ∷ [] })

  -- the task leaves the map and the gauge
  abbrev pub task_deleted : WatchTaskKey → Manager → Manager
  task_deleted k m =
      count_unregister (record m { tasks = delete k m.tasks; active_tasks = m.active_tasks - 1 })

  -- the next part of an Unregister, with the stage after it unless Unregister returns
  unfoldable pub advance_from : Stage → WatchTaskKey → WatchTask → Manager → Option Stage × Manager
  unfolding checked handler_answered informer_answered
  advance_from loaded k t m = checked (is_last_watch k m.tasks) m
  advance_from last_watch k t m =
      handler_answered t (ops.remove_event_handler t.informer t.registration) m
  advance_from handler_gone k t m = informer_answered k (ops.remove_informer k.gvk) m
  advance_from informer_gone k t m = (none, task_deleted k m)

  abbrev pub advance : Stopping → Manager → Option Stage × Manager
  advance x m = advance_from x.stage (event_key x.event) x.task m

  -- Register from GetInformer on, whatever the tasks are by then
  abbrev pub finish_register : Event → Manager → Manager
  finish_register e m = (add_handler ops (event_key e) (ops.get_informer e.child) m).1

  module _ (workers : ℕ) where
    -- some goroutine is waiting for an event
    abbrev pub is_free : Pool → Bool
    is_free s = ltb (length s.pending + length s.stopping) workers

    -- what a goroutine does
    pub data Work : Pool → Pool → Type 0 where
      already_active :
          (s : Pool) (e : Event) (es : List Event) (t : WatchTask)
          → s.registers ≡ e ∷ es
          → is_free s ≡ true
          → load (event_key e) s.manager.tasks ≡ some t
          → Work s (record s { registers = es })
      register_begun :
          (s : Pool) (e : Event) (es : List Event)
          → s.registers ≡ e ∷ es
          → is_free s ≡ true
          → load (event_key e) s.manager.tasks ≡ none
          → Work s (record s { registers = es; pending = e ∷ s.pending })
      register_finished :
          (s : Pool) (before : List Event) (e : Event) (after : List Event)
          → s.pending ≡ before ++ e ∷ after
          → Work s (record s { manager = finish_register e s.manager; pending = before ++ after })
      already_gone :
          (s : Pool) (e : Event) (es : List Event)
          → s.unregisters ≡ e ∷ es
          → is_free s ≡ true
          → load (event_key e) s.manager.tasks ≡ none
          → Work s (record s { unregisters = es })
      unregister_begun :
          (s : Pool) (e : Event) (es : List Event) (t : WatchTask)
          → s.unregisters ≡ e ∷ es
          → is_free s ≡ true
          → load (event_key e) s.manager.tasks ≡ some t
          → Work s (record s {
            unregisters = es;
            stopping = record { event = e; task = t; stage = loaded } ∷ s.stopping;
          })
      unregister_advanced :
          (s : Pool) (before : List Stopping) (x : Stopping) (after : List Stopping)
          → s.stopping ≡ before ++ x ∷ after
          → Work s (record s {
            manager = (advance x s.manager).1;
            stopping = still x (advance x s.manager).0 (before ++ after);
          })

    module _ (buffer : ℕ) where
      -- A step of a goroutine, an event that another part of the program sends while there is room
      -- in the channel, or the queue that is bound.
      pub data Step : Pool → Pool → Type 0 where
        worked : {s t : Pool} → Work s t → Step s t
        sent_register :
            (s : Pool) (e : Event)
            → length s.registers < buffer
            → Step s (record s { registers = s.registers ++ e ∷ [] })
        sent_unregister :
            (s : Pool) (e : Event)
            → length s.unregisters < buffer
            → Step s (record s { unregisters = s.unregisters ++ e ∷ [] })
        queue_set :
            (s : Pool) (q : ℕ) → Step s (record s { manager = (set_queue ops q s.manager).1 })

      pub data Reachable (s : Pool) : Pool → Type 0 where
        here : Reachable s s
        later : {t u : Pool} → Reachable s t → Step t u → Reachable s u

-- the state in which Start finds a new manager
abbrev pub new_pool : Pool
new_pool = record {
  manager = record {
    tasks = [];
    queue = none;
    closed = false;
    active_tasks = 0;
    register_total = 0;
    unregister_total = 0;
    calls = [];
  };
  registers = [];
  unregisters = [];
  pending = [];
  stopping = [];
}
