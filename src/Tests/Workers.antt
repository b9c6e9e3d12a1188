-- ===== src/Tests/Workers.antt =====
-- The goroutines of the informer manager at concrete inputs.
use ocm_k8s_toolkit.Prelude.{ℕ, ◌++◌, some, List, ◌≤◌, ◌≡◌, refl, [], ◌∷◌, arith}
use ocm_k8s_toolkit.Errors.{new}
use ocm_k8s_toolkit.Informers.{load, add_handler, key_eq, set_queue}
use ocm_k8s_toolkit.Informers.Delivery.{EventType, Handled, handle_event, Reachable-handles}
use ocm_k8s_toolkit.Informers.Lifecycle.{IsValid}
use ocm_k8s_toolkit.Informers.Workers.{
  Event, Pool, Reachable, here, later, worked, sent_register, sent_unregister, register_begun,
  register_finished, unregister_begun, loaded, finish_register, new_pool,
}
use ocm_k8s_toolkit.Informers.Workers.Counting.{Reachable-IsCounted}
use ocm_k8s_toolkit.Informers.Workers.Draining.{Run, rest, more, Finished, Run-Finished}
use ocm_k8s_toolkit.Informers.Keys.{Distinct}
use ocm_k8s_toolkit.Informers.Workers.Runs.{Keys}
use ocm_k8s_toolkit.Informers.Workers.Racing.{Leaked, register_race}
use ocm_k8s_toolkit.Tests.Watches.{informers, deployer, config_map}

abbrev event : Event
event = record { parent = deployer; child = config_map "default" }

-- one goroutine that has registered a watch and is asked to register and to unregister it
abbrev registered : Pool
registered = record new_pool { manager = finish_register informers event new_pool.manager }

abbrev asked : Pool
asked = record registered { registers = event ∷ []; unregisters = event ∷ [] }

reach : Reachable informers 1 10 new_pool asked
unfolding load
reach =
    later
      (later
        (later
          (later (later here (sent_register new_pool event (omega arith))) (
            worked (
              register_begun (record new_pool { registers = event ∷ [] }) event [] refl refl refl)))
          (worked (register_finished (record new_pool { pending = event ∷ [] }) [] event [] refl)))
        (sent_register registered event (omega arith)))
      (sent_unregister (record registered { registers = event ∷ [] }) event (omega arith))

Reachable-IsCounted_example :
    Distinct asked.manager.tasks × (◌≡◌ {A = ℕ} 1 1 → IsValid asked.manager)
Reachable-IsCounted_example = Reachable-IsCounted informers 1 10 asked reach

-- the goroutine handles the event to unregister first
abbrev unregistering : Pool
unregistering = record asked {
  unregisters = [];
  stopping =
      record { event = event; task = record { informer = 1; registration = 2 }; stage = loaded }
      ∷ [];
}

one_step : Run informers 1 asked 1 unregistering
unfolding load add_handler key_eq
one_step = more (unregister_begun asked event [] _ refl refl refl) (rest unregistering)

Run-Finished_example : (1 ≤ 7) × Finished informers 1 unregistering
Run-Finished_example = Run-Finished informers 1 (omega arith) asked unregistering 1 one_step

register_race_example :
    (t : Pool) × Reachable informers 2 10 new_pool t × Leaked informers event 1 2 t.manager
register_race_example =
    register_race informers 2 10 (omega arith) (omega arith) event 1 2 refl refl refl refl

-- a bound queue, and a watch that is registered afterwards
abbrev bound : Pool
bound = record new_pool { manager = record new_pool.manager { queue = some 5 } }

abbrev watched_later : Pool
watched_later = record bound { manager = finish_register informers event bound.manager }

reach_later : Reachable informers 1 10 bound watched_later
unfolding load
reach_later =
    later
      (later (later here (sent_register bound event (omega arith)))
        (worked (register_begun (record bound { registers = event ∷ [] }) event [] refl refl refl)))
      (worked (register_finished (record bound { pending = event ∷ [] }) [] event [] refl))

Reachable-handles_example :
    ((e : EventType) (object : ℕ) (l : List Handled)
      → handle_event e object watched_later.manager l
        ≡ l ++ record { queue = 5; event = e; object = object } ∷ [])
    × ((p : ℕ)
        → (set_queue informers p watched_later.manager).0
          ≡ some (new "another queue is already registered"))
Reachable-handles_example = Reachable-handles informers 1 10 5 bound watched_later refl reach_later
