-- ===== src/Tests/Watches.antt =====
-- The watches of the informer manager at concrete inputs.
use ocm_k8s_toolkit.Prelude.{ℕ, any, String, ◌≡◌, refl, true, false, none, some, List, [], ◌∷◌}
use ocm_k8s_toolkit.Errors.{got}
use ocm_k8s_toolkit.Informers.{
  key_eq, key_of, load, is_last_watch, shares, WatchObject, WatchTaskKey, WatchTask, InformerOps,
  Manager, graceful_shutdown, handler_removed, informer_removed, unregister,
}
use ocm_k8s_toolkit.Informers.Shutdown.{graceful_shutdown-stopped}
use ocm_k8s_toolkit.Informers.Sharing.{
  unregister_each, shared_watch_persists, informer_removed_under_other_namespace,
}

abbrev pub informers : InformerOps
informers = record {
  get_informer = λ o. got 1;
  add_event_handler = λ i. got 2;
  remove_event_handler = λ i r. none;
  remove_informer = λ k. none;
  is_stopped = λ i. false;
  informer_synced = λ i. true;
  registration_synced = λ i r. true;
}

abbrev pub deployer : WatchObject
deployer = record {
  gvk = record { group = "delivery.ocm.software"; version = "v1alpha1"; kind = "Deployer" };
  namespace = "default";
  name = "deployer";
}

abbrev pub other_parent : WatchObject
other_parent = record {
  gvk = record { group = "delivery.ocm.software"; version = "v1alpha1"; kind = "Other" };
  namespace = "default";
  name = "other";
}

abbrev pub config_map : String → WatchObject
config_map namespace = record {
  gvk = record { group = ""; version = "v1"; kind = "ConfigMap" };
  namespace = namespace;
  name = "settings";
}

abbrev pub task : WatchTask
task = record { informer = 1; registration = 2 }

abbrev pub manager : List (WatchTaskKey × WatchTask) → ℕ → Manager
manager l n = record {
  tasks = l;
  queue = some 0;
  closed = false;
  active_tasks = n;
  register_total = n;
  unregister_total = 0;
  calls = [];
}

-- the manager with one watch
abbrev pub watching : Manager
watching = manager ((key_of deployer (config_map "default"), task) ∷ []) 1

-- the manager with the watches of two parents
abbrev shared : Manager
shared =
    manager
      ((key_of deployer (config_map "default"), task)
        ∷ (key_of other_parent (config_map "default"), task)
        ∷ [])
      2

shared_watch_persists_example :
    ((unregister_each informers deployer other_parent
        (config_map "default")
        (true ∷ false ∷ [])
        shared).tasks
      ≡ shared.tasks)
    × ((unregister_each informers deployer other_parent
          (config_map "default")
          (true ∷ false ∷ [])
          shared).calls
        ≡ [])
unfolding load key_eq
shared_watch_persists_example =
    shared_watch_persists informers deployer other_parent (config_map "default") task task
      (true ∷ false ∷ []) shared refl refl refl

-- the manager with watches in two namespaces
abbrev spread : Manager
spread =
    manager
      ((key_of deployer (config_map "default"), task)
        ∷ (key_of deployer (config_map "other"), task)
        ∷ [])
      2

informer_removed_under_other_namespace_example :
    ((unregister informers deployer (config_map "default") spread).1.calls
      ≡ handler_removed 1 2 ∷ informer_removed (config_map "other").gvk ∷ [])
    × (load
          (key_of deployer (config_map "other"))
          (unregister informers deployer (config_map "default") spread).1.tasks
        ≡ some task)
unfolding load key_eq is_last_watch any shares
informer_removed_under_other_namespace_example =
    informer_removed_under_other_namespace informers deployer (config_map "default")
      (config_map "other") task task spread refl refl refl refl refl refl refl

graceful_shutdown-stopped_example :
    ((graceful_shutdown informers watching).0 ≡ none)
    × ((graceful_shutdown informers watching).1.tasks ≡ [])
    × ((graceful_shutdown informers watching).1.active_tasks ≡ 0)
    × ((graceful_shutdown informers watching).1.queue ≡ none)
unfolding load
graceful_shutdown-stopped_example =
    graceful_shutdown-stopped informers (record { handlers = λ i r. refl; informers = λ g. refl })
      deployer.gvk watching (record { distinct = (refl, tt); counted = refl }) (refl, tt)
