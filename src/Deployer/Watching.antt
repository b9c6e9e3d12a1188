-- ===== src/Deployer/Watching.antt =====
-- What setupDynamicResourceWatcherWithManager of internal/controller/deployer/deployer_controller.go
-- connects: the functions of the informer manager, for one deployer.
use ocm_k8s_toolkit.Prelude.{none, List, [], ◌∷◌}
use ocm_k8s_toolkit.Informers.{
  InformerOps, Manager, WatchObject, has_synced, is_stopped, active_for_parent, unregister,
}
use ocm_k8s_toolkit.Deployer.Ops.{WatchOps}

-- the fields of the Reconciler, while its context is not done, so that the sends succeed
abbrev pub manager_watch : WatchObject → InformerOps → Manager → WatchOps
manager_watch parent ops m = record {
  has_synced = λ obj. has_synced ops parent obj m;
  is_stopped = λ obj. is_stopped ops parent obj m;
  watches = active_for_parent parent.gvk m.tasks;
  register = λ obj. none;
  unregister = λ obj. none;
}

-- a worker that takes events of one parent from the channel to unregister
unfoldable pub unregister_events : InformerOps → WatchObject → List WatchObject → Manager → Manager
unfolding unregister
unregister_events ops parent [] m = m
unregister_events ops parent (e ∷ es) m =
    unregister_events ops parent es (unregister ops parent e m).1
