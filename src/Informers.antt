-- ===== src/Informers.antt =====
-- internal/controller/deployer/dynamic/informer_manager.go: watches that are registered and
-- unregistered at run time. The cache of controller-runtime is a parameter.
pub mod Keys
pub mod Sharing
pub mod Lifecycle
pub mod Shutdown
pub mod Workers
pub mod Delivery
use ocm_k8s_toolkit.Prelude.{
  ℕ, ◌+◌, ◌-◌, String, Bool, true, false, not, ◌&&◌, Option, none, some, List, [], ◌∷◌, ◌++◌, ◌==◌,
  any, if◌then◌else◌, leb,
}
use ocm_k8s_toolkit.Errors.{Error, Fault, new, external, wrap, join_errors, Reply, got, fault}

-- schema.GroupVersionKind
pub record Gvk : Type 0 where
  pub group : String
  pub version : String
  pub kind : String

-- an object, as far as the manager looks at it
pub record WatchObject : Type 0 where
  pub gvk : Gvk
  pub namespace : String
  pub name : String

-- watchTaskKey
pub record WatchTaskKey : Type 0 where
  pub parent : Gvk
  pub gvk : Gvk
  pub namespace : String

unfoldable pub gvk_eq : Gvk → Gvk → Bool
gvk_eq a b = a.group == b.group && a.version == b.version && a.kind == b.kind

unfoldable pub key_eq : WatchTaskKey → WatchTaskKey → Bool
unfolding gvk_eq
key_eq a b = gvk_eq a.parent b.parent && gvk_eq a.gvk b.gvk && a.namespace == b.namespace

-- key of the source
abbrev pub key_of : WatchObject → WatchObject → WatchTaskKey
key_of parent obj = record { parent = parent.gvk; gvk = obj.gvk; namespace = obj.namespace }

-- What the informers of the cache report and do; an informer and a registration are names.
pub record InformerOps : Type 0 where
  pub get_informer : WatchObject → Reply ℕ
  pub add_event_handler : ℕ → Reply ℕ
  pub remove_event_handler : ℕ → ℕ → Option Fault
  pub remove_informer : Gvk → Option Fault
  pub is_stopped : ℕ → Bool
  pub informer_synced : ℕ → Bool
  pub registration_synced : ℕ → ℕ → Bool

pub record WatchTask : Type 0 where
  pub informer : ℕ
  pub registration : ℕ

-- calls that change the cache
pub data CacheCall : Type 0 where
  handler_added : ℕ → CacheCall
  handler_removed : ℕ → ℕ → CacheCall
  informer_removed : Gvk → CacheCall

-- The state: the map of tasks as a list with the latest first, whether a queue is bound, the
-- counters of the metrics, and the calls made.
pub record Manager : Type 0 where
  pub tasks : List (WatchTaskKey × WatchTask)
  pub queue : Option ℕ
  pub closed : Bool
  pub active_tasks : ℕ
  pub register_total : ℕ
  pub unregister_total : ℕ
  pub calls : List CacheCall

unfoldable pub load : WatchTaskKey → List (WatchTaskKey × WatchTask) → Option WatchTask
load k [] = none
load k ((j, t) ∷ l) = let rest = load k l in if key_eq j k then some t else rest

unfoldable pub delete :
    WatchTaskKey → List (WatchTaskKey × WatchTask) → List (WatchTaskKey × WatchTask)
delete k [] = []
delete k ((j, t) ∷ l) = let rest = delete k l in if key_eq j k then rest else (j, t) ∷ rest

-- another parent watches the same kind in the same namespace
unfoldable pub shares : WatchTaskKey → WatchTaskKey × WatchTask → Bool
shares k (existing, t) =
    gvk_eq existing.gvk k.gvk
    && existing.namespace == k.namespace
    && not (gvk_eq existing.parent k.parent)

unfoldable pub is_last_watch : WatchTaskKey → List (WatchTaskKey × WatchTask) → Bool
is_last_watch k l = not (any (shares k) l)

module _ (ops : InformerOps) where
  -- SetQueue
  unfoldable pub set_queue : ℕ → Manager → Option Error × Manager
  set_queue q m = elim m.queue [
    | some p ↦ (some (new "another queue is already registered"), m)
    | none ↦ (none, record m { queue = some q })
  ]

  -- the rest of Register, from the reply of GetInformer on; Store replaces a task under the key
  unfoldable pub add_handler : WatchTaskKey → Reply ℕ → Manager → Option Error × Manager
  unfolding delete
  add_handler k (fault f) m = (some (wrap "failed to get informer" (external f)), m)
  add_handler k (got i) m = elim (ops.add_event_handler i) [
    | fault f ↦ (some (wrap "failed to add event handler" (external f)), m)
    | got r ↦ (
      none,
      record m {
        tasks = (k, record { informer = i; registration = r }) ∷ delete k m.tasks;
        active_tasks = m.active_tasks + 1;
        register_total = m.register_total + 1;
        calls = m.calls ++ handler_added i ∷ [];
      },
    )
  ]

  unfoldable pub register_unless :
      Option WatchTask → WatchObject → WatchObject → Manager → Option Error × Manager
  unfolding add_handler
  register_unless (some t) parent obj m = (none, m)
  register_unless none parent obj m = add_handler (key_of parent obj) (ops.get_informer obj) m

  -- Register
  unfoldable pub register : WatchObject → WatchObject → Manager → Option Error × Manager
  unfolding register_unless
  register parent obj m = register_unless (load (key_of parent obj) m.tasks) parent obj m

  -- the rest of stopTask once the event handler is removed
  unfoldable pub drop_informer : WatchTaskKey → Option Fault → Manager → Option Error × Manager
  drop_informer k (some f) m = (some (wrap "failed to remove informer" (external f)), m)
  drop_informer k none m = (
    none,
    record m {
      tasks = delete k m.tasks;
      active_tasks = m.active_tasks - 1;
      calls = m.calls ++ informer_removed k.gvk ∷ [];
    },
  )

  unfoldable pub drop_handler :
      WatchTaskKey → WatchTask → Option Fault → Manager → Option Error × Manager
  unfolding drop_informer
  drop_handler k t (some f) m = (some (wrap "failed to remove event handler" (external f)), m)
  drop_handler k t none m =
      drop_informer k (ops.remove_informer k.gvk)
        (record m { calls = m.calls ++ handler_removed t.informer t.registration ∷ [] })

  -- stopTask
  unfoldable pub stop_task : WatchTaskKey → WatchTask → Manager → Option Error × Manager
  unfolding drop_handler
  stop_task k t m =
      if not (is_last_watch k m.tasks)
      then (none, m)
      else drop_handler k t (ops.remove_event_handler t.informer t.registration) m

  abbrev pub count_unregistered : Option Error × Manager → Option Error × Manager
  count_unregistered (none, m) = (none, record m { unregister_total = m.unregister_total + 1 })
  count_unregistered (some e, m) = (some (wrap "failed to stop task" e), m)

  unfoldable pub unregister_task :
      WatchTaskKey → Option WatchTask → Manager → Option Error × Manager
  unregister_task k none m = (none, m)
  unregister_task k (some t) m = count_unregistered (stop_task k t m)

  -- Unregister
  unfoldable pub unregister : WatchObject → WatchObject → Manager → Option Error × Manager
  unfolding unregister_task
  unregister parent obj m = unregister_task (key_of parent obj) (load (key_of parent obj) m.tasks) m

  -- IsStopped and HasSynced
  unfoldable pub is_stopped : WatchObject → WatchObject → Manager → Bool
  is_stopped parent obj m = elim (load (key_of parent obj) m.tasks) [
    | none ↦ false
    | some t ↦ ops.is_stopped t.informer
  ]

  unfoldable pub has_synced : WatchObject → WatchObject → Manager → Bool
  has_synced parent obj m = elim (load (key_of parent obj) m.tasks) [
    | none ↦ false
    | some t ↦ ops.informer_synced t.informer && ops.registration_synced t.informer t.registration
  ]

  -- the loop of GracefulShutdown over the tasks
  unfoldable pub stop_all :
      List (WatchTaskKey × WatchTask) → Option Error → Manager → Option Error × Manager
  unfolding stop_task join_errors
  stop_all [] e m = (e, m)
  stop_all ((k, t) ∷ l) e m = let (e', m') = stop_task k t m in stop_all l (join_errors e e') m'

  -- GracefulShutdown
  unfoldable pub graceful_shutdown : Manager → Option Error × Manager
  unfolding stop_all
  graceful_shutdown m =
      let (e, m') = stop_all m.tasks none m in (e, record m' { queue = none; closed = true })

-- ActiveForParent
unfoldable pub active_for_parent : Gvk → List (WatchTaskKey × WatchTask) → List WatchObject
active_for_parent p [] = []
active_for_parent p ((k, t) ∷ l) =
    let rest = active_for_parent p l in
    if gvk_eq k.parent p
    then record { gvk = k.gvk; namespace = k.namespace; name = "" } ∷ rest
    else rest
