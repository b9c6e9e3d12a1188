-- ===== src/Deployer/Applied.antt =====
-- What a rollout that runs to its end has done.
use ocm_k8s_toolkit.Prelude.{
  String, str_append, ◌≡◌, refl, sym, ap, ◌∙◌, Bool, true, false, some, List, [], ◌∷◌, ◌++◌, All,
  arith, ltb, length, if◌then◌else◌,
}
use mathlib.Core.List.{Permᴰ}
use ocm_k8s_toolkit.Errors.{Error, got}
use ocm_k8s_toolkit.Api.{is_true}
use ocm_k8s_toolkit.Library.{Library, Laws, ready_condition}
use ocm_k8s_toolkit.Exec.{next, ◌>>=◌, ◌>>◌, check}
use ocm_k8s_toolkit.Exec.Inversion.{Leaves, check->>-eq-next}
use ocm_k8s_toolkit.Exec.World.{Result}
use ocm_k8s_toolkit.Status.{new_event, severity_info, succeeded_reason}
use ocm_k8s_toolkit.Status.Marks.{ready_as, mark_ready_lem}
use ocm_k8s_toolkit.Reconcile.{requeue_in}
use ocm_k8s_toolkit.Deployer.Ownership.{entry, managed_by_label, deployer_manager}
use ocm_k8s_toolkit.Deployer.Objects.{DeployedObject, update_deployed_object_status_references}
use ocm_k8s_toolkit.Deployer.Ops.{Deployer, ApplyOps, WatchOps, Process}
use ocm_k8s_toolkit.Deployer.Rollout.{
  Deployable, note_several, apply_concurrently, several_objects, track_concurrently,
  resource_watch_finalizer,
}
use ocm_k8s_toolkit.Deployer.Grouped.{
  Pairwise, Patched, IsSynced, apply-none, tracked-none, All-Permᴰ, length-Permᴰ, length-Pairwise,
  All-Pairwise,
}
use ocm_k8s_toolkit.Deployer.{
  roll_out, conclude_rollout, result, refusing, set_deployed, watching, apply_failed_reason,
  resource_not_synced_reason,
}

module _ (lib : Library) (laws : Laws lib) (ops : ApplyOps) (watch : WatchOps)
    (order : List DeployedObject → List DeployedObject) (d : Deployable) (o : Deployer) where
  -- SetControllerReference leaves the labels of the object alone
  abbrev pub KeepsLabels : Type 0
  KeepsLabels =
      (obj sent : DeployedObject)
      → ops.set_controller_reference o obj ≡ got sent
      → sent.labels ≡ obj.labels

  abbrev pub IsManaged : DeployedObject → Type 0
  IsManaged sent = entry managed_by_label sent.labels ≡ some deployer_manager

  managed :
      KeepsLabels
      → (objs sent : List DeployedObject) → Pairwise (Patched ops d o) objs sent
      → All IsManaged sent
  managed keeps [] [] h = tt
  managed keeps [] (c ∷ sent) h = absurd h
  managed keeps (obj ∷ objs) [] h = absurd h
  managed keeps (obj ∷ objs) (c ∷ sent) ((owned, is, r, q), h) = (
    ap (entry managed_by_label) (keeps owned c r) ∙ is.labelled.managed,
    managed keeps objs sent h,
  )

  -- The state after a rollout of the objects, and its result.
  pub record RolledOut (objs : List DeployedObject) (p q : Process) (r : Result) : Type 0 where
    pub sent : List DeployedObject
    pub patched : q.patched ≡ p.patched ++ sent
    pub applied : Pairwise (Patched ops d o) (order objs) sent
    pub as_many : length sent ≡ length objs
    pub taken : All (λ obj. (copy : DeployedObject) × Patched ops d o obj copy) objs
    pub managed_by : All IsManaged sent
    pub synced : All (IsSynced ops watch) objs
    pub quiet : q.registrations ≡ p.registrations
    pub deployed :
        q.world.status.deployed
        ≡ update_deployed_object_status_references objs p.world.status.deployed
    pub watched : lib.contains_finalizer q.world.meta.finalizers resource_watch_finalizer ≡ true
    pub ready :
        lib.get q.world.conditions ready_condition
        ≡ some (ready_as is_true succeeded_reason (str_append "Applied version " d.info.version))
    pub requeued : r ≡ requeue_in d.resource.spec.interval

  refusing-Leaves :
      {A : Type 0} (reason context : String) (e : Error)
      → Leaves {S = Process} {R = Result} {A = A} (refusing lib reason context e)
  refusing-Leaves reason context e s t a h = ground arith

  noted :
      (b : Bool) (p : Process)
      → ◌≡◌
          (if b
            then record p { world = new_event lib severity_info several_objects p.world }
            else p).registrations
          p.registrations
        × ◌≡◌
            (if b
              then record p { world = new_event lib severity_info several_objects p.world }
              else p).world.status.deployed
            p.world.status.deployed
        × ◌≡◌
            (if b
              then record p { world = new_event lib severity_info several_objects p.world }
              else p).patched
            p.patched
  unfolding new_event
  noted true p = (refl, refl, refl)
  noted false p = (refl, refl, refl)

  concluded :
      (objs sent : List DeployedObject) (p v q : Process) (r : Result)
      → conclude_rollout lib d objs v ≡ (next r, q)
      → v ≡ record (note_several lib ops objs p) {
        patched = (note_several lib ops objs p).patched ++ sent;
      }
      → Permᴰ (order objs) objs
      → Pairwise (Patched ops d o) (order objs) sent
      → All IsManaged sent
      → All (IsSynced ops watch) (order objs)
      → RolledOut objs p q r
  unfolding conclude_rollout
  concluded objs sent p v q r h e perm a m y = record {
    sent = sent;
    applied = a;
    as_many = length-Pairwise (Patched ops d o) (order objs) sent a ∙ length-Permᴰ perm;
    taken =
        All-Permᴰ (λ obj. (copy : DeployedObject) × Patched ops d o obj copy) perm
          (All-Pairwise (Patched ops d o) (order objs) sent a);
    patched =
        ap (λ x. x.1.patched) (sym h)
        ∙ ap (λ x. x.patched) e
        ∙ ap (λ l. l ++ sent) (noted (ltb 1 (length objs)) p).2;
    managed_by = m;
    synced = All-Permᴰ (IsSynced ops watch) perm y;
    quiet =
        ap (λ x. x.1.registrations) (sym h)
        ∙ ap (λ x. x.registrations) e
        ∙ (noted (ltb 1 (length objs)) p).0;
    deployed =
        ap (λ x. x.1.world.status.deployed) (sym h)
        ∙ ap (λ x. update_deployed_object_status_references objs x.world.status.deployed) e
        ∙ ap (update_deployed_object_status_references objs) (noted (ltb 1 (length objs)) p).1;
    watched =
        ap (λ x. lib.contains_finalizer x.1.world.meta.finalizers resource_watch_finalizer) (sym h)
        ∙ laws.contains-add v.world.meta.finalizers resource_watch_finalizer;
    ready =
        ap (λ x. lib.get x.1.world.conditions ready_condition) (sym h)
        ∙ (mark_ready_lem lib laws (str_append "Applied version " d.info.version)
            (watching lib (set_deployed lib objs v.world))).0;
    requeued = ground (arith, h);
  }

  -- If the order in which the tasks end is an order of the objects, and SetControllerReference leaves
  -- labels alone, then a rollout that runs to its end has patched as many copies as there are
  -- objects, in that order, each the copy of an object that is labelled, annotated and controlled by
  -- the deployer; the cluster took a copy of each object, and the copies carry the label by which the
  -- informers select. Every object was registered and synced, and no watch was asked for. The
  -- references in the status are updated, the finalizer for watches is there, the Ready condition is
  -- true, and the next run is after the interval of the resource.
  pub roll_out-RolledOut :
      KeepsLabels
      → (objs : List DeployedObject) (p q : Process) (r : Result) → Permᴰ (order objs) objs
      → roll_out lib ops watch order d o objs p ≡ (next r, q)
      → RolledOut objs p q r
  unfolding roll_out apply_concurrently track_concurrently
  roll_out-RolledOut keeps objs p q r perm h =
      let applied = apply_concurrently lib ops order d o objs p in
      let tracked = track_concurrently ops watch order objs applied.1 in
      let (none_failed, h1) =
        check->>-eq-next applied.0 (refusing lib apply_failed_reason "failed to apply resources")
          (result lib (track_concurrently ops watch order objs) >>= λ e.
            check e (refusing lib resource_not_synced_reason "failed to sync deployed resources")
            >> conclude_rollout lib d objs)
          (refusing-Leaves apply_failed_reason "failed to apply resources") applied.1 h in
      let (all_synced, h2) =
        check->>-eq-next tracked.0
          (refusing lib resource_not_synced_reason "failed to sync deployed resources")
          (conclude_rollout lib d objs)
          (refusing-Leaves resource_not_synced_reason "failed to sync deployed resources") tracked.1
          h1 in
      let (sent, a, after) =
        apply-none ops d o (order objs) (note_several lib ops objs p) none_failed in
      let (synced, same) = tracked-none ops watch (order objs) applied.1 all_synced in
      concluded objs sent p tracked.1 q r h2 (same ∙ after) perm a
        (managed keeps (order objs) sent a) synced
