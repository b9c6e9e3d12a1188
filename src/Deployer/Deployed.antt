-- ===== src/Deployer/Deployed.antt =====
-- What a reconciliation of a deployer that runs to its end has done.
use ocm_k8s_toolkit.Prelude.{
  ℕ, String, ◌≡◌, sym, ap, ◌∙◌, Bool-cases, inl, inr, false, Option, none, some, List, arith,
}
use ocm_k8s_toolkit.Errors.{Error, ok, wrap, new}
use ocm_k8s_toolkit.Library.{Library, Laws}
use ocm_k8s_toolkit.Kube.{Fetch, get_ready_object, is_unavailable}
use ocm_k8s_toolkit.Config.{Providers}
use ocm_k8s_toolkit.ContextCache.{Lru}
use ocm_k8s_toolkit.Exec.{next, ◌>>=◌, ◌>>◌, raise, stop, attempt, check}
use ocm_k8s_toolkit.Exec.Inversion.{
  Leaves, >>=-eq-next, attempt-eq-next, check->>-eq-next, when->>-eq-next,
}
use ocm_k8s_toolkit.Exec.World.{Result}
use ocm_k8s_toolkit.Reconcile.{no_requeue}
use ocm_k8s_toolkit.Component.Ops.{ComponentInfo}
use ocm_k8s_toolkit.Resource.Ops.{Resource, ResourceInfo}
use ocm_k8s_toolkit.Deployer.Objects.{DeployedObject}
use ocm_k8s_toolkit.Deployer.Ops.{Deployer, DeployerOps, ApplyOps, WatchOps, Process}
use ocm_k8s_toolkit.Deployer.Rollout.{Deployable}
use ocm_k8s_toolkit.Deployer.Fresh.{Decoded}
use ocm_k8s_toolkit.Deployer.Applied.{RolledOut}
use ocm_k8s_toolkit.Deployer.Cached.{EntryLaws}
use ocm_k8s_toolkit.Deployer.{
  State, Act, deployable_of, not_available, untracking, resource_key, find_deployable,
}

module _ (lib : Library) (watch : WatchOps) (resources : Fetch Resource) where
  -- the resource of a deployer that is neither suspended nor deleted, with what its status holds
  pub record IsDeployable (o : Deployer) (d : Deployable) : Type 0 where
    pub awake : o.spec.suspend ≡ false
    pub alive : o.meta.deleting ≡ false
    pub ready : get_ready_object lib resources (resource_key lib watch resources o) ≡ ok d.resource
    pub info : d.resource.status.resource ≡ some d.info
    pub component : d.resource.status.component ≡ some d.component

  deployable :
      (r : Resource) (i : Option ResourceInfo) (c : Option ComponentInfo) (d : Deployable)
      → deployable_of r i c ≡ ok d
      → (d.resource ≡ r) × (i ≡ some d.info) × (c ≡ some d.component)
  deployable r none c d h = absurd (ground (arith, h))
  deployable r (some i) none d h = absurd (ground (arith, h))
  deployable r (some i) (some c) d h = (cc, cc, cc)

  unavailable-Leaves :
      {A : Type 0} (e : Error) → Leaves {S = Process} {R = Result} {A = A} (not_available lib e)
  unfolding not_available
  unavailable-Leaves e s t a h = elim (Bool-cases (is_unavailable e)) [
    | inl b ↦ ground (arith, rw b at h)
    | inr b ↦ ground (arith, rw b at h)
  ]

  -- what follows Untrack
  abbrev untracked : Option Error → Act (Unit {0})
  untracked e =
      check e (λ f. raise (wrap "failed to untrack deployer" f))
      >> raise (new "deployer is being deleted, waiting for resource watches to be removed")

  untracking-Leaves :
      Leaves {S = Process} {R = Result} {A = Unit {0}}
        (untracking lib watch resources >>= λ e. untracked e)
  untracking-Leaves s t a h =
      let (e, u, first, h1) = >>=-eq-next (untracking lib watch resources) untracked h in
      let (none_failed, h2) =
        check->>-eq-next e (λ f. raise (wrap "failed to untrack deployer" f))
          (raise (new "deployer is being deleted, waiting for resource watches to be removed"))
          (λ f x y b k. ground (arith, k)) u h1 in
      ground (arith, h2)

  pub find_deployable-IsDeployable :
      (o : Deployer) (d : Deployable) (p q : Process)
      → find_deployable lib watch resources o p ≡ (next d, q)
      → IsDeployable o d
  unfolding find_deployable
  find_deployable-IsDeployable o d p q h =
      let (awake, h1) =
        when->>-eq-next o.spec.suspend (stop no_requeue) _ (λ x y b k. ground (arith, k)) p h in
      let (alive, h2) = when->>-eq-next o.meta.deleting _ _ untracking-Leaves p h1 in
      let (r, u, e, h3) =
        >>=-eq-next
          (attempt (get_ready_object lib resources (resource_key lib watch resources o))
            (not_available lib))
          _ h2 in
      let (ready, same) =
        attempt-eq-next (get_ready_object lib resources (resource_key lib watch resources o))
          (not_available lib) unavailable-Leaves e in
      let (is, rest) =
        attempt-eq-next (deployable_of r r.status.resource r.status.component) raise
          (λ f x y b k. ground (arith, k)) h3 in
      let (res, info, component) = deployable r r.status.resource r.status.component d is in
      record {
        awake = awake;
        alive = alive;
        ready = ready ∙ ap ok (sym res);
        info = ap (λ x. x.status.resource) res ∙ info;
        component = ap (λ x. x.status.component) res ∙ component;
      }

module _ (lib : Library) (laws : Laws lib) (lru : Lru String (List DeployedObject))
    (len : lru.Cache → ℕ) (entries : EntryLaws lru) {D : Type 0} (ocm : DeployerOps D)
    (providers : Providers) (cluster : ApplyOps) (watch : WatchOps)
    (order : List DeployedObject → List DeployedObject) (resources : Fetch Resource) where
  -- the resource, the objects, and the state before the rollout
  pub record Deployed (o : Deployer) (s t : State lib lru len) (r : Result) : Type 0 where
    pub found : Deployable
    pub deployable : IsDeployable lib watch resources o found
    pub objs : List DeployedObject
    pub decoded : Decoded ocm found.info.digest objs
    pub before : Process
    pub rolled_out : RolledOut lib laws cluster watch order found o objs before t.outside r
