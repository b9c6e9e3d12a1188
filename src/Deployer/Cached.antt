-- ===== src/Deployer/Cached.antt =====
-- The objects that the cache of downloads holds for a digest were decoded from a manifest with that
-- digest.
use ocm_k8s_toolkit.Prelude.{
  ℕ, String, ◌≡◌, refl, sym, ap, subst, Option, none, some, List, ◌⊎◌, inl, inr, arith,
}
use ocm_k8s_toolkit.Errors.{Fault, Outcome, ok, err, wrap}
use ocm_k8s_toolkit.Errors.Inversion.{ok-injective}
use ocm_k8s_toolkit.Api.{Object}
use ocm_k8s_toolkit.Library.{Library}
use ocm_k8s_toolkit.Kube.{Fetch, Fetched, found, missing}
use ocm_k8s_toolkit.Config.{Providers}
use ocm_k8s_toolkit.ContextCache.{Lru}
use ocm_k8s_toolkit.Exec.{Flow, next, halt, fail, halt_with, raise}
use ocm_k8s_toolkit.Exec.Preserves.{Preserves, >>=-Preserves, attempt-Preserves}
use ocm_k8s_toolkit.Resource.Ops.{Resource}
use ocm_k8s_toolkit.Deployer.Objects.{DeployedObject}
use ocm_k8s_toolkit.Deployer.Ops.{
  DeployerSpec, DeployerStatus, Deployer, DeployerOps, ApplyOps, WatchOps, Process, start_process,
}
use ocm_k8s_toolkit.Deployer.Manifest.{download_resource_with_ocm}
use ocm_k8s_toolkit.Deployer.Rollout.{Deployable}
use ocm_k8s_toolkit.Deployer.Downloads.{load, load_from, keep_download, add_download}
use ocm_k8s_toolkit.Deployer.Fresh.{Decoded, download-Decoded}
use ocm_k8s_toolkit.Deployer.{
  State, outcome_of, on_process, load_objects, loading, roll_out, deploy, find_deployable,
  reconcile_body, reconcile,
}

-- What a cache promises of its entries: looking up and adding leave no other entries than those that
-- were there and the one that was added.
pub record EntryLaws {K V : Type 0} (lru : Lru K V) : Type 0 where
  pub get-entries :
      (k j : K) (v : V) (c : lru.Cache)
      → (lru.get j (lru.get k c).1).0 ≡ some v
      → (lru.get j c).0 ≡ some v
  pub add-entries :
      (k j : K) (v w : V) (c : lru.Cache)
      → (lru.get j (lru.add k v c).0).0 ≡ some w
      → ((j ≡ k) × (w ≡ v)) ⊎ ((lru.get j c).0 ≡ some w)

module _ (lib : Library) (lru : Lru String (List DeployedObject)) (len : lru.Cache → ℕ)
    (laws : EntryLaws lru) {D : Type 0} (ocm : DeployerOps D) where
  -- what the cache has under a digest was decoded from a manifest with it
  abbrev pub Sound : State lib lru len → Type 0
  Sound s =
      (k : String) (v : List DeployedObject) → (lru.get k s.cache).0 ≡ some v → Decoded ocm k v

  module _ (providers : Providers) (d : Deployable) (o : Deployer) where
    abbrev download : Process → Outcome (List DeployedObject) × Process
    download p =
        let (f, q) =
          download_resource_with_ocm lib ocm providers o d.resource.spec d.info d.component p in
        (outcome_of f, q)

    downloaded :
        (f : Flow (Unit {0}) (List DeployedObject)) (objs : List DeployedObject)
        → outcome_of f ≡ ok objs
        → f ≡ next objs
    downloaded (next a) objs h = ap next (ok-injective h)
    downloaded (halt r) objs h = absurd (ground (arith, h))
    downloaded (fail e) objs h = absurd (ground (arith, h))
    downloaded (halt_with r e) objs h = absurd (ground (arith, h))

    download_objs-Decoded :
        (p : Process) (objs : List DeployedObject)
        → (download p).0 ≡ ok objs
        → Decoded ocm d.info.digest objs
    download_objs-Decoded p objs h =
        let f =
          download_resource_with_ocm lib ocm providers o d.resource.spec d.info d.component p in
        download-Decoded ocm lib providers o d.resource.spec d.info d.component p f.1 objs
          (ap (λ x. (x, f.1)) (downloaded f.0 objs h))

    -- the result and the state of a call of Load
    abbrev pub LoadedWell : Outcome (List DeployedObject) × State lib lru len → Type 0
    LoadedWell r =
        ((objs : List DeployedObject) → r.0 ≡ ok objs → Decoded ocm d.info.digest objs) × Sound r.1

    kept :
        (r : Outcome (List DeployedObject)) (s : State lib lru len)
        → ((objs : List DeployedObject) → r ≡ ok objs → Decoded ocm d.info.digest objs)
        → Sound s
        → LoadedWell (keep_download lru len Process d.info.digest r s)
    unfolding keep_download add_download
    kept (ok v) s h g = (
      h,
      λ k w e. elim (laws.add-entries d.info.digest k v w s.cache e) [
        | inl (same, is) ↦
            subst (λ x. Decoded ocm x w) (sym same)
              (subst (Decoded ocm d.info.digest) (sym is) (h v refl))
        | inr old ↦ g k w old
      ],
    )
    kept (err x) s h g = (h, g)

    from :
        (found : Option (List DeployedObject)) (s : State lib lru len)
        → ((v : List DeployedObject) → found ≡ some v → Decoded ocm d.info.digest v)
        → Sound s
        → LoadedWell (load_from lru len Process found d.info.digest download s)
    unfolding load_from
    from (some v) s h g = (λ objs e. h objs (ap some (ok-injective e)), g)
    from none s h g =
        kept (download s.outside).0 _ (λ objs e. download_objs-Decoded s.outside objs e) g

    pub load_objects-LoadedWell :
        (s : State lib lru len)
        → Sound s
        → LoadedWell (load_objects lib lru len ocm providers d o s)
    unfolding load_objects load
    load_objects-LoadedWell s g =
        from (lru.get d.info.digest s.cache).0 _ (g d.info.digest)
          (λ k v e. g k v (laws.get-entries d.info.digest k v s.cache e))

  module _ (providers : Providers) (cluster : ApplyOps) (watch : WatchOps)
      (order : List DeployedObject → List DeployedObject) (resources : Fetch Resource) where
    loading-Sound :
        (d : Deployable) (o : Deployer) → Preserves Sound (loading lib lru len ocm providers d o)
    loading-Sound d o s g =
        attempt-Preserves Sound (load_objects lib lru len ocm providers d o s).0
          (λ e. raise (wrap "failed to download resource from OCM or retrieve it from the cache" e))
          (λ e u h. h) (load_objects lib lru len ocm providers d o s).1
          (load_objects-LoadedWell providers d o s g).1

    reconcile_body-Sound :
        (o : Deployer)
        → Preserves Sound (reconcile_body lib lru len ocm providers cluster watch order resources o)
    unfolding reconcile_body deploy
    reconcile_body-Sound o =
        >>=-Preserves Sound (on_process lib lru len (find_deployable lib watch resources o))
          (λ d. deploy lib lru len ocm providers cluster watch order resources d o) (λ s g. g)
          λ d.
            >>=-Preserves Sound (loading lib lru len ocm providers d o)
              (λ objs. on_process lib lru len (roll_out lib cluster watch order d o objs))
              (loading-Sound d o) (λ objs s g. g)

    -- If the cache holds under each digest only objects that were decoded from a manifest with that
    -- digest, then it does so after a reconciliation of any deployer, whatever the outcome, and what
    -- Load returns for a resource was decoded from a manifest with the digest of the resource.
    pub reconcile-Sound :
        (patch : Object DeployerSpec DeployerStatus → Option Fault) (fetched : Fetched Deployer)
        (s : State lib lru len)
        → Sound s
        → Sound
            (reconcile lib lru len ocm providers cluster watch order resources patch fetched s).2
          × ((d : Deployable) (o : Deployer) (objs : List DeployedObject)
              → (load_objects lib lru len ocm providers d o s).0 ≡ ok objs
              → Decoded ocm d.info.digest objs)
    unfolding reconcile
    reconcile-Sound patch (missing f) s g =
        (g, λ d o objs e. (load_objects-LoadedWell providers d o s g).0 objs e)
    reconcile-Sound patch (found o) s g = (
      reconcile_body-Sound o (record s { outside = start_process o }) g,
      λ d o objs e. (load_objects-LoadedWell providers d o s g).0 objs e,
    )
