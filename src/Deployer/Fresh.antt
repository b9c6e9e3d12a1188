-- ===== src/Deployer/Fresh.antt =====
-- What DownloadResourceWithOCM returns was decoded from a manifest with the digest of the resource.
use ocm_k8s_toolkit.Prelude.{
  ℕ, String, ◌≡◌, refl, sym, ap, ◌∙◌, Bool, true, false, not, Option, none, some, List, [], ◌∷◌,
  ◌==◌, eq_iff, arith,
}
use ocm_k8s_toolkit.Errors.{Error, ok, failure, new}
use ocm_k8s_toolkit.Library.{Library}
use ocm_k8s_toolkit.Config.{Providers}
use ocm_k8s_toolkit.Exec.{
  Flow, next, halt, fail, halt_with, Exec, ◌>>=◌, ◌>>◌, attempt, raise, when,
}
use ocm_k8s_toolkit.Exec.Inversion.{Leaves, >>=-eq-next, attempt-eq-next}
use ocm_k8s_toolkit.Reconcile.{mark, get_ocm_resource_failed_reason, marshal_failed_reason}
use ocm_k8s_toolkit.Resource.Ops.{ResourceAccess, ResourceInfo, ResourceSpec}
use ocm_k8s_toolkit.Resource.Access.{get_resource_access}
use ocm_k8s_toolkit.Component.Ops.{ComponentInfo}
use ocm_k8s_toolkit.Deployer.Objects.{DeployedObject}
use ocm_k8s_toolkit.Deployer.Ops.{Deployer, DeployerOps, Process}
use ocm_k8s_toolkit.Deployer.Contents.{decode_objects, get_resource}
use ocm_k8s_toolkit.Deployer.Manifest.{
  on_world, failing, join_close, checked_objects, closing, download_resource_with_ocm,
  download_version, look_up_version,
}

module _ {D : Type 0} (ocm : DeployerOps D) where
  -- the objects of a manifest with the digest
  pub record Decoded (digest : String) (objs : List DeployedObject) : Type 0 where
    pub context : ℕ
    pub version : ℕ
    pub access : ResourceAccess
    pub manifest : ℕ
    pub contents : get_resource ocm context version access ≡ ok (manifest, digest)
    pub objects : decode_objects (ocm.decode manifest) ≡ ok objs

  module _ (lib : Library) where
    raise-Leaves :
        {A : Type 0} (reason context : String) (e : Error)
        → Leaves {S = Process} {R = Unit {0}} {A = A} (failing lib ocm reason context e)
    raise-Leaves reason context e s t a h = ground arith

    checked-eq-next :
        (info : ResourceInfo) (manifest : ℕ) (digest : String) (p q : Process)
        (objs : List DeployedObject)
        → checked_objects lib ocm info (manifest, digest) p ≡ (next objs, q)
        → (info.digest ≡ digest) × (decode_objects (ocm.decode manifest) ≡ ok objs)
    unfolding checked_objects
    checked-eq-next info manifest digest p q objs h =
        let (u, v, first, second) =
          >>=-eq-next {S = Process} {R = Unit {0}} {A = Unit {0}}
            (when (not (info.digest == digest)) (
              on_world (mark lib get_ocm_resource_failed_reason "resource digest mismatch")
              >> raise (new "resource digest mismatch")))
            (λ _.
              attempt (decode_objects (ocm.decode manifest))
                (failing lib ocm marshal_failed_reason "failed to decode objects"))
            h in
        (
          (eq_iff info.digest digest).0 (agreed (info.digest == digest) p u v first),
          (attempt-eq-next _ _ (raise-Leaves _ _) second).0,
        )
      where
        agreed :
            (b : Bool) (p : Process) (u : Unit {0}) (v : Process)
            → when {S = Process} {R = Unit {0}}
                (not b)
                (on_world (mark lib get_ocm_resource_failed_reason "resource digest mismatch")
                  >> raise (new "resource digest mismatch"))
                p
              ≡ (next u, v)
            → b ≡ true
        agreed true p u v h = refl
        agreed false p u v h = absurd (ground (arith, h))

    closing-eq-next :
        (manifest : ℕ) (m : Exec Process (Unit {0}) (List DeployedObject)) (p q : Process)
        (objs : List DeployedObject)
        → closing lib ocm manifest m p ≡ (next objs, q)
        → m p ≡ (next objs, (m p).1)
    unfolding closing
    closing-eq-next manifest m p q objs h =
        kept (failure (ocm.close manifest)) (m p).0 (ap (λ x. x.0) h)
      where
        kept :
            (c : Option Error) (f : Flow (Unit {0}) (List DeployedObject))
            → join_close c f ≡ next objs
            → ◌≡◌ {A = Flow (Unit {0}) (List DeployedObject) × Process}
                (f, (m p).1)
                (next objs, (m p).1)
        kept none f e = ap (λ x. (x, (m p).1)) e
        kept (some c) (next a) e = absurd (ground (arith, e))
        kept (some c) (halt r) e = absurd (ground (arith, e))
        kept (some c) (fail d) e = absurd (ground (arith, e))
        kept (some c) (halt_with r d) e = absurd (ground (arith, e))

    download_version-Decoded :
        (spec : ResourceSpec) (info : ResourceInfo) (octx session repo cv : ℕ) (p q : Process)
        (objs : List DeployedObject)
        → download_version lib ocm spec info (octx, session, repo, cv) p ≡ (next objs, q)
        → Decoded info.digest objs
    unfolding download_version
    download_version-Decoded spec info octx session repo cv p q objs h =
        let (access, p6, e6, h6) =
          >>=-eq-next
            (attempt
              (get_resource_access ocm.accesses session (ocm.compound_resolver repo octx)
                (ocm.descriptor cv) spec.reference (ocm.descriptor cv ∷ []) spec.skip_verify)
              (failing lib ocm get_ocm_resource_failed_reason "failed to get resource access"))
            (λ access.
              attempt (get_resource ocm octx cv access.0)
                (failing lib ocm get_ocm_resource_failed_reason "failed to get  manifest")
              >>= λ manifest. closing lib ocm manifest.0 (checked_objects lib ocm info manifest))
            h in
        let (manifest, p7, e7, h7) =
          >>=-eq-next
            (attempt (get_resource ocm octx cv access.0)
              (failing lib ocm get_ocm_resource_failed_reason "failed to get  manifest"))
            (λ manifest. closing lib ocm manifest.0 (checked_objects lib ocm info manifest)) h6 in
        read octx cv access.0 manifest p6 p7 q e7 h7
      where
        read :
            (octx cv : ℕ) (access : ResourceAccess) (manifest : ℕ × String) (p v q : Process)
            → attempt
                (get_resource ocm octx cv access)
                (failing lib ocm get_ocm_resource_failed_reason "failed to get  manifest")
                p
              ≡ (next manifest, v)
            → closing lib ocm manifest.0 (checked_objects lib ocm info manifest) v ≡ (next objs, q)
            → Decoded info.digest objs
        read octx cv access manifest p v q e h =
            let inner =
              closing-eq-next manifest.0 (checked_objects lib ocm info manifest) v q objs h in
            let (same, decoded) =
              checked-eq-next info manifest.0 manifest.1 v
                (checked_objects lib ocm info manifest v).1 objs inner in
            record {
              context = octx;
              version = cv;
              access = access;
              manifest = manifest.0;
              contents =
                  (attempt-eq-next (get_resource ocm octx cv access)
                    (failing lib ocm get_ocm_resource_failed_reason "failed to get  manifest")
                    (raise-Leaves get_ocm_resource_failed_reason "failed to get  manifest") e).0
                  ∙ ap (λ d. ok (manifest.0, d)) (sym same);
              objects = decoded;
            }

    pub download-Decoded :
        (providers : Providers) (o : Deployer) (spec : ResourceSpec) (info : ResourceInfo)
        (component : ComponentInfo) (p q : Process) (objs : List DeployedObject)
        → download_resource_with_ocm lib ocm providers o spec info component p ≡ (next objs, q)
        → Decoded info.digest objs
    unfolding download_resource_with_ocm
    download-Decoded providers o spec info component p q objs h =
        let (held, v, e, k) =
          >>=-eq-next (look_up_version lib ocm providers o component)
            (download_version lib ocm spec info) h in
        download_version-Decoded spec info held.0 held.1 held.2 held.3 v q objs k
