-- ===== src/Component/Ready.antt =====
-- What holds when a component has become ready.
use ocm_k8s_toolkit.Prelude.{
  ℕ, String, str_append, ◌≡◌, refl, sym, ap, ◌∙◌, Option, none, some, List, map, arith, inl,
}
use ocm_k8s_toolkit.Errors.{Error, wrap, not_found, failed, Outcome, ok, Reply, got, fault, outcome}
use ocm_k8s_toolkit.Api.{OcmConfiguration, is_true}
use ocm_k8s_toolkit.Library.{Library, Laws, ready_condition}
use ocm_k8s_toolkit.Exec.{Flow, next, ◌>>◌, attempt, raise}
use ocm_k8s_toolkit.Exec.Inversion.{Leaves, >>=-eq-next, attempt-eq-next}
use ocm_k8s_toolkit.Exec.World.{Result}
use ocm_k8s_toolkit.Status.{succeeded_reason, mark_ready, new_event, set_conditions}
use ocm_k8s_toolkit.Status.Marks.{ready_as, mark_ready_lem}
use ocm_k8s_toolkit.Hash.Compare.{DigestSpec, compare_cached_and_live_hashes}
use ocm_k8s_toolkit.Hash.Agreement.{Passes, compare_agrees}
use ocm_k8s_toolkit.Signatures.{verify_component_version}
use ocm_k8s_toolkit.Versions.{determine_effective_version}
use ocm_k8s_toolkit.Reconcile.{
  refuse, mark, set_effective_config, requeue_in, check_version_failed_reason,
  get_component_version_failed_reason,
}
use ocm_k8s_toolkit.Component.Ops.{
  ComponentSpec, ComponentInfo, Component, CachedVersion, LiveAccess, ComponentOps,
}
use ocm_k8s_toolkit.Component.{
  W, component_info, set_status, reconcile_live, cached_version, after_comparison,
}

-- the verification succeeded
abbrev pub Verified {ℓ} : {A : Type ℓ} → Outcome A → Type ℓ
Verified {A = A} r = (a : A) × (r ≡ ok a)

module _ {D : Type 0} (lib : Library) (laws : Laws lib) (ocm : ComponentOps D) where
  cached_version-eq-next :
      (session : ℕ) (r : Reply (CachedVersion D)) {s t : W} {cv : CachedVersion D}
      → cached_version lib ocm session r s ≡ (next cv, t)
      → (r ≡ got cv) × (t ≡ s)
  unfolding cached_version
  cached_version-eq-next session (got c) h = (cc, cc)
  cached_version-eq-next session (fault (not_found m)) h = absurd (ground arith)
  cached_version-eq-next session (fault (failed m)) h = absurd (ground arith)

  after_comparison-eq-next :
      (session : ℕ) (spec : Option DigestSpec) (e : Option Error) (s t : W) (d : Option DigestSpec)
      → after_comparison lib ocm session spec e s ≡ (next d, t)
      → (d ≡ spec) × Passes e
  unfolding after_comparison
  after_comparison-eq-next session spec none s t d h = (cc, inl refl)
  after_comparison-eq-next session spec (some e) s t d h = ground arith

  refuse-Leaves :
      {A : Type 0} (reason context : String) (e : Error)
      → Leaves
          (refuse lib {S = ComponentSpec} {T = ComponentInfo} {R = Result} {A = A} reason context e)
  refuse-Leaves reason context e s t a h = ground arith

  -- the result of the comparison that the reconciliation makes
  abbrev pub compared :
      Component → LiveAccess D → String → CachedVersion D → Option DigestSpec × Option Error
  compared o live version cv =
      compare_cached_and_live_hashes ocm.descriptors ocm.json_normalisation_v3 "SHA-256"
        cv.descriptor (live.lookup_component_version o.spec.component version)

  -- What a reconciliation has established and written when it ends with a ready component.
  pub record Recorded (o : Component) (repository_spec : String) (configs : List OcmConfiguration)
      (session spec : ℕ) (live : LiveAccess D) (u : W) : Type 0 where
    pub version : String
    pub repository : ℕ
    pub cached : CachedVersion D
    pub digest : DigestSpec
    pub message : String
    pub chosen :
        determine_effective_version ocm.semver
          (live.through session)
          o.spec.component
          o.spec.downgrade_policy
          o.spec.semver_filter
          o.spec.semver
          o.status.version
        ≡ ok version
    pub held : ocm.lookup_component_version session repository o.spec.component version ≡ got cached
    pub agreed : (compared o live version cached).0 ≡ some digest
    pub verified :
        Verified (verify_component_version cached.signing (map (λ v. v.signature) o.spec.verify))
    pub written : u.status ≡ record {
      repository_spec = repository_spec;
      component = o.spec.component;
      version = version;
      digest = some digest;
    }
    pub config : u.effective_ocm_config ≡ configs
    pub ready :
        lib.get u.conditions ready_condition ≡ some (ready_as is_true succeeded_reason message)

  compared-eq-next :
      (o : Component) (live : LiveAccess D) (version : String) (session : ℕ) (cv : CachedVersion D)
      (s t : W) (d : Option DigestSpec)
      → after_comparison lib ocm session
          (compared o live version cv).0
          (compared o live version cv).1
          s
        ≡ (next d, t)
      → (digest : DigestSpec) × ((compared o live version cv).0 ≡ some digest) × (d ≡ some digest)
  compared-eq-next o live version session cv s t d h =
      let (same_digest, passes) =
        after_comparison-eq-next session (compared o live version cv).0
          (compared o live version cv).1 s t d h in
      let (digest, agreed) =
        compare_agrees ocm.descriptors ocm.json_normalisation_v3 "SHA-256" cv.descriptor
          (live.lookup_component_version o.spec.component version) passes in
      (digest, agreed, same_digest ∙ agreed)

  recorded :
      (i : ComponentInfo) (configs : List OcmConfiguration) (msg : String) (q r : Result) (v u : W)
      → ◌≡◌ {A = Flow Result Result × W}
          (next q, mark_ready lib msg (set_effective_config lib configs (set_status i v)))
          (next r, u)
      → (u.status ≡ i)
        × (u.effective_ocm_config ≡ configs)
        × (lib.get u.conditions ready_condition ≡ some (ready_as is_true succeeded_reason msg))
  unfolding mark_ready new_event set_conditions
  recorded i configs msg q r v u h = (
    ap (λ p. p.1.object.status) (sym h),
    ap (λ p. p.1.object.effective_ocm_config) (sym h),
    ap (λ p. lib.get p.1.object.conditions ready_condition) (sym h)
        ∙ (mark_ready_lem lib laws msg (set_effective_config lib configs (set_status i v))).0,
  )

  -- A reconciliation that runs to its end has chosen the version under the component's policy, found
  -- that version in the session, compared it with the version in the live repository under one hash,
  -- and verified the signatures that the component asks for. It has written the repository
  -- specification, the component, the version with that digest, and the configuration to the status,
  -- and the Ready condition is true.
  pub reconcile_live-Recorded :
      (o : Component) (repository_spec : String) (configs : List OcmConfiguration)
      (octx session spec : ℕ) (live : LiveAccess D) (w u : W) (r : Result)
      → reconcile_live lib ocm o repository_spec configs octx session spec live w ≡ (next r, u)
      → Recorded o repository_spec configs session spec live u
  unfolding reconcile_live
  reconcile_live-Recorded o repository_spec configs octx session spec live w u r h =
      let (version, u1, p1, h1) =
        >>=-eq-next
          (attempt
            (determine_effective_version ocm.semver (live.through session) o.spec.component
              o.spec.downgrade_policy o.spec.semver_filter o.spec.semver o.status.version)
            (refuse lib check_version_failed_reason "failed to determine effective version"))
          _ h in
      let (repository, u2, p2, h2) =
        >>=-eq-next
          (attempt (outcome (ocm.lookup_repository session octx spec)) (λ e.
            mark lib get_component_version_failed_reason "Failed looking up repository"
            >> raise (wrap "failed looking up repository" e)))
          _ h1 in
      let (cv, u3, p3, h3) =
        >>=-eq-next
          (cached_version lib ocm session
            (ocm.lookup_component_version session repository o.spec.component version))
          _ h2 in
      let (d, u4, p4, h4) =
        >>=-eq-next
          (after_comparison lib ocm session (compared o live version cv).0
            (compared o live version cv).1)
          _ h3 in
      let (v, u5, p5, h5) =
        >>=-eq-next
          (attempt (verify_component_version cv.signing (map (λ v. v.signature) o.spec.verify))
            (refuse lib get_component_version_failed_reason "failed to verify component version"))
          _ h4 in
      let (digest, agreed, same_digest) = compared-eq-next o live version session cv u3 u4 d p4 in
      let (written, config, ready) =
        recorded (component_info o repository_spec version d) configs
          (str_append "Applied version " version) (requeue_in o.spec.interval) r u5 u h5 in
      record {
        version = version;
        repository = repository;
        cached = cv;
        digest = digest;
        message = str_append "Applied version " version;
        chosen = (attempt-eq-next _ _ (refuse-Leaves _ _) p1).0;
        held = (cached_version-eq-next session _ p3).0;
        agreed = agreed;
        verified = (v, (attempt-eq-next _ _ (refuse-Leaves _ _) p5).0);
        written = written ∙ ap (component_info o repository_spec version) same_digest;
        config = config;
        ready = ready;
      }
