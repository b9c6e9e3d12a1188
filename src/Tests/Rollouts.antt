-- ===== src/Tests/Rollouts.antt =====
-- A deployer that rolls out a config map, its cache of downloads, and its deletion.
use ocm_k8s_toolkit.Prelude.{
  String, ◌≡◌, ◌↔◌, refl, true, false, none, some, List, [], ◌∷◌, ◌⊎◌, inl, ◌==◌, arith, eq_iff,
  any, filter, if◌then◌else◌,
}
use ocm_k8s_toolkit.Errors.{ok, got, error_is}
use ocm_k8s_toolkit.Library.Sample.{find, sample, sample_laws}
use ocm_k8s_toolkit.Kube.{found}
use ocm_k8s_toolkit.Config.{get_effective_config}
use ocm_k8s_toolkit.Resource.Ops.{Resource, ResourceInfo, ResourceMeta}
use ocm_k8s_toolkit.Deployer.Digest.{DigestSpec, digest_spec}
use ocm_k8s_toolkit.Deployer.Digest.RoundTrip.{digest_text, digest_spec_iff, IsPrintable}
use ocm_k8s_toolkit.Deployer.Ownership.{ownership_labels, ownership_annotations}
use ocm_k8s_toolkit.Deployer.Ownership.Labels.{Labelled, ownership_labels-Labelled}
use ocm_k8s_toolkit.Deployer.Ownership.Annotations.{Annotated, ownership_annotations-Annotated}
use ocm_k8s_toolkit.Informers.{WatchObject, is_stopped, load, key_eq, active_for_parent}
use ocm_k8s_toolkit.Deployer.Ops.{Deployer, DeployerOps, ApplyOps, WatchOps, Process, start_process}
use ocm_k8s_toolkit.Deployer.Rollout.{Deployable}
use ocm_k8s_toolkit.ContextCache.{Lru}
use ocm_k8s_toolkit.Deployer.{State, roll_out, load_objects, reconcile}
use ocm_k8s_toolkit.Deployer.Objects.{DeployedObject}
use ocm_k8s_toolkit.Deployer.Fresh.{Decoded}
use ocm_k8s_toolkit.Deployer.Cached.{EntryLaws, Sound, reconcile-Sound}
use ocm_k8s_toolkit.Tests.Contexts.{single}
use ocm_k8s_toolkit.Deployer.Watching.{manager_watch, unregister_events}
use ocm_k8s_toolkit.Deployer.Untracked.{Untracked, untrack-Untracked}
use ocm_k8s_toolkit.Tests.Deployers.{object}
use ocm_k8s_toolkit.Tests.Watches.{deployer, config_map, informers, watching}
use ocm_k8s_toolkit.Tests.Samples.{resource, info, meta, accesses, providers}

abbrev digest : DigestSpec
digest = record {
  hash_algorithm = "SHA-256";
  normalisation_algorithm = "genericBlobDigest/v1";
  value = "00ff";
}

abbrev image : ResourceInfo
image = record {
  name = "image";
  type = "blob";
  version = "1.0.0";
  extra_identity = ("os", "linux") ∷ [];
  access = "{}";
  digest = "SHA-256:00ff[genericBlobDigest/v1]";
  labels = [];
}

digest_spec_iff_example :
    (digest_spec "SHA-256:00ff[genericBlobDigest/v1]" ≡ ok digest)
    ↔ (IsPrintable digest × ("SHA-256:00ff[genericBlobDigest/v1]" ≡ digest_text digest))
digest_spec_iff_example = digest_spec_iff "SHA-256:00ff[genericBlobDigest/v1]" digest

-- digestSpec on a text that it reads and on others
digest_spec_reads : digest_spec "SHA-256:00ff[genericBlobDigest/v1]" ≡ ok digest
unfolding digest_spec
digest_spec_reads = refl

ownership_labels-Labelled_example :
    Labelled "image" "1234" image "deployer" []
      (ownership_labels "image" "1234" image "deployer" [])
ownership_labels-Labelled_example = ownership_labels-Labelled "image" "1234" image "deployer" []

ownership_annotations-Annotated_example : Annotated image info (ownership_annotations image info [])
ownership_annotations-Annotated_example =
    ownership_annotations-Annotated digest image info [] digest_spec_reads

abbrev pub deployed_resource : Resource
deployed_resource = record (resource false) {
  meta = meta "image" false;
  status = record { resource = some image; component = some info; additional = [] };
}

abbrev deployable : Deployable
deployable = record { resource = deployed_resource; info = image; component = info }

abbrev pub rolling : Deployer
rolling = record {
  meta = record (meta "rolling" false) { finalizers = [] };
  spec = record {
    resource_ref = record { namespace = ""; name = "image" };
    ocm_config = [];
    suspend = false;
  };
  conditions = [];
  observed_generation = 0;
  effective_ocm_config = [];
  status = record { deployed = [] };
}

abbrev pub cluster : ApplyOps
cluster = record {
  gvk_of = λ o. (config_map "default").gvk;
  set_controller_reference = λ o obj. got (record obj { owners = o.meta.uid ∷ obj.owners });
  patch = λ obj. none;
}

abbrev pub watch : WatchOps
watch = manager_watch deployer informers watching

abbrev rolled : Process
rolled =
    (roll_out sample cluster watch (λ l. l) deployable rolling (object "settings" "" ∷ [])
      (start_process rolling)).1

-- another deployer, whose watch of the same kind is the first one's
abbrev second : WatchObject
second = record deployer { name = "second" }

untrack-Untracked_example :
    Untracked sample sample_laws informers
      (record { handlers = λ i r. refl; informers = λ g. refl })
      second
      watching
      (start_process rolling)
      (start_process rolling)
      (unregister_events informers second (config_map "default" ∷ []) watching)
unfolding active_for_parent is_stopped load key_eq any filter
untrack-Untracked_example =
    untrack-Untracked sample sample_laws informers
      (record { handlers = λ i r. refl; informers = λ g. refl }) second watching
      (start_process rolling) (start_process rolling) (config_map "default" ∷ []) (refl, tt)
      (λ k h. h)

abbrev pub single_objects : Lru String (List DeployedObject)
single_objects = single (λ a b. a == b)

pub single_entries : EntryLaws single_objects
single_entries = record {
  get-entries = λ k j v c h. h;
  add-entries = λ k j v w c h. added k j v w c h;
}
  where
    added :
        (k j : String) (v w : List DeployedObject) (c : single_objects.Cache)
        → (if k == j then some v else none) ≡ some w
        → ((j ≡ k) × (w ≡ v)) ⊎ ((single_objects.get j c).0 ≡ some w)
    added k j v w c h = inl (ground (arith, eq_iff k j, h))

abbrev image_meta : ResourceMeta
image_meta = record {
  name = "image";
  type = "blob";
  version = "1.0.0";
  extra_identity = [];
  digest = image.digest;
  labels = [];
}

abbrev pub deployer_ops : DeployerOps String
deployer_ops = record {
  accesses = record accesses {
    lookup_component_version = λ session repo c v. got (record {
      name = "acme.org/app";
      version = "1";
      select_resources = λ i. got (record { meta = image_meta; access = got 7 } ∷ []);
      verify_digest = λ a. (true, none);
      marshal_repository_spec = got "{}";
    });
  };
  get_session = λ spec configs. ok (0, 0);
  repository_spec_for_config = λ octx raw. got 0;
  lookup_repository = λ session octx spec. got 0;
  lookup_component_version = λ session repo c v. got 0;
  descriptor = λ cv. "descriptor";
  compound_resolver = λ repo octx. 0;
  raw_resource = λ d a. record { type = "blob"; digest = some digest; access = 0 };
  access_spec_for_spec = λ octx a. got 0;
  spec_access_method = λ a cv. got 0;
  access_method = λ a. got 0;
  determine_digest = λ t recorded meth blob. got digest;
  reader = λ b. got 5;
  decode = λ m. got (object "settings" "") ∷ [];
  close = λ m. none;
}

abbrev pub idle : State sample single_objects (λ c. 0)
idle = record { cache = none; calls = []; outside = start_process rolling }

abbrev reconciled : State sample single_objects (λ c. 0)
reconciled =
    (reconcile sample single_objects (λ c. 0) deployer_ops providers cluster watch (λ l. l)
      (λ k. found deployed_resource) (λ o. none) (found rolling) idle).2

reconcile-Sound_example :
    Sound sample single_objects (λ c. 0) single_entries deployer_ops reconciled
    × ((d : Deployable) (o : Deployer) (objs : List DeployedObject)
        → (load_objects sample single_objects (λ c. 0) deployer_ops providers d o idle).0 ≡ ok objs
        → Decoded deployer_ops d.info.digest objs)
reconcile-Sound_example =
    reconcile-Sound sample single_objects (λ c. 0) single_entries deployer_ops providers cluster
      watch (λ l. l) (λ k. found deployed_resource) (λ o. none) (found rolling) idle (λ k v h. cc)

-- the reconciliation downloads the object and keeps it
reconciled_cache :
    reconciled.cache ≡ some ("SHA-256:00ff[genericBlobDigest/v1]", object "settings" "" ∷ [])
unfolding reconcile error_is find get_effective_config
reconciled_cache = refl
