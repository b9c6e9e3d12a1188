-- ===== src/Tests/Samples.antt =====
-- Concrete packages and objects for the witnesses: versions are numbers, everything that other
-- packages do succeeds unless a name says otherwise.
use ocm_k8s_toolkit.Prelude.{
  ℕ, String, Bool, true, false, none, List, [], ◌∷◌, ◌==◌, map, leb, nat_eq, if◌then◌else◌,
}
use ocm_k8s_toolkit.Errors.{failed, ok, got, fault}
use ocm_k8s_toolkit.Sorting.{sort}
use ocm_k8s_toolkit.Api.{Meta, Condition, OcmConfiguration, propagate, is_true}
use ocm_k8s_toolkit.Library.{ready_condition}
use ocm_k8s_toolkit.Kube.{found}
use ocm_k8s_toolkit.Config.{Providers}
use ocm_k8s_toolkit.Reconcile.{Client}
use ocm_k8s_toolkit.Hash.Compare.{Descriptors, Opened}
use ocm_k8s_toolkit.Signatures.{Signing}
use ocm_k8s_toolkit.Versions.{Semver, ComponentAccess, LiveRepo, deny}
use ocm_k8s_toolkit.Api.History.{pos, TransferStatus}
use ocm_k8s_toolkit.Repository.{Repository, ComponentRef}
use ocm_k8s_toolkit.Repository.Validation.{OcmOps}
use ocm_k8s_toolkit.Resource.Access.{AccessOps}
use ocm_k8s_toolkit.Resource.Ops.{Resource, DeployerRef, ResourceAccess, CelOps, ResourceOps}
use ocm_k8s_toolkit.Replication.Ops.{Replication, ReplicationOps}
use ocm_k8s_toolkit.Component.Ops.{ResourceRef, ComponentInfo, Component, LiveAccess, ComponentOps}

abbrev pub number : String → ℕ
number v = if v == "3" then 3 else if v == "2" then 2 else if v == "1" then 1 else 0

abbrev pub numeral : ℕ → String
numeral n = if nat_eq n 3 then "3" else if nat_eq n 2 then "2" else if nat_eq n 1 then "1" else "0"

abbrev pub semver : Semver
semver = record {
  Version = ℕ;
  Constraint = Unit;
  new_version = λ v. got (number v);
  original = numeral;
  greater_than_equal = λ a b. leb b a;
  new_constraint = λ c. got tt;
  check = λ c v. true;
  match_version_strings = λ l c. got (sort leb (map number l));
  compile = λ r. got (λ v. v == r);
}

abbrev pub access : ComponentAccess
access = record { name = "acme.org/app"; list_versions = got ("1" ∷ "2" ∷ []); close = none }

abbrev pub live_repo : LiveRepo
live_repo = record {
  lookup_component = λ c. got access;
  lookup_component_version = λ c v. got (record { version = v; downgradable = none });
}

abbrev pub descriptors : Descriptors String
descriptors = record { is_normalizeable = λ d. none; hash = λ d. got d }

abbrev pub opened : String → Opened String
opened d = record { descriptor = d; close = none }

abbrev pub signing : Signing String
signing = record {
  apply = λ sigs. none;
  verified_descriptors = λ sigs. "descriptor" ∷ [];
  list_descriptors = got ("descriptor" ∷ []);
}

abbrev pub client : {S T : Type 0} → Client S T
client = record { update = λ o. none; patch = λ o. none }

abbrev pub settings : OcmConfiguration
settings = record {
  api_version = "v1";
  kind = "Secret";
  name = "settings";
  namespace = "default";
  policy = propagate;
}

abbrev pub providers : Providers
providers k key = found (settings ∷ [])

abbrev pub meta : String → Bool → Meta
meta name deleting = record {
  namespace = "default";
  name = name;
  uid = "uid";
  generation = 2;
  deleting = deleting;
  finalizers =
      "finalizers.ocm.software/component" ∷ "finalizers.ocm.software/resource"
      ∷ "finalizers.ocm.software/repository" ∷ [];
  labels = [];
  annotations = [];
}

abbrev pub ready : List Condition
ready =
    record { type = ready_condition; status = is_true; reason = "Succeeded"; message = "ok" } ∷ []

abbrev pub info : ComponentInfo
info = record {
  repository_spec = "registry";
  component = "acme.org/app";
  version = "1";
  digest = none;
}

abbrev pub component : Bool → Component
component deleting = record {
  meta = meta "app" deleting;
  spec = record {
    repository_ref = "repository";
    component = "acme.org/app";
    downgrade_policy = deny;
    semver = "*";
    semver_filter = "";
    verify = record { signature = "acme"; secret_ref = "key"; value = "" } ∷ [];
    ocm_config = settings ∷ [];
    interval = 60;
    suspend = false;
  };
  conditions = ready;
  observed_generation = 1;
  effective_ocm_config = [];
  status = info;
}

abbrev pub live : LiveAccess String
live = record {
  through = λ session. live_repo;
  lookup_component_version = λ c v. got (opened "descriptor");
  close = none;
}

abbrev pub component_ops : ComponentOps String
component_ops = record {
  json_normalisation_v3 = "jsonNormalisation/v3";
  semver = semver;
  descriptors = descriptors;
  get_session = λ spec configs verify. ok (0, 0);
  repository_spec_for_config = λ octx raw. got 0;
  repository_for_spec = λ octx spec. got live;
  lookup_repository = λ session octx spec. got 0;
  lookup_component_version =
      λ session repo c v. got (record { descriptor = "descriptor"; signing = signing });
  close_session = λ session. none;
}

abbrev pub repository : Bool → Repository
repository deleting = record {
  meta = meta "repository" deleting;
  spec = record {
    repository_spec = "registry";
    ocm_config = settings ∷ [];
    interval = 60;
    suspend = false;
  };
  conditions = ready;
  observed_generation = 1;
  effective_ocm_config = [];
  status = tt;
}

abbrev pub repository_ops : OcmOps
repository_ops = record {
  get_session = λ spec configs. ok (0, 0);
  repository_spec_for_config = λ octx raw. got 0;
  validate_spec = λ octx spec. none;
  lookup_repository = λ session octx spec. got 0;
}

abbrev pub component_ref : ComponentRef
component_ref = record { namespace = "default"; name = "app"; repository_ref = "repository" }

abbrev pub resource_ref : ResourceRef
resource_ref = record { namespace = "default"; name = "image"; component_ref = "app" }

abbrev pub deployer_ref : DeployerRef
deployer_ref = record {
  namespace = "default";
  name = "deployer";
  resource_namespace = "default";
  resource_name = "image";
}

abbrev pub resource : Bool → Resource
resource suspend = record {
  meta = meta "image" true;
  spec = record {
    component_ref = "app";
    reference = record { resource = ("name", "image") ∷ []; reference_path = [] };
    ocm_config = settings ∷ [];
    skip_verify = false;
    interval = 60;
    suspend = suspend;
    additional_status_fields = [];
  };
  conditions = ready;
  observed_generation = 1;
  effective_ocm_config = [];
  status = record { resource = none; component = none; additional = [] };
}

abbrev pub cel : CelOps
cel = record {
  base_env = got 0;
  extend = λ e. got 1;
  compile = λ e t. got 2;
  program = λ e a. got 3;
  eval = λ p m. got 4;
  marshal_value = λ v. got "value";
  marshal_spec = λ s. got "spec";
  generic_map = λ m s. got 5;
}

abbrev pub accesses : AccessOps String ResourceAccess
accesses = record {
  resolve_resource_reference = λ d r l. got (("name", "image") ∷ [], d);
  descriptor_name = λ d. "acme.org/app";
  descriptor_version = λ d. "1";
  lookup_component_version = λ session repo c v. fault (failed "no such version");
  access_method = λ a. none;
}

abbrev pub resource_ops : ResourceOps String
resource_ops = record {
  cel = cel;
  accesses = accesses;
  get_session = λ spec configs verify. ok (0, 0);
  repository_spec_for_config = λ octx raw. got 0;
  lookup_repository = λ session octx spec. got 0;
  lookup_component_version =
      λ session repo c v. got (record { descriptor = "descriptor"; signing = signing });
}

abbrev pub transferred : TransferStatus
transferred = record {
  component = "acme.org/app";
  version = "1";
  source_repository_spec = "registry";
  target_repository_spec = "registry";
  start_time = 1;
  end_time = 2;
  error = "";
  success = true;
}

abbrev pub replication : List TransferStatus → Replication
replication history = record {
  meta = meta "replication" false;
  spec = record {
    component_ref = record { namespace = ""; name = "app" };
    target_repository_ref = record { namespace = ""; name = "repository" };
    interval = 60;
    suspend = false;
    history_capacity = pos 3;
    verify = [];
    ocm_config = settings ∷ [];
  };
  conditions = ready;
  observed_generation = 1;
  effective_ocm_config = [];
  status = history;
}

abbrev pub replication_ops : ReplicationOps
replication_ops = record {
  get_session = λ spec configs. ok (0, 0);
  lookup_repository_for_config = λ session octx raw. got 0;
  lookup_component_version = λ session repo c v. got 0;
  no_options = 0;
  options_from = λ octx o. got o;
  transfer = λ cv repo o. none;
  check_version = λ repo c v. got (record { is_empty = true; marshalled = got "" });
  now = 1;
  later = 2;
}
