-- ===== src/Config.antt =====
-- internal/ocm/ocm.go: which configuration applies to an object (GetEffectiveConfig), and how the
-- configuration objects are applied to an OCM context (ConfigureContextForSecretOrConfigMap).
pub mod Effective
use ocm_k8s_toolkit.Prelude.{
  String, str_append, Bool, true, false, ◌||◌, Option, none, some, List, [], ◌∷◌, ◌++◌, ◌==◌,
  filter, map, if◌then◌else◌,
}
use ocm_k8s_toolkit.Errors.{Error, new, external, wrap, Outcome, ok, err, ◌>>=◌}
use ocm_k8s_toolkit.Api.{
  OcmConfiguration, ConfigurationPolicy, propagate, do_not_propagate, ObjectKey,
}
use ocm_k8s_toolkit.Kube.{Fetched, found, missing}

-- the kinds that may be referenced for the configuration that they propagate
pub data ProviderKind : Type 0 where
  repository component resource replication : ProviderKind

-- `client.Get` of such an object; what it finds is the effective configuration in its status
abbrev pub Providers : Type 0
Providers = ProviderKind → ObjectKey → Fetched (List OcmConfiguration)

abbrev pub is_data_kind : String → Bool
is_data_kind kind = kind == "Secret" || kind == "ConfigMap"

-- the namespace of the object itself stands in for a missing one
unfoldable pub in_namespace : String → OcmConfiguration → OcmConfiguration
in_namespace ns c = if c.namespace == "" then record c { namespace = ns } else c

-- the version of a core object stands in for a missing one
unfoldable pub with_core_version : OcmConfiguration → OcmConfiguration
with_core_version c = if c.api_version == "" then record c { api_version = "v1" } else c

abbrev pub is_propagated : OcmConfiguration → Bool
is_propagated ref = elim ref.policy [ propagate ↦ true | do_not_propagate ↦ false ]

abbrev pub with_policy : ConfigurationPolicy → OcmConfiguration → OcmConfiguration
with_policy p ref = record ref { policy = p }

-- the references that a provider hands on, under the policy of the reference to it
unfoldable pub propagated :
    OcmConfiguration → Fetched (List OcmConfiguration) → Outcome (List OcmConfiguration)
unfolding filter
propagated c (missing f) = err (wrap "failed to fetch resource" (external f))
propagated c (found refs) = ok (map (with_policy c.policy) (filter is_propagated refs))

-- the switch on the kind
unfoldable pub provider_kind : String → Option ProviderKind
provider_kind kind =
    if kind == "Repository"
    then some repository
    else if kind == "Component"
    then some component
    else if kind == "Resource"
    then some resource
    else if kind == "Replication"
    then some replication
    else none

unfoldable pub fetch_from :
    Providers → OcmConfiguration → Option ProviderKind → Outcome (List OcmConfiguration)
unfolding propagated
fetch_from get c none = err (new "unsupported reference kind")
fetch_from get c (some k) = propagated c (get k (record { namespace = c.namespace; name = c.name }))

unfoldable pub from_provider : Providers → OcmConfiguration → Outcome (List OcmConfiguration)
unfolding provider_kind fetch_from
from_provider get c =
    if c.api_version == ""
    then err (new "api version must be set for reference of kind")
    else fetch_from get c (provider_kind c.kind)

-- one round of the loop of GetEffectiveConfig, the namespace filled in
unfoldable pub resolve : Providers → OcmConfiguration → Outcome (List OcmConfiguration)
unfolding with_core_version from_provider
resolve get c = if is_data_kind c.kind then ok (with_core_version c ∷ []) else from_provider get c

-- GetEffectiveConfig for an object in the namespace, from the configurations that it specifies
unfoldable pub get_effective_config :
    Providers → String → List OcmConfiguration → Outcome (List OcmConfiguration)
get_effective_config get ns [] = ok []
get_effective_config get ns (c ∷ configs) = do
  refs ← resolve get (in_namespace ns c)
  rest ← get_effective_config get ns configs
  ok (refs ++ rest)
