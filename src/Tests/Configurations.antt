-- ===== src/Tests/Configurations.antt =====
-- A new context that is configured by a secret and a config map.
use ocm_k8s_toolkit.Prelude.{◌≡◌, refl, none, List, [], ◌∷◌}
use ocm_k8s_toolkit.Errors.{got}
use ocm_k8s_toolkit.Hash.{ConfigObject, secret, config_map, bytes_eq}
use ocm_k8s_toolkit.ContextCache.{CacheOps, CacheState, get_or_create_context}
use ocm_k8s_toolkit.ContextCache.Configure.{
  docker_config_json_key, ocm_config_key, entry_at, ConfigureOps, credentials_added, config_applied,
  configure_context, configure_each,
}
use ocm_k8s_toolkit.ContextCache.Configure.Configured.{get_or_create_context-configured}
use ocm_k8s_toolkit.Tests.Contexts.{single, same_pair, same_bytes, cache_ops, empty}

abbrev ocm_context : ConfigureOps
ocm_context = record {
  repository_for_spec = λ d. none;
  get_config_for_data = λ e d. got 7;
  apply_config = λ c origin. none;
}

abbrev configuring : CacheOps
configuring = record cache_ops { configure = λ o. (configure_context ocm_context o []).0 }

abbrev objects : List ConfigObject
objects =
    secret "default" "registry" ((docker_config_json_key, 1 ∷ []) ∷ (ocm_config_key, 2 ∷ []) ∷ [])
    ∷ config_map "default" "settings" ((ocm_config_key, 3 ∷ []) ∷ []) []
    ∷ []

abbrev configured : CacheState (single bytes_eq) (single same_pair)
configured =
    (get_or_create_context (single bytes_eq) (single same_pair) same_bytes configuring [] objects
      empty).1

get_or_create_context-configured_example : configure_each ocm_context objects none [] ≡ (
  none,
  credentials_added (1 ∷ [])
      ∷ config_applied 7 "ocm config secret: default/registry"
      ∷ config_applied 7 "default/settings"
      ∷ [],
)
unfolding entry_at get_or_create_context configure_context bytes_eq
get_or_create_context-configured_example =
    get_or_create_context-configured ocm_context (single bytes_eq) (single same_pair) same_bytes
      configuring (λ o. refl) [] objects empty configured 0 refl refl
