-- ===== src/ContextCache/Configure.antt =====
-- ConfigureContextForSecretOrConfigMap, ConfigureContextForSecret and ConfigureContextForConfigMaps
-- of internal/ocm/ocm.go, and the loop of getOrCreateContext of internal/ocm/context_cache.go that
-- calls them. What they do to the OCM context is a list of calls.
pub mod Calls
pub mod Configured
use ocm_k8s_toolkit.Prelude.{
  ℕ, String, str_append, Option, none, some, List, [], ◌∷◌, ◌++◌, if◌then◌else◌,
}
use ocm_k8s_toolkit.Errors.{Error, Fault, new, wrap, Reply, outcome, failure, join_errors}
use ocm_k8s_toolkit.Exec.{
  Flow, next, halt, fail, halt_with, Exec, ◌>>=◌, ◌>>◌, pure, raise, attempt, modify, check,
}
use ocm_k8s_toolkit.Sorting.Bytes.{Bytes}
use ocm_k8s_toolkit.Hash.{DataMap, ConfigObject, secret, config_map, other_object, bytes_eq}

-- corev1.DockerConfigJsonKey, the bytes of ".dockerconfigjson"
abbrev pub docker_config_json_key : Bytes
docker_config_json_key =
    46 ∷ 100 ∷ 111 ∷ 99 ∷ 107 ∷ 101 ∷ 114 ∷ 99 ∷ 111 ∷ 110 ∷ 102 ∷ 105 ∷ 103 ∷ 106 ∷ 115 ∷ 111 ∷ 110
    ∷ []

-- OCMConfigKey, the bytes of ".ocmconfig"
abbrev pub ocm_config_key : Bytes
ocm_config_key = 46 ∷ 111 ∷ 99 ∷ 109 ∷ 99 ∷ 111 ∷ 110 ∷ 102 ∷ 105 ∷ 103 ∷ []

-- `value, ok := data[k]`
unfoldable pub entry_at : DataMap → Bytes → Option Bytes
unfolding bytes_eq
entry_at [] k = none
entry_at ((j, v) ∷ m) k = let rest = entry_at m k in if bytes_eq j k then some v else rest

-- runtime.DefaultYAMLEncoding, or none
pub data Encoding : Type 0 where
  yaml unspecified : Encoding

-- The OCM context; a configuration that was read is a name.
pub record ConfigureOps : Type 0 where
  pub repository_for_spec : Bytes → Option Fault
  pub get_config_for_data : Encoding → Bytes → Reply ℕ
  pub apply_config : ℕ → String → Option Fault

-- the calls that change a context
pub data ContextCall : Type 0 where
  credentials_added : Bytes → ContextCall
  config_applied : (config : ℕ) (origin : String) → ContextCall

-- a body that never returns before its end
abbrev pub Configuring : Type 0 → Type 0
Configuring A = Exec (List ContextCall) ⊥ A

abbrev pub note_call : ContextCall → Configuring (Unit {0})
note_call c = modify (λ l. l ++ c ∷ [])

abbrev pub error_of : {A : Type 0} → Flow ⊥ A → Option Error
error_of (next a) = none
error_of (halt r) = absurd r
error_of (fail e) = some e
error_of (halt_with r e) = absurd r

abbrev pub wrap_failure : String → Option Error → Option Error
wrap_failure m none = none
wrap_failure m (some e) = some (wrap m e)

abbrev pub secret_origin : String → String → String
secret_origin namespace name =
    str_append "ocm config secret: " (str_append namespace (str_append "/" name))

abbrev pub config_map_origin : String → String → String
config_map_origin namespace name = str_append namespace (str_append "/" name)

module _ (ops : ConfigureOps) where
  -- the first half of ConfigureContextForSecret
  unfoldable pub add_credentials : Option Bytes → Configuring (Unit {0})
  add_credentials none = pure tt
  add_credentials (some []) = pure tt
  add_credentials (some (b ∷ bs)) = do
    note_call (credentials_added (b ∷ bs))
    check (failure (ops.repository_for_spec (b ∷ bs)))
        (λ e. raise (wrap "failed to apply credentials from dockerconfig json in secret" e))

  -- the configuration of a secret or a config map
  unfoldable pub apply_data : Encoding → String → Bytes → Configuring (Unit {0})
  apply_data encoding origin [] = pure tt
  apply_data encoding origin (b ∷ bs) = do
    cfg ←
        attempt (outcome (ops.get_config_for_data encoding (b ∷ bs)))
          (λ e. raise (wrap "failed to deserialize ocm config data" e))
    note_call (config_applied cfg origin)
    check (failure (ops.apply_config cfg origin)) (λ e. raise (wrap "failed to apply ocm config" e))

  -- the second half of ConfigureContextForSecret
  unfoldable pub apply_entry : Option Bytes → String → Configuring (Unit {0})
  unfolding apply_data
  apply_entry none origin = pure tt
  apply_entry (some d) origin = apply_data yaml origin d

  -- ConfigureContextForSecret
  unfoldable pub configure_for_secret : String → String → DataMap → Configuring (Unit {0})
  unfolding add_credentials apply_entry entry_at
  configure_for_secret namespace name contents = do
    add_credentials (entry_at contents docker_config_json_key)
    apply_entry (entry_at contents ocm_config_key) (secret_origin namespace name)

  -- ConfigureContextForConfigMaps, given the entry of the config map
  unfoldable pub configure_for_entry : Option Bytes → String → Configuring (Unit {0})
  unfolding apply_data
  configure_for_entry none origin = raise (new "ocm configuration config map does not contain key")
  configure_for_entry (some d) origin = apply_data unspecified origin d

  -- ConfigureContextForConfigMaps
  unfoldable pub configure_for_config_map : String → String → DataMap → Configuring (Unit {0})
  unfolding configure_for_entry entry_at
  configure_for_config_map namespace name contents =
      configure_for_entry (entry_at contents ocm_config_key) (config_map_origin namespace name)

  -- ConfigureContextForSecretOrConfigMap: the error, and the calls so far
  unfoldable pub configure_context :
      ConfigObject → List ContextCall → Option Error × List ContextCall
  unfolding configure_for_secret configure_for_config_map
  configure_context (secret namespace name contents) l =
      let (f, m) = configure_for_secret namespace name contents l in
      (wrap_failure "configure context failed" (error_of f), m)
  configure_context (config_map namespace name contents binary) l =
      let (f, m) = configure_for_config_map namespace name contents l in
      (wrap_failure "configure context failed" (error_of f), m)
  configure_context (other_object type namespace name) l =
      (some (new "unsupported configuration object type"), l)

  -- the loop of getOrCreateContext
  unfoldable pub configure_each :
      List ConfigObject → Option Error → List ContextCall → Option Error × List ContextCall
  unfolding configure_context join_errors
  configure_each [] e l = (e, l)
  configure_each (o ∷ os) e l =
      let (f, m) = configure_context o l in configure_each os (join_errors e f) m
