-- ===== src/Resource/Fields.antt =====
-- The status of a resource: setResourceStatus, buildResourceInfo, convertLabels and
-- computeAdditionalStatusFields of internal/controller/resource/resource_controller.go.
use ocm_k8s_toolkit.Prelude.{ℕ, String, Option, none, some, List, [], ◌∷◌, map, ◌==◌, if◌then◌else◌}
use ocm_k8s_toolkit.Errors.{Error, wrap, wrapping, Outcome, ok, err, ◌>>=◌, outcome}
use ocm_k8s_toolkit.Component.Ops.{ComponentInfo}
use ocm_k8s_toolkit.Resource.Ops.{
  ResourceStatus, ResourceInfo, Label, MergeAlgorithm, ResourceMeta, ResourceAccess, CelOps,
}

abbrev pub convert_merge : Option MergeAlgorithm → Option MergeAlgorithm
convert_merge none = none
convert_merge (some m) = some (record { algorithm = m.algorithm; config = m.config })

-- convertLabels
unfoldable pub convert_labels : List Label → List Label
convert_labels = map (λ l. record {
  name = l.name;
  value = l.value;
  version = l.version;
  signing = l.signing;
  merge = convert_merge l.merge;
})

-- the map of the additional fields, by field name
abbrev pub put_field : String → String → List (String × String) → List (String × String)
put_field k v [] = (k, v) ∷ []
put_field k v (e ∷ l) = if e.0 == k then (k, v) ∷ l else e ∷ put_field k v l

module _ (cel : CelOps) where
  -- buildResourceInfo
  unfoldable pub build_resource_info : ResourceMeta → ℕ → Outcome ResourceInfo
  unfolding convert_labels
  build_resource_info meta spec = do
    raw ← wrapping "marshaling access spec" (outcome (cel.marshal_spec spec))
    ok (record {
      name = meta.name;
      type = meta.type;
      version = meta.version;
      extra_identity = meta.extra_identity;
      access = raw;
      digest = meta.digest;
      labels = convert_labels meta.labels;
    })

  -- the body of the loop, for one expression
  unfoldable pub field_value : ℕ → ℕ → String → Outcome String
  field_value env resource_map expr = do
    ast ← wrapping "compiling CEL" (outcome (cel.compile env expr))
    prog ← wrapping "building CEL program" (outcome (cel.program env ast))
    val ← wrapping "evaluating CEL" (outcome (cel.eval prog resource_map))
    wrapping "marshaling CEL result" (outcome (cel.marshal_value val))

  -- the loop: the fields that were written, and the error that ended it
  unfoldable pub fill_fields :
      ℕ
      → ℕ
      → List (String × String)
      → List (String × String)
      → List (String × String) × Option Error
  unfolding field_value
  fill_fields env resource_map [] done = (done, none)
  fill_fields env resource_map (f ∷ fs) done = elim (field_value env resource_map f.1) [
    | ok raw ↦ fill_fields env resource_map fs (put_field f.0 raw done)
    | err e ↦ (done, some e)
  ]

  abbrev pub prepare : ResourceMeta → ℕ → Outcome (ℕ × ℕ)
  prepare meta spec = do
    base ← wrapping "getting base CEL env" (outcome cel.base_env)
    env ← wrapping "extending CEL env" (outcome (cel.extend base))
    resource_map ← wrapping "preparing CEL variables" (outcome (cel.generic_map meta spec))
    ok (env, resource_map)

  -- computeAdditionalStatusFields, on the additional fields that are there
  unfoldable pub compute_additional :
      ResourceMeta
      → ℕ
      → List (String × String)
      → List (String × String)
      → List (String × String) × Option Error
  unfolding fill_fields
  compute_additional meta spec fields old = elim (prepare meta spec) [
    | ok p ↦ fill_fields p.0 p.1 fields []
    | err e ↦ (old, some e)
  ]

  abbrev pub with_component :
      ComponentInfo
      → ResourceInfo
      → List (String × String) × Option Error
      → ResourceStatus
      → ResourceStatus × Option Error
  with_component component info (l, some e) s = (
    record s { resource = some info; additional = l },
    some (wrap "evaluating additional status fields" e),
  )
  with_component component info (l, none) s =
      (record { resource = some info; additional = l; component = some component }, none)

  abbrev pub with_info :
      ResourceAccess
      → ComponentInfo
      → ℕ
      → List (String × String)
      → Outcome ResourceInfo
      → ResourceStatus
      → ResourceStatus × Option Error
  with_info access component spec fields (err e) s = (s, some (wrap "building resource info" e))
  with_info access component spec fields (ok info) s =
      with_component component info (compute_additional access.meta spec fields s.additional) s

  -- setResourceStatus, less the effective configuration, which the caller sets on success
  unfoldable pub set_resource_status :
      ResourceAccess
      → ComponentInfo
      → List (String × String)
      → ResourceStatus
      → ResourceStatus × Option Error
  unfolding build_resource_info compute_additional
  set_resource_status access component fields s = elim (outcome access.access) [
    | err e ↦ (s, some (wrap "getting access spec" e))
    | ok spec ↦ with_info access component spec fields (build_resource_info access.meta spec) s
  ]
