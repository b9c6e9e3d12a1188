-- ===== src/Config/Effective.antt =====
-- What GetEffectiveConfig returns and what it refuses.
use ocm_k8s_toolkit.Prelude.{
  String, ◌≡◌, refl, true, false, Option, none, some, List, [], ◌∷◌, ◌++◌, ◌==◌, filter, map, arith,
  All, All-append, All-mono, Any, subst, Bool-cases, inl, inr,
}
use ocm_k8s_toolkit.Errors.{Outcome, ok, err, ◌>>=◌}
use ocm_k8s_toolkit.Api.{OcmConfiguration, ConfigurationPolicy, propagate, ObjectKey}
use ocm_k8s_toolkit.Kube.{Fetched, found, missing}
use ocm_k8s_toolkit.Config.{
  ProviderKind, Providers, is_data_kind, in_namespace, with_core_version, is_propagated,
  with_policy, propagated, provider_kind, fetch_from, from_provider, resolve, get_effective_config,
}

-- A reference that can be read as configuration: a secret or a config map in a namespace.
pub record IsData (c : OcmConfiguration) : Type 0 where
  pub kind : is_data_kind c.kind ≡ true
  pub namespaced : (c.namespace == "") ≡ false

abbrev pub AllData : Outcome (List OcmConfiguration) → Type 0
AllData (ok refs) = All IsData refs
AllData (err e) = Unit

abbrev FetchedData : Fetched (List OcmConfiguration) → Type 0
FetchedData (found refs) = All IsData refs
FetchedData (missing f) = Unit

-- every object in the cluster carries references to data only
pub record Sound (get : Providers) : Type 0 where
  pub at : (k : ProviderKind) (key : ObjectKey) → FetchedData (get k key)

handed_on :
    (p : ConfigurationPolicy) (refs : List OcmConfiguration)
    → All IsData refs
    → All IsData (map (with_policy p) (filter is_propagated refs))
unfolding filter
handed_on p [] h = tt
handed_on p (r ∷ refs) h = elim (Bool-cases (is_propagated r)) [
  | inl e ↦ rw e (record { kind = h.0.kind; namespaced = h.0.namespaced }, handed_on p refs h.1)
  | inr e ↦ rw e (handed_on p refs h.1)
]

propagated-AllData :
    (c : OcmConfiguration) (r : Fetched (List OcmConfiguration))
    → FetchedData r
    → AllData (propagated c r)
unfolding propagated
propagated-AllData c (found refs) h = handed_on c.policy refs h
propagated-AllData c (missing f) h = tt

with_core_version-IsData :
    (c : OcmConfiguration)
    → is_data_kind c.kind ≡ true
    → (c.namespace == "") ≡ false
    → IsData (with_core_version c)
unfolding with_core_version
with_core_version-IsData c k n = elim (Bool-cases (c.api_version == "")) [
  | inl e ↦ rw e (record { kind = k; namespaced = n })
  | inr e ↦ rw e (record { kind = k; namespaced = n })
]

in_namespace_lem :
    (ns : String) (c : OcmConfiguration)
    → (ns == "") ≡ false
    → ((in_namespace ns c).namespace == "") ≡ false
unfolding in_namespace
in_namespace_lem ns c h = ground arith

both-AllData :
    (a b : Outcome (List OcmConfiguration))
    → AllData a
    → AllData b
    → AllData (a >>= λ refs. b >>= λ rest. ok (refs ++ rest))
both-AllData (ok refs) (ok rest) h k = All-append IsData refs rest h k
both-AllData (ok refs) (err e) h k = tt
both-AllData (err e) b h k = tt

module _ (get : Providers) (sound : Sound get) where
  fetch_from-AllData :
      (c : OcmConfiguration) (k : Option ProviderKind) → AllData (fetch_from get c k)
  unfolding fetch_from
  fetch_from-AllData c none = tt
  fetch_from-AllData c (some k) =
      let key : ObjectKey = record { namespace = c.namespace; name = c.name } in
      propagated-AllData c (get k key) (sound.at k key)

  from_provider-AllData : (c : OcmConfiguration) → AllData (from_provider get c)
  unfolding from_provider
  from_provider-AllData c = elim (Bool-cases (c.api_version == "")) [
    | inl e ↦ rw e tt
    | inr e ↦ rw e (fetch_from-AllData c (provider_kind c.kind))
  ]

  resolve-AllData : (c : OcmConfiguration) → (c.namespace == "") ≡ false → AllData (resolve get c)
  unfolding resolve
  resolve-AllData c n = elim (Bool-cases (is_data_kind c.kind)) [
    | inl e ↦ rw e (with_core_version-IsData c e n, tt)
    | inr e ↦ rw e (from_provider-AllData c)
  ]

  -- If the object's namespace is not empty and the objects in the cluster carry references to
  -- namespaced secrets and config maps only, then so is everything that GetEffectiveConfig returns:
  -- with the references in the statuses sound, those that it writes there are sound.
  pub get_effective_config-AllData :
      (ns : String) (configs : List OcmConfiguration)
      → (ns == "") ≡ false
      → AllData (get_effective_config get ns configs)
  unfolding get_effective_config
  get_effective_config-AllData ns [] h = tt
  get_effective_config-AllData ns (c ∷ configs) h =
      both-AllData (resolve get (in_namespace ns c)) (get_effective_config get ns configs)
        (resolve-AllData (in_namespace ns c) (in_namespace_lem ns c h))
        (get_effective_config-AllData ns configs h)

-- a reference that stems from one of the list that is marked for propagation
abbrev StemsFrom : ConfigurationPolicy → List OcmConfiguration → OcmConfiguration → Type 0
StemsFrom p refs o = (o.policy ≡ p) × Any (λ r. (r.policy ≡ propagate) × (o ≡ with_policy p r)) refs

is_propagated_lem : (r : OcmConfiguration) → is_propagated r ≡ true → r.policy ≡ propagate
is_propagated_lem r h = ground arith

handed_on-StemsFrom :
    (p : ConfigurationPolicy) (refs : List OcmConfiguration)
    → All (StemsFrom p refs) (map (with_policy p) (filter is_propagated refs))
unfolding filter
handed_on-StemsFrom p [] = tt
handed_on-StemsFrom p (r ∷ refs) =
    let rest =
      All-mono (StemsFrom p refs) (StemsFrom p (r ∷ refs)) _ (λ o s. (s.0, inr s.1))
        (handed_on-StemsFrom p refs) in
    elim (Bool-cases (is_propagated r)) [
      | inl e ↦ rw e ((refl, inl (is_propagated_lem r e, refl)), rest)
      | inr e ↦ rw e rest
    ]

-- Of the references that a provider carries, only those marked for propagation are handed on, and
-- what is handed on carries the policy of the reference to the provider.
propagated_origin :
    (c : OcmConfiguration) (refs out : List OcmConfiguration)
    → propagated c (found refs) ≡ ok out
    → All (StemsFrom c.policy refs) out
unfolding propagated
propagated_origin c refs out h =
    subst (All (StemsFrom c.policy refs)) (ok_inj h) (handed_on-StemsFrom c.policy refs)
  where
    ok_inj : {x y : List OcmConfiguration} → ok x ≡ ok y → x ≡ y
    ok_inj e = cc
