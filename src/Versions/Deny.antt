-- ===== src/Versions/Deny.antt =====
-- The policy Deny.
use ocm_k8s_toolkit.Prelude.{String, ◌≡◌, true, false, arith, ◌==◌, eq_iff}
use ocm_k8s_toolkit.Errors.{ok, got}
use ocm_k8s_toolkit.Versions.{Semver, LiveRepo, deny, determine_effective_version}
use ocm_k8s_toolkit.Versions.Policy.{
  Permitted, first, upgrade, enforced, allowed, determine_effective_version-Chosen,
}

module _ (s : Semver) (repo : LiveRepo) where
  open s use {Version, new_version, original, greater_than_equal}

  -- Under the policy Deny a reconciled version is never replaced by a smaller one.
  pub determine_effective_version_deny :
      (component : String) (semver_filter semvers reconciled v : String) (current : Version)
      → (reconciled == "") ≡ false
      → new_version reconciled ≡ got current
      → determine_effective_version s repo component deny semver_filter semvers reconciled ≡ ok v
      → (latest : Version) × (v ≡ original latest) × (greater_than_equal latest current ≡ true)
  determine_effective_version_deny component sf semvers reconciled v current n p h =
      let chosen =
        (determine_effective_version-Chosen s repo component deny sf semvers reconciled v h).3 in
      (chosen.latest, chosen.result, not_below chosen.latest chosen.permitted)
    where
      not_below :
          {name : String} (latest : Version)
          → Permitted s repo deny name reconciled latest
          → greater_than_equal latest current ≡ true
      not_below latest (first e) = absurd (ground (arith, eq_iff reconciled ""))
      not_below latest (upgrade c q g) = ground arith
      not_below latest (enforced e) = absurd (ground arith)
      not_below latest (allowed c q e a) = absurd (ground arith)
