-- ===== src/Versions/Policy.antt =====
-- No downgrade happens unless the policy permits it.
use ocm_k8s_toolkit.Prelude.{
  String, ◌≡◌, refl, sym, ap, Bool, true, false, Option, none, some, List, arith, ◌==◌, eq_iff,
  is_empty, if◌then◌else◌, Bool-cases, inl, inr,
}
use ocm_k8s_toolkit.Errors.{
  Error, Fault, Outcome, ok, err, ◌>>=◌, wrapping, Reply, got, outcome, failure, terminally,
}
use ocm_k8s_toolkit.Errors.Inversion.{
  >>=-eq-ok, outcome-eq-ok, wrapping-eq-ok, terminally-eq-ok, if-err-eq-ok, ok-injective,
}
use ocm_k8s_toolkit.Versions.{
  Semver, DowngradePolicy, allow, deny, enforce, unknown, ComponentVersion, ComponentAccess,
  LiveRepo, is_downgradable, unless_refused, downgrade, effective_version, determine_in,
  determine_effective_version, closing, label_permits, get_latest_valid_version, regexp_filter,
}

failure-eq-none : (f : Option Fault) → failure f ≡ none → f ≡ none
failure-eq-none none h = refl
failure-eq-none (some f) h = cc

module _ (s : Semver) (repo : LiveRepo) where
  open s use {Version, new_version, original, greater_than_equal, new_constraint, check}

  -- The version that is deployed says, by its label, that the latest one may replace it.
  pub data Agreed (name : String) (current latest : Version) : Type 0 where
    agreed :
        (now next : ComponentVersion) (label : String) (c : s.Constraint) (v : Version)
        → repo.lookup_component_version name (original current) ≡ got now
        → repo.lookup_component_version name (original latest) ≡ got next
        → now.downgradable ≡ some (got label)
        → new_constraint label ≡ got c
        → new_version next.version ≡ got v
        → check c v ≡ true
        → Agreed name current latest

  -- When the latest version may become the effective one.
  pub data Permitted (policy : DowngradePolicy) (name reconciled : String) (latest : Version)
      : Type 0 where
    first : reconciled ≡ "" → Permitted policy name reconciled latest
    upgrade :
        (current : Version)
        → new_version reconciled ≡ got current
        → greater_than_equal latest current ≡ true
        → Permitted policy name reconciled latest
    enforced : policy ≡ enforce → Permitted policy name reconciled latest
    allowed :
        (current : Version)
        → new_version reconciled ≡ got current
        → policy ≡ allow
        → Agreed name current latest
        → Permitted policy name reconciled latest

  label_permits-true :
      (o : Option (Reply String)) (next : String)
      → label_permits s o next ≡ ok true
      → (label : String) × (c : s.Constraint) × (v : Version) × (o ≡ some (got label))
        × (new_constraint label ≡ got c)
        × (new_version next ≡ got v)
        × (check c v ≡ true)
  unfolding label_permits
  label_permits-true none next h = absurd (ground arith)
  label_permits-true (some r) next h =
      let (label, rl, h1) = >>=-eq-ok (outcome r) _ h in
      let (c, rc, h2) = >>=-eq-ok (outcome (new_constraint label)) _ h1 in
      let (v, rv, h3) = >>=-eq-ok (outcome (new_version next)) _ h2 in
      (
        label,
        c,
        v,
        ap some (outcome-eq-ok r rl),
        outcome-eq-ok _ rc,
        outcome-eq-ok _ rv,
        ok-injective h3,
      )

  agree :
      (name v : String) (current latest : Version) (now next : ComponentVersion) (b : Bool)
      → repo.lookup_component_version name (original current) ≡ got now
      → repo.lookup_component_version name (original latest) ≡ got next
      → is_downgradable s now next ≡ ok b
      → unless_refused s latest b ≡ ok v
      → Agreed name current latest × (v ≡ original latest)
  unfolding is_downgradable
  agree name v current latest now next false e1 e2 e3 h = absurd (ground arith)
  agree name v current latest now next true e1 e2 e3 h =
      let (label, c, w, l, m, n, k) = label_permits-true now.downgradable next.version e3 in
      (agreed now next label c w e1 e2 l m n k, sym (ok-injective h))

  downgrade-Permitted :
      (policy : DowngradePolicy) (name reconciled v : String) (current latest : Version)
      → new_version reconciled ≡ got current
      → downgrade s repo policy name current latest ≡ ok v
      → Permitted policy name reconciled latest × (v ≡ original latest)
  unfolding downgrade is_downgradable
  downgrade-Permitted deny name r v current latest p h = absurd (ground arith)
  downgrade-Permitted enforce name r v current latest p h = (enforced refl, sym (ok-injective h))
  downgrade-Permitted (unknown q) name r v current latest p h = absurd (ground arith)
  downgrade-Permitted allow name r v current latest p h =
      let (now, e1, h1) =
        >>=-eq-ok (terminally _ (outcome (repo.lookup_component_version name (original current)))) _
          h in
      let (next, e2, h2) =
        >>=-eq-ok (wrapping _ (outcome (repo.lookup_component_version name (original latest)))) _
          h1 in
      let (b, e3, h3) = >>=-eq-ok (terminally _ (is_downgradable s now next)) _ h2 in
      let (a, e) =
        agree name v current latest now next b (outcome-eq-ok _ (terminally-eq-ok _ _ e1))
          (outcome-eq-ok _ (wrapping-eq-ok _ _ e2)) (terminally-eq-ok _ _ e3) h3 in
      (allowed current p refl a, e)

  effective_version-Permitted :
      (policy : DowngradePolicy) (name reconciled v : String) (latest : Version)
      → effective_version s repo policy name reconciled latest ≡ ok v
      → Permitted policy name reconciled latest × (v ≡ original latest)
  unfolding effective_version
  effective_version-Permitted policy name reconciled v latest h =
      elim (Bool-cases (reconciled == "")) [
        | inl e ↦ (first ((eq_iff reconciled "").0 e), sym (ok-injective (rw e at h)))
        | inr e ↦ later (rw e at h)
      ]
    where
      choose :
          (current : Version) (b : Bool)
          → new_version reconciled ≡ got current
          → greater_than_equal latest current ≡ b
          → (if b then ok (original latest) else downgrade s repo policy name current latest) ≡ ok v
          → Permitted policy name reconciled latest × (v ≡ original latest)
      choose current true p q k = (upgrade current p q, sym (ok-injective k))
      choose current false p q k = downgrade-Permitted policy name reconciled v current latest p k

      later :
          (terminally "failed to check reconciled version" (outcome (new_version reconciled))
              >>= λ current.
                  if greater_than_equal latest current
                  then ok (original latest)
                  else downgrade s repo policy name current latest)
            ≡ ok v
          → Permitted policy name reconciled latest × (v ≡ original latest)
      later k =
          let (current, e1, k1) =
            >>=-eq-ok
              (terminally "failed to check reconciled version" (outcome (new_version reconciled))) _
              k in
          choose current (greater_than_equal latest current)
            (outcome-eq-ok _ (terminally-eq-ok _ _ e1)) refl k1

  closing-eq-ok :
      (c : Option Error) (r : Outcome String) {v : String}
      → closing s repo c r ≡ ok v
      → (r ≡ ok v) × (c ≡ none)
  closing-eq-ok none r h = (h, refl)
  closing-eq-ok (some c) (ok v) h = cc
  closing-eq-ok (some c) (err e) h = cc

  -- How a version was chosen among those of a component.
  pub record Chosen (access : ComponentAccess) (policy : DowngradePolicy)
      (semvers reconciled v : String) : Type 0 where
    pub versions : List String
    pub accepts : String → Bool
    pub latest : Version
    pub listed : access.list_versions ≡ got versions
    pub is_latest : get_latest_valid_version s versions semvers (some accepts) ≡ ok latest
    pub result : v ≡ original latest
    pub permitted : Permitted policy access.name reconciled latest

  determine_in-Chosen :
      (access : ComponentAccess) (policy : DowngradePolicy)
      (semver_filter semvers reconciled v : String)
      → determine_in s repo access policy semver_filter semvers reconciled ≡ ok v
      → Chosen access policy semvers reconciled v
  unfolding determine_in
  determine_in-Chosen access policy sf semvers reconciled v h =
      let (versions, e1, h1) =
        >>=-eq-ok (wrapping "failed to list versions" (outcome access.list_versions)) _ h in
      let (f, e2, h2) =
        >>=-eq-ok (terminally "failed to parse regexp filter" (regexp_filter s sf)) _
          (if-err-eq-ok (is_empty versions) _ _ h1) in
      let (latest, e3, h3) =
        >>=-eq-ok
          (terminally "failed to get valid latest version"
            (get_latest_valid_version s versions semvers (some f)))
          _ h2 in
      let (permitted, e4) = effective_version-Permitted policy access.name reconciled v latest h3 in
      record {
        versions = versions;
        accepts = f;
        latest = latest;
        listed = outcome-eq-ok _ (wrapping-eq-ok _ _ e1);
        is_latest = terminally-eq-ok _ _ e3;
        result = e4;
        permitted = permitted;
      }

  -- Whenever DetermineEffectiveVersionFromLiveRepo returns a version, it is what
  -- GetLatestValidVersion returns for the versions that the component lists, and the move to it is permitted: there
  -- was no version before, or it is not smaller than the version before, or the policy is Enforce,
  -- or the policy is Allow and the label of the version before agrees to it. The component access
  -- was closed without an error.
  pub determine_effective_version-Chosen :
      (component : String) (policy : DowngradePolicy) (semver_filter semvers reconciled v : String)
      → determine_effective_version s repo component policy semver_filter semvers reconciled ≡ ok v
      → (access : ComponentAccess) × (repo.lookup_component component ≡ got access)
        × (access.close ≡ none)
        × Chosen access policy semvers reconciled v
  unfolding determine_effective_version
  determine_effective_version-Chosen component policy sf semvers reconciled v h =
      let (access, e1, h1) =
        >>=-eq-ok
          (wrapping "failed to lookup component" (outcome (repo.lookup_component component))) _ h in
      let (e2, e3) =
        closing-eq-ok (failure access.close)
          (determine_in s repo access policy sf semvers reconciled) h1 in
      (
        access,
        outcome-eq-ok _ (wrapping-eq-ok _ _ e1),
        failure-eq-none access.close e3,
        determine_in-Chosen access policy sf semvers reconciled v e2,
      )
