-- ===== src/Versions.antt =====
-- The choice of a component version: RegexpFilter, GetLatestValidVersion and IsDowngradable of
-- internal/ocm/ocm.go, DetermineEffectiveVersionFromLiveRepo of
-- internal/controller/component/component_controller.go.
pub mod Policy
pub mod Latest
pub mod Deny
use ocm_k8s_toolkit.Prelude.{
  String, Bool, true, false, Option, none, some, List, [], ◌∷◌, ◌++◌, ◌==◌, filter, is_empty,
  if◌then◌else◌,
}
use ocm_k8s_toolkit.Errors.{
  Error, Fault, new, external, wrap, terminal, Outcome, ok, err, ◌>>=◌, ◌>>◌, wrapping, Reply, got,
  fault, outcome, failure, terminally,
}

-- The packages semver and semverutils, and the compilation of regular expressions.
pub record Semver : Type 1 where
  pub Version : Type 0
  pub Constraint : Type 0
  pub new_version : String → Reply Version
  pub original : Version → String
  pub greater_than_equal : Version → Version → Bool
  pub new_constraint : String → Reply Constraint
  pub check : Constraint → Version → Bool
  -- MatchVersionStrings, which may fail
  pub match_version_strings : List String → Constraint → Reply (List Version)
  pub compile : String → Reply (String → Bool)

pub data DowngradePolicy : Type 0 where
  allow deny enforce : DowngradePolicy
  unknown : String → DowngradePolicy

-- A component version of the OCM library: its version, and the raw value of the label that says
-- down to which version it may be downgraded, with what decoding that value as a text returns.
pub record ComponentVersion : Type 0 where
  pub version : String
  pub downgradable : Option (Reply String)

-- a component of a repository, opened
pub record ComponentAccess : Type 0 where
  pub name : String
  pub list_versions : Reply (List String)
  pub close : Option Fault

-- A repository, and the lookups in it: the repository's of a component, the session's of a version.
pub record LiveRepo : Type 0 where
  pub lookup_component : String → Reply ComponentAccess
  pub lookup_component_version : String → String → Reply ComponentVersion

abbrev pub last? {ℓ} : {A : Type ℓ} → List A → Option A
last? [] = none
last? (x ∷ []) = some x
last? (x ∷ y ∷ l) = last? (y ∷ l)

module _ (s : Semver) where
  open s use {
    Version, Constraint, new_version, original, greater_than_equal, new_constraint, check,
    match_version_strings, compile,
  }

  -- RegexpFilter
  unfoldable pub regexp_filter : String → Outcome (String → Bool)
  regexp_filter regex = if regex == "" then ok (λ v. true) else outcome (compile regex)

  -- `filtered` starts as all versions, and those that pass are appended
  unfoldable pub filtered : List String → Option (String → Bool) → List String
  unfolding filter
  filtered versions none = versions
  filtered versions (some f) = versions ++ filter f versions

  abbrev pub latest_of : Option Version → Outcome Version
  latest_of none = err (new "no valid versions found for constraint")
  latest_of (some v) = ok v

  -- GetLatestValidVersion
  unfoldable pub get_latest_valid_version :
      List String → String → Option (String → Bool) → Outcome Version
  unfolding filtered
  get_latest_valid_version versions semvers f = do
    constraint ← outcome (new_constraint semvers)
    vers ← outcome (match_version_strings (filtered versions f) constraint)
    latest_of (last? vers)

  -- what the label, if there is one, says of a version
  unfoldable pub label_permits : Option (Reply String) → String → Outcome Bool
  label_permits none latest = ok false
  label_permits (some label) latest = do
    vers ← outcome label
    constraint ← outcome (new_constraint vers)
    version ← outcome (new_version latest)
    ok (check constraint version)

  -- IsDowngradable
  unfoldable pub is_downgradable : ComponentVersion → ComponentVersion → Outcome Bool
  unfolding label_permits
  is_downgradable current latest = label_permits current.downgradable latest.version

  -- `if !downgradable { … }`
  abbrev pub unless_refused : Version → Bool → Outcome String
  unless_refused latest true = ok (original latest)
  unless_refused latest false = err (new "component version cannot be downgraded")

  module _ (repo : LiveRepo) where
    -- the switch on the downgrade policy
    unfoldable pub downgrade : DowngradePolicy → String → Version → Version → Outcome String
    unfolding is_downgradable
    downgrade deny name current latest =
        err (terminal (new "component version cannot be downgraded"))
    downgrade enforce name current latest = ok (original latest)
    downgrade allow name current latest = do
      reconciledcv ←
          terminally "failed to get reconciled component version to check downgradability"
            (outcome (repo.lookup_component_version name (original current)))
      latestcv ←
          wrapping "failed to get component version"
            (outcome (repo.lookup_component_version name (original latest)))
      downgradable ←
          terminally "failed to check downgradability" (is_downgradable reconciledcv latestcv)
      unless_refused latest downgradable
    downgrade (unknown p) name current latest = err (terminal (new "unknown downgrade policy"))

    -- from the latest version on; the version in the status is empty before the first success
    unfoldable pub effective_version : DowngradePolicy → String → String → Version → Outcome String
    unfolding downgrade
    effective_version policy name reconciled latest =
        if reconciled == "" then ok (original latest) else do
          current ←
              terminally "failed to check reconciled version" (outcome (new_version reconciled))
          if greater_than_equal latest current
              then ok (original latest)
              else downgrade policy name current latest

    -- the body, before the deferred close of the component access
    unfoldable pub determine_in :
        ComponentAccess → DowngradePolicy → String → String → String → Outcome String
    unfolding regexp_filter get_latest_valid_version effective_version
    determine_in access policy semver_filter semvers reconciled = do
      versions ← wrapping "failed to list versions" (outcome access.list_versions)
      if is_empty versions then err (new "component not found in repository") else do
        f ← terminally "failed to parse regexp filter" (regexp_filter semver_filter)
        latest ←
            terminally "failed to get valid latest version"
              (get_latest_valid_version versions semvers (some f))
        effective_version policy access.name reconciled latest

    -- the named result joined with the error of the close
    abbrev pub closing : Option Error → Outcome String → Outcome String
    closing none r = r
    closing (some c) (ok v) = err c
    closing (some c) (err e) = err (Error.join e c)

    -- DetermineEffectiveVersionFromLiveRepo
    unfoldable pub determine_effective_version :
        String → DowngradePolicy → String → String → String → Outcome String
    unfolding determine_in
    determine_effective_version component policy semver_filter semvers reconciled = do
      access ← wrapping "failed to lookup component" (outcome (repo.lookup_component component))
      closing (failure access.close) (determine_in access policy semver_filter semvers reconciled)
