-- ===== src/Versions/Latest.antt =====
-- Which version GetLatestValidVersion returns, by what semverutils documents of its matching.
use ocm_k8s_toolkit.Prelude.{
  String, ◌≡◌, sym, ap, ◌∙◌, subst, Bool, true, Option, none, some, List, [], ◌∷◌, ◌++◌, filter,
  All, Any, Bool-cases, ◌⊎◌, inl, inr, arith,
}
use ocm_k8s_toolkit.Errors.{ok, got, outcome}
use ocm_k8s_toolkit.Errors.Inversion.{>>=-eq-ok, outcome-eq-ok}
use ocm_k8s_toolkit.Versions.{
  Semver, DowngradePolicy, ComponentAccess, LiveRepo, last?, latest_of, filtered,
  get_latest_valid_version, determine_effective_version,
}
use ocm_k8s_toolkit.Versions.Policy.{Permitted, determine_effective_version-Chosen}

-- a version that some text of a list denotes
abbrev pub Named : (s : Semver) → List String → s.Version → Type 0
Named s l v = Any (λ t. s.new_version t ≡ got v) l

abbrev pub Ascending : (s : Semver) → List s.Version → Type 0
Ascending s [] = Unit
Ascending s (x ∷ l) = All (λ y. s.greater_than_equal y x ≡ true) l × Ascending s l

-- What a successful MatchVersionStrings returns: versions that the list names and that meet the
-- constraint, every such version, in ascending order. A version is not smaller than itself.
pub record SemverLaws (s : Semver) : Type 0 where
  pub reflexive : (v : s.Version) → s.greater_than_equal v v ≡ true
  pub named :
      (l : List String) (c : s.Constraint) (vs : List s.Version)
      → s.match_version_strings l c ≡ got vs
      → All (λ v. Named s l v × (s.check c v ≡ true)) vs
  pub complete :
      (l : List String) (c : s.Constraint) (vs : List s.Version)
      → s.match_version_strings l c ≡ got vs
      → (v : s.Version) → Named s l v
      → s.check c v ≡ true
      → Any (λ w. v ≡ w) vs
  pub ascending :
      (l : List String) (c : s.Constraint) (vs : List s.Version)
      → s.match_version_strings l c ≡ got vs
      → Ascending s vs

-- A greatest one among the versions that a list names and that meet a constraint.
pub record IsLatest (s : Semver) (l : List String) (semvers : String) (v : s.Version) : Type 0 where
  pub constraint : s.Constraint
  pub parsed : s.new_constraint semvers ≡ got constraint
  pub named : Named s l v
  pub meets : s.check constraint v ≡ true
  pub greatest :
      (w : s.Version) → Named s l w → s.check constraint w ≡ true → s.greater_than_equal v w ≡ true

module _ {A : Type 0} (P : A → Type 0) where
  Any-append : (l m : List A) → Any P l → Any P (l ++ m)
  Any-append [] m h = absurd h
  Any-append (x ∷ l) m (inl h) = inl h
  Any-append (x ∷ l) m (inr h) = inr (Any-append l m h)

  Any-filter : (f : A → Bool) (l : List A) → Any P (filter f l) → Any P l
  unfolding filter
  Any-filter f [] h = absurd h
  Any-filter f (x ∷ l) h = elim (Bool-cases (f x)) [
    | inl e ↦
        let k : Any P (x ∷ filter f l) = rw e at h in
        elim k [ inl p ↦ inl p | inr p ↦ inr (Any-filter f l p) ]
    | inr e ↦ inr (Any-filter f l (rw e at h))
  ]

  Any-repeated : (f : A → Bool) (l m : List A) → Any P (m ++ filter f l) → Any P m ⊎ Any P l
  Any-repeated f l [] h = inr (Any-filter f l h)
  Any-repeated f l (x ∷ m) (inl h) = inl (inl h)
  Any-repeated f l (x ∷ m) (inr h) = elim (Any-repeated f l m h) [
    | inl k ↦ inl (inr k)
    | inr k ↦ inr k
  ]

  All-last : (l : List A) {v : A} → last? l ≡ some v → All P l → P v
  All-last [] e h = absurd (ground (arith, e))
  All-last (x ∷ []) e h = subst P (ground (arith, e)) h.0
  All-last (x ∷ y ∷ l) e h = All-last (y ∷ l) e h.1

  All-Any : (l : List A) {w : A} → Any (λ x. w ≡ x) l → All P l → P w
  All-Any [] h a = absurd h
  All-Any (x ∷ l) (inl e) a = subst P (sym e) a.0
  All-Any (x ∷ l) (inr h) a = All-Any l h a.1

module _ (s : Semver) (laws : SemverLaws s) where
  -- the filter does not change which versions are named
  filtered-Named :
      (l : List String) (f : Option (String → Bool)) (v : s.Version)
      → (Named s (filtered s l f) v → Named s l v) × (Named s l v → Named s (filtered s l f) v)
  unfolding filtered
  filtered-Named l none v = (λ h. h, λ h. h)
  filtered-Named l (some f) v = (
    λ h. elim (Any-repeated (λ t. s.new_version t ≡ got v) f l l h) [ inl k ↦ k | inr k ↦ k ],
    Any-append (λ t. s.new_version t ≡ got v) l (filter f l),
  )

  last-Ascending :
      (vs : List s.Version) (v : s.Version)
      → Ascending s vs
      → last? vs ≡ some v
      → All (λ w. s.greater_than_equal v w ≡ true) vs
  last-Ascending [] v a e = tt
  last-Ascending (x ∷ []) v a e =
      (subst (λ y. s.greater_than_equal y x ≡ true) (ground (arith, e)) (laws.reflexive x), tt)
  last-Ascending (x ∷ y ∷ vs) v (a, rest) e = (
    All-last (λ z. s.greater_than_equal z x ≡ true) (y ∷ vs) e a,
    last-Ascending (y ∷ vs) v rest e,
  )

  latest_of-eq-ok : (o : Option s.Version) {v : s.Version} → latest_of s o ≡ ok v → o ≡ some v
  latest_of-eq-ok none h = absurd (ground (arith, h))
  latest_of-eq-ok (some w) h = cc

  get_latest_valid_version-IsLatest :
      (versions : List String) (semvers : String) (f : Option (String → Bool)) (v : s.Version)
      → get_latest_valid_version s versions semvers f ≡ ok v
      → IsLatest s versions semvers v
  unfolding get_latest_valid_version
  get_latest_valid_version-IsLatest versions semvers f v h =
      let l = filtered s versions f in
      let (c, e1, h1) = >>=-eq-ok (outcome (s.new_constraint semvers)) _ h in
      let (vs, e2, h2) = >>=-eq-ok (outcome (s.match_version_strings l c)) _ h1 in
      let matched = outcome-eq-ok _ e2 in
      let last = latest_of-eq-ok (last? vs) h2 in
      let (listed, meets) = All-last _ vs last (laws.named l c vs matched) in
      let greatest = last-Ascending vs v (laws.ascending l c vs matched) last in
      record {
        constraint = c;
        parsed = outcome-eq-ok _ e1;
        named = (filtered-Named versions f v).0 listed;
        meets = meets;
        greatest = λ w n k.
            All-Any (λ x. s.greater_than_equal v x ≡ true) vs
              (laws.complete l c vs matched w ((filtered-Named versions f w).1 n) k) greatest;
      }

  -- What a component version is that is the effective one.
  pub record Settled (repo : LiveRepo) (component : String) (policy : DowngradePolicy)
      (semvers reconciled v : String) : Type 0 where
    pub access : ComponentAccess
    pub versions : List String
    pub latest : s.Version
    pub found : repo.lookup_component component ≡ got access
    pub closed : access.close ≡ none
    pub listed : access.list_versions ≡ got versions
    pub is_latest : IsLatest s versions semvers latest
    pub result : v ≡ s.original latest
    pub permitted : Permitted s repo policy access.name reconciled latest

  -- Whenever DetermineEffectiveVersionFromLiveRepo returns a version, given the documented laws of
  -- MatchVersionStrings, it denotes a greatest one among all versions that the component lists and
  -- that meet the constraint, and the move to it is permitted: there was no version before, or it is
  -- not smaller than the version before, or the policy is Enforce, or the policy is Allow and the
  -- label of the version before agrees to it. The component access was closed without an error.
  pub determine_effective_version-Settled :
      (repo : LiveRepo) (component : String) (policy : DowngradePolicy)
      (semver_filter semvers reconciled v : String)
      → determine_effective_version s repo component policy semver_filter semvers reconciled ≡ ok v
      → Settled repo component policy semvers reconciled v
  determine_effective_version-Settled repo component policy sf semvers reconciled v h =
      let (access, found, closed, chosen) =
        determine_effective_version-Chosen s repo component policy sf semvers reconciled v h in
      record {
        access = access;
        versions = chosen.versions;
        latest = chosen.latest;
        found = found;
        closed = closed;
        listed = chosen.listed;
        is_latest =
            get_latest_valid_version-IsLatest chosen.versions semvers (some chosen.accepts)
              chosen.latest chosen.is_latest;
        result = chosen.result;
        permitted = chosen.permitted;
      }

  -- The filter of a component does not narrow the choice of its version: given the documented laws
  -- of MatchVersionStrings, the version that is chosen with a filter is a greatest one among all
  -- listed versions that meet the constraint, those that the filter rejects included, and it is
  -- equal in precedence to the version that is chosen without a filter.
  pub get_latest_valid_version_unfiltered :
      (versions : List String) (semvers : String) (f : String → Bool) (v : s.Version)
      → get_latest_valid_version s versions semvers (some f) ≡ ok v
      → IsLatest s versions semvers v
        × ((w : s.Version)
            → get_latest_valid_version s versions semvers none ≡ ok w
            → (s.greater_than_equal v w ≡ true) × (s.greater_than_equal w v ≡ true))
  get_latest_valid_version_unfiltered versions semvers f v h =
      let a = get_latest_valid_version-IsLatest versions semvers (some f) v h in
      (
        a,
        λ w k.
            let b = get_latest_valid_version-IsLatest versions semvers none w k in
            let same : a.constraint ≡ b.constraint = ground (arith, sym a.parsed ∙ b.parsed) in
            (
              a.greatest w b.named (ap (λ c. s.check c w) same ∙ b.meets),
              b.greatest v a.named (ap (λ c. s.check c v) (sym same) ∙ a.meets),
            ),
      )
