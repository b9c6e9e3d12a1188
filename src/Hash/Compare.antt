-- ===== src/Hash/Compare.antt =====
-- CompareCachedAndLiveHashes of internal/ocm/hash.go.
use ocm_k8s_toolkit.Prelude.{
  String, ◌≡◌, ◌≢◌, refl, Bool, true, false, not, Option, none, some, arith, ◌==◌, eq_iff,
  if◌then◌else◌, ◌↔◌,
}
use ocm_k8s_toolkit.Errors.{
  Error, Fault, Sentinel, external, sentinel, wrap, join, unstable_hash, not_normalizeable,
  hash_mismatch, join_errors, error_is, failure, Reply, got, fault,
}

-- DigestSpec of the OCM library
pub record DigestSpec : Type 0 where
  pub hash_algorithm : String
  pub normalisation_algorithm : String
  pub value : String

-- What the OCM library offers on the descriptors of type `D`.
pub record Descriptors (D : Type 0) : Type 0 where
  pub is_normalizeable : D → Option Fault
  pub hash : D → Reply String

-- An open component version: its descriptor, and what closing it returns.
pub record Opened (D : Type 0) : Type 0 where
  pub descriptor : D
  pub close : Option Fault

-- `fmt.Errorf("cached %w: %w", …)` if there is a reason why the version is not normalizeable
abbrev pub instability : String → Option Fault → Option Error
instability which none = none
instability which (some f) = some (wrap which (join (sentinel not_normalizeable) (external f)))

abbrev pub unstable : Option Error → Option Error
unstable none = none
unstable (some e) = some (join (sentinel unstable_hash) e)

-- the error, if there is one, is the sentinel
abbrev pub returns : Option Error → Sentinel → Bool
returns none t = false
returns (some e) t = error_is e t

pub returns-join_failure :
    (e : Option Error) (c : Option Fault) (t : Sentinel)
    → returns (join_errors e (failure c)) t ≡ returns e t
unfolding join_errors error_is
returns-join_failure none none t = refl
returns-join_failure none (some f) t = refl
returns-join_failure (some e) none t = refl
returns-join_failure (some e) (some f) t = ground arith

module _ {D : Type 0} (lib : Descriptors D) (norm_algo algorithm : String) where
  -- the comparison of the two hashes, once they are computed
  unfoldable pub compare_hashes : String → String → Option Error → Option DigestSpec × Option Error
  compare_hashes cached live unstable_error =
      if cached == live
      then (
        some (record {
          hash_algorithm = algorithm;
          normalisation_algorithm = norm_algo;
          value = cached;
        }),
        unstable unstable_error,
      )
      else (none, some (wrap "hashes differ" (sentinel hash_mismatch)))

  unfoldable pub with_live_hash :
      Reply String → Reply String → Option Error → Option DigestSpec × Option Error
  unfolding compare_hashes
  with_live_hash (fault f) live u =
      (none, some (wrap "failed to hash cached component version" (external f)))
  with_live_hash (got c) (fault f) u =
      (none, some (wrap "failed to hash live component version" (external f)))
  with_live_hash (got c) (got l) u = compare_hashes c l u

  -- the body, before the deferred close of the live version
  unfoldable pub compare_versions : D → D → Option DigestSpec × Option Error
  unfolding with_live_hash join_errors
  compare_versions cached live = with_live_hash (lib.hash cached) (lib.hash live) (
      join_errors (instability "cached" (lib.is_normalizeable cached))
        (instability "live" (lib.is_normalizeable live)))

  -- CompareCachedAndLiveHashes, given the cached descriptor and the lookup of the live version
  unfoldable pub compare_cached_and_live_hashes :
      D → Reply (Opened D) → Option DigestSpec × Option Error
  unfolding compare_versions join_errors
  compare_cached_and_live_hashes cached (fault f) = (
    none,
    some
        (wrap "failed to lookup live component version to compare with current state" (external f)),
  )
  compare_cached_and_live_hashes cached (got l) =
      let (spec, e) = compare_versions cached l.descriptor in
      (spec, join_errors e (failure l.close))

  with_live_hash_digest :
      (c l : Reply String) (u : Option Error) (spec : DigestSpec)
      → ((with_live_hash c l u).0 ≡ some spec) ↔ (
          (c ≡ got spec.value)
          × (l ≡ got spec.value)
          × (spec.hash_algorithm ≡ algorithm)
          × (spec.normalisation_algorithm ≡ norm_algo))
  unfolding with_live_hash
  with_live_hash_digest (fault f) l u spec = (λ h. cc, λ h. cc (h.0))
  with_live_hash_digest (got c) (fault f) u spec = (λ h. cc, λ h. cc (h.1))
  with_live_hash_digest (got c) (got l) u spec =
      (λ h. ground (arith, eq_iff c l), λ h. ground (arith, eq_iff c l))

  -- A digest is returned exactly if both hashes are computed and agree, and it carries that hash.
  pub compare_digest_iff :
      (cached : D) (l : Opened D) (spec : DigestSpec)
      → ((compare_cached_and_live_hashes cached (got l)).0 ≡ some spec) ↔ (
          (lib.hash cached ≡ got spec.value)
          × (lib.hash l.descriptor ≡ got spec.value)
          × (spec.hash_algorithm ≡ algorithm)
          × (spec.normalisation_algorithm ≡ norm_algo))
  unfolding compare_cached_and_live_hashes compare_versions
  compare_digest_iff cached l spec =
      with_live_hash_digest (lib.hash cached) (lib.hash l.descriptor) _ spec

  compare_hashes_mismatch :
      (c l : String) (a b : Option Fault)
      → returns
          (compare_hashes c l (join_errors (instability "cached" a) (instability "live" b))).1
          hash_mismatch
        ≡ not (c == l)
  unfolding compare_hashes error_is join_errors
  compare_hashes_mismatch c l a b = ground arith

  with_live_hash_mismatch :
      (c l : Reply String) (a b : Option Fault)
      → (returns
            (with_live_hash c l (join_errors (instability "cached" a) (instability "live" b))).1
            hash_mismatch
          ≡ true)
        ↔ ((x : String) × (y : String) × (c ≡ got x) × (l ≡ got y) × (x ≢ y))
  unfolding with_live_hash error_is join_errors
  with_live_hash_mismatch (fault f) l a b = (λ h. cc, λ h. cc (h.2))
  with_live_hash_mismatch (got c) (fault f) a b = (λ h. cc, λ h. cc (h.3))
  with_live_hash_mismatch (got c) (got l) a b = (
    λ h. (c, l, refl, refl, λ e. ground (arith, compare_hashes_mismatch c l a b, eq_iff c l)),
    λ h. ground (arith, compare_hashes_mismatch c l a b, eq_iff c l),
  )

  -- The mismatch error, on which the component controller closes its session, is returned exactly
  -- if both hashes are computed and differ, whatever closing the live version returns.
  pub compare_mismatch_iff :
      (cached : D) (l : Opened D)
      → (returns (compare_cached_and_live_hashes cached (got l)).1 hash_mismatch ≡ true) ↔ (
          (x : String) × (y : String) × (lib.hash cached ≡ got x)
          × (lib.hash l.descriptor ≡ got y)
          × (x ≢ y))
  unfolding compare_cached_and_live_hashes compare_versions
  compare_mismatch_iff cached l = rw returns-join_failure (
      with_live_hash_mismatch (lib.hash cached) (lib.hash l.descriptor)
        (lib.is_normalizeable cached) (lib.is_normalizeable l.descriptor))
