-- ===== src/Hash/Agreement.antt =====
-- CompareCachedAndLiveHashes returns a digest whenever its caller goes on.
use ocm_k8s_toolkit.Prelude.{
  String, ◌≡◌, refl, true, false, Option, none, some, arith, Bool-cases, ◌==◌, ◌⊎◌, inl, inr,
}
use ocm_k8s_toolkit.Errors.{
  Error, Fault, unstable_hash, join_errors, error_is, failure, Reply, got, fault,
}
use ocm_k8s_toolkit.Hash.Compare.{
  DigestSpec, Descriptors, Opened, returns, returns-join_failure, compare_hashes, with_live_hash,
  compare_versions, compare_cached_and_live_hashes,
}

-- no error, or the one that the component controller only reports
abbrev pub Passes : Option Error → Type 0
Passes e = (e ≡ none) ⊎ (returns e unstable_hash ≡ true)

Passes-join_failure :
    (e : Option Error) (c : Option Fault) → Passes (join_errors e (failure c)) → Passes e
unfolding join_errors
Passes-join_failure none c h = inl refl
Passes-join_failure (some e) none h = h
Passes-join_failure (some e) (some f) (inl h) = absurd (ground arith)
Passes-join_failure (some e) (some f) (inr h) =
    inr (rw (returns-join_failure (some e) (some f) unstable_hash) at h)

module _ {D : Type 0} (lib : Descriptors D) (norm_algo algorithm : String) where
  compare_hashes_agree :
      (c l : String) (u : Option Error)
      → Passes (compare_hashes lib norm_algo algorithm c l u).1
      → (d : DigestSpec) × ((compare_hashes lib norm_algo algorithm c l u).0 ≡ some d)
  unfolding compare_hashes error_is
  compare_hashes_agree c l u h = elim (Bool-cases (c == l)) [
    | inl e ↦ (
      record { hash_algorithm = algorithm; normalisation_algorithm = norm_algo; value = c },
      rw e,
    )
    | inr e ↦ absurd (differ e h)
  ]
    where
      differ : (c == l) ≡ false → Passes (compare_hashes lib norm_algo algorithm c l u).1 → ⊥
      differ e (inl p) = ground arith
      differ e (inr p) = ground arith

  with_live_hash_agree :
      (c l : Reply String) (u : Option Error)
      → Passes (with_live_hash lib norm_algo algorithm c l u).1
      → (d : DigestSpec) × ((with_live_hash lib norm_algo algorithm c l u).0 ≡ some d)
  unfolding with_live_hash error_is
  with_live_hash_agree (fault f) l u (inl h) = absurd (ground arith)
  with_live_hash_agree (fault f) l u (inr h) = absurd (ground arith)
  with_live_hash_agree (got c) (fault f) u (inl h) = absurd (ground arith)
  with_live_hash_agree (got c) (fault f) u (inr h) = absurd (ground arith)
  with_live_hash_agree (got c) (got l) u h = compare_hashes_agree c l u h

  pub compare_agrees :
      (cached : D) (live : Reply (Opened D))
      → Passes (compare_cached_and_live_hashes lib norm_algo algorithm cached live).1
      → (d : DigestSpec) × ((compare_cached_and_live_hashes lib norm_algo algorithm cached live).0
          ≡ some d)
  unfolding compare_cached_and_live_hashes compare_versions error_is
  compare_agrees cached (fault f) (inl h) = absurd (ground arith)
  compare_agrees cached (fault f) (inr h) = absurd (ground arith)
  compare_agrees cached (got l) h =
      with_live_hash_agree (lib.hash cached) (lib.hash l.descriptor) _
        (Passes-join_failure _ l.close h)
