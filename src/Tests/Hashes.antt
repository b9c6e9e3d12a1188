-- ===== src/Tests/Hashes.antt =====
-- Digests at concrete inputs; the hash is the identity, which is injective.
use mathlib.Core.List
use ocm_k8s_toolkit.Prelude.{String, ◌≡◌, ◌≢◌, ◌↔◌, arith, refl, true, some, [], ◌∷◌}
use ocm_k8s_toolkit.Errors.{ok, got, hash_mismatch}
use ocm_k8s_toolkit.Sorting.{sort}
use ocm_k8s_toolkit.Sorting.Bytes.{Bytes, bytes_le}
use ocm_k8s_toolkit.Hash.{DataMap, secret, value_at, bytes_eq, hash_map, object_data_hash}
use ocm_k8s_toolkit.Hash.Encoding.{hash_map_collision}
use ocm_k8s_toolkit.Hash.Objects.{object_data_hash_perm}
use ocm_k8s_toolkit.Hash.Compare.{
  DigestSpec, returns, compare_cached_and_live_hashes, compare_digest_iff, compare_mismatch_iff,
}
use ocm_k8s_toolkit.Tests.Samples.{descriptors, opened}

abbrev digest : DigestSpec
digest = record { hash_algorithm = "SHA-256"; normalisation_algorithm = "v3"; value = "descriptor" }

compare_digest_iff_example :
    ((compare_cached_and_live_hashes descriptors "v3" "SHA-256" "descriptor"
        (got (opened "descriptor"))).0
      ≡ some digest)
    ↔ ((descriptors.hash "descriptor" ≡ got digest.value)
        × (descriptors.hash "descriptor" ≡ got digest.value)
        × (digest.hash_algorithm ≡ "SHA-256")
        × (digest.normalisation_algorithm ≡ "v3"))
compare_digest_iff_example =
    compare_digest_iff descriptors "v3" "SHA-256" "descriptor" (opened "descriptor") digest

compare_mismatch_iff_example :
    (returns
        (compare_cached_and_live_hashes descriptors "v3" "SHA-256" "old" (got (opened "new"))).1
        hash_mismatch
      ≡ true)
    ↔ ((x : String) × (y : String) × (descriptors.hash "old" ≡ got x)
        × (descriptors.hash "new" ≡ got y)
        × (x ≢ y))
compare_mismatch_iff_example = compare_mismatch_iff descriptors "v3" "SHA-256" "old" (opened "new")

abbrev same_bytes : Bytes → Bytes
same_bytes b = b

abbrev ab : DataMap
ab = (1 ∷ [], 7 ∷ []) ∷ (2 ∷ [], 8 ∷ []) ∷ []

abbrev ba : DataMap
ba = (2 ∷ [], 8 ∷ []) ∷ (1 ∷ [], 7 ∷ []) ∷ []

same_values : (k : Bytes) → value_at ab k ≡ value_at ba k
unfolding value_at bytes_eq
same_values [] = refl
same_values (x ∷ []) = ground arith
same_values (x ∷ y ∷ k) = ground arith

hash_map_collision_example :
    hash_map same_bytes ((1 ∷ [], 5 ∷ []) ∷ (2 ∷ [], 6 ∷ []) ∷ [])
    ≡ hash_map same_bytes ((1 ∷ [], 5 ∷ 0 ∷ 2 ∷ 0 ∷ 6 ∷ []) ∷ [])
unfolding bytes_le bytes_eq
hash_map_collision_example =
    hash_map_collision same_bytes (1 ∷ []) (5 ∷ []) (2 ∷ []) (6 ∷ []) refl refl

object_data_hash_perm_example :
    object_data_hash same_bytes (secret "default" "a" [] ∷ secret "default" "b" [] ∷ []) ≡ ok []
unfolding object_data_hash sort bytes_le
object_data_hash_perm_example =
    object_data_hash_perm same_bytes
      (List.Perm.swap (secret "default" "a" []) (secret "default" "b" []) []) refl
