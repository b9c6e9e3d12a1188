-- ===== src/Hash/Encoding.antt =====
-- HashMap and hashBytesHex: on which contents two digests can agree.
use Prim.Native.Nat.{◌/◌, ◌%◌}
use mathlib.Core.List.{Perm, append_assoc, append_cancel_right}
use ocm_k8s_toolkit.Prelude.{
  ℕ, ◌<◌, ◌≡◌, ◌≢◌, refl, sym, ap, ◌∙◌, true, false, some, List, [], ◌∷◌, ◌++◌, arith, All,
  All-append,
}
use ocm_k8s_toolkit.Sorting.{sort, sort_perm}
use ocm_k8s_toolkit.Sorting.Bytes.{Bytes, bytes_le, bytes_le-IsTotalOrder, Bytes-set}
use ocm_k8s_toolkit.Hash.{
  bytes_eq, DataMap, keys, value_at, write_keys, hash_map, hash_bytes_hex, hex, hex_digit,
}

-- no byte is 0
abbrev pub IsNulFree : Bytes → Type 0
IsNulFree = All (λ b. 0 < b)

abbrev pub IsByteString : Bytes → Type 0
IsByteString = All (λ b. b < 256)

split_nul :
    (a b r s : Bytes) → IsNulFree a → IsNulFree b → a ++ (0 ∷ r) ≡ b ++ (0 ∷ s) → (a ≡ b) × (r ≡ s)
split_nul [] [] r s ha hb e = (refl, cc)
split_nul [] (y ∷ b) r s ha hb e = absurd (ground arith)
split_nul (x ∷ a) [] r s ha hb e = absurd (ground arith)
split_nul (x ∷ a) (y ∷ b) r s ha hb e = ground (arith, split_nul a b r s ha.1 hb.1)

nul≢end : (a r : Bytes) → [] ≢ a ++ (0 ∷ r)
nul≢end [] r e = cc
nul≢end (x ∷ a) r e = cc

-- HashMap writes an encoding that can be read back: two maps whose keys and values hold no zero
-- byte, and for which the same bytes are written, have the same sorted keys and the same value at
-- each of them.
pub write_keys_inj :
    (m n : DataMap) (ks ls : List Bytes)
    → All (λ k. IsNulFree k × IsNulFree (value_at m k)) ks
    → All (λ l. IsNulFree l × IsNulFree (value_at n l)) ls
    → write_keys m ks ≡ write_keys n ls
    → (ks ≡ ls) × All (λ k. value_at m k ≡ value_at n k) ks
unfolding write_keys
write_keys_inj m n [] [] hk hl e = (refl, tt)
write_keys_inj m n [] (l ∷ ls) hk hl e = absurd (nul≢end l _ e)
write_keys_inj m n (k ∷ ks) [] hk hl e = absurd (nul≢end k _ (sym e))
write_keys_inj m n (k ∷ ks) (l ∷ ls) hk hl e =
    let first = split_nul k l _ _ hk.0.0 hl.0.0 e in
    let second = split_nul (value_at m k) (value_at n l) _ _ hk.0.1 hl.0.1 first.1 in
    let rest = write_keys_inj m n ks ls hk.1 hl.1 second.1 in
    (cc (first.0, rest.0), (second.0 ∙ ap (value_at n) (sym first.0), rest.1))

write_keys_ext :
    (m n : DataMap) (ks : List Bytes)
    → ((k : Bytes) → value_at m k ≡ value_at n k)
    → write_keys m ks ≡ write_keys n ks
unfolding write_keys
write_keys_ext m n [] h = refl
write_keys_ext m n (k ∷ ks) h = cc (h k, write_keys_ext m n ks h)

bytes_eq_refl : (k : Bytes) → bytes_eq k k ≡ true
unfolding bytes_eq
bytes_eq_refl [] = refl
bytes_eq_refl (x ∷ k) = ground (arith, bytes_eq_refl k)

module _ (sha : Bytes → Bytes) where
  -- The digest depends on the contents of the map alone and not on the order in which Go's loop
  -- meets the keys.
  hash_map_ext :
      (m n : DataMap)
      → Perm (keys m) (keys n)
      → ((k : Bytes) → value_at m k ≡ value_at n k)
      → hash_map sha m ≡ hash_map sha n
  unfolding hash_map
  hash_map_ext m n p h = ap sha (
      write_keys_ext m n _ h
      ∙ ap (write_keys n) (sort_perm bytes_le bytes_le-IsTotalOrder Bytes-set p))

  -- Values that hold zero bytes make the encoding ambiguous: a map with two keys and the map with
  -- the first key alone, whose value spells out the rest, have the same digest for every hash.
  pub hash_map_collision :
      (k v l w : Bytes)
      → bytes_le k l ≡ true
      → bytes_eq k l ≡ false
      → hash_map sha ((k, v) ∷ (l, w) ∷ []) ≡ hash_map sha ((k, v ++ (0 ∷ (l ++ (0 ∷ w)))) ∷ [])
  unfolding hash_map value_at sort
  hash_map_collision k v l w le ne =
      rw (le, bytes_eq_refl k, bytes_eq_refl l, ne) (simp append_assoc)

hex_byte_inj :
    (a b : ℕ)
    → a < 256
    → b < 256
    → hex_digit (a / 16) ≡ hex_digit (b / 16)
    → hex_digit (a % 16) ≡ hex_digit (b % 16)
    → a ≡ b
hex_byte_inj a b ha hb p q = ground arith

hex_inj : (a b : Bytes) → IsByteString a → IsByteString b → hex a ≡ hex b → a ≡ b
unfolding hex
hex_inj [] [] ha hb e = refl
hex_inj [] (y ∷ b) ha hb e = cc
hex_inj (x ∷ a) [] ha hb e = cc
hex_inj (x ∷ a) (y ∷ b) ha hb e = ground (arith, hex_inj a b ha.1 hb.1, hex_byte_inj x y ha.0 hb.0)

-- The key of a repository determines its specification: equal keys come from equal specifications,
-- whatever the hash, since the specification itself is spelled out in the key.
hash_bytes_hex_inj :
    (sha : Bytes → Bytes) (a b : Bytes)
    → IsByteString (sha [])
    → IsByteString a
    → IsByteString b
    → hash_bytes_hex sha (some a) ≡ hash_bytes_hex sha (some b)
    → a ≡ b
unfolding hash_bytes_hex
hash_bytes_hex_inj sha a b hs ha hb e = append_cancel_right a b (sha []) (
    hex_inj (a ++ sha []) (b ++ sha []) (All-append (λ x. x < 256) a (sha []) ha hs)
      (All-append (λ x. x < 256) b (sha []) hb hs) e)
