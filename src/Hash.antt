-- ===== src/Hash.antt =====
-- internal/ocm/hash.go and hashBytesHex of internal/ocm/context_cache.go: the digests under which
-- contexts and sessions are cached. SHA-256 is the parameter `sha`.
pub mod Encoding
pub mod Objects
pub mod Compare
pub mod Agreement
use Prim.Native.Nat.{◌/◌, ◌%◌}
use ocm_k8s_toolkit.Prelude.{
  ℕ, ◌+◌, String, str_append, Bool, true, false, Option, none, some, List, [], ◌∷◌, ◌++◌, map, ltb,
  nat_eq, is_empty, ◌&&◌, if◌then◌else◌,
}
use ocm_k8s_toolkit.Errors.{Error, new, Outcome, ok, err, ◌>>=◌}
use ocm_k8s_toolkit.Sorting.{sort}
use ocm_k8s_toolkit.Sorting.Bytes.{Bytes, bytes_le}

unfoldable pub bytes_eq : Bytes → Bytes → Bool
bytes_eq [] [] = true
bytes_eq [] (y ∷ b) = false
bytes_eq (x ∷ a) [] = false
bytes_eq (x ∷ a) (y ∷ b) = nat_eq x y && bytes_eq a b

-- A `map[string][]byte`, its entries in the order in which a loop meets them.
abbrev pub DataMap : Type 0
DataMap = List (Bytes × Bytes)

abbrev pub keys : DataMap → List Bytes
keys m = map (λ e. e.0) m

-- `data[k]`, which is nil for a missing key
unfoldable pub value_at : DataMap → Bytes → Bytes
unfolding bytes_eq
value_at [] k = []
value_at ((j, v) ∷ m) k = let rest = value_at m k in if bytes_eq j k then v else rest

-- `m[k] = v`
unfoldable pub put : DataMap → Bytes → Bytes → DataMap
unfolding bytes_eq
put [] k v = (k, v) ∷ []
put ((j, w) ∷ m) k v = let rest = put m k v in if bytes_eq j k then (k, v) ∷ m else (j, w) ∷ rest

unfoldable pub copy_into : DataMap → DataMap → DataMap
unfolding put
copy_into m [] = m
copy_into m ((k, v) ∷ rest) = copy_into (put m k v) rest

-- what the loop of HashMap writes for the keys
unfoldable pub write_keys : DataMap → List Bytes → Bytes
unfolding value_at
write_keys m [] = []
write_keys m (k ∷ ks) = k ++ (0 ∷ (value_at m k ++ (0 ∷ write_keys m ks)))

-- the objects that GetObjectHash distinguishes
pub data ConfigObject : Type 0 where
  secret : (namespace name : String) (contents : DataMap) → ConfigObject
  config_map : (namespace name : String) (contents binary : DataMap) → ConfigObject
  other_object : (type namespace name : String) → ConfigObject

abbrev pub hex_digit : ℕ → ℕ
hex_digit n = if ltb n 10 then 48 + n else 87 + n

-- hex.EncodeToString, and `%x` of fmt
unfoldable pub hex : Bytes → Bytes
hex [] = []
hex (b ∷ bs) = hex_digit (b / 16) ∷ hex_digit (b % 16) ∷ hex bs

unfoldable pub join_bytes : List Bytes → Bytes
join_bytes [] = []
join_bytes (b ∷ bs) = b ++ join_bytes bs

-- the error for an object of another type, which names the type
abbrev pub unsupported_object : String → Error
unsupported_object type =
    new (str_append "unsupported object type for data hash calculation: " type)

module _ (sha : Bytes → Bytes) where
  -- HashMap
  unfoldable pub hash_map : DataMap → Bytes
  unfolding write_keys
  hash_map m = sha (write_keys m (sort bytes_le (keys m)))

  -- GetSecretMapDataHash
  unfoldable pub secret_data_hash : DataMap → Bytes
  unfolding hash_map
  secret_data_hash m = if is_empty m then hash_map [] else hash_map m

  -- GetConfigMapDataHash
  unfoldable pub config_map_data_hash : DataMap → DataMap → Bytes
  unfolding hash_map copy_into
  config_map_data_hash contents binary =
      let m = copy_into (copy_into [] contents) binary in
      if is_empty m then hash_map [] else hash_map m

  -- GetObjectHash
  unfoldable pub object_hash : ConfigObject → Outcome Bytes
  unfolding secret_data_hash config_map_data_hash
  object_hash (secret ns n contents) = ok (secret_data_hash contents)
  object_hash (config_map ns n contents binary) = ok (config_map_data_hash contents binary)
  object_hash (other_object type ns n) = err (unsupported_object type)

  unfoldable pub object_hashes : List ConfigObject → Outcome (List Bytes)
  unfolding object_hash
  object_hashes [] = ok []
  object_hashes (o ∷ os) = do d ← object_hash o; ds ← object_hashes os; ok (d ∷ ds)

  -- GetObjectDataHash
  unfoldable pub object_data_hash : List ConfigObject → Outcome Bytes
  unfolding object_hashes hex join_bytes
  object_data_hash os = do ds ← object_hashes os; ok (hex (sha (join_bytes (sort bytes_le ds))))

  -- hashBytesHex with a fresh hash: `Sum(b)` appends the digest of nothing to `b`
  unfoldable pub hash_bytes_hex : Option Bytes → Bytes
  unfolding hex
  hash_bytes_hex none = []
  hash_bytes_hex (some b) = hex (b ++ sha [])
