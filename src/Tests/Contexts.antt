-- ===== src/Tests/Contexts.antt =====
-- Two objects with the same configuration and their context, with caches of one entry.
use ocm_k8s_toolkit.Prelude.{
  ℕ, String, ◌≡◌, refl, arith, Bool, true, false, ◌&&◌, Option, none, some, List, [], ◌∷◌, ◌++◌,
  All, ◌==◌, if◌then◌else◌, any, nat_eq, inl, ap, ltb,
}
use ocm_k8s_toolkit.Errors.{ok, got, fault, failed}
use ocm_k8s_toolkit.Hash.{bytes_eq, object_data_hash}
use ocm_k8s_toolkit.Sorting.{sort}
use ocm_k8s_toolkit.Sorting.Bytes.{Bytes}
use ocm_k8s_toolkit.Signatures.{VerificationKey}
use ocm_k8s_toolkit.ContextCache.{
  Lru, LruLaws, GetSessionOptions, CacheOps, CacheState, key_for, get_session,
}
use ocm_k8s_toolkit.ContextCache.Named.{HoldingLaws, WellNamed, IsOpen}
use ocm_k8s_toolkit.ContextCache.Open.{get_session-IsOpen}
use ocm_k8s_toolkit.ContextCache.Sharing.{keys_of, get_session-get_session}

abbrev pub evicted : {K V : Type 0} → Option (K × V) → List V
evicted none = []
evicted (some e) = e.1 ∷ []

abbrev pub find_entry : {K V : Type 0} → (K → K → Bool) → K → Option (K × V) → Option V
find_entry same k none = none
find_entry same k (some e) = if same e.0 k then some e.1 else none

abbrev pub single : {K V : Type 0} → (K → K → Bool) → Lru K V
single {K} {V} same = record {
  Cache = Option (K × V);
  get = λ k c. (find_entry same k c, c);
  add = λ k v c. (some (k, v), evicted c);
  clear = λ c. (none, evicted c);
}

abbrev pub same_pair : Bytes × Bytes → Bytes × Bytes → Bool
same_pair a b = bytes_eq a.0 b.0 && bytes_eq a.1 b.1

pub bytes_eq_refl : (b : Bytes) → bytes_eq b b ≡ true
unfolding bytes_eq
bytes_eq_refl [] = refl
bytes_eq_refl (x ∷ b) = ground (arith, bytes_eq_refl b)

pub single_laws : LruLaws (single {K = Bytes} {V = ℕ} bytes_eq)
single_laws = record { get-add = λ k v c. rw (bytes_eq_refl k); get-get = λ k c. refl }

abbrev pub same_bytes : Bytes → Bytes
same_bytes b = b

abbrev pub cache_ops : CacheOps
cache_ops = record {
  get_object = λ c. fault (failed "no such object");
  configure = λ o. none;
  decode_string = λ t. got t;
  get_secret = λ k. fault (failed "no such secret");
}

abbrev asking : String → GetSessionOptions
asking key = record {
  repository_specification = some (123 ∷ 125 ∷ []);
  ocm_configurations = [];
  verification_provider =
      some ("default", record { signature = "acme"; secret_ref = ""; value = key } ∷ []);
}

abbrev pub empty : CacheState (single bytes_eq) (single same_pair)
empty = record {
  context_cache = none;
  session_cache = none;
  registry = [];
  owned = [];
  closed = [];
  fresh = 0;
  gauges = [];
}

abbrev once : CacheState (single bytes_eq) (single same_pair)
once =
    (get_session (single bytes_eq) (single same_pair) same_bytes cache_ops (asking "one") empty).1

abbrev twice : CacheState (single bytes_eq) (single same_pair)
twice =
    (get_session (single bytes_eq) (single same_pair) same_bytes cache_ops (asking "two") once).1

get_session-get_session_example :
    (◌≡◌ {A = ℕ} 0 0)
    × ((front back : List VerificationKey) (k : VerificationKey)
        → keys_of
            (single bytes_eq)
            (single same_pair)
            single_laws
            same_bytes
            cache_ops
            (asking "two").verification_provider
          ≡ ok (front ++ k ∷ back)
        → All (λ j. (j.signature == k.signature) ≡ false) back
        → key_for 0 k.signature twice.registry ≡ some k.public_key)
unfolding get_session bytes_eq object_data_hash sort
get_session-get_session_example =
    get_session-get_session (single bytes_eq) (single same_pair) single_laws same_bytes cache_ops
      (asking "one") (asking "two") [] empty once twice 0 0 1 1 ([], refl, refl) ([], refl, refl)
      refl refl

abbrev HeldBy : {K : Type 0} → Option (K × ℕ) → ℕ → Type 0
HeldBy none v = ⊥
HeldBy (some e) v = v ≡ e.1

evicted-HeldBy :
    {K : Type 0} (c : Option (K × ℕ)) (v : ℕ) → any (nat_eq v) (evicted c) ≡ true → HeldBy c v
unfolding any
evicted-HeldBy none v h = absurd (ground arith)
evicted-HeldBy (some e) v h = ground (arith, h)

abbrev single_holding : HoldingLaws (single {K = Bytes × Bytes} {V = ℕ} same_pair)
single_holding = record {
  Held = HeldBy;
  held-get = λ k c v h. h;
  held-add = λ k x c v h. inl h;
  evicts = λ k x c v h. evicted-HeldBy c v h;
  held-clear = λ c v h. h;
  clears = λ c v h. evicted-HeldBy c v h;
}

-- another repository, whose session takes the place of the first one
abbrev elsewhere : GetSessionOptions
elsewhere = record (asking "one") { repository_specification = none }

abbrev moved : CacheState (single bytes_eq) (single same_pair)
moved = (get_session (single bytes_eq) (single same_pair) same_bytes cache_ops elsewhere once).1

abbrev back : CacheState (single bytes_eq) (single same_pair)
back =
    (get_session (single bytes_eq) (single same_pair) same_bytes cache_ops (asking "one") moved).1

moved_known :
    WellNamed (single bytes_eq) (single same_pair) single_holding same_bytes cache_ops moved
unfolding get_session bytes_eq object_data_hash sort any
moved_known = record {
  held = λ s h. let k : s ≡ 2 = h in ap (λ n. ltb n 3) k;
  owns = λ s h. ground (arith, h);
  closes = λ s h. ground (arith, h);
}

get_session-IsOpen_example :
    IsOpen (single bytes_eq) (single same_pair) single_holding same_bytes cache_ops 3 back
unfolding get_session bytes_eq object_data_hash sort
get_session-IsOpen_example =
    get_session-IsOpen (single bytes_eq) (single same_pair) single_holding same_bytes cache_ops
      (asking "one") moved back 0 3 moved_known refl
