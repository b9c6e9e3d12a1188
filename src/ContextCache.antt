-- ===== src/ContextCache.antt =====
-- internal/ocm/context_cache.go: contexts that are shared by the hash of their configuration, and
-- sessions by that hash and the hash of their repository. The caller holds the retrieval lock.
pub mod Named
pub mod Open
pub mod Configure
pub mod Sharing
use ocm_k8s_toolkit.Prelude.{
  ℕ, suc, String, ◌≡◌, Bool, true, false, ◌&&◌, ◌||◌, Option, none, some, List, [], ◌∷◌, ◌++◌, ◌==◌,
  map, filter, any, nat_eq, if◌then◌else◌,
}
use ocm_k8s_toolkit.Errors.{
  new, Error, Fault, new, external, wrap, wrapping, join_errors, Outcome, ok, err, Reply, got,
  fault, outcome,
}
use ocm_k8s_toolkit.Api.{OcmConfiguration, ObjectKey, Verification}
use ocm_k8s_toolkit.Config.{is_data_kind}
use ocm_k8s_toolkit.Exec.{Flow, next, Exec, ◌>>=◌, ◌>>◌, pure, raise, attempt, modify, check}
use ocm_k8s_toolkit.Hash.{ConfigObject, object_data_hash, hash_bytes_hex}
use ocm_k8s_toolkit.Signatures.{VerificationKey, SecretData, get_verifications}
use ocm_k8s_toolkit.Sorting.Bytes.{Bytes}

-- lru.Cache of groupcache: what `Get` finds, and the values that `Add` evicts.
pub record Lru (K V : Type 0) : Type 1 where
  pub Cache : Type 0
  pub get : K → Cache → Option V × Cache
  pub add : K → V → Cache → Cache × List V
  pub clear : Cache → Cache × List V

-- What a cache with room for an entry promises.
pub record LruLaws {K V : Type 0} (lru : Lru K V) : Type 0 where
  pub get-add : (k : K) (v : V) (c : lru.Cache) → (lru.get k (lru.add k v c).0).0 ≡ some v
  pub get-get : (k : K) (c : lru.Cache) → (lru.get k (lru.get k c).1).0 ≡ (lru.get k c).0

-- GetSessionOptions; the verifications come with the namespace of the object that has them
pub record GetSessionOptions : Type 0 where
  pub repository_specification : Option Bytes
  pub ocm_configurations : List OcmConfiguration
  pub verification_provider : Option (String × List Verification)

-- The client, base64, and the application of a configuration object to a new context.
pub record CacheOps : Type 0 where
  pub get_object : OcmConfiguration → Reply ConfigObject
  pub configure : ConfigObject → Option Error
  pub decode_string : String → Reply String
  pub get_secret : ObjectKey → Reply SecretData

pub data GaugeCall : Type 0 where
  contexts_inc contexts_dec sessions_inc : GaugeCall

-- a key that is registered in a context: the context, the signature and the key
abbrev pub Registered : Type 0
Registered = ℕ × VerificationKey

-- The key that a context has for a signature: the one that was registered last.
unfoldable pub key_for : ℕ → String → List Registered → Option String
key_for octx signature [] = none
key_for octx signature (r ∷ l) =
    let rest = key_for octx signature l in
    if nat_eq r.0 octx && r.1.signature == signature then some r.1.public_key else rest

abbrev pub register_keys : ℕ → List VerificationKey → List Registered → List Registered
register_keys octx [] l = l
register_keys octx (k ∷ ks) l = register_keys octx ks ((octx, k) ∷ l)

module _ (contexts : Lru Bytes ℕ) (sessions : Lru (Bytes × Bytes) ℕ) where
  -- The two caches, the keys that are registered, the session that each context closes when it is
  -- finalized, the sessions that are closed, the next name, and the calls of the gauges.
  pub record CacheState : Type 0 where
    pub context_cache : contexts.Cache
    pub session_cache : sessions.Cache
    pub registry : List Registered
    pub owned : List (ℕ × ℕ)
    pub closed : List ℕ
    pub fresh : ℕ
    pub gauges : List GaugeCall

  abbrev pub Cached : Type 0 → Type 0
  Cached A = Exec CacheState (Unit {0}) A

  -- the sessions that a context closes
  abbrev pub sessions_of : List (ℕ × ℕ) → List ℕ → List ℕ
  sessions_of owned evicted = map (λ o. o.1) (filter (λ o. any (λ c. nat_eq c o.0) evicted) owned)

  -- the eviction functions of NewContextCache
  abbrev pub evict_contexts : List ℕ → CacheState → CacheState
  evict_contexts evicted w = record w {
    closed = sessions_of w.owned evicted ++ w.closed;
    gauges = w.gauges ++ map (λ c. contexts_dec) evicted;
  }

  abbrev pub evict_sessions : List ℕ → CacheState → CacheState
  evict_sessions evicted w = record w {
    closed = evicted ++ w.closed;
    gauges = w.gauges ++ map (λ s. contexts_dec) evicted;
  }

  -- Clear
  unfoldable pub clear : CacheState → CacheState
  unfolding filter any
  clear w =
      let (s, closing) = sessions.clear w.session_cache in
      let (c, finalized) = contexts.clear w.context_cache in
      evict_contexts finalized
        (record (evict_sessions closing w) { context_cache = c; session_cache = s })

  -- Start, up to its return once the context is done: whether the cache was started before, the
  -- error, and the state
  unfoldable pub start : Bool → CacheState → Option Error × CacheState
  unfolding clear
  start true w = (some (new "already started"), w)
  start false w = (none, clear w)

  -- a new session, which the context will close, under the key
  unfoldable pub add_session : Bytes × Bytes → ℕ → Cached ℕ
  add_session key octx w =
      let (c, evicted) = sessions.add key w.fresh w.session_cache in
      (
        next w.fresh,
        evict_sessions evicted (record w {
          session_cache = c;
          owned = (octx, w.fresh) ∷ w.owned;
          fresh = suc w.fresh;
        }),
      )

  abbrev pub count : GaugeCall → CacheState → CacheState
  count g w = record w { gauges = w.gauges ++ g ∷ [] }

  -- given what the cache of sessions has under the key
  unfoldable pub session_for : Option ℕ → Bytes × Bytes → ℕ → Cached ℕ
  unfolding add_session any
  session_for none key octx w = (do s ← add_session key octx; modify (count sessions_inc); pure s) w
  session_for (some s) key octx w =
      if any (nat_eq s) w.closed then add_session key octx w else pure s w

  -- getOrCreateSession
  unfoldable pub get_or_create_session : Bytes × Bytes → ℕ → Cached ℕ
  unfolding session_for
  get_or_create_session key octx w =
      let (found, c) = sessions.get key w.session_cache in
      session_for found key octx (record w { session_cache = c })

  module _ (sha : Bytes → Bytes) (ops : CacheOps) where
    -- getConfigObjects
    unfoldable pub get_config_objects : List OcmConfiguration → Outcome (List ConfigObject)
    get_config_objects [] = ok []
    get_config_objects (c ∷ cs) =
        let rest = get_config_objects cs in
        if is_data_kind c.kind
        then elim (ops.get_object c) [
          | fault f ↦ err (wrap "get" (external f))
          | got o ↦ elim rest [ ok os ↦ ok (o ∷ os) | err e ↦ err e ]
        ]
        else err (new "unsupported configuration kind")

    -- the hash of the configuration, by which contexts are shared
    unfoldable pub config_hash : List ConfigObject → Outcome Bytes
    unfolding object_data_hash
    config_hash objs = wrapping "hash config objects" (object_data_hash sha objs)

    -- the errors of applying the objects, joined
    unfoldable pub configure_all : List ConfigObject → Option Error → Option Error
    unfolding join_errors
    configure_all [] e = e
    configure_all (o ∷ os) e = configure_all os (join_errors e (ops.configure o))

    unfoldable pub add_context : Bytes → Cached ℕ
    unfolding filter any
    add_context hash w =
        let (c, evicted) = contexts.add hash w.fresh w.context_cache in
        (
          next w.fresh,
          count contexts_inc
              (evict_contexts evicted (record w { context_cache = c; fresh = suc w.fresh })),
        )

    -- given what the cache of contexts has under the hash
    unfoldable pub context_for : Option ℕ → Bytes → List ConfigObject → Cached ℕ
    unfolding configure_all add_context
    context_for (some octx) hash objs = pure octx
    context_for none hash objs = do check (configure_all objs none) raise; add_context hash

    -- getOrCreateContext
    unfoldable pub get_or_create_context : Bytes → List ConfigObject → Cached ℕ
    unfolding context_for
    get_or_create_context hash objs w =
        let (found, c) = contexts.get hash w.context_cache in
        context_for found hash objs (record w { context_cache = c })

    abbrev pub add_keys : ℕ → List VerificationKey → CacheState → CacheState
    add_keys octx ks w = record w { registry = register_keys octx ks w.registry }

    -- registerVerifications
    unfoldable pub register_verifications :
        ℕ → Option (String × List Verification) → Cached (Unit {0})
    unfolding get_verifications
    register_verifications octx none = pure tt
    register_verifications octx (some p) = do
      ks ← attempt (get_verifications ops.decode_string ops.get_secret p.0 p.1) raise
      modify (add_keys octx ks)

    -- GetSession from the context on
    unfoldable pub open_session : GetSessionOptions → Bytes → ℕ → Cached (ℕ × ℕ)
    unfolding register_verifications get_or_create_session hash_bytes_hex
    open_session opts hash octx = do
      register_verifications octx opts.verification_provider
      session ← get_or_create_session (hash, hash_bytes_hex sha opts.repository_specification) octx
      pure (octx, session)

    -- GetSession, for options that are there
    unfoldable pub get_session : GetSessionOptions → Cached (ℕ × ℕ)
    unfolding get_config_objects config_hash get_or_create_context open_session
    get_session opts = do
      objs ← attempt (get_config_objects opts.ocm_configurations) raise
      hash ← attempt (config_hash objs) raise
      octx ← get_or_create_context hash objs
      open_session opts hash octx

    -- GetSession, whose options may be nil
    unfoldable get_session_unless_nil : Option GetSessionOptions → Cached (ℕ × ℕ)
    unfolding get_session
    get_session_unless_nil none = raise (new "opts is nil")
    get_session_unless_nil (some opts) = get_session opts
