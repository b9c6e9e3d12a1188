-- ===== src/Deployer/Downloads.antt =====
-- internal/controller/deployer/cache/digest_object_cache.go: what was downloaded for a digest, for a
-- cache that NewMemoryDigestObjectCache made.
use ocm_k8s_toolkit.Prelude.{ℕ, ◌≡◌, refl, ap, ◌∙◌, Option, none, some, List, [], ◌∷◌, ◌++◌, map}
use ocm_k8s_toolkit.Errors.{Error, Outcome, ok, err}
use ocm_k8s_toolkit.ContextCache.{Lru, LruLaws}

-- the calls of the metrics and of the eviction function
pub data CacheCall (V : Type 0) : Type 0 where
  hit miss : CacheCall V
  evict : V → CacheCall V
  set_size : ℕ → CacheCall V

module _ {K V : Type 0} (lru : Lru K V) (len : lru.Cache → ℕ) (S : Type 0) where
  -- the cache, the calls, and what the fallback reads and changes
  pub record Downloads : Type 0 where
    pub cache : lru.Cache
    pub calls : List (CacheCall V)
    pub outside : S

  abbrev pub calling : CacheCall V → Downloads → Downloads
  calling c w = record w { calls = w.calls ++ c ∷ [] }

  -- `m.cache.Add` with its evictions, and the size
  unfoldable pub add_download : K → V → Downloads → Downloads
  add_download key v w =
      let (c, evicted) = lru.add key v w.cache in
      calling (set_size (len c)) (record w { cache = c; calls = w.calls ++ map evict evicted })

  -- the result of the fallback
  unfoldable pub keep_download : K → Outcome V → Downloads → Outcome V × Downloads
  unfolding add_download
  keep_download key (ok v) w = (ok v, add_download key v w)
  keep_download key (err e) w = (err e, w)

  -- given what the cache has under the key
  unfoldable pub load_from : Option V → K → (S → Outcome V × S) → Downloads → Outcome V × Downloads
  unfolding keep_download
  load_from (some v) key fallback w = (ok v, calling hit w)
  load_from none key fallback w =
      let (o, s) = fallback w.outside in
      keep_download key o (record (calling miss w) { outside = s })

  -- Load
  unfoldable pub load : K → (S → Outcome V × S) → Downloads → Outcome V × Downloads
  unfolding load_from
  load key fallback w =
      let (found, c) = lru.get key w.cache in load_from found key fallback (record w { cache = c })

  -- What a second call of Load returns, with its effect on what the fallback reads and changes.
  abbrev pub Again : Outcome V → K → (S → Outcome V × S) → Downloads → Type 0
  Again (ok v) key fallback u =
      ((load key fallback u).0 ≡ ok v) × ((load key fallback u).1.outside ≡ u.outside)
  Again (err e) key fallback u =
      ((load key fallback u).0 ≡ (fallback u.outside).0)
      × ((load key fallback u).1.outside ≡ (fallback u.outside).1)

  keep_download-result : (key : K) (o : Outcome V) (w : Downloads) → (keep_download key o w).0 ≡ o
  unfolding keep_download
  keep_download-result key (ok v) w = refl
  keep_download-result key (err e) w = refl

  keep_download-outside :
      (key : K) (o : Outcome V) (w : Downloads) → (keep_download key o w).1.outside ≡ w.outside
  unfolding keep_download add_download
  keep_download-outside key (ok v) w = refl
  keep_download-outside key (err e) w = refl

  -- the second call, by what the cache has then
  load-some :
      (key : K) (g : S → Outcome V × S) (u : Downloads) (v : V)
      → (lru.get key u.cache).0 ≡ some v
      → Again (ok v) key g u
  unfolding load load_from
  load-some key g u v h = (
    ap (λ f. (load_from f key g (record u { cache = (lru.get key u.cache).1 })).0) h,
    ap (λ f. (load_from f key g (record u { cache = (lru.get key u.cache).1 })).1.outside) h,
  )

  load-none :
      (key : K) (g : S → Outcome V × S) (u : Downloads) (e : Error)
      → (lru.get key u.cache).0 ≡ none
      → Again (err e) key g u
  unfolding load load_from
  load-none key g u e h = (
    ap (λ f. (load_from f key g (record u { cache = (lru.get key u.cache).1 })).0) h
        ∙ keep_download-result key (g u.outside).0 _,
    ap (λ f. (load_from f key g (record u { cache = (lru.get key u.cache).1 })).1.outside) h
        ∙ keep_download-outside key (g u.outside).0 _,
  )

  load_from-Again :
      (laws : LruLaws lru) (found : Option V) (key : K) (f g : S → Outcome V × S) (w : Downloads)
      → (lru.get key w.cache).0 ≡ found
      → Again (load_from found key f w).0 key g (load_from found key f w).1
  unfolding load_from keep_download add_download
  load_from-Again laws (some v) key f g w h = load-some key g (calling hit w) v h
  load_from-Again laws none key f g w h = kept (f w.outside).0
    where
      kept :
          (o : Outcome V)
          → Again
              (keep_download key o (record (calling miss w) { outside = (f w.outside).1 })).0
              key
              g
              (keep_download key o (record (calling miss w) { outside = (f w.outside).1 })).1
      kept (ok v) = load-some key g _ v (laws.get-add key v w.cache)
      kept (err e) = load-none key g _ e h

  -- If the cache keeps what was added to it last, then a call of Load after one for the same key
  -- returns what that one returned and leaves the fallback alone, if that one succeeded; if it
  -- failed, then the fallback is called again, and its result is returned.
  load-load :
      LruLaws lru
      → (key : K) (f g : S → Outcome V × S) (w : Downloads)
      → Again (load key f w).0 key g (load key f w).1
  unfolding load
  load-load laws key f g w =
      load_from-Again laws (lru.get key w.cache).0 key f g
        (record w { cache = (lru.get key w.cache).1 }) (laws.get-get key w.cache)
