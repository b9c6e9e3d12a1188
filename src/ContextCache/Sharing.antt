-- ===== src/ContextCache/Sharing.antt =====
-- Objects with the same configuration share a context, and with it the keys that are registered.
use ocm_k8s_toolkit.Prelude.{
  ℕ, String, ◌≡◌, refl, sym, ap, ◌∙◌, subst, Bool, true, false, Option, none, some, List, [], ◌∷◌,
  ◌++◌, All, ◌==◌, arith, eq_refl, any, nat_eq, if◌then◌else◌,
}
use ocm_k8s_toolkit.Errors.{Error, Outcome, ok}
use ocm_k8s_toolkit.Api.{Verification}
use ocm_k8s_toolkit.Exec.{next, ◌>>=◌, ◌>>◌, pure, raise, attempt, check}
use ocm_k8s_toolkit.Exec.Inversion.{Leaves, >>=-eq-next, attempt-eq-next}
use ocm_k8s_toolkit.Errors.Inversion.{ok-injective}
use ocm_k8s_toolkit.Hash.{ConfigObject, hash_bytes_hex}
use ocm_k8s_toolkit.Signatures.{VerificationKey, get_verifications}
use ocm_k8s_toolkit.Sorting.Bytes.{Bytes}
use ocm_k8s_toolkit.ContextCache.{
  Lru, LruLaws, GetSessionOptions, CacheOps, CacheState, key_for, register_keys, get_config_objects,
  config_hash, context_for, add_context, get_or_create_context, register_verifications, session_for,
  add_session, get_or_create_session, get_session, open_session, configure_all,
}

nat_eq_refl : (n : ℕ) → nat_eq n n ≡ true
nat_eq_refl n = ground arith

module _ (contexts : Lru Bytes ℕ) (sessions : Lru (Bytes × Bytes) ℕ) (laws : LruLaws contexts)
    (sha : Bytes → Bytes) (ops : CacheOps) where
  -- the hash of the configuration that a call reads
  abbrev pub HashOf : GetSessionOptions → Bytes → Type 0
  HashOf opts hash =
      (objs : List ConfigObject) × (get_config_objects contexts sessions sha ops
          opts.ocm_configurations
        ≡ ok objs)
      × (config_hash contexts sessions sha ops objs ≡ ok hash)

  -- the keys of the verifications of a call, which has none without a provider
  abbrev pub keys_of : Option (String × List Verification) → Outcome (List VerificationKey)
  keys_of none = ok []
  keys_of (some p) = get_verifications ops.decode_string ops.get_secret p.0 p.1

  abbrev pub S : Type 0
  S = CacheState contexts sessions

  raise-Leaves : {A : Type 0} (e : Error) → Leaves {S = S} {R = Unit {0}} {A = A} (raise e)
  raise-Leaves e s t a h = ground arith

  -- The context is in the cache under the hash, it is the one that was there, if there was one, and
  -- no keys were registered.
  abbrev Has : Bytes → ℕ → Option ℕ → S → S → Type 0
  Has hash octx before w u =
      ((contexts.get hash u.context_cache).0 ≡ some octx)
      × ((c : ℕ) → before ≡ some c → c ≡ octx)
      × (u.registry ≡ w.registry)

  created :
      (hash : Bytes) (w u : S) (octx : ℕ) (e : Option Error)
      → (check e raise >> add_context contexts sessions sha ops hash) w ≡ (next octx, u)
      → Has hash octx none w u
  unfolding add_context
  created hash w u octx none h = (
    ap (λ x. (contexts.get hash x.1.context_cache).0) (sym h)
        ∙ laws.get-add hash w.fresh w.context_cache
        ∙ ap some (ground arith),
    λ c e. cc,
    ap (λ x. x.1.registry) (sym h),
  )
  created hash w u octx (some e) h = absurd (ground arith)

  context_for-Has :
      (before : Option ℕ) (hash : Bytes) (objs : List ConfigObject) (w u : S) (octx : ℕ)
      → (contexts.get hash w.context_cache).0 ≡ before
      → context_for contexts sessions sha ops before hash objs w ≡ (next octx, u)
      → Has hash octx before w u
  unfolding context_for
  context_for-Has (some c) hash objs w u octx e h = (
    ap (λ x. (contexts.get hash x.1.context_cache).0) (sym h) ∙ e ∙ ap some (ground arith),
    λ d p. ground arith,
    ap (λ x. x.1.registry) (sym h),
  )
  context_for-Has none hash objs w u octx e h =
      created hash w u octx (configure_all contexts sessions sha ops objs none) h

  session_for_context :
      (found : Option ℕ) (key : Bytes × Bytes) (octx : ℕ) (w u : S) (s : ℕ)
      → session_for contexts sessions found key octx w ≡ (next s, u)
      → (u.context_cache ≡ w.context_cache) × (u.registry ≡ w.registry)
  unfolding session_for add_session
  session_for_context none key octx w u s h =
      (ap (λ x. x.1.context_cache) (sym h), ap (λ x. x.1.registry) (sym h))
  session_for_context (some t) key octx w u s h = reused (any (nat_eq t) w.closed) h
    where
      reused :
          (b : Bool)
          → (if b then add_session contexts sessions key octx w else pure t w) ≡ (next s, u)
          → (u.context_cache ≡ w.context_cache) × (u.registry ≡ w.registry)
      reused true k = (ap (λ x. x.1.context_cache) (sym k), ap (λ x. x.1.registry) (sym k))
      reused false k = (ap (λ x. x.1.context_cache) (sym k), ap (λ x. x.1.registry) (sym k))

  -- What a successful GetSession leaves: its context in the cache, and its keys registered.
  pub record Opened (opts : GetSessionOptions) (hash : Bytes) (octx : ℕ) (w u : S) : Type 0 where
    pub cached : (contexts.get hash u.context_cache).0 ≡ some octx
    pub reused : (c : ℕ) → (contexts.get hash w.context_cache).0 ≡ some c → c ≡ octx
    pub registers :
        (ks : List VerificationKey)
        → keys_of opts.verification_provider ≡ ok ks
        → u.registry ≡ register_keys octx ks w.registry

  register_verifications-eq-next :
      (provider : Option (String × List Verification)) (octx : ℕ) (w u : S)
      → register_verifications contexts sessions sha ops octx provider w ≡ (next tt, u)
      → (u.context_cache ≡ w.context_cache)
        × ((ks : List VerificationKey)
            → keys_of provider ≡ ok ks
            → u.registry ≡ register_keys octx ks w.registry)
  unfolding register_verifications
  register_verifications-eq-next none octx w u h = (
    ap (λ x. x.1.context_cache) (sym h),
    λ ks e.
        ap (λ x. x.1.registry) (sym h) ∙ ap (λ l. register_keys octx l w.registry) (ok-injective e),
  )
  register_verifications-eq-next (some p) octx w u h =
      let (ls, v, p1, h1) =
        >>=-eq-next (attempt (get_verifications ops.decode_string ops.get_secret p.0 p.1) raise) _
          h in
      let (found, same) = attempt-eq-next _ _ raise-Leaves p1 in
      (
        ap (λ x. x.1.context_cache) (sym h1) ∙ ap (λ x. x.context_cache) same,
        λ ks e.
            ap (λ x. x.1.registry) (sym h1)
            ∙ ap (λ x. register_keys octx ls x.registry) same
            ∙ ap (λ l. register_keys octx l w.registry) (ok-injective (sym found ∙ e)),
      )

  open_session-eq-next :
      (opts : GetSessionOptions) (hash : Bytes) (c octx s : ℕ) (w u : S)
      → open_session contexts sessions sha ops opts hash c w ≡ (next (octx, s), u)
      → (c ≡ octx)
        × (u.context_cache ≡ w.context_cache)
        × ((ks : List VerificationKey)
            → keys_of opts.verification_provider ≡ ok ks
            → u.registry ≡ register_keys c ks w.registry)
  unfolding open_session get_or_create_session
  open_session-eq-next opts hash c octx s w u h =
      let key : Bytes × Bytes = (hash, hash_bytes_hex sha opts.repository_specification) in
      let (_, v, p, q) =
        >>=-eq-next (register_verifications contexts sessions sha ops c opts.verification_provider)
          (λ _. get_or_create_session contexts sessions key c >>= λ session. pure (c, session)) h in
      let (t, x, p1, q1) = >>=-eq-next (get_or_create_session contexts sessions key c) _ q in
      let registered = register_verifications-eq-next opts.verification_provider c w v p in
      let kept = session_for_context (sessions.get key v.session_cache).0 key c _ x t p1 in
      (
        ground arith,
        ap (λ y. y.1.context_cache) (sym q1) ∙ kept.0 ∙ registered.0,
        λ ks e. ap (λ y. y.1.registry) (sym q1) ∙ kept.1 ∙ registered.1 ks e,
      )

  opened :
      (opts : GetSessionOptions) (hash : Bytes) (objs : List ConfigObject) (w u : S) (octx s : ℕ)
      → (get_or_create_context contexts sessions sha ops hash objs
            >>= open_session contexts sessions sha ops opts hash)
          w
        ≡ (next (octx, s), u)
      → Opened opts hash octx w u
  unfolding get_or_create_context
  opened opts hash objs w u octx s h =
      let (c, v, p, q) =
        >>=-eq-next (get_or_create_context contexts sessions sha ops hash objs)
          (open_session contexts sessions sha ops opts hash) h in
      let has =
        context_for-Has (contexts.get hash w.context_cache).0 hash objs _ v c
          (laws.get-get hash w.context_cache) p in
      let rest = open_session-eq-next opts hash c octx s v u q in
      subst (λ o. Opened opts hash o w u) rest.0
        (record {
          cached = ap (λ l. (contexts.get hash l).0) rest.1 ∙ has.0;
          reused = has.1;
          registers = λ ks e. rest.2 ks e ∙ ap (register_keys c ks) has.2;
        })

  get_session-Opened :
      (opts : GetSessionOptions) (hash : Bytes) (w u : S) (octx s : ℕ)
      → HashOf opts hash
      → get_session contexts sessions sha ops opts w ≡ (next (octx, s), u)
      → Opened opts hash octx w u
  unfolding get_session
  get_session-Opened opts hash w u octx s (objs, eo, eh) h =
      opened opts hash objs w u octx s (rw (eo, eh) at h)

  NoKey : String → VerificationKey → Type 0
  NoKey name k = (k.signature == name) ≡ false

  key_for_passed :
      (c : ℕ) (name : String) (ks : List VerificationKey) (r : List (ℕ × VerificationKey))
      → All (NoKey name) ks
      → key_for c name (register_keys c ks r) ≡ key_for c name r
  unfolding key_for NoKey
  key_for_passed c name [] r h = refl
  key_for_passed c name (k ∷ ks) r (h, rest) =
      key_for_passed c name ks ((c, k) ∷ r) rest ∙ rw (nat_eq_refl c, h)

  -- the last key that is registered for a signature is the one that the context has for it
  key_for_last :
      (c : ℕ) (front back : List VerificationKey) (k : VerificationKey)
      (r : List (ℕ × VerificationKey))
      → All (NoKey k.signature) back
      → key_for c k.signature (register_keys c (front ++ k ∷ back) r) ≡ some k.public_key
  unfolding key_for
  key_for_last c [] back k r h =
      key_for_passed c k.signature back ((c, k) ∷ r) h ∙ rw (nat_eq_refl c, eq_refl k.signature)
  key_for_last c (j ∷ front) back k r h = key_for_last c front back k ((c, j) ∷ r) h

  -- Two successful calls of GetSession, one after the other, whose configurations have the same hash
  -- return the same context, if the cache keeps what was added to it last. The last key that the
  -- second call registers for a signature is then the key which the context of the first call has
  -- for the signature, whatever the first call registered.
  pub get_session-get_session :
      (first second : GetSessionOptions) (hash : Bytes) (w u v : S) (c d s t : ℕ)
      → HashOf first hash
      → HashOf second hash
      → get_session contexts sessions sha ops first w ≡ (next (c, s), u)
      → get_session contexts sessions sha ops second u ≡ (next (d, t), v)
      → (c ≡ d)
        × ((front back : List VerificationKey) (k : VerificationKey)
            → keys_of second.verification_provider ≡ ok (front ++ k ∷ back)
            → All (λ j. (j.signature == k.signature) ≡ false) back
            → key_for c k.signature v.registry ≡ some k.public_key)
  unfolding key_for NoKey
  get_session-get_session first second hash w u v c d s t e f h k =
      let a = get_session-Opened first hash w u c s e h in
      let b = get_session-Opened second hash u v d t f k in
      let same = b.reused c a.cached in
      (
        same,
        λ front back key g l.
            ap (key_for c key.signature) (
              b.registers (front ++ key ∷ back) g
              ∙ ap (λ o. register_keys o (front ++ key ∷ back) u.registry) (sym same))
            ∙ key_for_last c front back key u.registry l,
      )
