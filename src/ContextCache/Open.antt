-- ===== src/ContextCache/Open.antt =====
-- The sessions that GetSession returns, the eviction of earlier ones included.
use ocm_k8s_toolkit.Prelude.{ℕ, String, ◌≡◌, sym, ap, ◌∙◌, subst, Option, none, some, List, arith}
use ocm_k8s_toolkit.Errors.{Error}
use ocm_k8s_toolkit.Api.{Verification}
use ocm_k8s_toolkit.Exec.{next, ◌>>=◌, ◌>>◌, pure, raise, attempt, check}
use ocm_k8s_toolkit.Exec.Inversion.{Leaves, >>=-eq-next, attempt-eq-next}
use ocm_k8s_toolkit.Hash.{ConfigObject, hash_bytes_hex}
use ocm_k8s_toolkit.Signatures.{get_verifications}
use ocm_k8s_toolkit.Sorting.Bytes.{Bytes}
use ocm_k8s_toolkit.ContextCache.{
  Lru, GetSessionOptions, CacheOps, get_config_objects, config_hash, context_for, add_context,
  get_or_create_context, register_verifications, get_or_create_session, get_session, open_session,
  configure_all,
}
use ocm_k8s_toolkit.ContextCache.Named.{
  HoldingLaws, S, WellNamed, IsOpen, add_context-WellNamed, get_or_create_session-IsOpen,
}

module _ (contexts : Lru Bytes ℕ) (sessions : Lru (Bytes × Bytes) ℕ) (laws : HoldingLaws sessions)
    (sha : Bytes → Bytes) (ops : CacheOps) where
  raise-Leaves :
      {A : Type 0} (e : Error)
      → Leaves {S = S contexts sessions laws sha ops} {R = Unit {0}} {A = A} (raise e)
  raise-Leaves e s t a h = ground arith

  register_verifications-WellNamed :
      (provider : Option (String × List Verification)) (octx : ℕ)
      (w u : S contexts sessions laws sha ops)
      → WellNamed contexts sessions laws sha ops w
      → register_verifications contexts sessions sha ops octx provider w ≡ (next tt, u)
      → WellNamed contexts sessions laws sha ops u
  unfolding register_verifications
  register_verifications-WellNamed none octx w u n h =
      subst (WellNamed contexts sessions laws sha ops) (ap (λ x. x.1) h) n
  register_verifications-WellNamed (some p) octx w u n h =
      let (ls, v, p1, h1) =
        >>=-eq-next (attempt (get_verifications ops.decode_string ops.get_secret p.0 p.1) raise) _
          h in
      let (found, same) = attempt-eq-next _ _ raise-Leaves p1 in
      let kept : WellNamed contexts sessions laws sha ops v =
        subst (WellNamed contexts sessions laws sha ops) (sym same) n in
      subst (WellNamed contexts sessions laws sha ops) (ap (λ x. x.1) h1) kept

  created :
      (hash : Bytes) (w u : S contexts sessions laws sha ops) (octx : ℕ) (e : Option Error)
      → WellNamed contexts sessions laws sha ops w
      → (check e raise >> add_context contexts sessions sha ops hash) w ≡ (next octx, u)
      → WellNamed contexts sessions laws sha ops u
  created hash w u octx none n h =
      subst (WellNamed contexts sessions laws sha ops) (ap (λ x. x.1) h)
        (add_context-WellNamed contexts sessions laws sha ops hash w n)
  created hash w u octx (some e) n h = absurd (ground arith)

  context_for-WellNamed :
      (found : Option ℕ) (hash : Bytes) (objs : List ConfigObject)
      (w u : S contexts sessions laws sha ops) (octx : ℕ)
      → WellNamed contexts sessions laws sha ops w
      → context_for contexts sessions sha ops found hash objs w ≡ (next octx, u)
      → WellNamed contexts sessions laws sha ops u
  unfolding context_for
  context_for-WellNamed (some c) hash objs w u octx n h =
      subst (WellNamed contexts sessions laws sha ops) (ap (λ x. x.1) h) n
  context_for-WellNamed none hash objs w u octx n h =
      created hash w u octx (configure_all contexts sessions sha ops objs none) n h

  open_session-IsOpen :
      (opts : GetSessionOptions) (hash : Bytes) (c octx s : ℕ)
      (w u : S contexts sessions laws sha ops)
      → WellNamed contexts sessions laws sha ops w
      → open_session contexts sessions sha ops opts hash c w ≡ (next (octx, s), u)
      → IsOpen contexts sessions laws sha ops s u
  unfolding open_session
  open_session-IsOpen opts hash c octx s w u n h =
      let key : Bytes × Bytes = (hash, hash_bytes_hex sha opts.repository_specification) in
      let (_, v, p, q) =
        >>=-eq-next (register_verifications contexts sessions sha ops c opts.verification_provider)
          (λ _. get_or_create_session contexts sessions key c >>= λ session. pure (c, session)) h in
      let (t, x, p1, q1) = >>=-eq-next (get_or_create_session contexts sessions key c) _ q in
      let registered = register_verifications-WellNamed opts.verification_provider c w v n p in
      let made =
        get_or_create_session-IsOpen contexts sessions laws sha ops key c v x t registered p1 in
      subst (λ r. IsOpen contexts sessions laws sha ops r u) (ground arith)
        (subst (IsOpen contexts sessions laws sha ops t) (ap (λ y. y.1) q1) made)

  opened :
      (opts : GetSessionOptions) (hash : Bytes) (objs : List ConfigObject)
      (w u : S contexts sessions laws sha ops) (octx s : ℕ)
      → WellNamed contexts sessions laws sha ops w
      → (get_or_create_context contexts sessions sha ops hash objs
            >>= open_session contexts sessions sha ops opts hash)
          w
        ≡ (next (octx, s), u)
      → IsOpen contexts sessions laws sha ops s u
  unfolding get_or_create_context
  opened opts hash objs w u octx s n h =
      let (c, v, p, q) =
        >>=-eq-next (get_or_create_context contexts sessions sha ops hash objs)
          (open_session contexts sessions sha ops opts hash) h in
      let kept = context_for-WellNamed (contexts.get hash w.context_cache).0 hash objs _ v c n p in
      open_session-IsOpen opts hash c octx s v u kept q

  -- If the sessions that the caches know were named before, then they are so after a successful call
  -- of GetSession, and the session that the call returns is not one of the closed ones: neither the
  -- eviction of a session nor that of a context, in this call or before, has closed it.
  pub get_session-IsOpen :
      (opts : GetSessionOptions) (w u : S contexts sessions laws sha ops) (octx s : ℕ)
      → WellNamed contexts sessions laws sha ops w
      → get_session contexts sessions sha ops opts w ≡ (next (octx, s), u)
      → IsOpen contexts sessions laws sha ops s u
  unfolding get_session
  get_session-IsOpen opts w u octx s n h =
      let (objs, v, p, q) =
        >>=-eq-next
          (attempt (get_config_objects contexts sessions sha ops opts.ocm_configurations) raise) _
          h in
      let (_, same) = attempt-eq-next _ _ raise-Leaves p in
      let (hash, x, p1, q1) =
        >>=-eq-next (attempt (config_hash contexts sessions sha ops objs) raise) _ q in
      let (_, same1) = attempt-eq-next _ _ raise-Leaves p1 in
      opened opts hash objs x u octx s
        (subst (WellNamed contexts sessions laws sha ops) (sym (same1 ∙ same)) n) q1
