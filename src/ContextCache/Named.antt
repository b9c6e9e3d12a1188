-- ===== src/ContextCache/Named.antt =====
-- The names of the sessions that the caches know, when contexts and sessions are added and evicted.
use ocm_k8s_toolkit.Prelude.{
  ℕ, ◌≡◌, refl, subst, Bool, true, false, Option, none, some, List, [], ◌∷◌, ◌++◌, arith, any,
  filter, map, nat_eq, ltb, if◌then◌else◌, ◌⊎◌, inl, inr,
}
use ocm_k8s_toolkit.Exec.{next, pure, Flow, halt, fail, halt_with}
use ocm_k8s_toolkit.Sorting.Bytes.{Bytes}
use ocm_k8s_toolkit.ContextCache.{
  Lru, CacheOps, CacheState, sessions_of, add_context, session_for, add_session,
  get_or_create_session, clear,
}

-- What a cache promises of the values that it holds: it holds what was added to it, and it evicts
-- what it held before. A cleared cache holds nothing.
pub record HoldingLaws {K : Type 0} (lru : Lru K ℕ) : Type 1 where
  pub Held : lru.Cache → ℕ → Type 0
  pub held-get : (k : K) (c : lru.Cache) (v : ℕ) → Held (lru.get k c).1 v → Held c v
  pub held-add :
      (k : K) (x : ℕ) (c : lru.Cache) (v : ℕ) → Held (lru.add k x c).0 v → (v ≡ x) ⊎ Held c v
  pub evicts :
      (k : K) (x : ℕ) (c : lru.Cache) (v : ℕ) → any (nat_eq v) (lru.add k x c).1 ≡ true → Held c v
  pub held-clear : (c : lru.Cache) (v : ℕ) → Held (lru.clear c).0 v → ⊥
  pub clears : (c : lru.Cache) (v : ℕ) → any (nat_eq v) (lru.clear c).1 ≡ true → Held c v

any-append :
    (s : ℕ) (l m : List ℕ)
    → any (nat_eq s) (l ++ m) ≡ true
    → (any (nat_eq s) l ≡ true) ⊎ (any (nat_eq s) m ≡ true)
unfolding any
any-append s [] m h = inr h
any-append s (x ∷ l) m h = ground (arith, any-append s l m, h)

abbrev Owns : List (ℕ × ℕ) → ℕ → Type 0
Owns owned s = any (λ o. nat_eq s o.1) owned ≡ true

-- a session that is in a tail or at the head
Owns-cons :
    (o : ℕ × ℕ) (owned : List (ℕ × ℕ)) (s : ℕ)
    → (nat_eq s o.1 ≡ true) ⊎ Owns owned s
    → Owns (o ∷ owned) s
unfolding any
Owns-cons o owned s (inl e) = rw e
Owns-cons o owned s (inr e) = ground (arith, e)

sessions_of-Owns :
    (contexts : Lru Bytes ℕ) (sessions : Lru (Bytes × Bytes) ℕ) (owned : List (ℕ × ℕ))
    (evicted : List ℕ) (s : ℕ)
    → any (nat_eq s) (sessions_of contexts sessions owned evicted) ≡ true
    → Owns owned s
unfolding any filter
sessions_of-Owns contexts sessions [] evicted s h = h
sessions_of-Owns contexts sessions (o ∷ owned) evicted s h =
    kept (sessions_of-Owns contexts sessions owned evicted s) (any (λ c. nat_eq c o.0) evicted) h
  where
    kept :
        (any (nat_eq s) (sessions_of contexts sessions owned evicted) ≡ true → Owns owned s)
        → (b : Bool)
        → any (nat_eq s) (
            map
              (λ x. x.1)
              (if b
                then o ∷ filter (λ x. any (λ c. nat_eq c x.0) evicted) owned
                else filter (λ x. any (λ c. nat_eq c x.0) evicted) owned))
          ≡ true
        → Owns (o ∷ owned) s
    kept rest true k =
        Owns-cons o owned s
          (elim (any-append s (o.1 ∷ []) (sessions_of contexts sessions owned evicted) k) [
            | inl e ↦ inl (ground (arith, e))
            | inr e ↦ inr (rest e)
          ])
    kept rest false k = Owns-cons o owned s (inr (rest k))

module _ (contexts : Lru Bytes ℕ) (sessions : Lru (Bytes × Bytes) ℕ) (laws : HoldingLaws sessions)
    (sha : Bytes → Bytes) (ops : CacheOps) where
  abbrev pub S : Type 0
  S = CacheState contexts sessions

  -- The sessions of the state were made before: their names are below the next one.
  pub record Named (cache : sessions.Cache) (owned : List (ℕ × ℕ)) (closed : List ℕ) (fresh : ℕ)
      : Type 0 where
    pub held : (s : ℕ) → laws.Held cache s → ltb s fresh ≡ true
    pub owns : (s : ℕ) → Owns owned s → ltb s fresh ≡ true
    pub closes : (s : ℕ) → any (nat_eq s) closed ≡ true → ltb s fresh ≡ true

  abbrev pub WellNamed : S → Type 0
  WellNamed w = Named w.session_cache w.owned w.closed w.fresh

  pub add_context-WellNamed :
      (hash : Bytes) (w : S)
      → WellNamed w
      → WellNamed (add_context contexts sessions sha ops hash w).1
  unfolding add_context
  add_context-WellNamed hash w n = record {
    held = λ s h. ground (arith, n.held s h);
    owns = λ s h. ground (arith, n.owns s h);
    closes = λ s h. elim (any-append s _ w.closed h) [
      | inl e ↦ ground (arith, n.owns s (sessions_of-Owns contexts sessions w.owned _ s e))
      | inr e ↦ ground (arith, n.closes s e)
    ];
  }

  clear-WellNamed : (w : S) → WellNamed w → WellNamed (clear contexts sessions w)
  unfolding clear filter any
  clear-WellNamed w n = record {
    held = λ s h. absurd (laws.held-clear w.session_cache s h);
    owns = n.owns;
    closes = λ s h. elim (any-append s _ _ h) [
      | inl e ↦ n.owns s (sessions_of-Owns contexts sessions w.owned _ s e)
      | inr e ↦ elim (any-append s (sessions.clear w.session_cache).1 w.closed e) [
        | inl a ↦ n.held s (laws.clears w.session_cache s a)
        | inr b ↦ n.closes s b
      ]
    ];
  }

  -- the session is not closed, and the names are still in order
  abbrev pub IsOpen : ℕ → S → Type 0
  IsOpen s u = WellNamed u × (any (nat_eq s) u.closed ≡ false)

  unclosed : (s : ℕ) (l : List ℕ) → (any (nat_eq s) l ≡ true → ⊥) → any (nat_eq s) l ≡ false
  unclosed s l h = ground (arith, h)

  -- the sessions that are closed after an addition to the cache
  closed_by_add :
      (key : Bytes × Bytes) (w : S) (s : ℕ)
      → WellNamed w
      → any (nat_eq s) ((sessions.add key w.fresh w.session_cache).1 ++ w.closed) ≡ true
      → ltb s w.fresh ≡ true
  closed_by_add key w s n h =
      elim (any-append s (sessions.add key w.fresh w.session_cache).1 w.closed h) [
        | inl e ↦ n.held s (laws.evicts key w.fresh w.session_cache s e)
        | inr e ↦ n.closes s e
      ]

  add_session-IsOpen :
      (key : Bytes × Bytes) (octx : ℕ) (w : S)
      → WellNamed w
      → IsOpen w.fresh (add_session contexts sessions key octx w).1
  unfolding add_session any
  add_session-IsOpen key octx w n = (
    record {
      held = λ s h. elim (laws.held-add key w.fresh w.session_cache s h) [
        | inl e ↦ ground (arith, e)
        | inr e ↦ ground (arith, n.held s e)
      ];
      owns = λ s h. ground (arith, n.owns s, h);
      closes = λ s h. ground (arith, closed_by_add key w s n h);
    },
    unclosed w.fresh _ (λ h. ground (arith, closed_by_add key w w.fresh n h)),
  )

  -- what a statement returns, if it goes on to the next one, is open
  abbrev OpenAt : Flow (Unit {0}) ℕ → S → Type 0
  OpenAt (next s) u = IsOpen s u
  OpenAt (halt r) u = Unit
  OpenAt (fail e) u = Unit
  OpenAt (halt_with r e) u = Unit

  OpenAt-eq-next :
      {m : Flow (Unit {0}) ℕ × S} {s : ℕ} {u : S} → m ≡ (next s, u) → OpenAt m.0 m.1 → IsOpen s u
  OpenAt-eq-next h o = subst (λ r. OpenAt r.0 r.1) h o

  add_session-OpenAt :
      (key : Bytes × Bytes) (octx : ℕ) (w : S)
      → WellNamed w
      → OpenAt
          (add_session contexts sessions key octx w).0
          (add_session contexts sessions key octx w).1
  unfolding add_session
  add_session-OpenAt key octx w n = add_session-IsOpen key octx w n

  session_for-IsOpen :
      (found : Option ℕ) (key : Bytes × Bytes) (octx : ℕ) (w u : S) (s : ℕ)
      → WellNamed w
      → session_for contexts sessions found key octx w ≡ (next s, u)
      → IsOpen s u
  unfolding session_for
  session_for-IsOpen none key octx w u s n h = OpenAt-eq-next h (add_session-IsOpen key octx w n)
  session_for-IsOpen (some t) key octx w u s n h = chosen (any (nat_eq t) w.closed) refl h
    where
      chosen :
          (b : Bool)
          → any (nat_eq t) w.closed ≡ b
          → (if b then add_session contexts sessions key octx w else pure t w) ≡ (next s, u)
          → IsOpen s u
      chosen true e k = OpenAt-eq-next k (add_session-OpenAt key octx w n)
      chosen false e k = OpenAt-eq-next k (n, e)

  pub get_or_create_session-IsOpen :
      (key : Bytes × Bytes) (octx : ℕ) (w u : S) (s : ℕ)
      → WellNamed w
      → get_or_create_session contexts sessions key octx w ≡ (next s, u)
      → IsOpen s u
  unfolding get_or_create_session
  get_or_create_session-IsOpen key octx w u s n h =
      session_for-IsOpen (sessions.get key w.session_cache).0 key octx _ u s
        (record {
          held = λ t k. n.held t (laws.held-get key w.session_cache t k);
          owns = n.owns;
          closes = n.closes;
        })
        h
