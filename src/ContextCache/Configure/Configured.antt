-- ===== src/ContextCache/Configure/Configured.antt =====
-- What the loop of getOrCreateContext makes of a new context.
use mathlib.Core.List.{append-nil, append_assoc}
use ocm_k8s_toolkit.Prelude.{
  ℕ, ◌≡◌, refl, sym, ap, ◌∙◌, Option, none, some, List, [], ◌∷◌, ◌++◌, arith,
}
use ocm_k8s_toolkit.Errors.{Error, join_errors}
use ocm_k8s_toolkit.Exec.{next, raise}
use ocm_k8s_toolkit.Sorting.Bytes.{Bytes}
use ocm_k8s_toolkit.Hash.{ConfigObject}
use ocm_k8s_toolkit.Exec.Inversion.{check->>-eq-next}
use ocm_k8s_toolkit.ContextCache.{
  CacheOps, CacheState, Lru, configure_all, context_for, add_context, get_or_create_context,
}
use ocm_k8s_toolkit.ContextCache.Configure.{
  ConfigureOps, ContextCall, configure_context, configure_each,
}
use ocm_k8s_toolkit.ContextCache.Configure.Calls.{
  all_calls, configure_context-uniform, configure_context-calls,
}

module _ (ops : ConfigureOps) where
  joined-none : (e f : Option Error) → join_errors e f ≡ none → (e ≡ none) × (f ≡ none)
  unfolding join_errors
  joined-none none none h = (refl, refl)
  joined-none none (some f) h = absurd (ground (arith, h))
  joined-none (some e) none h = absurd (ground (arith, h))
  joined-none (some e) (some f) h = absurd (ground (arith, h))

  module _ (contexts : Lru Bytes ℕ) (sessions : Lru (Bytes × Bytes) ℕ) (sha : Bytes → Bytes)
      (cache : CacheOps)
      (configures : (o : ConfigObject) → cache.configure o ≡ (configure_context ops o []).0) where
    all_configured :
        (objs : List ConfigObject) (e : Option Error) (l : List ContextCall)
        → configure_all contexts sessions sha cache objs e ≡ none
        → (e ≡ none) × (configure_each ops objs none l ≡ (none, l ++ all_calls ops objs))
    unfolding configure_all configure_each join_errors
    all_configured [] e l h = (h, ap (λ x. (none, x)) (sym (append-nil l)))
    all_configured (o ∷ os) e l h =
        let after =
          all_configured os (join_errors e (cache.configure o))
            (l ++ (configure_context ops o []).1) h in
        let (fine, accepted) = joined-none e (cache.configure o) after.0 in
        let none_failed : (configure_context ops o []).0 ≡ none = sym (configures o) ∙ accepted in
        (
          fine,
          ap (λ r. configure_each ops os r.0 r.1) (configure_context-uniform ops o l)
              ∙ ap (λ x. configure_each ops os x (l ++ (configure_context ops o []).1)) none_failed
              ∙ after.1
              ∙ ap (λ x. (none, x))
                  (append_assoc l (configure_context ops o []).1 (all_calls ops os))
              ∙ ap (λ x. (none, l ++ (x ++ all_calls ops os)))
                  (configure_context-calls ops o none_failed),
        )

    accepted_all :
        (found : Option ℕ) (hash : Bytes) (objs : List ConfigObject)
        (w u : CacheState contexts sessions) (octx : ℕ)
        → found ≡ none
        → context_for contexts sessions sha cache found hash objs w ≡ (next octx, u)
        → configure_all contexts sessions sha cache objs none ≡ none
    unfolding context_for
    accepted_all (some c) hash objs w u octx n h = absurd (ground (arith, n))
    accepted_all none hash objs w u octx n h =
        (check->>-eq-next (configure_all contexts sessions sha cache objs none) raise
          (add_context contexts sessions sha cache hash) (λ e s t a p. ground (arith, p)) w h).0

    -- If getOrCreateContext makes a new context and succeeds, then the loop over the configuration
    -- objects found no error, and it handed to the context, object after object, exactly the docker
    -- credentials that are not empty and the OCM configuration that is not empty, the credentials of
    -- an object before its configuration.
    pub get_or_create_context-configured :
        (hash : Bytes) (objs : List ConfigObject) (w u : CacheState contexts sessions) (octx : ℕ)
        → (contexts.get hash w.context_cache).0 ≡ none
        → get_or_create_context contexts sessions sha cache hash objs w ≡ (next octx, u)
        → configure_each ops objs none [] ≡ (none, all_calls ops objs)
    unfolding get_or_create_context
    get_or_create_context-configured hash objs w u octx missing h =
        (all_configured objs none []
          (accepted_all (contexts.get hash w.context_cache).0 hash objs _ u octx missing h)).1
