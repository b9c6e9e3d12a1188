-- ===== src/ContextCache/Configure/Calls.antt =====
-- What a configuration object does to an OCM context.
use mathlib.Core.List.{append-nil, append_assoc}
use ocm_k8s_toolkit.Prelude.{
  ℕ, String, ◌≡◌, refl, sym, ap, ◌∙◌, Option, none, some, List, [], ◌∷◌, ◌++◌, arith,
}
use ocm_k8s_toolkit.Errors.{Error, Fault, wrap, Reply, got, fault, outcome, failure}
use ocm_k8s_toolkit.Exec.{
  Flow, next, halt, fail, halt_with, continue, ◌>>=◌, ◌>>◌, raise, attempt, check,
}
use ocm_k8s_toolkit.Sorting.Bytes.{Bytes}
use ocm_k8s_toolkit.Hash.{ConfigObject, secret, config_map, other_object}
use ocm_k8s_toolkit.ContextCache.Configure.{
  docker_config_json_key, ocm_config_key, entry_at, Encoding, yaml, unspecified, ConfigureOps,
  ContextCall, credentials_added, config_applied, Configuring, note_call, error_of, wrap_failure,
  secret_origin, config_map_origin, add_credentials, apply_data, apply_entry, configure_for_secret,
  configure_for_entry, configure_for_config_map, configure_context,
}

-- the calls are those that the body makes on a new context, after the calls before
abbrev IsUniform : {A : Type 0} → Configuring A → Type 0
IsUniform m = (l : List ContextCall) → m l ≡ ((m []).0, l ++ (m []).1)

continue-IsUniform :
    {A : Type 0} (f : Flow ⊥ (Unit {0})) (c : List ContextCall) (k : Configuring A)
    → IsUniform k
    → (l : List ContextCall)
    → continue f (λ _. k) (l ++ c) ≡ ((continue f (λ _. k) c).0, l ++ (continue f (λ _. k) c).1)
continue-IsUniform (next a) c k h l =
    h (l ++ c)
    ∙ ap (λ x. ((k []).0, x)) (append_assoc l c (k []).1)
    ∙ sym (ap (λ r. (r.0, l ++ r.1)) (h c))
continue-IsUniform (halt r) c k h l = absurd r
continue-IsUniform (fail e) c k h l = refl
continue-IsUniform (halt_with r e) c k h l = absurd r

>>-IsUniform :
    {A : Type 0} (m : Configuring (Unit {0})) (k : Configuring A)
    → IsUniform m
    → IsUniform k
    → IsUniform (m >> k)
>>-IsUniform m k h g l =
    ap (λ r. continue r.0 (λ _. k) r.1) (h l) ∙ continue-IsUniform (m []).0 (m []).1 k g l

noted-IsUniform :
    (r : Option Fault) (text : String) (c : ContextCall)
    → IsUniform (note_call c >> check (failure r) (λ e. raise (wrap text e)))
noted-IsUniform none text c l = refl
noted-IsUniform (some f) text c l = refl

-- the body ran to its end, so it made these calls
abbrev Makes : {A : Type 0} → Configuring A → List ContextCall → Type 0
Makes m calls = error_of (m []).0 ≡ none → (m []).1 ≡ calls

noted-Makes :
    (r : Option Fault) (text : String) (c : ContextCall)
    → Makes (note_call c >> check (failure r) (λ e. raise (wrap text e))) (c ∷ [])
noted-Makes none text c h = refl
noted-Makes (some f) text c h = refl

continue-Makes :
    (f : Flow ⊥ (Unit {0})) (c a b : List ContextCall) (k : Configuring (Unit {0}))
    → (error_of f ≡ none → c ≡ a)
    → IsUniform k
    → Makes k b
    → error_of (continue f (λ _. k) c).0 ≡ none
    → (continue f (λ _. k) c).1 ≡ a ++ b
continue-Makes (next x) c a b k h u m e =
    let none_failed : error_of (k []).0 ≡ none = sym (ap (λ r. error_of r.0) (u c)) ∙ e in
    ap (λ r. r.1) (u c) ∙ ap (λ x. c ++ x) (m none_failed) ∙ ap (λ x. x ++ b) (h refl)
continue-Makes (halt r) c a b k h u m e = absurd r
continue-Makes (fail x) c a b k h u m e = absurd (ground (arith, e))
continue-Makes (halt_with r x) c a b k h u m e = absurd r

wrapped-none : (text : String) (o : Option Error) → wrap_failure text o ≡ none → o ≡ none
wrapped-none text none h = refl
wrapped-none text (some e) h = absurd (ground (arith, h))

-- the credentials that a secret holds, if any
abbrev pub credentials_for : Option Bytes → List ContextCall
credentials_for none = []
credentials_for (some []) = []
credentials_for (some (b ∷ bs)) = credentials_added (b ∷ bs) ∷ []

abbrev pub applied : String → Reply ℕ → List ContextCall
applied origin (got cfg) = config_applied cfg origin ∷ []
applied origin (fault f) = []

module _ (ops : ConfigureOps) where
  -- the configuration that an object holds, if any
  abbrev pub config_for : Encoding → String → Option Bytes → List ContextCall
  config_for encoding origin none = []
  config_for encoding origin (some []) = []
  config_for encoding origin (some (b ∷ bs)) =
      applied origin (ops.get_config_for_data encoding (b ∷ bs))

  -- what an object should do to a context: the credentials first
  abbrev pub calls_for : ConfigObject → List ContextCall
  calls_for (secret namespace name contents) =
      credentials_for (entry_at contents docker_config_json_key)
      ++ config_for yaml (secret_origin namespace name) (entry_at contents ocm_config_key)
  calls_for (config_map namespace name contents binary) =
      config_for unspecified (config_map_origin namespace name) (entry_at contents ocm_config_key)
  calls_for (other_object type namespace name) = []

  abbrev pub all_calls : List ConfigObject → List ContextCall
  all_calls [] = []
  all_calls (o ∷ os) = calls_for o ++ all_calls os

  add_credentials-IsUniform : (d : Option Bytes) → IsUniform (add_credentials ops d)
  unfolding add_credentials
  add_credentials-IsUniform none l = ap (λ x. (next tt, x)) (sym (append-nil l))
  add_credentials-IsUniform (some []) l = ap (λ x. (next tt, x)) (sym (append-nil l))
  add_credentials-IsUniform (some (b ∷ bs)) l =
      noted-IsUniform (ops.repository_for_spec (b ∷ bs)) _ _ l

  add_credentials-Makes : (d : Option Bytes) → Makes (add_credentials ops d) (credentials_for d)
  unfolding add_credentials
  add_credentials-Makes none h = refl
  add_credentials-Makes (some []) h = refl
  add_credentials-Makes (some (b ∷ bs)) h = noted-Makes (ops.repository_for_spec (b ∷ bs)) _ _ h

  abbrev applying : String → Reply ℕ → Configuring (Unit {0})
  applying origin r =
      attempt (outcome r) (λ e. raise (wrap "failed to deserialize ocm config data" e)) >>= λ cfg.
      note_call (config_applied cfg origin)
      >> check (failure (ops.apply_config cfg origin))
          (λ e. raise (wrap "failed to apply ocm config" e))

  applying-IsUniform : (origin : String) (r : Reply ℕ) → IsUniform (applying origin r)
  applying-IsUniform origin (got cfg) l = noted-IsUniform (ops.apply_config cfg origin) _ _ l
  applying-IsUniform origin (fault f) l = ap (λ x. (fail _, x)) (sym (append-nil l))

  applying-Makes : (origin : String) (r : Reply ℕ) → Makes (applying origin r) (applied origin r)
  applying-Makes origin (got cfg) h = noted-Makes (ops.apply_config cfg origin) _ _ h
  applying-Makes origin (fault f) h = refl

  apply_data-IsUniform :
      (e : Encoding) (origin : String) (d : Bytes) → IsUniform (apply_data ops e origin d)
  unfolding apply_data
  apply_data-IsUniform e origin [] l = ap (λ x. (next tt, x)) (sym (append-nil l))
  apply_data-IsUniform e origin (b ∷ bs) l =
      applying-IsUniform origin (ops.get_config_for_data e (b ∷ bs)) l

  apply_data-Makes :
      (e : Encoding) (origin : String) (d : Bytes)
      → Makes (apply_data ops e origin d) (config_for e origin (some d))
  unfolding apply_data
  apply_data-Makes e origin [] h = refl
  apply_data-Makes e origin (b ∷ bs) h =
      applying-Makes origin (ops.get_config_for_data e (b ∷ bs)) h

  apply_entry-IsUniform :
      (d : Option Bytes) (origin : String) → IsUniform (apply_entry ops d origin)
  unfolding apply_entry
  apply_entry-IsUniform none origin l = ap (λ x. (next tt, x)) (sym (append-nil l))
  apply_entry-IsUniform (some d) origin l = apply_data-IsUniform yaml origin d l

  apply_entry-Makes :
      (d : Option Bytes) (origin : String)
      → Makes (apply_entry ops d origin) (config_for yaml origin d)
  unfolding apply_entry
  apply_entry-Makes none origin h = refl
  apply_entry-Makes (some d) origin h = apply_data-Makes yaml origin d h

  configure_for_entry-IsUniform :
      (d : Option Bytes) (origin : String) → IsUniform (configure_for_entry ops d origin)
  unfolding configure_for_entry
  configure_for_entry-IsUniform none origin l = ap (λ x. (fail _, x)) (sym (append-nil l))
  configure_for_entry-IsUniform (some d) origin l = apply_data-IsUniform unspecified origin d l

  configure_for_entry-Makes :
      (d : Option Bytes) (origin : String)
      → Makes (configure_for_entry ops d origin) (config_for unspecified origin d)
  unfolding configure_for_entry
  configure_for_entry-Makes none origin h = refl
  configure_for_entry-Makes (some d) origin h = apply_data-Makes unspecified origin d h

  -- the error of an object does not depend on the calls before
  pub configure_context-uniform :
      (o : ConfigObject) (l : List ContextCall)
      → configure_context ops o l
        ≡ ((configure_context ops o []).0, l ++ (configure_context ops o []).1)
  unfolding configure_context configure_for_secret configure_for_config_map
  configure_context-uniform (secret namespace name contents) l =
      ap (λ r. (wrap_failure "configure context failed" (error_of r.0), r.1))
        (>>-IsUniform (add_credentials ops (entry_at contents docker_config_json_key))
          (apply_entry ops (entry_at contents ocm_config_key) (secret_origin namespace name))
          (add_credentials-IsUniform _) (apply_entry-IsUniform _ _) l)
  configure_context-uniform (config_map namespace name contents binary) l =
      ap (λ r. (wrap_failure "configure context failed" (error_of r.0), r.1))
        (configure_for_entry-IsUniform (entry_at contents ocm_config_key) _ l)
  configure_context-uniform (other_object type namespace name) l =
      ap (λ x. (_, x)) (sym (append-nil l))

  pub configure_context-calls :
      (o : ConfigObject)
      → (configure_context ops o []).0 ≡ none
      → (configure_context ops o []).1 ≡ calls_for o
  unfolding configure_context configure_for_secret configure_for_config_map
  configure_context-calls (secret namespace name contents) h =
      let credentials = add_credentials ops (entry_at contents docker_config_json_key) [] in
      continue-Makes credentials.0 credentials.1
        (credentials_for (entry_at contents docker_config_json_key)) _
        (apply_entry ops (entry_at contents ocm_config_key) (secret_origin namespace name))
        (add_credentials-Makes _) (apply_entry-IsUniform _ _) (apply_entry-Makes _ _)
        (wrapped-none _ _ h)
  configure_context-calls (config_map namespace name contents binary) h =
      configure_for_entry-Makes (entry_at contents ocm_config_key) _ (wrapped-none _ _ h)
  configure_context-calls (other_object type namespace name) h = refl
