-- ===== src/Kube.antt =====
-- internal/util/k8s.go: an object is fetched only if it is ready and not being deleted.
use ocm_k8s_toolkit.Prelude.{
  String, str_append, ◌≡◌, sym, ◌∙◌, Bool, true, false, not, ◌||◌, arith, ◌==◌, eq_iff,
  if◌then◌else◌, inl, inr, Bool-cases, ◌↔◌,
}
use text.Mathlib.TextLemmas.{append-eq-nil_iff}
use mathlib.Core.Bool.{false≢true}
use ocm_k8s_toolkit.Errors.{
  Fault, Error, external, sentinel, wrap, not_ready_error, deletion_error, error_is, Outcome, ok,
  err,
}
use ocm_k8s_toolkit.Api.{Object, ObjectKey}
use ocm_k8s_toolkit.Library.{Library, Laws}

-- What `client.Get` returns.
pub data Fetched (O : Type 0) : Type 0 where
  found : O → Fetched O
  missing : Fault → Fetched O

abbrev pub Fetch : Type 0 → Type 0
Fetch O = ObjectKey → Fetched O

abbrev pub located : {O : Type 0} → Fetched O → Outcome O
located (missing f) = err (wrap "failed to locate object" (external f))
located (found o) = ok o

-- Get
unfoldable pub get : {O : Type 0} → Fetch O → ObjectKey → Outcome O
get fetch key = located (fetch key)

-- GetNamespaced
unfoldable pub get_namespaced : {O : Type 0} → Fetch O → String → String → Outcome O
get_namespaced fetch name namespace =
    located (fetch (record { namespace = namespace; name = name }))

module _ (lib : Library) {S T : Type 0} where
  -- what GetReadyObject makes of the object that it fetched
  unfoldable pub if_ready : ObjectKey → Outcome (Object S T) → Outcome (Object S T)
  if_ready key (err e) = err e
  if_ready key (ok o) =
      if o.meta.deleting
      then err (sentinel (deletion_error (lib.key_text key)))
      else if not (lib.is_ready o.conditions)
      then err (sentinel (not_ready_error (lib.key_text key)))
      else ok o

  -- GetReadyObject
  unfoldable pub get_ready_object : Fetch (Object S T) → ObjectKey → Outcome (Object S T)
  unfolding if_ready get
  get_ready_object fetch key = if_ready key (get fetch key)

-- the text of a key has a slash
key_text-ne-nil : (lib : Library) → Laws lib → (key : ObjectKey) → (lib.key_text key == "") ≡ false
key_text-ne-nil lib laws key = elim (Bool-cases (lib.key_text key == "")) [
  | inl h ↦ absurd (slash≢nil (sym (laws.key_text_lem key) ∙ (eq_iff (lib.key_text key) "").0 h))
  | inr h ↦ h
]
  where
    slash≢nil : str_append key.namespace (str_append "/" key.name) ≡ "" → ⊥
    slash≢nil e =
        let tail = (append-eq-nil_iff {p = key.namespace}).0 e in
        let slash = (append-eq-nil_iff {p = "/"} {q = key.name}).0 tail.1 in
        false≢true ((eq_iff "/" "").1 slash.0)

-- the test by which the reconcilers tell an object that is not available from another failure
unfoldable pub is_unavailable : Error → Bool
is_unavailable e = error_is e (not_ready_error "") || error_is e (deletion_error "")

module _ (lib : Library) {S T : Type 0} where
  if_ready_iff :
      (key : ObjectKey) (r : Fetched (Object S T)) (o : Object S T)
      → (if_ready lib key (located r) ≡ ok o)
        ↔ ((r ≡ found o) × (o.meta.deleting ≡ false) × (lib.is_ready o.conditions ≡ true))
  unfolding if_ready
  if_ready_iff key r o = (λ h. ground arith, λ h. ground arith)

  -- GetReadyObject returns an object exactly if the client found it, it is not being deleted and it
  -- is ready.
  pub get_ready_object_iff :
      (fetch : Fetch (Object S T)) (key : ObjectKey) (o : Object S T)
      → (get_ready_object lib fetch key ≡ ok o)
        ↔ ((fetch key ≡ found o) × (o.meta.deleting ≡ false) × (lib.is_ready o.conditions ≡ true))
  unfolding get_ready_object get
  get_ready_object_iff fetch key o = if_ready_iff key (fetch key) o

  module _ (laws : Laws lib) where
    if_ready_error :
        (key : ObjectKey) (r : Fetched (Object S T)) (e : Error)
        → if_ready lib key (located r) ≡ err e
        → is_unavailable e ≡ false
    unfolding if_ready is_unavailable error_is
    if_ready_error key r e h = ground (arith, key_text-ne-nil lib laws key)

    -- No error of GetReadyObject passes the test by which the reconcilers want to recognise an
    -- object that is not ready or is being deleted: the test compares with an empty object name.
    pub is_unavailable-get_ready_object :
        (fetch : Fetch (Object S T)) (key : ObjectKey) (e : Error)
        → get_ready_object lib fetch key ≡ err e
        → is_unavailable e ≡ false
    unfolding get_ready_object get
    is_unavailable-get_ready_object fetch key e h = if_ready_error key (fetch key) e h
