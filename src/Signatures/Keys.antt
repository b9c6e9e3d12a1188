-- ===== src/Signatures/Keys.antt =====
-- Where the keys of GetVerifications come from.
use ocm_k8s_toolkit.Prelude.{
  String, ◌≡◌, sym, ap, ◌∙◌, subst, true, List, [], ◌∷◌, arith, ◌==◌, eq_iff, Bool-cases, inl, inr,
}
use ocm_k8s_toolkit.Errors.{ok, ◌>>=◌, Reply, got, outcome}
use ocm_k8s_toolkit.Errors.Inversion.{ok-injective, >>=-eq-ok, outcome-eq-ok}
use ocm_k8s_toolkit.Api.{ObjectKey, Verification}
use ocm_k8s_toolkit.Signatures.{
  VerificationKey, SecretData, key_in, inline_key, secret_key, get_verification, get_verifications,
}

module _ (decode_string : String → Reply String) (get_secret : ObjectKey → Reply SecretData)
    (namespace : String) where
  -- The key of a verification: the decoded inline value, or the entry of the secret that has the
  -- name of the signature, which is empty if the secret has no such entry.
  pub data Keyed (v : Verification) (k : VerificationKey) : Type 0 where
    inline_keyed :
        k.signature ≡ v.signature
        → v.secret_ref ≡ ""
        → decode_string v.value ≡ got k.public_key
        → Keyed v k
    secret_keyed :
        (entries : SecretData)
        → k.signature ≡ v.signature
        → v.value ≡ ""
        → get_secret (record { namespace = namespace; name = v.secret_ref }) ≡ got entries
        → k.public_key ≡ key_in v.signature entries ""
        → Keyed v k

  abbrev pub AllKeyed : List Verification → List VerificationKey → Type 0
  AllKeyed [] [] = Unit
  AllKeyed (v ∷ vs) (k ∷ ks) = Keyed v k × AllKeyed vs ks
  AllKeyed _ _ = ⊥

  from_secret :
      (v : Verification) (k : VerificationKey)
      → (v.value == "") ≡ true
      → (outcome (get_secret (record { namespace = namespace; name = v.secret_ref }))
          >>= (λ entries. ok (key_in v.signature entries ""))
          >>= λ key. ok (record { signature = v.signature; public_key = key }))
        ≡ ok k
      → Keyed v k
  from_secret v k e h =
      let (key, h1, h2) =
        >>=-eq-ok
          (outcome (get_secret (record { namespace = namespace; name = v.secret_ref }))
            >>= λ entries. ok (key_in v.signature entries ""))
          _ h in
      let (entries, h3, h4) =
        >>=-eq-ok (outcome (get_secret (record { namespace = namespace; name = v.secret_ref }))) _
          h1 in
      secret_keyed entries (sym (ap (λ k. k.signature) (ok-injective h2))) ((eq_iff v.value "").0 e)
        (outcome-eq-ok _ h3)
        (sym (ap (λ k. k.public_key) (ok-injective h2)) ∙ sym (ok-injective h4))

  from_value :
      (v : Verification) (k : VerificationKey)
      → (v.secret_ref == "") ≡ true
      → (outcome (decode_string v.value) >>= λ inline.
          ok (record { signature = v.signature; public_key = inline }))
        ≡ ok k
      → Keyed v k
  from_value v k e h =
      let (key, h1, h2) = >>=-eq-ok (outcome (decode_string v.value)) _ h in
      inline_keyed (sym (ap (λ k. k.signature) (ok-injective h2))) ((eq_iff v.secret_ref "").0 e)
        (outcome-eq-ok _ h1 ∙ ap got (ap (λ k. k.public_key) (ok-injective h2)))

  get_verification-Keyed :
      (v : Verification) (k : VerificationKey)
      → get_verification decode_string get_secret namespace v ≡ ok k
      → Keyed v k
  unfolding get_verification inline_key secret_key
  get_verification-Keyed v k h = elim (Bool-cases (v.value == "")) [
    | inl e ↦ elim (Bool-cases (v.secret_ref == "")) [
      | inl f ↦ absurd (ground (arith))
      | inr f ↦ from_secret v k e (rw (e, f) at h)
    ]
    | inr e ↦ elim (Bool-cases (v.secret_ref == "")) [
      | inl f ↦ from_value v k f (rw (e, f) at h)
      | inr f ↦ absurd (ground (arith))
    ]
  ]

  -- Whenever GetVerifications succeeds it returns one key per verification, in their order, each
  -- with the name of the signature, and from exactly one source: the decoded inline value of a
  -- verification without a secret, or the entry of the secret of one without an inline value. A
  -- secret that has no entry for the signature gives an empty key.
  pub get_verifications-Keyed :
      (vs : List Verification) (ks : List VerificationKey)
      → get_verifications decode_string get_secret namespace vs ≡ ok ks
      → AllKeyed vs ks
  unfolding get_verifications
  get_verifications-Keyed [] [] h = tt
  get_verifications-Keyed [] (k ∷ ks) h = absurd (ground arith)
  get_verifications-Keyed (v ∷ vs) ks h =
      let (k, p, h1) = >>=-eq-ok (get_verification decode_string get_secret namespace v) _ h in
      let (l, q, h2) = >>=-eq-ok (get_verifications decode_string get_secret namespace vs) _ h1 in
      subst (AllKeyed (v ∷ vs)) (ok-injective h2)
        (get_verification-Keyed v k p, get_verifications-Keyed vs l q)
