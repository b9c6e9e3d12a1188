-- ===== src/Deployer/Digest/RoundTrip.antt =====
-- A digest text and its parts.
use Prim.Native.Char.{Char, code}
use text.Mathlib.TextEquality.{Char-path}
use text.Mathlib.TextLemmas.{nil-append, cons-append}
use ocm_k8s_toolkit.Prelude.{
  ℕ, String, ◌≡◌, ◌≢◌, ◌↔◌, refl, sym, ap, subst, ◌∙◌, Bool, true, false, none, some, [], ◌∷◌, ◌==◌,
  arith, nat_eq, str_append, eq_iff, Bool-cases, inl, inr, ◌⊎◌, Option-cases,
}
use ocm_k8s_toolkit.Errors.{new, ok, err}
use ocm_k8s_toolkit.Deployer.Digest.{
  DigestSpec, is_algorithm, is_hex, is_normalisation, span, after, group, find_string_submatch,
  digest_spec, set_parts,
}

-- every character of the text is in the class
abbrev pub AllIn : (ℕ → Bool) → String → Type 0
AllIn p String.[] = Unit
AllIn p (String.◌∷◌ c s) = (p (code c) ≡ true) × AllIn p s

span-append : (p : ℕ → Bool) (s : String) → s ≡ str_append (span p s).0 (span p s).1
unfolding span
span-append p String.[] = sym (nil-append String.[])
span-append p (String.◌∷◌ c s) = elim (Bool-cases (p (code c))) [
  | inl e ↦
      rw e (ap (String.◌∷◌ c) (span-append p s) ∙ sym (cons-append c (span p s).0 (span p s).1))
  | inr n ↦ rw n (sym (nil-append (String.◌∷◌ c s)))
]

span-AllIn : (p : ℕ → Bool) (s : String) → AllIn p (span p s).0
unfolding span
span-AllIn p String.[] = tt
span-AllIn p (String.◌∷◌ c s) = elim (Bool-cases (p (code c))) [
  | inl e ↦ rw e (e, span-AllIn p s)
  | inr n ↦ rw n tt
]

span_stops :
    (p : ℕ → Bool) (a : String) (d : Char) (t : String)
    → AllIn p a
    → p (code d) ≡ false
    → span p (str_append a (String.◌∷◌ d t)) ≡ (a, String.◌∷◌ d t)
unfolding span
span_stops p String.[] d t h n = rw (nil-append (String.◌∷◌ d t), n)
span_stops p (String.◌∷◌ c a) d t (e, h) n =
    rw (cons-append c a (String.◌∷◌ d t), e, span_stops p a d t h n)

nat_eq-eq : (m n : ℕ) → nat_eq m n ≡ true → m ≡ n
nat_eq-eq m n h = ground arith

nat_eq_refl : (n : ℕ) → nat_eq n n ≡ true
nat_eq_refl n = ground arith

after-some : (d : Char) (r t : String) → after (code d) r ≡ some t → r ≡ String.◌∷◌ d t
unfolding after
after-some d String.[] t h = cc
after-some d (String.◌∷◌ c r) t h = elim (Bool-cases (nat_eq (code c) (code d))) [
  | inl e ↦ let k : some r ≡ some t = rw e at h in cc (k, Char-path c d (nat_eq-eq _ _ e))
  | inr n ↦ let k : none ≡ some t = rw n at h in absurd (ground (arith, k))
]

-- a group and the character that ends it
group-some :
    (p : ℕ → Bool) (d : Char) (s a t : String)
    → group p (code d) s ≡ some (a, t)
    → (a ≢ "") × AllIn p a × (s ≡ str_append a (String.◌∷◌ d t))
unfolding group
group-some p d s a t h = elim (Bool-cases ((span p s).0 == "")) [
  | inl e ↦ let k : none ≡ some (a, t) = rw e at h in absurd (ground (arith, k))
  | inr n ↦ elim (Option-cases (after (code d) (span p s).1)) [
    | inl e ↦ let k : none ≡ some (a, t) = rw (n, e) at h in absurd (ground (arith, k))
    | inr (r, e) ↦
        let k : some ((span p s).0, r) ≡ some (a, t) = rw (n, e) at h in
        let first : (span p s).0 ≡ a = ground (arith, k) in
        let rest : r ≡ t = ground (arith, k) in
        (
          λ q. absurd (ground (arith, n, (eq_iff (span p s).0 "").1 (first ∙ q))),
          subst (AllIn p) first (span-AllIn p s),
          span-append p s ∙ cc (after-some d (span p s).1 r e, first, rest),
        )
  ]
]

group_stops :
    (p : ℕ → Bool) (d : Char) (a t : String)
    → a ≢ ""
    → AllIn p a
    → p (code d) ≡ false
    → group p (code d) (str_append a (String.◌∷◌ d t)) ≡ some (a, t)
unfolding group after
group_stops p d a t ne h n = elim (Bool-cases (a == "")) [
  | inl e ↦ absurd (ne ((eq_iff a "").0 e))
  | inr e ↦
      rw (span_stops p a d t h n, e, nat_eq_refl (code d))
        (ap (λ x. some (x.0, t)) (span_stops p a d t h n))
]

abbrev colon : Char
colon = ":"

abbrev bracket : Char
bracket = "["

abbrev closing : Char
closing = "]"

-- `DigestSpec.String`: the algorithm, the value, and the normalisation in brackets
abbrev pub digest_text : DigestSpec → String
digest_text d = str_append d.hash_algorithm (
    String.◌∷◌ ":" (
      str_append d.value
        (String.◌∷◌ "[" (str_append d.normalisation_algorithm (String.◌∷◌ "]" "")))))

-- The parts of a digest are not empty and of the characters that the pattern allows.
pub record IsPrintable (d : DigestSpec) : Type 0 where
  pub has_algorithm : d.hash_algorithm ≢ ""
  pub has_value : d.value ≢ ""
  pub has_normalisation : d.normalisation_algorithm ≢ ""
  pub in_algorithm : AllIn is_algorithm d.hash_algorithm
  pub in_value : AllIn is_hex d.value
  pub in_normalisation : AllIn is_normalisation d.normalisation_algorithm

abbrev of_parts : String → String → String → DigestSpec
of_parts a d n = record { hash_algorithm = a; normalisation_algorithm = n; value = d }

-- There is no match, or one whose parts are those of the text.
abbrev Matched : String → Type 0
Matched s =
    (a : String) × (d : String) × (n : String) × (find_string_submatch s ≡ s ∷ a ∷ d ∷ n ∷ [])
    × IsPrintable (of_parts a d n)
    × (s ≡ digest_text (of_parts a d n))

last_group :
    (s a d n t u v : String)
    → group is_algorithm (code colon) s ≡ some (a, t)
    → group is_hex (code bracket) t ≡ some (d, u)
    → group is_normalisation (code closing) u ≡ some (n, v)
    → (find_string_submatch s ≡ []) ⊎ Matched s
unfolding find_string_submatch
last_group s a d n t u v e f g = elim (Bool-cases (v == "")) [
  | inr k ↦ inl (rw (e, f, g, k))
  | inl k ↦
      let (a1, a2, a3) = group-some is_algorithm colon s a t e in
      let (d1, d2, d3) = group-some is_hex bracket t d u f in
      let (n1, n2, n3) = group-some is_normalisation closing u n v g in
      inr (
        a,
        d,
        n,
        rw (e, f, g, k),
        record {
          has_algorithm = a1;
          has_value = d1;
          has_normalisation = n1;
          in_algorithm = a2;
          in_value = d2;
          in_normalisation = n2;
        },
        cc (a3, d3, n3, (eq_iff v "").0 k),
      )
]

submatch_cases : (s : String) → (find_string_submatch s ≡ []) ⊎ Matched s
unfolding find_string_submatch
submatch_cases s = elim (Option-cases (group is_algorithm (code colon) s)) [
  | inl e ↦ inl (rw e)
  | inr ((a, t), e) ↦ elim (Option-cases (group is_hex (code bracket) t)) [
    | inl f ↦ inl (rw (e, f))
    | inr ((d, u), f) ↦ elim (Option-cases (group is_normalisation (code closing) u)) [
      | inl g ↦ inl (rw (e, f, g))
      | inr ((n, v), g) ↦ last_group s a d n t u v e f g
    ]
  ]
]

matched :
    (s a d n : String)
    → find_string_submatch s ≡ s ∷ a ∷ d ∷ n ∷ []
    → digest_spec s ≡ ok (of_parts a d n)
unfolding digest_spec set_parts
matched s a d n h = rw h

unmatched :
    (s : String)
    → find_string_submatch s ≡ []
    → digest_spec s ≡ err (new "invalid digest spec format")
unfolding digest_spec
unmatched s h = rw h

printed : (spec : DigestSpec) → IsPrintable spec → digest_spec (digest_text spec) ≡ ok spec
unfolding find_string_submatch is_algorithm is_hex is_normalisation
printed spec h =
    let after_value : String = str_append spec.normalisation_algorithm (String.◌∷◌ closing "") in
    let after_algorithm : String = str_append spec.value (String.◌∷◌ bracket after_value) in
    matched (digest_text spec) spec.hash_algorithm spec.value spec.normalisation_algorithm (
      rw (
        group_stops is_algorithm colon spec.hash_algorithm after_algorithm h.has_algorithm
            h.in_algorithm refl,
        group_stops is_hex bracket spec.value after_value h.has_value h.in_value refl,
        group_stops is_normalisation closing spec.normalisation_algorithm "" h.has_normalisation
            h.in_normalisation refl,
      ))

-- digestSpec reads a text exactly if the text is the print of a digest whose parts are not empty and
-- of the characters that the pattern allows for them, and it returns that digest.
pub digest_spec_iff :
    (s : String) (spec : DigestSpec)
    → (digest_spec s ≡ ok spec) ↔ (IsPrintable spec × (s ≡ digest_text spec))
digest_spec_iff s spec = (read, λ (h, e). rw e (printed spec h))
  where
    read : digest_spec s ≡ ok spec → IsPrintable spec × (s ≡ digest_text spec)
    read h = elim (submatch_cases s) [
      | inl e ↦ absurd (ground (arith, h, unmatched s e))
      | inr (a, d, n, e, good, same) ↦
          let spec_is : of_parts a d n ≡ spec = ground (arith, h, matched s a d n e) in
          (subst IsPrintable spec_is good, same ∙ ap digest_text spec_is)
    ]
