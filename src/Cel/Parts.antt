-- ===== src/Cel/Parts.antt =====
-- How the parts that toOCI returns belong together.
use Prim.Native.Char.{code}
use text.Mathlib.TextLemmas.{nil-append, cons-append}
use ocm_k8s_toolkit.Prelude.{
  String, str_append, ◌≡◌, refl, sym, ap, ◌∙◌, Bool, true, false, Option, none, some, ◌==◌, nat_eq,
  if◌then◌else◌, Bool-cases, inl, inr,
}
use ocm_k8s_toolkit.Errors.{ok, Reply, got}
use ocm_k8s_toolkit.Cel.{
  Value, RefSpec, OciParts, reference_in, trim_slashes, reference_text, text_or_empty, parts_of,
  binding_to_oci,
}

abbrev pub starts_with_slash : String → Bool
starts_with_slash String.[] = false
starts_with_slash (String.◌∷◌ c s) = nat_eq (code c) b'/'

trimmed : (s : String) → starts_with_slash (trim_slashes s) ≡ false
unfolding trim_slashes
trimmed String.[] = refl
trimmed (String.◌∷◌ c s) = elim (Bool-cases (nat_eq (code c) b'/')) [
  | inl e ↦ rw e (trimmed s)
  | inr n ↦ rw n n
]

-- slashes and nothing else
abbrev pub IsSlashes : String → Type 0
IsSlashes String.[] = Unit
IsSlashes (String.◌∷◌ c s) = (nat_eq (code c) b'/' ≡ true) × IsSlashes s

cut_off : (s : String) → (p : String) × IsSlashes p × (s ≡ str_append p (trim_slashes s))
unfolding trim_slashes
cut_off String.[] = ("", tt, sym (nil-append String.[]))
cut_off (String.◌∷◌ c s) = elim (Bool-cases (nat_eq (code c) b'/')) [
  | inl e ↦
      let (p, only, same) = cut_off s in
      (
        String.◌∷◌ c p,
        (e, only),
        rw e (ap (String.◌∷◌ c) same ∙ sym (cons-append c p (trim_slashes s))),
      )
  | inr n ↦ rw n ("", tt, sym (nil-append (String.◌∷◌ c s)))
]

-- a tag and a digest, of which either may be empty, as a reference
abbrev pub joined : String → String → String
joined tag digest =
    if tag == ""
    then digest
    else if digest == ""
    then tag
    else str_append tag (str_append "@" digest)

-- A tag or a digest that the parser finds is not empty.
pub record RefLaws (r : RefSpec) : Type 0 where
  pub tag : (t : String) → r.tag ≡ some t → (t == "") ≡ false
  pub digest : (d : String) → r.digest ≡ some d → (d == "") ≡ false

joined_text :
    (t d : Option String)
    → ((x : String) → t ≡ some x → (x == "") ≡ false)
    → ((x : String) → d ≡ some x → (x == "") ≡ false)
    → reference_text t d ≡ joined (text_or_empty t) (text_or_empty d)
joined_text none none h g = refl
joined_text none (some d) h g = refl
joined_text (some t) none h g = rw (h t refl) refl
joined_text (some t) (some d) h g = rw (h t refl, g d refl) refl

-- What the parts of a reference are.
pub record Agrees (r : RefSpec) (m : OciParts) : Type 0 where
  pub registry : (m.host ≡ r.host) × (m.registry ≡ m.host)
  pub relative : starts_with_slash m.repository ≡ false
  pub repository : (p : String) × IsSlashes p × (r.repository ≡ str_append p m.repository)
  pub reference : m.reference ≡ joined m.tag m.digest
  pub tag : (t : String) → r.tag ≡ some t → m.tag ≡ t
  pub digest : (d : String) → r.digest ≡ some d → m.digest ≡ d

parts_of-Agrees : (r : RefSpec) → RefLaws r → Agrees r (parts_of r)
unfolding parts_of
parts_of-Agrees r laws = record {
  registry = (refl, refl);
  relative = trimmed r.repository;
  repository = cut_off r.repository;
  reference = joined_text r.tag r.digest laws.tag laws.digest;
  tag = λ t h. ap text_or_empty h;
  digest = λ d h. ap text_or_empty h;
}

-- If no tag and no digest that the parser finds is empty, then whatever toOCI returns for a value
-- belongs to what the parser finds in the reference of the value: host and registry are the host,
-- the repository is the one that was found without the slashes at its beginning, and the reference
-- is made of the tag and the digest. It returns such parts whenever the value has a reference that
-- the parser reads.
pub binding_to_oci-Agrees :
    (parse_ref : String → Reply RefSpec)
    → ((s : String) (r : RefSpec) → parse_ref s ≡ got r → RefLaws r)
    → (v : Value) (s : String) (r : RefSpec) → reference_in v ≡ ok s
    → parse_ref s ≡ got r
    → (m : OciParts) × (binding_to_oci parse_ref v ≡ ok m) × Agrees r m
unfolding binding_to_oci
binding_to_oci-Agrees parse_ref laws v s r h g =
    (parts_of r, rw (h, g) refl, parts_of-Agrees r (laws s r g))
