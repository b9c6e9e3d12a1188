-- ===== src/Tests/Encodings.antt =====
-- The JSON of a list of descriptors, with a codec for one descriptor and a parser that keeps the
-- digits of a text.
use Prim.Native.Char.{code}
use mathlib.Core.List.{append-nil}
use text.Mathlib.TextLemmas.{nil-append, cons-append}
use ocm_k8s_toolkit.Prelude.{
  String, str_append, ◌≡◌, refl, sym, ap, ◌∙◌, Bool, true, false, none, some, List, [], ◌∷◌, ◌++◌,
  nat_eq, if◌then◌else◌, Bool-cases, inl, inr,
}
use ocm_k8s_toolkit.Errors.{Reply, got}
use ocm_k8s_toolkit.DescriptorList.{DescriptorCodec, opening, ending, marshal_json, unmarshal_json}
use ocm_k8s_toolkit.DescriptorList.RoundTrip.{
  CodecLaws, Encoded, elements, unmarshal_json-marshal_json,
}

unfoldable ones : String → List String
ones String.[] = []
ones (String.◌∷◌ c s) = let rest = ones s in if nat_eq (code c) b'1' then "1" ∷ rest else rest

abbrev codec : DescriptorCodec (Unit {0})
codec = record { encode = λ d. got "1"; decode = λ s. got tt; raw_components = λ s. got (ones s) }

ones-append : (a b : String) → ones (str_append a b) ≡ ones a ++ ones b
unfolding ones
ones-append String.[] b = ap ones (nil-append b)
ones-append (String.◌∷◌ c a) b = elim (Bool-cases (nat_eq (code c) b'1')) [
  | inl e ↦ rw (cons-append c a b, e) (ap (λ l. "1" ∷ l) (ones-append a b))
  | inr e ↦ rw (cons-append c a b, e) (ones-append a b)
]

abbrev reply_or_one : Reply String → String
reply_or_one (got s) = s
reply_or_one _ = "1"

ones-elements :
    (later : Bool) (ds : List (Unit {0})) (ss : List String)
    → Encoded codec ds ss
    → ones (elements later ss) ≡ ss
unfolding ones
ones-elements later [] [] h = refl
ones-elements later [] (s ∷ ss) h = absurd h
ones-elements later (d ∷ ds) [] h = absurd h
ones-elements later (d ∷ ds) (s ∷ ss) (h, hs) =
    ones-append (if later then "," else "") (str_append s (elements true ss))
    ∙ ap (λ l. l ++ ones (str_append s (elements true ss))) (separator later)
    ∙ ones-append s (elements true ss)
    ∙ ap (λ l. l ++ ones (elements true ss)) (ap ones (sym (ap reply_or_one h)))
    ∙ ap (λ l. "1" ∷ l) (ones-elements true ds ss hs)
    ∙ ap (λ x. x ∷ ss) (ap reply_or_one h)
  where
    separator : (b : Bool) → ones (if b then "," else "") ≡ []
    separator true = refl
    separator false = refl

codec_laws : CodecLaws codec
unfolding ones
codec_laws = record {
  decode-encode = λ d s h. refl;
  parses = λ ds ss h. ap got (
      ones-append opening (str_append (elements false ss) ending)
      ∙ ones-append (elements false ss) ending
      ∙ append-nil (ones (elements false ss))
      ∙ ones-elements false ds ss h);
}

unmarshal_json-marshal_json_example :
    unmarshal_json codec "{\"components\":[1,1]}" [] ≡ (none, some tt ∷ some tt ∷ [])
unfolding marshal_json
unmarshal_json-marshal_json_example =
    unmarshal_json-marshal_json codec codec_laws (tt ∷ tt ∷ []) "{\"components\":[1,1]}" [] refl
