-- ===== src/DescriptorList/RoundTrip.antt =====
-- A list of descriptors survives its JSON.
use text.Mathlib.TextLemmas.{append_assoc, nil-append, append-nil}
use ocm_k8s_toolkit.Prelude.{
  String, str_append, ◌≡◌, refl, sym, ap, ◌∙◌, Bool, true, false, Option, none, some, List, [], ◌∷◌,
  map, if◌then◌else◌, arith,
}
use ocm_k8s_toolkit.Errors.{Outcome, ok, err, ◌>>=◌, Reply, got, fault, outcome}
use ocm_k8s_toolkit.Errors.Inversion.{ok-injective}
use ocm_k8s_toolkit.DescriptorList.{
  DescriptorCodec, opening, ending, write_list, marshal_json, read_list, unmarshal_json,
}

-- the elements of a JSON array
abbrev pub elements : Bool → List String → String
elements later [] = ""
elements later (s ∷ ss) = str_append (if later then "," else "") (str_append s (elements true ss))

module _ {D : Type 0} (codec : DescriptorCodec D) where
  -- the texts are the descriptors, encoded one by one
  abbrev pub Encoded : List D → List String → Type 0
  Encoded [] [] = Unit
  Encoded [] (s ∷ ss) = ⊥
  Encoded (d ∷ ds) [] = ⊥
  Encoded (d ∷ ds) (s ∷ ss) = (codec.encode d ≡ got s) × Encoded ds ss

  -- What the codec and the JSON parser promise: decoding undoes encoding, and an array of encoded
  -- descriptors parses into its elements.
  pub record CodecLaws : Type 0 where
    pub decode-encode : (d : D) (s : String) → codec.encode d ≡ got s → codec.decode s ≡ got d
    pub parses :
        (ds : List D) (ss : List String)
        → Encoded ds ss
        → codec.raw_components (str_append opening (str_append (elements false ss) ending)) ≡ got ss

  -- a descriptor that the loop writes, and the ones after it
  regrouped :
      (later : Bool) (list s rest : String)
      → str_append (str_append (if later then str_append list "," else list) s) rest
        ≡ str_append list (str_append (if later then "," else "") (str_append s rest))
  regrouped true list s rest =
      append_assoc (str_append list ",") s rest ∙ append_assoc list "," (str_append s rest)
  regrouped false list s rest =
      append_assoc list s rest ∙ ap (str_append list) (sym (nil-append (str_append s rest)))

  abbrev Written : Bool → List D → String → String → Type 0
  Written later ds list out =
      (ss : List String) × Encoded ds ss × (out ≡ str_append list (elements later ss))

  one_more :
      (later : Bool) (d : D) (ds : List D) (list out : String) (r : Reply String)
      → codec.encode d ≡ r
      → ((l : String) → write_list codec true ds l ≡ ok out → Written true ds l out)
      → (outcome r >>= λ e.
          write_list codec true ds (str_append (if later then str_append list "," else list) e))
        ≡ ok out
      → Written later (d ∷ ds) list out
  one_more later d ds list out (fault f) e next k = absurd (ground (arith, k))
  one_more later d ds list out (got s) e next k =
      let (ss, all, same) = next _ k in
      (s ∷ ss, (e, all), same ∙ regrouped later list s (elements true ss))

  written :
      (later : Bool) (ds : List D) (list out : String)
      → write_list codec later ds list ≡ ok out
      → Written later ds list out
  unfolding write_list
  written later [] list out h = ([], tt, sym (ok-injective h) ∙ sym (append-nil list))
  written later (d ∷ ds) list out h =
      one_more later d ds list out (codec.encode d) refl (λ l k. written true ds l out k) h

  decoded :
      CodecLaws
      → (ds : List D) (ss : List String) → Encoded ds ss
      → read_list codec ss ≡ (none, map some ds)
  unfolding read_list
  decoded laws [] [] h = refl
  decoded laws [] (s ∷ ss) h = absurd h
  decoded laws (d ∷ ds) [] h = absurd h
  decoded laws (d ∷ ds) (s ∷ ss) (h, hs) = rw (laws.decode-encode d s h, decoded laws ds ss hs) refl

  closed :
      (ds : List D) (o : Outcome String) (json : String)
      → write_list codec false ds opening ≡ o
      → (o >>= λ list. ok (str_append list ending)) ≡ ok json
      → (ss : List String) × Encoded ds ss
        × (json ≡ str_append opening (str_append (elements false ss) ending))
  closed ds (err e) json w h = absurd (ground (arith, h))
  closed ds (ok list) json w h =
      let (ss, all, same) = written false ds opening list w in
      (
        ss,
        all,
        sym (ok-injective h)
            ∙ ap (λ l. str_append l ending) same
            ∙ append_assoc opening (elements false ss) ending,
      )

  -- If decoding undoes encoding and the JSON parser finds the elements of an array of encoded
  -- descriptors, then what MarshalJSON writes for a list of descriptors, UnmarshalJSON reads as that
  -- list again, whatever the list was before.
  pub unmarshal_json-marshal_json :
      CodecLaws
      → (ds : List D) (json : String) (before : List (Option D)) → marshal_json codec ds ≡ ok json
      → unmarshal_json codec json before ≡ (none, map some ds)
  unfolding marshal_json unmarshal_json
  unmarshal_json-marshal_json laws ds json before h =
      let (ss, all, same) = closed ds (write_list codec false ds opening) json refl h in
      rw (ap codec.raw_components same ∙ laws.parses ds ss all) (decoded laws ds ss all)
