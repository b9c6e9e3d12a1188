-- ===== src/DescriptorList.antt =====
-- internal/ocm/descriptors.go: component descriptors as JSON. The codec of the OCM library and the
-- JSON parser are parameters.
pub mod RoundTrip
use ocm_k8s_toolkit.Prelude.{
  String, str_append, Bool, true, false, Option, none, some, List, [], ◌∷◌, map, if◌then◌else◌,
}
use ocm_k8s_toolkit.Errors.{Error, external, Outcome, ok, err, ◌>>=◌, Reply, got, fault, outcome}

-- compdesc.Encode, compdesc.Decode, and json.Unmarshal of an object whose components are left raw
pub record DescriptorCodec (D : Type 0) : Type 0 where
  pub encode : D → Reply String
  pub decode : String → Reply D
  pub raw_components : String → Reply (List String)

abbrev pub opening : String
opening = "{\"components\":["

abbrev pub ending : String
ending = "]}"

module _ {D : Type 0} (codec : DescriptorCodec D) where
  -- the loop of MarshalJSON; the flag tells whether the index is above zero
  unfoldable pub write_list : Bool → List D → String → Outcome String
  write_list later [] list = ok list
  write_list later (desc ∷ descs) list = do
    encoded ← outcome (codec.encode desc)
    write_list true descs (str_append (if later then str_append list "," else list) encoded)

  -- MarshalJSON
  unfoldable pub marshal_json : List D → Outcome String
  unfolding write_list
  marshal_json descs = do list ← write_list false descs opening; ok (str_append list ending)

  -- given the first descriptor and what becomes of the others; what is not decoded stays nil
  abbrev pub decoded_first :
      Reply D → List String → Option Error × List (Option D) → Option Error × List (Option D)
  decoded_first (got desc) ds rest = (rest.0, some desc ∷ rest.1)
  decoded_first (fault f) ds rest = (some (external f), none ∷ map (λ _. none) ds)

  -- the loop of UnmarshalJSON: the error and the list
  unfoldable pub read_list : List String → Option Error × List (Option D)
  read_list [] = (none, [])
  read_list (d ∷ ds) = let rest = read_list ds in decoded_first (codec.decode d) ds rest

  abbrev pub read_raw : Reply (List String) → List (Option D) → Option Error × List (Option D)
  read_raw (got ds) before = read_list ds
  read_raw (fault f) before = (some (external f), before)

  -- UnmarshalJSON, on the list before
  unfoldable pub unmarshal_json : String → List (Option D) → Option Error × List (Option D)
  unfolding read_list
  unmarshal_json json before = read_raw (codec.raw_components json) before
