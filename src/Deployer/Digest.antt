-- ===== src/Deployer/Digest.antt =====
-- digestSpec of internal/controller/deployer/deployer_controller.go: the parts of a digest that the
-- status of a resource keeps as a text.
pub mod RoundTrip
use Prim.Native.Char.{code}
use Prim.Native.String
use ocm_k8s_toolkit.Prelude.{
  ℕ, zero, suc, String, Bool, true, false, ◌&&◌, ◌||◌, Option, none, some, List, [], ◌∷◌, ◌==◌, leb,
  length, nat_eq, str_append, if◌then◌else◌,
}
use ocm_k8s_toolkit.Errors.{new, Outcome, ok, err}

-- DigestSpec of the OCM library
pub record DigestSpec : Type 0 where
  pub hash_algorithm : String
  pub normalisation_algorithm : String
  pub value : String

-- the classes [0-9A-Za-z_], [0-9A-Fa-f], and the first one with a dash or a slash
unfoldable pub is_word : ℕ → Bool
is_word c =
    (leb b'0' c && leb c b'9')
    || (leb b'A' c && leb c b'Z')
    || (leb b'a' c && leb c b'z')
    || nat_eq c b'_'

unfoldable pub is_hex : ℕ → Bool
is_hex c = (leb b'0' c && leb c b'9') || (leb b'A' c && leb c b'F') || (leb b'a' c && leb c b'f')

unfoldable pub is_algorithm : ℕ → Bool
unfolding is_word
is_algorithm c = is_word c || nat_eq c b'-'

unfoldable pub is_normalisation : ℕ → Bool
unfolding is_word
is_normalisation c = is_word c || nat_eq c b'/'

-- the longest beginning in a class, and the rest
unfoldable pub span : (ℕ → Bool) → String → String × String
span p String.[] = (String.[], String.[])
span p (String.◌∷◌ c s) =
    let rest = span p s in
    if p (code c) then (String.◌∷◌ c rest.0, rest.1) else (String.[], String.◌∷◌ c s)

-- what follows a given character
unfoldable pub after : ℕ → String → Option String
after d String.[] = none
after d (String.◌∷◌ c s) = if nat_eq (code c) d then some s else none

-- a group `(…+)` and what follows the character after it
unfoldable pub group : (ℕ → Bool) → ℕ → String → Option (String × String)
unfolding span after
group p d s =
    let (a, r) = span p s in
    if a == "" then none else elim (after d r) [ none ↦ none | some t ↦ some (a, t) ]

abbrev pub match_norm : String → String → String → Option (String × String) → List String
match_norm s algo digest none = []
match_norm s algo digest (some (norm, v)) = if v == "" then s ∷ algo ∷ digest ∷ norm ∷ [] else []

abbrev pub match_digest : String → String → Option (String × String) → List String
match_digest s algo none = []
match_digest s algo (some (digest, u)) = match_norm s algo digest (group is_normalisation b']' u)

abbrev pub match_algorithm : String → Option (String × String) → List String
match_algorithm s none = []
match_algorithm s (some (algo, t)) = match_digest s algo (group is_hex b'[' t)

-- FindStringSubmatch of the pattern: the whole match and the groups, or nothing. No class has the
-- character after it, so the longest beginning is the only candidate.
unfoldable pub find_string_submatch : String → List String
unfolding group is_algorithm is_hex is_normalisation
find_string_submatch s = match_algorithm s (group is_algorithm b':' s)

-- SubexpNames of the pattern
abbrev pub subexp_names : List String
subexp_names = "" ∷ "algo" ∷ "digest" ∷ "norm" ∷ []

-- the cases of the loop
unfoldable pub set_part : String → String → DigestSpec → DigestSpec
set_part name m spec =
    if name == "algo"
    then record spec { hash_algorithm = m }
    else if name == "digest"
    then record spec { value = m }
    else if name == "norm"
    then record spec { normalisation_algorithm = m }
    else spec

unfoldable pub set_parts : List String → List String → DigestSpec → DigestSpec
unfolding set_part
set_parts (n ∷ names) (m ∷ matches) spec = set_parts names matches (set_part n m spec)
set_parts [] matches spec = spec
set_parts (n ∷ names) [] spec = spec

abbrev pub empty_spec : DigestSpec
empty_spec = record { hash_algorithm = ""; normalisation_algorithm = ""; value = "" }

-- digestSpec
unfoldable pub digest_spec : String → Outcome DigestSpec
unfolding find_string_submatch set_parts
digest_spec s =
    let matches = find_string_submatch s in
    if nat_eq (length matches) 4
    then ok (set_parts subexp_names matches empty_spec)
    else err (new "invalid digest spec format")
