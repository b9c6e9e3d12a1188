-- ===== src/Sorting/Bytes.antt =====
-- Byte strings: the lexicographic order of `bytes.Compare` and of Go's strings.
use native.Mathlib.Nat.{ℕ_set}
use mathlib.Core.List.{is_set}
use ocm_k8s_toolkit.Prelude.{
  ℕ, ◌≡◌, refl, Bool, true, false, List, [], ◌∷◌, arith, ltb, if◌then◌else◌,
}
use ocm_k8s_toolkit.Sorting.{IsTotalOrder}

abbrev pub Bytes : Type 0
Bytes = List ℕ

-- `bytes.Compare a b <= 0`
unfoldable pub bytes_le : Bytes → Bytes → Bool
bytes_le [] b = true
bytes_le (x ∷ a) [] = false
bytes_le (x ∷ a) (y ∷ b) =
    let rest = bytes_le a b in if ltb x y then true else if ltb y x then false else rest

bytes_le_total : (a b : Bytes) → bytes_le a b ≡ false → bytes_le b a ≡ true
unfolding bytes_le
bytes_le_total [] b h = cc
bytes_le_total (x ∷ a) [] h = refl
bytes_le_total (x ∷ a) (y ∷ b) h = ground (arith, bytes_le_total a b)

bytes_le_antisymm : (a b : Bytes) → bytes_le a b ≡ true → bytes_le b a ≡ true → a ≡ b
unfolding bytes_le
bytes_le_antisymm [] [] h k = refl
bytes_le_antisymm [] (y ∷ b) h k = cc
bytes_le_antisymm (x ∷ a) [] h k = cc
bytes_le_antisymm (x ∷ a) (y ∷ b) h k = ground (arith, bytes_le_antisymm a b)

bytes_le_trans : (a b c : Bytes) → bytes_le a b ≡ true → bytes_le b c ≡ true → bytes_le a c ≡ true
unfolding bytes_le
bytes_le_trans [] b c h k = refl
bytes_le_trans (x ∷ a) [] c h k = cc
bytes_le_trans (x ∷ a) (y ∷ b) [] h k = cc
bytes_le_trans (x ∷ a) (y ∷ b) (z ∷ c) h k = ground (arith, bytes_le_trans a b c)

pub bytes_le-IsTotalOrder : IsTotalOrder bytes_le
bytes_le-IsTotalOrder = record {
  total = bytes_le_total;
  antisymm = bytes_le_antisymm;
  trans = bytes_le_trans;
}

pub Bytes-set : IsSet Bytes
Bytes-set = is_set ℕ_set
