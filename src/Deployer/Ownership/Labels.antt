-- ===== src/Deployer/Ownership/Labels.antt =====
-- The labels of an applied object, by their keys.
use Prim.Native.Char.{len_utf8}
use Prim.Native.String.len
use Prim.Native.String.{len}
use ocm_k8s_toolkit.Prelude.{
  ℕ, ◌-◌, ◌≤◌, String, ◌≡◌, refl, sym, ap, subst, ◌∙◌, Bool, true, false, ◌||◌, Option, none, some,
  [], ◌∷◌, ◌==◌, ltb, leb, arith, if◌then◌else◌, eq_iff, Bool-cases, inl, inr,
}
use ocm_k8s_toolkit.Resource.Ops.{ResourceInfo}
use ocm_k8s_toolkit.Deployer.Ownership.{
  StringMap, set_entry, entry, managed_by_label, version_label, part_of_label, instance_label,
  name_label, component_label, deployer_manager, label_value_max_length, take_bytes, limit,
  ownership_labels,
}

pub entry-set_entry :
    (j k v : String) (m : StringMap)
    → entry j (set_entry k v m) ≡ (if k == j then some v else entry j m)
unfolding entry set_entry
entry-set_entry j k v [] = refl
entry-set_entry j k v (e ∷ m) =
    ground (arith, eq_iff k j, eq_iff e.0 k, eq_iff e.0 j, entry-set_entry j k v m)

take_bytes-le : (n : ℕ) (s : String) → len (take_bytes n s) ≤ n
unfolding take_bytes
take_bytes-le n String.[] = omega arith
take_bytes-le n (String.◌∷◌ c s) = elim (Bool-cases (leb (len_utf8 c) n)) [
  | inl e ↦
      rw (e, len.cons c (take_bytes (n - len_utf8 c) s))
        (ground (arith, take_bytes-le (n - len_utf8 c) s))
  | inr k ↦ rw k (omega arith)
]

limit-le : (v : String) → len (limit v) ≤ label_value_max_length
unfolding limit
limit-le v = elim (Bool-cases (ltb label_value_max_length (len v))) [
  | inl e ↦ rw e (take_bytes-le label_value_max_length v)
  | inr n ↦ rw n (ground (arith, n))
]

limit_short : (v : String) → len v ≤ label_value_max_length → limit v ≡ v
unfolding limit
limit_short v h = elim (Bool-cases (ltb label_value_max_length (len v))) [
  | inl e ↦ absurd (ground (arith, e, h))
  | inr n ↦ rw n
]

-- the six keys
abbrev pub is_ownership_label : String → Bool
is_ownership_label k =
    managed_by_label == k
    || part_of_label == k
    || instance_label == k
    || version_label == k
    || name_label == k
    || component_label == k

-- there is a value, and it is short enough for a label
abbrev pub IsShort : Option String → Type 0
IsShort none = ⊥
IsShort (some v) = len v ≤ label_value_max_length

-- the value under a key, given the one before
abbrev owned : String → String → ResourceInfo → String → String → Option String → Option String
owned name uid info deployer k before =
    if managed_by_label == k
    then some deployer_manager
    else if part_of_label == k
    then some (limit deployer)
    else if instance_label == k
    then some (limit uid)
    else if version_label == k
    then some (limit info.version)
    else if name_label == k
    then some (limit name)
    else if component_label == k
    then some (limit name)
    else before

entry-ownership_labels :
    (name uid : String) (info : ResourceInfo) (deployer k : String) (m : StringMap)
    → entry k (ownership_labels name uid info deployer m)
      ≡ owned name uid info deployer k (entry k m)
unfolding ownership_labels
entry-ownership_labels name uid info deployer k m = simp (entry-set_entry)

abbrev picked :
    Bool
    → Bool
    → Bool
    → Bool
    → Bool
    → Bool
    → (String × String × String × String × String)
    → Option String
    → Option String
picked a b c d e f v before =
    if a
    then some v.0
    else if b
    then some v.1
    else if c
    then some v.2
    else if d
    then some v.3
    else if e
    then some v.4
    else if f
    then some v.4
    else before

abbrev AllShort : (String × String × String × String × String) → Type 0
AllShort v =
    IsShort (some v.0)
    × IsShort (some v.1)
    × IsShort (some v.2)
    × IsShort (some v.3)
    × IsShort (some v.4)

picked-IsShort :
    (a b c d e f : Bool) (v : String × String × String × String × String) (before : Option String)
    → AllShort v
    → ((a || b || c || d || e || f) ≡ true → IsShort (picked a b c d e f v before))
      × ((a || b || c || d || e || f) ≡ false → picked a b c d e f v before ≡ before)
picked-IsShort true b c d e f v before h = (λ _. h.0, λ k. absurd (ground (arith, k)))
picked-IsShort false true c d e f v before h = (λ _. h.1, λ k. absurd (ground (arith, k)))
picked-IsShort false false true d e f v before h = (λ _. h.2, λ k. absurd (ground (arith, k)))
picked-IsShort false false false true e f v before h = (λ _. h.3, λ k. absurd (ground (arith, k)))
picked-IsShort false false false false true f v before h =
    (λ _. h.4, λ k. absurd (ground (arith, k)))
picked-IsShort false false false false false true v before h =
    (λ _. h.4, λ k. absurd (ground (arith, k)))
picked-IsShort false false false false false false v before h =
    (λ k. absurd (ground (arith, k)), λ _. refl)

-- What setOwnershipLabels makes of the labels of an object.
pub record Labelled (name uid : String) (info : ResourceInfo) (deployer : String)
    (before after : StringMap) : Type 0 where
  pub managed : entry managed_by_label after ≡ some deployer_manager
  pub short : (k : String) → is_ownership_label k ≡ true → IsShort (entry k after)
  pub kept : (k : String) → is_ownership_label k ≡ false → entry k after ≡ entry k before
  pub versioned :
      len info.version ≤ label_value_max_length → entry version_label after ≡ some info.version

-- After setOwnershipLabels the managed-by label names the deployer controller, each of the six labels
-- has a value of at most 63 bytes, every other label is as it was, and the version label is the whole
-- version if that is not longer.
pub ownership_labels-Labelled :
    (name uid : String) (info : ResourceInfo) (deployer : String) (m : StringMap)
    → Labelled name uid info deployer m (ownership_labels name uid info deployer m)
ownership_labels-Labelled name uid info deployer m = record {
  managed = entry-ownership_labels name uid info deployer managed_by_label m;
  short =
      λ k h. subst IsShort (sym (entry-ownership_labels name uid info deployer k m)) ((at k).0 h);
  kept = λ k h. entry-ownership_labels name uid info deployer k m ∙ (at k).1 h;
  versioned = λ h.
      entry-ownership_labels name uid info deployer version_label m
      ∙ ap some (limit_short info.version h);
}
  where
    at :
        (k : String)
        → (is_ownership_label k ≡ true → IsShort (owned name uid info deployer k (entry k m)))
          × (is_ownership_label k ≡ false → owned name uid info deployer k (entry k m) ≡ entry k m)
    at k =
        picked-IsShort (managed_by_label == k) (part_of_label == k) (instance_label == k)
          (version_label == k) (name_label == k) (component_label == k)
          (deployer_manager, limit deployer, limit uid, limit info.version, limit name) (entry k m)
          (omega arith, limit-le deployer, limit-le uid, limit-le info.version, limit-le name)
