-- ===== src/Informers/Keys.antt =====
-- Equality of keys, and the map of tasks.
use ocm_k8s_toolkit.Prelude.{
  suc, ◌≡◌, ◌↔◌, refl, sym, ap, ◌∙◌, true, false, none, some, List, [], ◌∷◌, arith, eq_iff, length,
  if◌then◌else◌, Bool-cases, inl, inr,
}
use ocm_k8s_toolkit.Informers.{Gvk, WatchTaskKey, WatchTask, gvk_eq, key_eq, load, delete}

abbrev pub Tasks : Type 0
Tasks = List (WatchTaskKey × WatchTask)

pub gvk_eq_iff : (a b : Gvk) → (gvk_eq a b ≡ true) ↔ (a ≡ b)
unfolding gvk_eq
gvk_eq_iff a b = (
  λ h. ground (arith, eq_iff a.group b.group, eq_iff a.version b.version, eq_iff a.kind b.kind),
  λ h. ground (arith, eq_iff a.group b.group, eq_iff a.version b.version, eq_iff a.kind b.kind),
)

pub key_eq_iff : (a b : WatchTaskKey) → (key_eq a b ≡ true) ↔ (a ≡ b)
unfolding key_eq
key_eq_iff a b = (
  λ h.
      ground (
        arith,
        gvk_eq_iff a.parent b.parent,
        gvk_eq_iff a.gvk b.gvk,
        eq_iff a.namespace b.namespace,
      ),
  λ h.
      ground (
        arith,
        gvk_eq_iff a.parent b.parent,
        gvk_eq_iff a.gvk b.gvk,
        eq_iff a.namespace b.namespace,
      ),
)

pub key_eq_refl : (k : WatchTaskKey) → key_eq k k ≡ true
key_eq_refl k = (key_eq_iff k k).1 refl

-- no key stands twice
abbrev pub Distinct : Tasks → Type 0
Distinct [] = Unit
Distinct ((k, t) ∷ l) = (load k l ≡ none) × Distinct l

key_eq_same : (i k j : WatchTaskKey) → key_eq i k ≡ true → key_eq i j ≡ key_eq k j
key_eq_same i k j h = ap (λ x. key_eq x j) ((key_eq_iff i k).0 h)

key_eq_apart : (i k j : WatchTaskKey) → key_eq i k ≡ false → key_eq k j ≡ true → key_eq i j ≡ false
key_eq_apart i k j h e = sym (ap (key_eq i) ((key_eq_iff k j).0 e)) ∙ h

pub load-delete :
    (k j : WatchTaskKey) (l : Tasks) → load j (delete k l) ≡ (if key_eq k j then none else load j l)
unfolding load delete
load-delete k j [] = ground arith
load-delete k j ((i, t) ∷ l) =
    ground (arith, load-delete k j l, key_eq_same i k j, key_eq_apart i k j)

pub delete_absent : (k : WatchTaskKey) (l : Tasks) → load k l ≡ none → delete k l ≡ l
unfolding load delete
delete_absent k [] h = refl
delete_absent k ((i, t) ∷ l) h = ground (arith, delete_absent k l)

pub Distinct-delete : (k : WatchTaskKey) (l : Tasks) → Distinct l → Distinct (delete k l)
unfolding delete
Distinct-delete k [] d = tt
Distinct-delete k ((i, t) ∷ l) d = elim (Bool-cases (key_eq i k)) [
  | inl e ↦ rw e (Distinct-delete k l d.1)
  | inr e ↦ rw e (ground (arith, load-delete k i l), Distinct-delete k l d.1)
]

same_load : (i k : WatchTaskKey) (l : Tasks) → key_eq i k ≡ true → load i l ≡ load k l
same_load i k l h = ap (λ x. load x l) ((key_eq_iff i k).0 h)

pub length-delete :
    (k : WatchTaskKey) (t : WatchTask) (l : Tasks)
    → Distinct l
    → load k l ≡ some t
    → length l ≡ suc (length (delete k l))
unfolding load delete
length-delete k t [] d h = cc
length-delete k t ((i, u) ∷ l) d h =
    ground (arith, length-delete k t l d.1, delete_absent k l, same_load i k l)
