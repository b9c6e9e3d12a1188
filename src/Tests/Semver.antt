-- ===== src/Tests/Semver.antt =====
-- The sample versions, which are numbers, meet what is documented of semverutils.
use ocm_k8s_toolkit.Prelude.{
  ℕ, String, ◌≡◌, refl, sym, Bool, true, subst, List, [], ◌∷◌, map, All, Any, All-mono, inl, inr,
  arith, leb, Bool-cases,
}
use ocm_k8s_toolkit.Sorting.{insert, sort}
use ocm_k8s_toolkit.Versions.Latest.{Named, Ascending, SemverLaws}
use ocm_k8s_toolkit.Tests.Samples.{number, semver}

insert-All : (P : ℕ → Type 0) (n : ℕ) (l : List ℕ) → P n → All P l → All P (insert leb n l)
unfolding insert
insert-All P n [] p h = (p, tt)
insert-All P n (x ∷ l) p h = elim (Bool-cases (leb n x)) [
  | inl e ↦ rw e (p, h)
  | inr e ↦ rw e (h.0, insert-All P n l p h.1)
]

insert-Any : (P : ℕ → Type 0) (n : ℕ) (l : List ℕ) → Any P (n ∷ l) → Any P (insert leb n l)
unfolding insert
insert-Any P n [] h = h
insert-Any P n (x ∷ l) h = elim (Bool-cases (leb n x)) [
  | inl e ↦ rw e h
  | inr e ↦ rw e (elim h [
    | inl p ↦ inr (insert-Any P n l (inl p))
    | inr q ↦ elim q [ inl p ↦ inl p | inr p ↦ inr (insert-Any P n l (inr p)) ]
  ])
]

not_below : (n x y : ℕ) → leb n x ≡ true → leb x y ≡ true → leb n y ≡ true
not_below n x y h k = ground (arith, h, k)

insert-Ascending : (n : ℕ) (l : List ℕ) → Ascending semver l → Ascending semver (insert leb n l)
unfolding insert
insert-Ascending n [] h = (tt, tt)
insert-Ascending n (x ∷ l) h = elim (Bool-cases (leb n x)) [
  | inl e ↦ rw e (
    (e, All-mono (λ y. leb x y ≡ true) (λ y. leb n y ≡ true) l (λ y k. not_below n x y e k) h.0),
    h,
  )
  | inr e ↦
      rw e (insert-All (λ y. leb x y ≡ true) n l (ground (arith, e)) h.0, insert-Ascending n l h.1)
]

sorted-Ascending : (l : List String) → Ascending semver (sort leb (map number l))
unfolding sort
sorted-Ascending [] = tt
sorted-Ascending (t ∷ l) =
    insert-Ascending (number t) (sort leb (map number l)) (sorted-Ascending l)

sorted-Named :
    (l : List String)
    → All (λ v. Named semver l v × (◌≡◌ {A = Bool} true true)) (sort leb (map number l))
unfolding sort
sorted-Named [] = tt
sorted-Named (t ∷ l) =
    insert-All (λ v. Named semver (t ∷ l) v × (◌≡◌ {A = Bool} true true)) (number t)
      (sort leb (map number l)) (inl refl, refl)
      (All-mono _ _ (sort leb (map number l)) (λ v h. (inr h.0, refl)) (sorted-Named l))

sorted_complete :
    (l : List String) (v : ℕ) → Named semver l v → Any (λ w. v ≡ w) (sort leb (map number l))
unfolding sort
sorted_complete [] v h = absurd h
sorted_complete (t ∷ l) v h =
    insert-Any (λ w. v ≡ w) (number t) (sort leb (map number l))
      (elim h [ inl e ↦ inl (sym (ground (arith, e))) | inr k ↦ inr (sorted_complete l v k) ])

pub semver_laws : SemverLaws semver
semver_laws = record {
  reflexive = λ v. ground arith;
  named = λ l c vs e. subst (All _) (ground (arith, e)) (sorted-Named l);
  complete = λ l c vs e v h k. subst (Any _) (ground (arith, e)) (sorted_complete l v h);
  ascending = λ l c vs e. subst (Ascending semver) (ground (arith, e)) (sorted-Ascending l);
}
