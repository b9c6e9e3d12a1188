-- ===== src/Sorting.antt =====
-- Sorting by a Boolean order, as the Go library's `slices.Sort` and `slices.SortFunc` do it: any
-- sorting of a list by a total order gives the same list, and insertion computes it.
pub mod Bytes
use mathlib.Core.List.{Perm, Permᴰ, is_set}
use mathlib.Core.Logic.{∥∥₁_elim}
use ocm_k8s_toolkit.Prelude.{
  ◌≡◌, refl, ap, ◌∙◌, Bool, true, false, ◌||◌, List, [], ◌∷◌, arith, if◌then◌else◌, Bool-cases, inl,
  inr,
}

module _ {A : Type 0} (le : A → A → Bool) where
  unfoldable pub insert : A → List A → List A
  insert x [] = x ∷ []
  insert x (y ∷ l) = let rest = insert x l in if le x y then x ∷ y ∷ l else y ∷ rest

  unfoldable pub sort : List A → List A
  unfolding insert
  sort [] = []
  sort (x ∷ l) = insert x (sort l)

-- The order is total, and two elements that are below each other are one.
pub record IsTotalOrder {A : Type 0} (le : A → A → Bool) : Type 0 where
  pub total : (x y : A) → le x y ≡ false → le y x ≡ true
  pub antisymm : (x y : A) → le x y ≡ true → le y x ≡ true → x ≡ y
  pub trans : (x y z : A) → le x y ≡ true → le y z ≡ true → le x z ≡ true

module _ {A : Type 0} (le : A → A → Bool) (order : IsTotalOrder le) where
  insert_comm : (x y : A) (l : List A) → insert le x (insert le y l) ≡ insert le y (insert le x l)
  unfolding insert
  insert_comm x y [] = ground (arith, order.total x y, order.antisymm x y)
  insert_comm x y (z ∷ l) = ground (
    arith,
    insert_comm x y l,
    order.total x y,
    order.antisymm x y,
    order.trans x y z,
    order.trans y x z,
    order.total x z,
    order.total y z,
  )

  pub sort-Permᴰ : {l m : List A} → Permᴰ l m → sort le l ≡ sort le m
  unfolding sort
  sort-Permᴰ Permᴰ.nil = refl
  sort-Permᴰ (Permᴰ.cons e p) = cc (e, sort-Permᴰ p)
  sort-Permᴰ (Permᴰ.swap {a} {b} {l = l} e f) = cc (e, f, insert_comm a b (sort le l))
  sort-Permᴰ (Permᴰ.trans p q) = sort-Permᴰ p ∙ sort-Permᴰ q

  -- Sorting forgets the order of the list.
  pub sort_perm : IsSet A → {l m : List A} → Perm l m → sort le l ≡ sort le m
  sort_perm s p = ∥∥₁_elim p (is_set s _ _) (λ q. sort-Permᴰ q)
