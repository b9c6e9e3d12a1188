-- ===== src/Hash/Objects.antt =====
-- GetObjectDataHash does not depend on the order of the objects.
use mathlib.Core.List.{Perm, Permᴰ}
use mathlib.Core.Logic.{∥∥₁_elim}
use text.Mathlib.TextEquality.{IsScalar-prop}
use ocm_k8s_toolkit.Prelude.{◌≡◌, refl, sym, ap, ◌∙◌, List, ◌∷◌}
use ocm_k8s_toolkit.Errors.{Outcome, ok, err, ◌>>=◌}
use ocm_k8s_toolkit.Sorting.{sort, sort-Permᴰ}
use ocm_k8s_toolkit.Sorting.Bytes.{Bytes, bytes_le, bytes_le-IsTotalOrder}
use ocm_k8s_toolkit.Hash.{
  ConfigObject, object_hash, object_hashes, object_data_hash, hex, join_bytes,
}

-- the same digests up to their order, or some error on each side
abbrev Same : Outcome (List Bytes) → Outcome (List Bytes) → Type 0
Same (ok a) (ok b) = Permᴰ a b
Same (ok a) (err e) = ⊥
Same (err e) (ok b) = ⊥
Same (err e) (err f) = Unit

abbrev add_hash : Outcome Bytes → Outcome (List Bytes) → Outcome (List Bytes)
add_hash x r = x >>= λ d. r >>= λ ds. ok (d ∷ ds)

Same-cons :
    (x : Outcome Bytes) (r s : Outcome (List Bytes)) → Same r s → Same (add_hash x r) (add_hash x s)
Same-cons (ok d) (ok a) (ok b) h = Permᴰ.cons refl h
Same-cons (ok d) (ok a) (err f) h = h
Same-cons (ok d) (err e) (ok b) h = h
Same-cons (ok d) (err e) (err f) h = h
Same-cons (err e) r s h = tt

Same-swap :
    (x y : Outcome Bytes) (r : Outcome (List Bytes))
    → Same (add_hash x (add_hash y r)) (add_hash y (add_hash x r))
Same-swap (ok d) (ok c) (ok a) = Permᴰ.swap refl refl
Same-swap (ok d) (ok c) (err e) = tt
Same-swap (ok d) (err e) r = tt
Same-swap (err e) (ok c) r = tt
Same-swap (err e) (err f) r = tt

Same-trans : (r s t : Outcome (List Bytes)) → Same r s → Same s t → Same r t
Same-trans (ok a) (ok b) (ok c) h k = Permᴰ.trans h k
Same-trans (ok a) (ok b) (err e) h k = k
Same-trans (ok a) (err e) t h k = absurd h
Same-trans (err e) (ok b) t h k = absurd h
Same-trans (err e) (err f) (ok c) h k = k
Same-trans (err e) (err f) (err g) h k = tt

Outcome-set : IsSet (Outcome Bytes)
Outcome-set = hlevel (IsScalar-prop)

module _ (sha : Bytes → Bytes) where
  object_hashes-Same :
      {os ps : List ConfigObject} → Permᴰ os ps → Same (object_hashes sha os) (object_hashes sha ps)
  unfolding object_hashes
  object_hashes-Same Permᴰ.nil = Permᴰ.nil
  object_hashes-Same (Permᴰ.cons {a} {b} {l₁} {l₂} e p) = rw e (
      Same-cons (object_hash sha b) (object_hashes sha l₁) (object_hashes sha l₂)
        (object_hashes-Same p))
  object_hashes-Same (Permᴰ.swap {a} {b} {a'} {b'} {l} e f) =
      rw (e, f) (Same-swap (object_hash sha b') (object_hash sha a') (object_hashes sha l))
  object_hashes-Same (Permᴰ.trans {l₁} {l₂} {l₃} p q) =
      Same-trans (object_hashes sha l₁) (object_hashes sha l₂) (object_hashes sha l₃)
        (object_hashes-Same p) (object_hashes-Same q)

  finish : Outcome (List Bytes) → Outcome Bytes
  finish r = r >>= λ ds. ok (hex (sha (join_bytes (sort bytes_le ds))))

  finish-Same :
      (r s : Outcome (List Bytes)) (d : Bytes) → Same r s → finish r ≡ ok d → finish s ≡ ok d
  unfolding finish
  finish-Same (ok a) (ok b) d h e =
      sym (ap (λ ds. ok (hex (sha (join_bytes ds)))) (sort-Permᴰ bytes_le bytes_le-IsTotalOrder h))
      ∙ e
  finish-Same (ok a) (err f) d h e = absurd h
  finish-Same (err f) s d h e = cc

  object_data_hash-Permᴰ :
      {os ps : List ConfigObject} {d : Bytes}
      → Permᴰ os ps
      → object_data_hash sha os ≡ ok d
      → object_data_hash sha ps ≡ ok d
  unfolding object_data_hash finish
  object_data_hash-Permᴰ {os} {ps} {d} p =
      finish-Same (object_hashes sha os) (object_hashes sha ps) d (object_hashes-Same p)

  -- If GetObjectDataHash gives a digest for the objects in one order, then it gives the same digest
  -- for them in every order.
  pub object_data_hash_perm :
      {os ps : List ConfigObject} {d : Bytes}
      → Perm os ps
      → object_data_hash sha os ≡ ok d
      → object_data_hash sha ps ≡ ok d
  object_data_hash_perm p h = ∥∥₁_elim p (Outcome-set _ _) (λ q. object_data_hash-Permᴰ q h)
