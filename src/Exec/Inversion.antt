-- ===== src/Exec/Inversion.antt =====
-- What the statements of a body did, when the body ran to its end.
use ocm_k8s_toolkit.Prelude.{◌≡◌, refl, arith, Bool, true, false, Option, none, some}
use ocm_k8s_toolkit.Errors.{Error, Outcome, ok, err}
use ocm_k8s_toolkit.Exec.{
  Flow, next, halt, fail, halt_with, Exec, continue, ◌>>=◌, ◌>>◌, attempt, check, when,
}

module _ {S R : Type 0} where
  -- the statement does not go on to the next one
  abbrev pub Leaves : {A : Type 0} → Exec S R A → Type 0
  Leaves {A} m = (s t : S) (a : A) → m s ≡ (next a, t) → ⊥

module _ {S R A B : Type 0} where
  continue-eq-next :
      (f : Flow R A) (u : S) (k : A → Exec S R B) {b : B} {t : S}
      → continue f k u ≡ (next b, t)
      → (a : A) × (f ≡ next a) × (k a u ≡ (next b, t))
  continue-eq-next (next a) u k h = (a, refl, h)
  continue-eq-next (halt r) u k h = absurd (ground arith)
  continue-eq-next (fail e) u k h = absurd (ground arith)
  continue-eq-next (halt_with r e) u k h = absurd (ground arith)

  pub >>=-eq-next :
      (m : Exec S R A) (k : A → Exec S R B) {s : S} {b : B} {t : S}
      → (m >>= k) s ≡ (next b, t)
      → (a : A) × (u : S) × (m s ≡ (next a, u)) × (k a u ≡ (next b, t))
  >>=-eq-next m k {s} h =
      let (a, p, q) = continue-eq-next (m s).0 (m s).1 k h in (a, (m s).1, cc, q)

module _ {S R A : Type 0} where
  pub attempt-eq-next :
      (o : Outcome A) (h : Error → Exec S R A)
      → ((e : Error) → Leaves (h e))
      → {s t : S} {a : A} → attempt o h s ≡ (next a, t)
      → (o ≡ ok a) × (t ≡ s)
  attempt-eq-next (ok a) h l p = (cc, cc)
  attempt-eq-next (err e) h l p = absurd (l e _ _ _ p)

module _ {S R A : Type 0} where
  -- the statement after a check was reached, so there was no error
  pub check->>-eq-next :
      (o : Option Error) (h : Error → Exec S R (Unit {0})) (k : Exec S R A)
      → ((e : Error) → Leaves (h e))
      → (s : S) {a : A} {t : S} → (check o h >> k) s ≡ (next a, t)
      → (o ≡ none) × (k s ≡ (next a, t))
  check->>-eq-next none h k l s p = (refl, p)
  check->>-eq-next (some e) h k l s p = absurd (left (h e s).0 (h e s).1 refl p)
    where
      left :
          (f : Flow R (Unit {0})) (u : S) {a : A} {t : S}
          → h e s ≡ (f, u)
          → continue f (λ _. k) u ≡ (next a, t)
          → ⊥
      left (next x) u q p = l e s u x q
      left (halt r) u q p = ground (arith, p)
      left (fail d) u q p = ground (arith, p)
      left (halt_with r d) u q p = ground (arith, p)

  -- the statement after a guard was reached, so the guard did not hold
  pub when->>-eq-next :
      (b : Bool) (m : Exec S R (Unit {0})) (k : Exec S R A)
      → Leaves m
      → (s : S) {a : A} {t : S} → (when b m >> k) s ≡ (next a, t)
      → (b ≡ false) × (k s ≡ (next a, t))
  when->>-eq-next false m k l s p = (refl, p)
  when->>-eq-next true m k l s p = let (x, u, e, q) = >>=-eq-next m (λ _. k) p in absurd (l s u x e)
