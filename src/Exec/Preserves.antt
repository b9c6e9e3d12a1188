-- ===== src/Exec/Preserves.antt =====
-- What every run of the statements of a body keeps.
use ocm_k8s_toolkit.Prelude.{Bool, true, false, Option, none, some}
use ocm_k8s_toolkit.Errors.{Error, Outcome, ok, err}
use ocm_k8s_toolkit.Exec.{
  Flow, next, halt, fail, halt_with, Exec, continue, ◌>>=◌, ◌>>◌, attempt, check, when,
}

module _ {S R : Type 0} (P : S → Type 0) where
  abbrev pub Preserves : {A : Type 0} → Exec S R A → Type 0
  Preserves m = (s : S) → P s → P (m s).1

  continue-Preserves :
      {A B : Type 0} (f : Flow R A) (k : A → Exec S R B) (s : S)
      → ((a : A) → Preserves (k a))
      → P s
      → P (continue f k s).1
  continue-Preserves (next a) k s h p = h a s p
  continue-Preserves (halt r) k s h p = p
  continue-Preserves (fail e) k s h p = p
  continue-Preserves (halt_with r e) k s h p = p

  pub >>=-Preserves :
      {A B : Type 0} (m : Exec S R A) (k : A → Exec S R B)
      → Preserves m
      → ((a : A) → Preserves (k a))
      → Preserves (m >>= k)
  >>=-Preserves m k h g s p = continue-Preserves (m s).0 k (m s).1 g (h s p)

  pub >>-Preserves :
      {A B : Type 0} (m : Exec S R A) (k : Exec S R B)
      → Preserves m
      → Preserves k
      → Preserves (m >> k)
  >>-Preserves m k h g s p = continue-Preserves (m s).0 (λ _. k) (m s).1 (λ _. g) (h s p)

  pub attempt-Preserves :
      {A : Type 0} (o : Outcome A) (h : Error → Exec S R A)
      → ((e : Error) → Preserves (h e))
      → Preserves (attempt o h)
  attempt-Preserves (ok a) h g s p = p
  attempt-Preserves (err e) h g s p = g e s p

  pub check-Preserves :
      (o : Option Error) (h : Error → Exec S R (Unit {0}))
      → ((e : Error) → Preserves (h e))
      → Preserves (check o h)
  check-Preserves none h g s p = p
  check-Preserves (some e) h g s p = g e s p

  pub when-Preserves : (b : Bool) (m : Exec S R (Unit {0})) → Preserves m → Preserves (when b m)
  when-Preserves true m h s p = h s p
  when-Preserves false m h s p = p
