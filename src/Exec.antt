-- ===== src/Exec.antt =====
-- The body of a handler: statements that change a state and may return early or fail. What was
-- written before a return or an error stays written.
pub mod World
pub mod Inversion
pub mod Preserves
use ocm_k8s_toolkit.Prelude.{Bool, true, false, Option, none, some}
use ocm_k8s_toolkit.Errors.{Error, join, Outcome, ok, err}

-- How a statement ends: the next one runs, `return r, nil`, `return ctrl.Result{}, err`, or a
-- deferred call adds an error to a return of the second form.
pub data Flow (R A : Type 0) : Type 0 where
  next : A → Flow R A
  halt : R → Flow R A
  fail : Error → Flow R A
  halt_with : R → Error → Flow R A

-- `err = errors.Join(err, c)` in a deferred call, on the results of a handler
abbrev pub add_error : {R : Type 0} → Error → Flow R R → Flow R R
add_error c (next r) = halt_with r c
add_error c (halt r) = halt_with r c
add_error c (fail e) = fail (join e c)
add_error c (halt_with r e) = halt_with r (join e c)

abbrev pub Exec : Type 0 → Type 0 → Type 0 → Type 0
Exec S R A = S → Flow R A × S

module _ {S R A B : Type 0} where
  abbrev pub continue : Flow R A → (A → Exec S R B) → Exec S R B
  continue (next a) f s = f a s
  continue (halt r) f s = (halt r, s)
  continue (fail e) f s = (fail e, s)
  continue (halt_with r e) f s = (halt_with r e, s)

  infixl 10 ◌>>=◌ ◌>>◌
  abbrev pub ◌>>=◌ : Exec S R A → (A → Exec S R B) → Exec S R B
  ◌>>=◌ m f s = continue (m s).0 f (m s).1

  abbrev pub ◌>>◌ : Exec S R A → Exec S R B → Exec S R B
  ◌>>◌ m k s = continue (m s).0 (λ _. k) (m s).1

module _ {S R A : Type 0} where
  abbrev pub pure : A → Exec S R A
  pure a s = (next a, s)

  abbrev pub stop : R → Exec S R A
  stop r s = (halt r, s)

  abbrev pub raise : Error → Exec S R A
  raise e s = (fail e, s)

  -- `x, err := call; if err != nil { … }`, the block given the error
  abbrev pub attempt : Outcome A → (Error → Exec S R A) → Exec S R A
  attempt (ok a) h = pure a
  attempt (err e) h = h e

module _ {S R : Type 0} where
  abbrev pub modify : (S → S) → Exec S R (Unit {0})
  modify f s = (next tt, f s)

  -- `if err := call; err != nil { … }`
  abbrev pub check : Option Error → (Error → Exec S R (Unit {0})) → Exec S R (Unit {0})
  check none h = pure tt
  check (some e) h = h e

  -- `if b { … }`
  abbrev pub when : Bool → Exec S R (Unit {0}) → Exec S R (Unit {0})
  when true m = m
  when false m = pure tt

  -- the body, and a deferred call that may fail
  abbrev pub deferring : Option Error → (S → S) → Exec S R R → Exec S R R
  deferring none f m s = ((m s).0, f (m s).1)
  deferring (some c) f m s = (add_error c (m s).0, f (m s).1)
