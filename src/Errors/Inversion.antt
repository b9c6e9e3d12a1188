-- ===== src/Errors/Inversion.antt =====
-- What a successful result says of the calls that it came from.
use ocm_k8s_toolkit.Prelude.{arith, String, ◌≡◌, refl, Bool, true, false, if◌then◌else◌}
use ocm_k8s_toolkit.Errors.{
  Error, Outcome, ok, err, ◌>>=◌, wrapping, terminally, Reply, got, fault, outcome,
}

pub ok-injective {ℓ} : {A : Type ℓ} {a b : A} → ok a ≡ ok b → a ≡ b
ok-injective e = cc

module _ {ℓ κ} {A : Type ℓ} {B : Type κ} where
  pub >>=-eq-ok :
      (call : Outcome A) (rest : A → Outcome B) {result : B}
      → (call >>= rest) ≡ ok result
      → (value : A) × (call ≡ ok value) × (rest value ≡ ok result)
  >>=-eq-ok (err failed_call) rest h = absurd (ground arith)
  >>=-eq-ok (ok value) rest h = (value, refl, h)

pub outcome-eq-ok {ℓ} : {A : Type ℓ} (r : Reply A) {a : A} → outcome r ≡ ok a → r ≡ got a
outcome-eq-ok (got a) h = cc
outcome-eq-ok (fault f) h = cc

pub wrapping-eq-ok {ℓ} :
    {A : Type ℓ} (m : String) (r : Outcome A) {a : A} → wrapping m r ≡ ok a → r ≡ ok a
wrapping-eq-ok m (ok a) h = h
wrapping-eq-ok m (err e) h = cc

pub terminally-eq-ok {ℓ} :
    {A : Type ℓ} (m : String) (r : Outcome A) {a : A} → terminally m r ≡ ok a → r ≡ ok a
terminally-eq-ok m (ok a) h = h
terminally-eq-ok m (err e) h = cc

pub if-err-eq-ok {ℓ} :
    {A : Type ℓ} (b : Bool) (e : Error) (r : Outcome A) {a : A}
    → (if b then err e else r) ≡ ok a
    → r ≡ ok a
if-err-eq-ok true e r h = cc
if-err-eq-ok false e r h = h
