-- ===== src/Errors.antt =====
-- Go errors as values: internal/util/k8s.go (the error types), internal/ocm/hash.go (the sentinel
-- errors), and what `errors.Is`, `errors.Join` and `fmt.Errorf` with `%w` make of them.
pub mod Inversion
use ocm_k8s_toolkit.Prelude.{String, Bool, true, false, ◌||◌, Option, none, some, ◌==◌}

-- What a Kubernetes client or the OCM library reports: an error of its not-found class, or another.
pub data Fault : Type 0 where
  not_found : String → Fault
  failed : String → Fault

-- The error values that the program compares with `errors.Is`. The two struct types carry the name
-- of an object and have no `Is` method, so they are compared by their field.
pub data Sentinel : Type 0 where
  unstable_hash not_normalizeable hash_mismatch : Sentinel
  not_ready_error : String → Sentinel
  deletion_error : String → Sentinel

pub data Error : Type 0 where
  new : String → Error
  external : Fault → Error
  sentinel : Sentinel → Error
  wrap : String → Error → Error
  join : Error → Error → Error
  terminal : Error → Error

-- `==` of Go on two such values.
unfoldable pub same : Sentinel → Sentinel → Bool
same unstable_hash unstable_hash = true
same not_normalizeable not_normalizeable = true
same hash_mismatch hash_mismatch = true
same (not_ready_error a) (not_ready_error b) = a == b
same (deletion_error a) (deletion_error b) = a == b
same _ _ = false

-- `errors.Is`
unfoldable pub error_is : Error → Sentinel → Bool
unfolding same
error_is (new m) t = false
error_is (external f) t = false
error_is (sentinel s) t = same s t
error_is (wrap m e) t = error_is e t
error_is (join a b) t = error_is a t || error_is b t
error_is (terminal e) t = error_is e t

-- `IsNotFound` and `IsErrNotFound`
unfoldable pub is_not_found : Error → Bool
is_not_found (new m) = false
is_not_found (external (not_found m)) = true
is_not_found (external (failed m)) = false
is_not_found (sentinel s) = false
is_not_found (wrap m e) = is_not_found e
is_not_found (join a b) = is_not_found a || is_not_found b
is_not_found (terminal e) = is_not_found e

-- `errors.Join` of two results
unfoldable pub join_errors : Option Error → Option Error → Option Error
join_errors none b = b
join_errors (some a) none = some a
join_errors (some a) (some b) = some (join a b)

-- `client.IgnoreNotFound`
unfoldable pub ignore_not_found : Error → Option Error
unfolding is_not_found
ignore_not_found e = elim (is_not_found e) [ true ↦ none | false ↦ some e ]

-- A result of the form `(A, error)`
pub data Outcome {ℓ} (A : Type ℓ) : Type ℓ where
  ok : A → Outcome A
  err : Error → Outcome A

module _ {ℓ κ} {A : Type ℓ} {B : Type κ} where
  infixl 5 ◌>>=◌
  -- the next call, unless this one failed
  abbrev pub ◌>>=◌ : Outcome A → (A → Outcome B) → Outcome B
  ◌>>=◌ (err failed_call) rest = err failed_call
  ◌>>=◌ (ok value) rest = rest value

module _ {ℓ} {B : Type ℓ} where
  infixl 5 ◌>>◌
  abbrev pub ◌>>◌ : Outcome (Unit {0}) → Outcome B → Outcome B
  ◌>>◌ (err failed_call) rest = err failed_call
  ◌>>◌ (ok done) rest = rest

-- `fmt.Errorf("…: %w", err)` on the error of a call
abbrev pub wrapping {ℓ} : {A : Type ℓ} → String → Outcome A → Outcome A
wrapping m (ok a) = ok a
wrapping m (err e) = err (wrap m e)

-- What a call into a package outside the repository returns.
pub data Reply {ℓ} (A : Type ℓ) : Type ℓ where
  got : A → Reply A
  fault : Fault → Reply A

abbrev pub outcome {ℓ} : {A : Type ℓ} → Reply A → Outcome A
outcome (got a) = ok a
outcome (fault f) = err (external f)

abbrev pub failure : Option Fault → Option Error
failure none = none
failure (some f) = some (external f)

-- `reconcile.TerminalError(fmt.Errorf("…: %w", err))` on the error of a call
abbrev pub terminally {ℓ} : {A : Type ℓ} → String → Outcome A → Outcome A
terminally m (ok a) = ok a
terminally m (err e) = err (terminal (wrap m e))
