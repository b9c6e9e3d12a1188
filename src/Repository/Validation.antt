-- ===== src/Repository/Validation.antt =====
-- validate of internal/controller/repository/repository_controller.go and what the OCM library
-- offers to it.
use ocm_k8s_toolkit.Prelude.{ℕ, String, Option, none, some, List}
use ocm_k8s_toolkit.Errors.{
  Fault, external, wrap, wrapping, Outcome, ok, err, Reply, outcome, ◌>>=◌, ◌>>◌,
}
use ocm_k8s_toolkit.Api.{OcmConfiguration}

-- What the OCM library and the context cache offer; contexts, sessions, specifications and
-- repositories are names.
pub record OcmOps : Type 0 where
  pub get_session : String → List OcmConfiguration → Outcome (ℕ × ℕ)
  pub repository_spec_for_config : ℕ → String → Reply ℕ
  pub validate_spec : ℕ → ℕ → Option Fault
  pub lookup_repository : ℕ → ℕ → ℕ → Reply ℕ

abbrev pub valid : Option Fault → Outcome (Unit {0})
valid none = ok tt
valid (some f) = err (wrap "invalid RepositorySpec" (external f))

-- validate
unfoldable pub validate : OcmOps → ℕ → ℕ → String → Outcome ℕ
validate ocm octx session raw = do
  spec ←
      wrapping "cannot create RepositorySpec from raw data"
        (outcome (ocm.repository_spec_for_config octx raw))
  valid (ocm.validate_spec octx spec)
  wrapping "cannot lookup repository for RepositorySpec"
      (outcome (ocm.lookup_repository session octx spec))
