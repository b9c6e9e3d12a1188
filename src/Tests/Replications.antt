-- ===== src/Tests/Replications.antt =====
-- Replications and their history at concrete inputs.
use ocm_k8s_toolkit.Prelude.{ℕ, ◌≡◌, refl, true, false, none, some, List, [], ◌∷◌, ◌↔◌, Any}
use ocm_k8s_toolkit.Api.{is_true}
use ocm_k8s_toolkit.Api.History.{
  pos, negsuc, TransferStatus, add_history_record, is_in_history, repeats,
}
use ocm_k8s_toolkit.Api.History.Records.{
  add_history_record_panics, add_history_record_repeated, is_in_history_iff,
}
use ocm_k8s_toolkit.Library.{ready_condition}
use ocm_k8s_toolkit.Library.Sample.{find, put, drop_type, sample, sample_laws}
use ocm_k8s_toolkit.Kube.{found}
use ocm_k8s_toolkit.Exec.{Flow, halt}
use ocm_k8s_toolkit.Exec.World.{Result, start}
use ocm_k8s_toolkit.Status.{mark_ready, succeeded_reason}
use ocm_k8s_toolkit.Status.Marks.{ready_as}
use ocm_k8s_toolkit.Reconcile.{requeue_in}
use ocm_k8s_toolkit.Replication.{W, conclude, transfer_record, replicate}
use ocm_k8s_toolkit.Replication.Once.{WasTransferred, conclude-is_in_history, replicate_once}
use ocm_k8s_toolkit.Tests.Samples.{
  providers, settings, info, repository, component, transferred, replication, replication_ops,
}

conclude-is_in_history_example :
    let u =
      (conclude sample replication_ops
        (replication [])
        (settings ∷ [])
        (none, transfer_record sample replication_ops info "target" none)
        "app to repository"
        (start (replication []))).1 in
    (is_in_history "acme.org/app" "1" "target" u.status ≡ true)
    × (u.effective_ocm_config ≡ settings ∷ [])
    × (find u.conditions ready_condition
        ≡ some (ready_as is_true succeeded_reason "Successfully replicated app to repository"))
unfolding conclude transfer_record find put drop_type
conclude-is_in_history_example =
    conclude-is_in_history sample sample_laws replication_ops (replication []) (settings ∷ []) info
      "target" "app to repository" 2 (start (replication [])) _ (requeue_in 60) refl refl

abbrev replicated : Flow Result Result × W
replicated =
    replicate sample replication_ops providers (λ k. found (component false))
      (λ k. found (repository false)) (replication (transferred ∷ [])) (component false)
      (repository false) (start (replication (transferred ∷ [])))

replicate_once_example :
    (((r : Result) × (replicated.0 ≡ halt r)) ↔ (
      (sample.is_ready (replication (transferred ∷ [])).conditions ≡ true)
      × WasTransferred sample sample_laws replication_ops
          (component false).status
          (repository false).spec.repository_spec
          (transferred ∷ [])))
    × ((r : Result)
        → replicated.0 ≡ halt r
        → (r ≡ requeue_in 60)
          × (replicated.1
              ≡ mark_ready sample "Replicated in previous reconciliations: app to repository"
                  (start (replication (transferred ∷ [])))))
replicate_once_example =
    replicate_once sample sample_laws replication_ops providers (λ k. found (component false))
      (λ k. found (repository false)) (replication (transferred ∷ [])) (component false)
      (repository false) (start (replication (transferred ∷ [])))

add_history_record_panics_example :
    (add_history_record (negsuc 0) transferred [] ≡ none)
    ↔ ((n : ℕ) × (negsuc 0 ≡ negsuc n) × (◌≡◌ {A = List TransferStatus} [] []))
add_history_record_panics_example = add_history_record_panics transferred (negsuc 0) []

abbrev failed_at : ℕ → TransferStatus
failed_at t = record transferred { success = false; error = "timeout"; start_time = t }

add_history_record_repeated_example :
    (add_history_record (pos 2) (failed_at 7) (transferred ∷ failed_at 3 ∷ [])
      ≡ some (failed_at 7 ∷ []))
    × (add_history_record (pos 2) (failed_at 7) (failed_at 3 ∷ []) ≡ some (failed_at 7 ∷ []))
unfolding repeats
add_history_record_repeated_example =
    add_history_record_repeated (failed_at 7) 1 transferred (failed_at 3) [] refl

is_in_history_iff_example :
    (is_in_history "acme.org/app" "1" "target" (transferred ∷ []) ≡ true)
    ↔ Any
        (λ r.
          (r.component ≡ "acme.org/app")
          × (r.version ≡ "1")
          × (r.target_repository_spec ≡ "target")
          × (r.success ≡ true))
        (transferred ∷ [])
is_in_history_iff_example = is_in_history_iff "acme.org/app" "1" "target" (transferred ∷ [])
