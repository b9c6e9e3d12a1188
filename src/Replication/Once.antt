-- ===== src/Replication/Once.antt =====
-- A successful replication is recorded, and what is recorded is not transferred again.
use ocm_k8s_toolkit.Prelude.{
  ℕ, suc, String, str_append, ◌≡◌, ◌↔◌, refl, sym, ap, ◌∙◌, Any, true, Option, none, some, List,
  arith, Bool-cases, inl, inr,
}
use ocm_k8s_toolkit.Errors.{Error, Outcome, ok, err}
use ocm_k8s_toolkit.Api.{OcmConfiguration, is_true}
use ocm_k8s_toolkit.Api.History.{pos, TransferStatus, add_history_record, is_in_history}
use ocm_k8s_toolkit.Api.History.Records.{is_in_history-add_history_record, is_in_history_iff}
use ocm_k8s_toolkit.Library.{Library, Laws, ready_condition}
use ocm_k8s_toolkit.Kube.{Fetch}
use ocm_k8s_toolkit.Config.{Providers, get_effective_config}
use ocm_k8s_toolkit.Exec.{next, halt, Exec, ◌>>=◌, ◌>>◌, modify, pure, raise, attempt}
use ocm_k8s_toolkit.Exec.Inversion.{>>=-eq-next}
use ocm_k8s_toolkit.Exec.World.{Result}
use ocm_k8s_toolkit.Status.{succeeded_reason, mark_ready, new_event, set_conditions}
use ocm_k8s_toolkit.Status.Marks.{ready_as, mark_ready_lem}
use ocm_k8s_toolkit.Repository.{Repository}
use ocm_k8s_toolkit.Component.Ops.{ComponentInfo, Component}
use ocm_k8s_toolkit.Reconcile.{
  requeue_in, set_effective_config, mark, error_of, configure_context_failed_reason,
  replication_failed_reason,
}
use ocm_k8s_toolkit.Replication.Ops.{Replication, ReplicationOps}
use ocm_k8s_toolkit.Replication.{
  W, set_replication_status, set_history, transfer_version, transfer, transfer_record, history_set,
  conclude, replicate,
}

module _ (lib : Library) (laws : Laws lib) (ocm : ReplicationOps) where
  history_set-eq-next :
      (h : Option (List TransferStatus)) (configs : List OcmConfiguration) (s t : W)
      → history_set lib ocm h configs s ≡ (next tt, t)
      → (l : List TransferStatus) × (h ≡ some l)
        × (t ≡ set_effective_config lib configs (set_history l s))
  history_set-eq-next none configs s t p = absurd (ground arith)
  history_set-eq-next (some l) configs s t p = (l, refl, cc)

  -- A replication that concludes a transfer without an error under a positive history capacity is
  -- ready, and its history contains the transfer of that component and version to that target.
  pub conclude-is_in_history :
      (o : Replication) (configs : List OcmConfiguration) (info : ComponentInfo)
      (target msg : String) (n : ℕ) (w u : W) (r : Result)
      → o.spec.history_capacity ≡ pos (suc n)
      → conclude lib ocm o configs (none, transfer_record lib ocm info target none) msg w
        ≡ (next r, u)
      → (is_in_history info.component info.version target u.status ≡ true)
        × (u.effective_ocm_config ≡ configs)
        × (lib.get u.conditions ready_condition
            ≡ some (ready_as is_true succeeded_reason (str_append "Successfully replicated " msg)))
  unfolding conclude set_replication_status transfer_record mark_ready new_event set_conditions
  conclude-is_in_history o configs info target msg n w u r c h =
      let rec = transfer_record lib ocm info target none in
      let (_, v, p, q) =
        >>=-eq-next (set_replication_status lib ocm configs o rec)
          (λ _.
            modify (mark_ready lib (str_append "Successfully replicated " msg))
            >> pure (requeue_in o.spec.interval))
          h in
      let (l, e, t) =
        history_set-eq-next (add_history_record o.spec.history_capacity rec w.status) configs w v
          p in
      (
        ap (λ x. is_in_history info.component info.version target x.1.object.status) (sym q)
            ∙ ap (λ x. is_in_history info.component info.version target x.object.status) t
            ∙ is_in_history-add_history_record rec n w.status l refl
                (ap (λ k. add_history_record k rec w.status) (sym c) ∙ e),
        ap (λ x. x.1.object.effective_ocm_config) (sym q)
            ∙ ap (λ x. x.object.effective_ocm_config) t,
        ap (λ x. lib.get x.1.object.conditions ready_condition) (sym q)
            ∙ (mark_ready_lem lib laws (str_append "Successfully replicated " msg) v).0,
      )

  abbrev CannotHalt : {A : Type 0} → Exec W Result A → Type 0
  CannotHalt m = (u : W) (r : Result) → (m u).0 ≡ halt r → ⊥

  history_set-CannotHalt :
      (h : Option (List TransferStatus)) (configs : List OcmConfiguration)
      (k : Exec W Result Result)
      → CannotHalt k
      → CannotHalt (history_set lib ocm h configs >> k)
  history_set-CannotHalt none configs k l u r p = ground (arith, p)
  history_set-CannotHalt (some h) configs k l u r p = l _ r p

  conclude-CannotHalt :
      (o : Replication) (configs : List OcmConfiguration) (t : Option Error × TransferStatus)
      (msg : String)
      → CannotHalt (conclude lib ocm o configs t msg)
  unfolding conclude set_replication_status
  conclude-CannotHalt o configs (some e, rec) msg u =
      history_set-CannotHalt (add_history_record o.spec.history_capacity rec u.status) configs
        (mark lib replication_failed_reason (lib.error_text e) >> raise e)
        (λ v r p. ground (arith, p)) u
  conclude-CannotHalt o configs (none, rec) msg u =
      history_set-CannotHalt (add_history_record o.spec.history_capacity rec u.status) configs
        (modify (mark_ready lib (str_append "Successfully replicated " msg))
          >> pure (requeue_in o.spec.interval))
        (λ v r p. ground (arith, p)) u

  -- after the guard: the configuration, the transfer and what is made of it
  after_guard-CannotHalt :
      (configs : Outcome (List OcmConfiguration)) (o : Replication) (info : ComponentInfo)
      (target msg : String)
      → CannotHalt (
          attempt configs
            (λ e. mark lib configure_context_failed_reason (lib.error_text e) >> raise e)
          >>= λ l. transfer lib ocm l info target >>= λ t. conclude lib ocm o l t msg)
  after_guard-CannotHalt (ok l) o info target msg u r p =
      conclude-CannotHalt o l (transferred u) msg (transfer_version lib ocm l info target u).1 r p
    where
      transferred : W → Option Error × TransferStatus
      transferred u =
          let e = error_of (transfer_version lib ocm l info target u).0 in
          (e, transfer_record lib ocm info target e)
  after_guard-CannotHalt (err e) o info target msg u r p = ground (arith, p)

  -- The history has a successful transfer of that component and version to that target.
  abbrev pub WasTransferred : ComponentInfo → String → List TransferStatus → Type 0
  WasTransferred info target = Any λ r.
      (r.component ≡ info.component)
      × (r.version ≡ info.version)
      × (r.target_repository_spec ≡ target)
      × (r.success ≡ true)

  -- A replication returns early, without an error, exactly if it is ready and its history has a
  -- successful transfer of the current version of the component to the current target. It has then
  -- neither read its configuration nor transferred anything: it only marks itself as ready.
  pub replicate_once :
      (providers : Providers) (components : Fetch Component) (repositories : Fetch Repository)
      (o : Replication) (comp : Component) (repo : Repository) (w : W)
      → (((r : Result) × ((replicate lib ocm providers components repositories o comp repo w).0
              ≡ halt r))
          ↔ ((lib.is_ready o.conditions ≡ true)
              × WasTransferred comp.status repo.spec.repository_spec o.status))
        × ((r : Result)
            → (replicate lib ocm providers components repositories o comp repo w).0 ≡ halt r
            → (r ≡ requeue_in o.spec.interval)
              × ((replicate lib ocm providers components repositories o comp repo w).1
                  ≡ mark_ready lib
                      (str_append "Replicated in previous reconciliations: "
                        (str_append comp.meta.name (str_append " to " repo.meta.name)))
                      w))
  unfolding replicate
  replicate_once providers components repositories o comp repo w =
      let target = repo.spec.repository_spec in
      let msg = str_append comp.meta.name (str_append " to " repo.meta.name) in
      let found = is_in_history_iff comp.status.component comp.status.version target o.status in
      let late =
        after_guard-CannotHalt (get_effective_config providers o.meta.namespace o.spec.ocm_config) o
          comp.status target msg w in
      elim (Bool-cases (lib.is_ready o.conditions)) [
        | inr n ↦ rw n ((λ h. absurd (late h.0 h.1), λ h. cc), λ r h. absurd (late r h))
        | inl e ↦
            elim (Bool-cases
              (is_in_history comp.status.component comp.status.version target o.status)) [
                | inr n ↦
                    rw (e, n)
                      (
                        (λ h. absurd (late h.0 h.1), λ h. absurd (ground (arith, found.1 h.1, n))),
                        λ r h. absurd (late r h),
                      )
                | inl k ↦
                    rw (e, k)
                      (
                        (λ h. (refl, found.0 k), λ h. (requeue_in o.spec.interval, refl)),
                        λ r h. (ground (arith, h), refl),
                      )
              ]
      ]
