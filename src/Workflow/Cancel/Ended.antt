-- ===== src/Workflow/Cancel/Ended.antt =====
-- About `_reject` and `_cancel` (engine.py) and a workflow that has ended.
use aieos.Base.{
  String, true, false, Option, some, none, string_eq, ◌≡◌, ◌≢◌, refl, sym, ◌∙◌, arith, Bool-cases,
  inl, inr,
}
use aieos.Base.Dict.{get}
use aieos.Base.Exec.{modify, ◌>>=◌}
use aieos.Base.Exec.Keeps.{Keeps, bind-Keeps}
use aieos.Contracts.Commands.{CommandEnvelope}
use aieos.Contracts.Results.{ResultEnvelope}
use aieos.Domain.{Services}
use aieos.Security.{ScopeAuthorizer, require}
use aieos.Workflow.Instance.{
  WorkflowState, created, running, completed, failed, cancelled, WorkflowInstance,
}
use aieos.Workflow.Repository.{put_instance, put_receipt, remember_completed_command}
use aieos.Workflow.Cancel.{
  reject, cancel, cancel_live, cancelled_before, cancel_by_state, cancel_found, cancel_named, draw,
  rejection, cancellation_of, out_of_scope, is_refused, answer, conclude,
}
use aieos.Workflow.Cancel.Laws.{is_final}
use aieos.Workflow.Cancel.Again.{ended as ended_by}
use aieos.Workflow.Ended.{Stays, put-Keeps, draw-Keeps}

module _ (id : String) (ended : WorkflowInstance) (sv : Services) (a : ScopeAuthorizer)
    (c : CommandEnvelope) where
  pub reject-KeepsEnded :
      (code message : String) → Keeps (Stays id ended) (reject sv a c code message)
  unfolding reject remember_completed_command put_receipt
  reject-KeepsEnded code message =
      bind-Keeps (Stays id ended) (draw (rejection sv a c code message)) (answer c)
        (draw-Keeps id ended (rejection sv a c code message)) (λ x s h. h)

  live-Keeps :
      (i : WorkflowInstance) → i.workflow_id ≢ id → Keeps (Stays id ended) (cancel_live sv a c i)
  unfolding cancel_live remember_completed_command put_receipt
  live-Keeps i ne =
      bind-Keeps (Stays id ended) (modify (put_instance (record i { state = cancelled })))
        (λ _. draw (cancellation_of sv a c i) >>= conclude c i)
        (put-Keeps id ended (record i { state = cancelled }) ne)
        (λ _.
          bind-Keeps (Stays id ended) (draw (cancellation_of sv a c i)) (conclude c i)
            (draw-Keeps id ended (cancellation_of sv a c i))
            (λ (r, x) s h. put-Keeps id ended (ended_by i r x) ne s h))

  before-Keeps :
      (i : WorkflowInstance) (o : Option ResultEnvelope)
      → Keeps (Stays id ended) (cancelled_before sv a c i o)
  unfolding cancelled_before remember_completed_command put_receipt
  before-Keeps i none s h = h
  before-Keeps i (some r) s h = h

  by_state-Keeps :
      (i : WorkflowInstance) (state : WorkflowState)
      → (is_final state ≡ false → i.workflow_id ≢ id)
      → Keeps (Stays id ended) (cancel_by_state sv a c i state)
  unfolding cancel_by_state
  by_state-Keeps i cancelled ne = before-Keeps i i.outcome
  by_state-Keeps i completed ne = reject-KeepsEnded _ _
  by_state-Keeps i failed ne = reject-KeepsEnded _ _
  by_state-Keeps i created ne = live-Keeps i (ne refl)
  by_state-Keeps i running ne = live-Keeps i (ne refl)

  found-Keeps :
      (o : Option WorkflowInstance)
      → ((i : WorkflowInstance) → o ≡ some i → is_final i.state ≡ false → i.workflow_id ≢ id)
      → Keeps (Stays id ended) (cancel_found sv a c o)
  unfolding cancel_found
  found-Keeps none ne s h = reject-KeepsEnded _ _ s h
  found-Keeps (some i) ne s h = elim (Bool-cases (out_of_scope c i)) [
    | inl p ↦ rw (p, cancel_found) (reject-KeepsEnded _ _ s h)
    | inr p ↦ rw (p, cancel_found) (by_state-Keeps i i.state (ne i refl) s h)
  ]

  module _ (final : is_final ended.state ≡ true) where
    named-Keeps : (w : Option String) → Keeps (Stays id ended) (cancel_named sv a c w)
    unfolding cancel_named
    named-Keeps none s h = reject-KeepsEnded _ _ s h
    named-Keeps (some w) s h =
        elim (Bool-cases (
          is_refused
            (require a c.metadata.authorization "workflow.cancel" c.tenant_id c.workspace_id))) [
              | inl p ↦ rw (p, cancel_named) (reject-KeepsEnded _ _ s h)
              | inr p ↦
                  rw (p, cancel_named)
                    (found-Keeps (get w s.instances)
                      (λ i g open_ q.
                        let (keyed, (j, there, like)) = h in
                        let here : get id s.instances ≡ some i =
                          rw (sym (sym (keyed w i g) ∙ q)) g in
                        let same : j ≡ i = ground (arith, here, there) in
                        ground (arith, same, like, final, open_))
                      s h)
            ]

    pub cancel-KeepsEnded : Keeps (Stays id ended) (cancel sv a c)
    unfolding cancel
    cancel-KeepsEnded = named-Keeps c.workflow_id
