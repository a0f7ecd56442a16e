-- ===== src/Workflow/Complete/Ended.antt =====
-- About `_complete` (engine.py) and another workflow that has ended.
use aieos.Base.{
  ℕ, String, Bool, true, false, Option, some, none, Result, ok, err, ◌≡◌, ◌≢◌, sym, ◌∙◌, arith,
  Value, Fields, str,
}
use aieos.Base.Dict.{values}
use aieos.Base.Exec.{pure, raise, lift, modify, ◌>>=◌, bind-ok}
use aieos.Base.Exec.Keeps.{Keeps, bind-Keeps, bind-Keeps_if, if_Keeps}
use aieos.Contracts.Events.{EventEnvelope}
use aieos.Domain.{Services}
use aieos.EventBus.{Consumers}
use aieos.EventBus.Keeps.{Holds, TableKeeps}
use aieos.Workflow.Governance.{WorkflowAiBudgetEnvelope}
use aieos.Workflow.Instance.{WorkflowState, WorkflowInstance, Engine}
use aieos.Workflow.Repository.{put_instance}
use aieos.Workflow.Cancel.{draw}
use aieos.Workflow.Payload.{Library}
use aieos.Workflow.Command.{is_approved}
use aieos.Workflow.System.{Platform, on_engine}
use aieos.Workflow.Ending.{fail}
use aieos.Workflow.Ending.Ended.{announce-Keeps, fail-Keeps}
use aieos.Workflow.Accounting.{settlement_of, reconciled, totals}
use aieos.Workflow.Complete.{
  reconcile_with, reconcile_ai_admission, with_evidence, audited, success_of, conclude_success,
  succeed_audited, succeed_with, announce_completed, complete_with, complete_text, complete_routed,
  complete_found, complete, lineage_for, is_caught, route_fields, is_avoided,
}
use aieos.Workflow.Ended.{Stays, Kept, KeepsEnded, put-Keeps, draw-Keeps, engine-Keeps}

-- the instance that a step of the completion passes on has the identifier of the one it was given
abbrev SameId : {A : Type 0} → WorkflowInstance → WorkflowInstance × A → Type 0
SameId i x = x.0.workflow_id ≡ i.workflow_id

reconcile-SameId :
    (i : WorkflowInstance) (lineage : Fields) (b : Bool) (s : Engine)
    (x : WorkflowInstance × (ℕ × ℕ))
    → (reconcile_ai_admission i lineage b s).0 ≡ ok x
    → SameId i x
unfolding reconcile_ai_admission reconciled
reconcile-SameId i lineage true s x h = ground (arith, h)
reconcile-SameId i lineage false s x h =
    let (y, p, e) = bind-ok (lift (settlement_of i lineage)) (reconcile_with i lineage) s h in
    ground (arith, h, p, e)

audited-SameId :
    (i : WorkflowInstance) (lineage : Fields) (o : Option WorkflowAiBudgetEnvelope) (s : Engine)
    (x : WorkflowInstance × Fields)
    → (audited i lineage o s).0 ≡ ok x
    → SameId i x
unfolding audited
audited-SameId i lineage none s x h = ground (arith, h)
audited-SameId i lineage (some b) s x h =
    let (y, p, e) =
      bind-ok (reconcile_ai_admission i lineage (is_avoided lineage)) (with_evidence lineage b) s
        h in
    ground (arith, h, e, reconcile-SameId i lineage (is_avoided lineage) s y p)

module _ (id : String) (ended : WorkflowInstance) where
  reconcile-Keeps :
      (i : WorkflowInstance) (lineage : Fields) (b : Bool)
      → i.workflow_id ≢ id
      → Keeps (Stays id ended) (reconcile_ai_admission i lineage b)
  unfolding reconcile_ai_admission reconciled
  reconcile-Keeps i lineage true ne = λ s h. h
  reconcile-Keeps i lineage false ne =
      bind-Keeps (Stays id ended) (lift (settlement_of i lineage)) (reconcile_with i lineage)
        (λ s h. h)
        (λ x.
          bind-Keeps (Stays id ended) (modify (put_instance (reconciled i lineage x)))
            (λ _. do
              n ← lift (totals (values (reconciled i lineage x).ai_admission_states))
              pure (reconciled i lineage x, n))
            (put-Keeps id ended (reconciled i lineage x) ne)
            (λ _.
              bind-Keeps (Stays id ended)
                (lift (totals (values (reconciled i lineage x).ai_admission_states)))
                (λ n. pure (reconciled i lineage x, n)) (λ s h. h) (λ n s h. h)))

  audited-Keeps :
      (i : WorkflowInstance) (lineage : Fields) (o : Option WorkflowAiBudgetEnvelope)
      → i.workflow_id ≢ id
      → Keeps (Stays id ended) (audited i lineage o)
  unfolding audited
  audited-Keeps i lineage none ne = λ s h. h
  audited-Keeps i lineage (some b) ne =
      bind-Keeps (Stays id ended) (reconcile_ai_admission i lineage (is_avoided lineage))
        (with_evidence lineage b) (reconcile-Keeps i lineage (is_avoided lineage) ne) (λ x s h. h)

  module _ (sv : Services) where
    succeed-Keeps :
        (i : WorkflowInstance) (e : EventEnvelope) (lineage : Fields) (v : Option Value)
        → i.workflow_id ≢ id
        → Keeps (Stays id ended) (succeed_with sv i e lineage v)
    unfolding succeed_with
    succeed-Keeps i e lineage v ne =
        bind-Keeps_if (Stays id ended) (SameId i) (audited i lineage i.ai_budget_envelope)
          (succeed_audited sv e v) (audited-Keeps i lineage i.ai_budget_envelope ne)
          (audited-SameId i lineage i.ai_budget_envelope)
          (λ (j, audit) same.
            bind-Keeps (Stays id ended) (draw (success_of sv j e v audit)) (conclude_success sv j)
              (draw-Keeps id ended (success_of sv j e v audit))
              (λ r.
                put-Keeps id ended (record j { outcome = some r; state = WorkflowState.completed })
                  (λ p. ne (sym same ∙ p))))

    succeed-workflow_id :
        (i : WorkflowInstance) (e : EventEnvelope) (lineage : Fields) (v : Option Value)
        (s : Engine) (k : WorkflowInstance)
        → (succeed_with sv i e lineage v s).0 ≡ ok k
        → k.workflow_id ≡ i.workflow_id
    unfolding succeed_with
    succeed-workflow_id i e lineage v s k h =
        let ((j, audit), p, q) =
          bind-ok (audited i lineage i.ai_budget_envelope) (succeed_audited sv e v) s h in
        let u : Engine = (audited i lineage i.ai_budget_envelope s).1 in
        let (r, p', q') =
          bind-ok (draw (success_of sv j e v audit)) (conclude_success sv j) u (rw q at h) in
        ground (arith, h, q, q', audited-SameId i lineage i.ai_budget_envelope s (j, audit) p)

    module _ (lib : Library) {W : Type 0} (t : Consumers (Platform W))
        (k : TableKeeps (Kept id ended) t) where
      with-Keeps :
          (i : WorkflowInstance) (e : EventEnvelope) (lineage : Fields) (v : Option Value)
          → i.workflow_id ≢ id
          → KeepsEnded id ended (complete_with sv lib t i e lineage v)
      unfolding complete_with on_engine
      with-Keeps i e lineage v ne =
          bind-Keeps_if (Holds (Kept id ended)) (λ j. j.workflow_id ≡ i.workflow_id)
            (on_engine (succeed_with sv i e lineage v)) (announce_completed sv lib t e)
            (engine-Keeps id ended (succeed_with sv i e lineage v) (succeed-Keeps i e lineage v ne))
            (λ s j h. succeed-workflow_id i e lineage v s.world.engine j h)
            (λ j same.
              announce-Keeps id ended sv t k j "WorkflowCompleted" e (λ p. ne (sym same ∙ p)))

      routed-Keeps :
          (i : WorkflowInstance) (e : EventEnvelope) (lineage : Fields)
          (o : Option WorkflowAiBudgetEnvelope) (r : Result (Value × String))
          → i.workflow_id ≢ id
          → KeepsEnded id ended (complete_routed sv lib t i e lineage o r)
      unfolding complete_routed
      routed-Keeps i e lineage o (err x) ne =
          if_Keeps (Holds (Kept id ended)) (is_caught x) (fail sv t i e) (raise x)
            (λ _. fail-Keeps id ended sv t k i e ne) (λ _ s h. h)
      routed-Keeps i e lineage none (ok r) ne = λ s h. h
      routed-Keeps i e lineage (some b) (ok r) ne =
          bind-Keeps (Holds (Kept id ended)) (lift (lib.dumps (route_fields i e b r)))
            (complete_text sv lib t i e lineage) (λ s h. h)
            (λ text. with-Keeps i e lineage (some (str text)) ne)

      found-Keeps :
          (i : WorkflowInstance) (e : EventEnvelope) (o : Option Fields)
          → i.workflow_id ≢ id
          → KeepsEnded id ended (complete_found sv lib t i e o)
      unfolding complete_found
      found-Keeps i e none ne = fail-Keeps id ended sv t k i e ne
      found-Keeps i e (some lineage) ne =
          if_Keeps (Holds (Kept id ended)) (is_approved i.definition) _ _
            (λ _. routed-Keeps i e _ i.ai_budget_envelope _ ne) (λ _. with-Keeps i e _ _ ne)

      pub complete-Keeps :
          (i : WorkflowInstance) (e : EventEnvelope)
          → i.workflow_id ≢ id
          → KeepsEnded id ended (complete sv lib t i e)
      unfolding complete
      complete-Keeps i e ne = found-Keeps i e (lineage_for i e) ne
