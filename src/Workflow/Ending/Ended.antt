-- ===== src/Workflow/Ending/Ended.antt =====
-- About `_fail`, `_reject_pre_acceptance_attempt` and `_reject_retry_admission` (engine.py) and another
-- workflow that has ended.
use aieos.Base.{String, ◌≢◌}
use aieos.Base.Exec.{modify, ◌>>=◌}
use aieos.Base.Exec.Keeps.{Keeps, bind-Keeps}
use aieos.Contracts.Events.{EventEnvelope}
use aieos.Contracts.Results.{ResultStatus, rejected}
use aieos.Domain.{Services, now}
use aieos.EventBus.{Consumers}
use aieos.EventBus.Keeps.{Holds, TableKeeps}
use aieos.Outcomes.{Fault}
use aieos.Workflow.Instance.{WorkflowState, WorkflowInstance}
use aieos.Workflow.Repository.{put_instance}
use aieos.Workflow.Cancel.{draw}
use aieos.Workflow.System.{Platform, on_engine, publish_workflow_event, observe}
use aieos.Workflow.Ending.{
  exhausted, pre_acceptance, not_admitted, concluded, settle_receipts, end_failed, announce, fail,
  reject_pre_acceptance_attempt, reject_retry_admission, failure_of, conclude_failed,
  announce_settled, announce_failed,
}
use aieos.Workflow.Ended.{
  Stays, Kept, KeepsEnded, put-Keeps, draw-Keeps, engine-Keeps, publish-KeepsEnded,
}

module _ (id : String) (ended : WorkflowInstance) (sv : Services) where
  end-Keeps :
      (i : WorkflowInstance) (e : EventEnvelope) (status : ResultStatus) (fault : Fault)
      → i.workflow_id ≢ id
      → Keeps (Stays id ended) (end_failed sv i e status fault)
  unfolding end_failed
  end-Keeps i e status fault ne =
      bind-Keeps (Stays id ended)
        (modify (put_instance (record i { state = WorkflowState.failed })))
        (λ _. draw (failure_of sv i e status fault) >>= conclude_failed sv i)
        (put-Keeps id ended (record i { state = WorkflowState.failed }) ne)
        (λ _.
          bind-Keeps (Stays id ended) (draw (failure_of sv i e status fault)) (conclude_failed sv i)
            (draw-Keeps id ended (failure_of sv i e status fault))
            (λ (r, x). put-Keeps id ended (concluded i WorkflowState.failed r x) ne))

  module _ {W : Type 0} (t : Consumers (Platform W)) (k : TableKeeps (Kept id ended) t) where
    pub announce-Keeps :
        (i : WorkflowInstance) (event_type : String) (e : EventEnvelope)
        → i.workflow_id ≢ id
        → KeepsEnded id ended (announce sv t i event_type e)
    unfolding announce observe on_engine now
    announce-Keeps i event_type e ne =
        bind-Keeps (Holds (Kept id ended)) (publish_workflow_event sv t i event_type e.event_id)
          (λ _. observe sv t) (publish-KeepsEnded id ended sv t k i event_type e.event_id ne)
          (λ _ s h. h)

    pub fail-Keeps :
        (i : WorkflowInstance) (e : EventEnvelope)
        → i.workflow_id ≢ id
        → KeepsEnded id ended (fail sv t i e)
    unfolding fail
    fail-Keeps i e ne =
        bind-Keeps (Holds (Kept id ended))
          (on_engine (end_failed sv i e ResultStatus.failed exhausted)) (announce_failed sv t i e)
          (engine-Keeps id ended (end_failed sv i e ResultStatus.failed exhausted)
            (end-Keeps i e ResultStatus.failed exhausted ne))
          (λ (r, x). announce-Keeps (concluded i WorkflowState.failed r x) "WorkflowFailed" e ne)

    pub reject_pre_acceptance-Keeps :
        (i : WorkflowInstance) (e : EventEnvelope)
        → i.workflow_id ≢ id
        → KeepsEnded id ended (reject_pre_acceptance_attempt sv t i e)
    unfolding reject_pre_acceptance_attempt settle_receipts on_engine
    reject_pre_acceptance-Keeps i e ne =
        bind-Keeps (Holds (Kept id ended))
          (on_engine (end_failed sv i e rejected (pre_acceptance e))) (announce_settled sv t i e)
          (engine-Keeps id ended (end_failed sv i e rejected (pre_acceptance e))
            (end-Keeps i e rejected (pre_acceptance e) ne))
          (λ (r, x).
            bind-Keeps (Holds (Kept id ended))
              (on_engine (modify (settle_receipts i.workflow_id r x)))
              (λ _. announce_failed sv t i e (r, x)) (λ s h. h)
              (λ _. announce-Keeps (concluded i WorkflowState.failed r x) "WorkflowFailed" e ne))

    pub reject_retry-Keeps :
        (i : WorkflowInstance) (e : EventEnvelope) (code : String)
        → i.workflow_id ≢ id
        → KeepsEnded id ended (reject_retry_admission sv t i e code)
    unfolding reject_retry_admission
    reject_retry-Keeps i e code ne =
        bind-Keeps (Holds (Kept id ended))
          (on_engine (end_failed sv i e rejected (not_admitted code))) (announce_failed sv t i e)
          (engine-Keeps id ended (end_failed sv i e rejected (not_admitted code))
            (end-Keeps i e rejected (not_admitted code) ne))
          (λ (r, x). announce-Keeps (concluded i WorkflowState.failed r x) "WorkflowFailed" e ne)
