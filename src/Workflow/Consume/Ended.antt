-- ===== src/Workflow/Consume/Ended.antt =====
-- About `consume` of WorkflowEngine (engine.py) and a workflow that has ended.
use aieos.Base.{
  String, true, false, Option, some, none, ◌==◌, string_eq, Exception, Result, ok, err, ◌≡◌, ◌≢◌,
  refl, sym, ◌∙◌, arith, if◌then◌else◌, Option-cases, inl, inr,
}
use aieos.Base.Dict.{get}
use aieos.Base.Exec.{Exec, pure, raise, modify, ◌>>◌}
use aieos.Base.Exec.Keeps.{bind-Keeps, if_Keeps}
use aieos.Contracts.Commands.{CommandEnvelope}
use aieos.Contracts.Events.{EventEnvelope}
use aieos.Contracts.Results.{ResultEnvelope}
use aieos.Domain.{Services, new, now}
use aieos.EventBus.{Consumers}
use aieos.EventBus.Keeps.{Holds, TableKeeps}
use aieos.Security.{ScopeAuthorizer}
use aieos.Workflow.Instance.{WorkflowInstance}
use aieos.Workflow.Cancel.{draw}
use aieos.Workflow.Payload.{Library}
use aieos.Workflow.Attempt.{create_attempt_command}
use aieos.Workflow.Attempt.Ended.{create-Keeps}
use aieos.Workflow.System.{Platform, System, engine_of, on_engine}
use aieos.Workflow.Ending.{fail, reject_pre_acceptance_attempt, reject_retry_admission}
use aieos.Workflow.Ending.Ended.{fail-Keeps, reject_pre_acceptance-Keeps, reject_retry-Keeps}
use aieos.Workflow.Complete.{complete}
use aieos.Workflow.Complete.Ended.{complete-Keeps}
use aieos.Workflow.Live.{
  change_instance, mark_processed, admission_code, attempt, dispatch_in_context,
}
use aieos.Workflow.Consume.{
  is_final, is_processed, is_foreign, cross_scope, then_marked, record_retry_decision, retry_with,
  end_retry, not_retried, with_retry, retry_created, decided_retry, retry, may_retry,
  consume_failure, consume_live, consume_instance, or_missing, consume_recovered, consume_found,
  consume_named, consume, is_pre_acceptance, is_attempt_event, pre_acceptance_rejection_workflow_id,
}
use aieos.Workflow.Ended.{
  Kept, KeepsEnded, change-Keeps, engine-Keeps, mark-KeepsEnded, live-Keeps, dispatch-Keeps,
}

module _ (id : String) (ended : WorkflowInstance) (final : is_final ended.state ≡ true)
    (sv : Services) (lib : Library) (a : ScopeAuthorizer) {W : Type 0} (t : Consumers (Platform W))
    (dispatch : CommandEnvelope → Exec (System W) ResultEnvelope) (k : TableKeeps (Kept id ended) t)
    (l : (c : CommandEnvelope) → KeepsEnded id ended (dispatch c)) where
  marked_after :
      (m : Exec (System W) (Unit {0})) (w event_id : String)
      → KeepsEnded id ended m
      → KeepsEnded id ended (do m; on_engine (modify (mark_processed w event_id)))
  marked_after m w event_id h =
      bind-Keeps (Holds (Kept id ended)) m (λ _. on_engine (modify (mark_processed w event_id))) h
        (λ _. mark-KeepsEnded id ended w event_id)

  retry_with-Keeps :
      (i : WorkflowInstance) (e : EventEnvelope) (c : CommandEnvelope)
      → KeepsEnded id ended (retry_with sv lib a t dispatch i e c)
  unfolding retry_with
  retry_with-Keeps i e c =
      marked_after (dispatch_in_context dispatch c) i.workflow_id e.event_id
        (dispatch-Keeps id ended dispatch l c)

  not_retried-Keeps :
      (i : WorkflowInstance) (e : EventEnvelope) (x : Exception) (o : Option String)
      → i.workflow_id ≢ id
      → KeepsEnded id ended (not_retried sv lib a t dispatch i e x o)
  unfolding not_retried
  not_retried-Keeps i e x none ne = λ s h. h
  not_retried-Keeps i e x (some code) ne =
      live-Keeps id ended i (end_retry sv lib a t dispatch i e code) (λ j same.
        marked_after (reject_retry_admission sv t j e code) i.workflow_id e.event_id
          (reject_retry-Keeps id ended sv t k j e code (λ p. ne (sym same ∙ p))))

  created-Keeps :
      (i : WorkflowInstance) (e : EventEnvelope) (decision_id : String) (r : Result CommandEnvelope)
      → i.workflow_id ≢ id
      → KeepsEnded id ended (retry_created sv lib a t dispatch i e decision_id r)
  unfolding retry_created record_retry_decision on_engine now
  created-Keeps i e decision_id (err x) ne = not_retried-Keeps i e x (admission_code x) ne
  created-Keeps i e decision_id (ok c) ne =
      bind-Keeps (Holds (Kept id ended)) (on_engine (record_retry_decision sv i e decision_id))
        (λ _. do
          on_engine (modify (change_instance (with_retry sv lib a t dispatch e c) i.workflow_id))
          retry_with sv lib a t dispatch i e c)
        (λ s h. h)
        (λ _.
          bind-Keeps (Holds (Kept id ended))
            (on_engine
              (modify (change_instance (with_retry sv lib a t dispatch e c) i.workflow_id)))
            (λ _. retry_with sv lib a t dispatch i e c)
            (engine-Keeps id ended
              (modify (change_instance (with_retry sv lib a t dispatch e c) i.workflow_id))
              (change-Keeps id ended (with_retry sv lib a t dispatch e c) i.workflow_id ne
                (λ j. refl)))
            (λ _. retry_with-Keeps i e c))

  retry-Keeps :
      (i : WorkflowInstance) (e : EventEnvelope) (o : Option CommandEnvelope)
      → i.workflow_id ≢ id
      → KeepsEnded id ended (retry sv lib a t dispatch i e o)
  unfolding retry on_engine new
  retry-Keeps i e (some c) ne = retry_with-Keeps i e c
  retry-Keeps i e none ne =
      bind-Keeps (Holds (Kept id ended)) (on_engine (draw (new sv "decision")))
        (decided_retry sv lib a t dispatch i e) (λ s h. h)
        (λ d.
          bind-Keeps (Holds (Kept id ended))
            (on_engine (attempt (create_attempt_command lib sv a i d)))
            (retry_created sv lib a t dispatch i e d)
            (λ s h. create-Keeps id ended lib sv a i d ne (engine_of s) h)
            (λ r. created-Keeps i e d r ne))

  failure-Keeps :
      (i : WorkflowInstance) (e : EventEnvelope)
      → i.workflow_id ≢ id
      → KeepsEnded id ended (consume_failure sv lib a t dispatch i e)
  unfolding consume_failure
  failure-Keeps i e ne s h =
      if_Keeps (Holds (Kept id ended))
        (may_retry sv lib a t dispatch i e (get e.event_id i.retry_commands) (engine_of s))
        (retry sv lib a t dispatch i e (get e.event_id i.retry_commands))
        (then_marked sv lib a t dispatch (fail sv t i e) i e)
        (λ _. retry-Keeps i e (get e.event_id i.retry_commands) ne)
        (λ _.
          marked_after (fail sv t i e) i.workflow_id e.event_id (fail-Keeps id ended sv t k i e ne))
        s h

  live_event-Keeps :
      (i : WorkflowInstance) (e : EventEnvelope)
      → i.workflow_id ≢ id
      → KeepsEnded id ended (consume_live sv lib a t dispatch i e)
  unfolding consume_live
  live_event-Keeps i e ne =
      if_Keeps (Holds (Kept id ended)) (e.event_type == "ExecutionAttemptSucceeded")
        (then_marked sv lib a t dispatch (complete sv lib t i e) i e)
        (if is_pre_acceptance e
          then then_marked sv lib a t dispatch (reject_pre_acceptance_attempt sv t i e) i e
          else consume_failure sv lib a t dispatch i e)
        (λ _.
          marked_after (complete sv lib t i e) i.workflow_id e.event_id
            (complete-Keeps id ended sv lib t k i e ne))
        (λ _.
          if_Keeps (Holds (Kept id ended)) (is_pre_acceptance e)
            (then_marked sv lib a t dispatch (reject_pre_acceptance_attempt sv t i e) i e)
            (consume_failure sv lib a t dispatch i e)
            (λ _.
              marked_after (reject_pre_acceptance_attempt sv t i e) i.workflow_id e.event_id
                (reject_pre_acceptance-Keeps id ended sv t k i e ne))
            (λ _. failure-Keeps i e ne))

  instance-Keeps :
      (e : EventEnvelope) (i : WorkflowInstance)
      → (is_final i.state ≡ false → i.workflow_id ≢ id)
      → KeepsEnded id ended (consume_instance sv lib a t dispatch e i)
  unfolding consume_instance
  instance-Keeps e i ne =
      if_Keeps (Holds (Kept id ended)) (is_processed e i) (pure tt)
        (if is_foreign e i
          then raise cross_scope
          else if is_final i.state
          then on_engine (modify (mark_processed i.workflow_id e.event_id))
          else consume_live sv lib a t dispatch i e)
        (λ _ s h. h)
        (λ _.
          if_Keeps (Holds (Kept id ended)) (is_foreign e i) (raise cross_scope)
            (if is_final i.state
              then on_engine (modify (mark_processed i.workflow_id e.event_id))
              else consume_live sv lib a t dispatch i e)
            (λ _ s h. h)
            (λ _.
              if_Keeps (Holds (Kept id ended)) (is_final i.state)
                (on_engine (modify (mark_processed i.workflow_id e.event_id)))
                (consume_live sv lib a t dispatch i e)
                (λ _. mark-KeepsEnded id ended i.workflow_id e.event_id)
                (λ p. live_event-Keeps i e (ne p))))

  -- an instance that is read under an identifier
  read-Keeps :
      (e : EventEnvelope) (w : String) (i : WorkflowInstance) (s : System W)
      → get w (engine_of s).instances ≡ some i
      → Holds (Kept id ended) s
      → Holds (Kept id ended) (consume_instance sv lib a t dispatch e i s).1
  read-Keeps e w i s g h =
      let (keyed, (j, there, like)) = h in
      instance-Keeps e i
        (λ open_ p.
          let here : get id (engine_of s).instances ≡ some i = rw (sym (sym (keyed w i g) ∙ p)) g in
          let same : j ≡ i = ground (arith, here, there) in
          ground (arith, same, like, final, open_))
        s h

  recovered-Keeps :
      (e : EventEnvelope) (o : Option String)
      → KeepsEnded id ended (consume_recovered sv lib a t dispatch e o)
  unfolding consume_recovered or_missing
  recovered-Keeps e none s h = h
  recovered-Keeps e (some w) s h = elim (Option-cases (get w (engine_of s).instances)) [
    | inl p ↦ rw (p, or_missing) h
    | inr (i, p) ↦ rw (p, or_missing) (read-Keeps e w i s p h)
  ]

  named-Keeps :
      (e : EventEnvelope) (o : Option String)
      → KeepsEnded id ended (consume_named sv lib a t dispatch e o)
  unfolding consume_named consume_found
  named-Keeps e none s h = h
  named-Keeps e (some w) s h = elim (Option-cases (get w (engine_of s).instances)) [
    | inl p ↦
        rw (p, consume_found)
          (recovered-Keeps e (pre_acceptance_rejection_workflow_id e (engine_of s)) s h)
    | inr (i, p) ↦ rw (p, consume_found) (read-Keeps e w i s p h)
  ]

  -- In a repository that keeps each workflow under its own identifier, an event of whatever
  -- content, however its consumption ends, leaves a workflow that has ended as it is, with its
  -- state, outcome and admissions, but for the list of its processed events, if the other
  -- consumers and what commands are dispatched to leave it so.
  pub consume-KeepsEnded : (e : EventEnvelope) → KeepsEnded id ended (consume sv lib a t dispatch e)
  unfolding consume
  consume-KeepsEnded e =
      if_Keeps (Holds (Kept id ended)) (is_attempt_event e.event_type)
        (consume_named sv lib a t dispatch e e.workflow_id) (pure tt)
        (λ _. named-Keeps e e.workflow_id) (λ _ s h. h)
