-- ===== src/Workflow/Handle/Ended.antt =====
-- About `handle` of WorkflowEngine (engine.py) and a workflow that has ended.
use aieos.Base.{
  String, true, not, Option, some, none, ◌==◌, string_eq, Exception, value_error, Result, ok, err,
  ◌≡◌, ◌≢◌, refl, sym, ◌∙◌, arith, if◌then◌else◌, Option-cases, inl, inr,
}
use aieos.Base.Dict.{get}
use aieos.Base.Exec.{Exec, raise, gets, modify, ◌>>=◌}
use aieos.Base.Exec.Keeps.{Keeps, bind-Keeps, if_Keeps}
use aieos.Contracts.Commands.{CommandEnvelope, command_eq}
use aieos.Contracts.Results.{ResultEnvelope}
use aieos.Domain.{Services}
use aieos.EventBus.{Consumers}
use aieos.EventBus.Keeps.{Holds, TableKeeps}
use aieos.Security.{ScopeAuthorizer}
use aieos.Workflow.Instance.{
  CommandProcessingState, in_progress, processed, WorkflowInstance, WorkflowCommandReceipt,
}
use aieos.Workflow.Repository.{complete_command, receipt_for_command}
use aieos.Workflow.Cancel.{draw, reject, cancel}
use aieos.Workflow.Cancel.Laws.{is_final}
use aieos.Workflow.Cancel.Ended.{reject-KeepsEnded, cancel-KeepsEnded}
use aieos.Workflow.Payload.{Library}
use aieos.Workflow.Attempt.{create_attempt_command}
use aieos.Workflow.Attempt.Ended.{create-Keeps}
use aieos.Workflow.System.{Platform, System, engine_of, on_engine, publish_workflow_event}
use aieos.Workflow.Live.{
  change_instance, change_receipt, live, admission_code, attempt, dispatch_in_context,
}
use aieos.Workflow.Start.{Admitted, refused, start_with, admitted, begin_start}
use aieos.Workflow.Start.Ended.{complete_command-Keeps, change_receipt-Keeps, begin-Keeps}
use aieos.Workflow.Handle.{
  start_failure, failed_start, failed_receipt, conclude_start, end_start, dispatch_initial,
  not_started, with_attempt, initial_created, initial_attempt, attempt_of, resume_with,
  resume_found, resume_start, start_admitted, start, is_known, unknown_version, unsupported,
  by_type, handle_new, received, handle_received, handle,
}
use aieos.Workflow.Ended.{
  Stays, Kept, KeepsEnded, draw-Keeps, change-Keeps, engine-Keeps, live-Keeps, dispatch-Keeps,
  publish-KeepsEnded,
}

module _ (id : String) (ended : WorkflowInstance) where
  module _ (lib : Library) (sv : Services) (a : ScopeAuthorizer) where
    end-Keeps :
        (i : WorkflowInstance) (command_id code : String)
        → i.workflow_id ≢ id
        → Keeps (Stays id ended) (end_start lib sv a i command_id code)
    unfolding end_start
    end-Keeps i command_id code ne =
        bind-Keeps (Stays id ended) (draw (start_failure lib sv a i command_id code))
          (conclude_start lib sv a i command_id)
          (draw-Keeps id ended (start_failure lib sv a i command_id code))
          (λ x.
            bind-Keeps (Stays id ended)
              (modify (λ s.
                change_receipt (failed_receipt lib sv a x) command_id
                  (change_instance (failed_start lib sv a x) i.workflow_id s)))
              (λ _. complete_command command_id)
              (λ s h.
                change_receipt-Keeps id ended (failed_receipt lib sv a x) command_id _ (
                  change-Keeps id ended (failed_start lib sv a x) i.workflow_id ne (λ j. refl) s h))
              (λ _. complete_command-Keeps id ended command_id))

    module _ {W : Type 0} (t : Consumers (Platform W))
        (dispatch : CommandEnvelope → Exec (System W) ResultEnvelope)
        (k : TableKeeps (Kept id ended) t)
        (l : (c : CommandEnvelope) → KeepsEnded id ended (dispatch c)) where
      completed-Keeps :
          (command_id : String)
          → KeepsEnded id ended (on_engine {W = W} (complete_command command_id))
      completed-Keeps command_id =
          engine-Keeps id ended (complete_command command_id)
            (complete_command-Keeps id ended command_id)

      initial_dispatch-Keeps :
          (command_id : String) (c : CommandEnvelope)
          → KeepsEnded id ended (dispatch_initial lib sv a t dispatch command_id c)
      unfolding dispatch_initial
      initial_dispatch-Keeps command_id c =
          bind-Keeps (Holds (Kept id ended)) (dispatch_in_context dispatch c)
            (λ _. on_engine (complete_command command_id)) (dispatch-Keeps id ended dispatch l c)
            (λ _. completed-Keeps command_id)

      not_started-Keeps :
          (i : WorkflowInstance) (command_id : String) (x : Exception) (o : Option String)
          → i.workflow_id ≢ id
          → KeepsEnded id ended (not_started lib sv a t dispatch i command_id x o)
      unfolding not_started
      not_started-Keeps i command_id x none ne = λ s h. h
      not_started-Keeps i command_id x (some code) ne =
          engine-Keeps id ended (end_start lib sv a i command_id code)
            (end-Keeps i command_id code ne)

      created-Keeps :
          (i : WorkflowInstance) (command_id : String) (r : Result CommandEnvelope)
          → i.workflow_id ≢ id
          → KeepsEnded id ended (initial_created lib sv a t dispatch i command_id r)
      unfolding initial_created
      created-Keeps i command_id (err x) ne = not_started-Keeps i command_id x (admission_code x) ne
      created-Keeps i command_id (ok c) ne =
          bind-Keeps (Holds (Kept id ended))
            (on_engine
              (modify (change_instance (with_attempt lib sv a t dispatch c) i.workflow_id)))
            (λ _. dispatch_initial lib sv a t dispatch command_id c)
            (engine-Keeps id ended
              (modify (change_instance (with_attempt lib sv a t dispatch c) i.workflow_id))
              (change-Keeps id ended (with_attempt lib sv a t dispatch c) i.workflow_id ne
                (λ j. refl)))
            (λ _. initial_dispatch-Keeps command_id c)

      attempt-Keeps :
          (i : WorkflowInstance) (command_id : String) (o : Option CommandEnvelope)
          → i.workflow_id ≢ id
          → KeepsEnded id ended (initial_attempt lib sv a t dispatch i command_id o)
      unfolding initial_attempt on_engine
      attempt-Keeps i command_id (some c) ne = initial_dispatch-Keeps command_id c
      attempt-Keeps i command_id none ne =
          bind-Keeps (Holds (Kept id ended))
            (on_engine (attempt (create_attempt_command lib sv a i command_id)))
            (initial_created lib sv a t dispatch i command_id)
            (λ s h. create-Keeps id ended lib sv a i command_id ne (engine_of s) h)
            (λ r. created-Keeps i command_id r ne)

      resume-Keeps :
          (i : WorkflowInstance) (command_id : String) (o : Option ResultEnvelope)
          → (o ≡ none → i.workflow_id ≢ id)
          → KeepsEnded id ended (resume_with lib sv a t dispatch i command_id o)
      unfolding resume_with
      resume-Keeps i command_id (some r) ne = completed-Keeps command_id
      resume-Keeps i command_id none ne =
          bind-Keeps (Holds (Kept id ended))
            (publish_workflow_event sv t i "WorkflowStarted" command_id)
            (λ _. on_engine (gets (live i)) >>= attempt_of lib sv a t dispatch command_id)
            (publish-KeepsEnded id ended sv t k i "WorkflowStarted" command_id (ne refl))
            (λ _. live-Keeps id ended i (attempt_of lib sv a t dispatch command_id) (λ j same.
              attempt-Keeps j command_id j.initial_attempt_command (λ p. ne refl (sym same ∙ p))))

      module _ (final : is_final ended.state ≡ true) (r : ResultEnvelope)
          (outcome : ended.outcome ≡ some r) where
        resume_start-Keeps :
            (rc : WorkflowCommandReceipt)
            → KeepsEnded id ended (resume_start lib sv a t dispatch rc)
        unfolding resume_start resume_found
        resume_start-Keeps rc s h =
            elim (Option-cases (get rc.workflow_id (engine_of s).instances)) [
              | inl p ↦ rw (p, resume_found) h
              | inr (i, p) ↦
                  rw (p, resume_found)
                    (resume-Keeps i rc.command.command_id i.outcome
                      (λ q w.
                        let (keyed, (j, there, like)) = h in
                        let here : get id (engine_of s).instances ≡ some i =
                          rw (sym (sym (keyed rc.workflow_id i p) ∙ w)) p in
                        let same : j ≡ i = ground (arith, here, there) in
                        ground (arith, same, like, outcome, q))
                      s h)
            ]

        start-Keeps :
            (c : CommandEnvelope) (d : Admitted)
            → KeepsEnded id ended (start_admitted lib sv a t dispatch c d)
        unfolding start_admitted
        start-Keeps c (refused code message) =
            engine-Keeps id ended (reject sv a c code message)
              (reject-KeepsEnded id ended sv a c code message)
        start-Keeps c (start_with d b) =
            bind-Keeps (Holds (Kept id ended)) (on_engine (begin_start lib sv c d b))
              (resume_start lib sv a t dispatch)
              (engine-Keeps id ended (begin_start lib sv c d b) (begin-Keeps id ended lib sv c d b))
              resume_start-Keeps

        refusal-Keeps :
            (c : CommandEnvelope) (code message : String)
            → KeepsEnded id ended (on_engine {W = W} (reject sv a c code message))
        refusal-Keeps c code message =
            engine-Keeps id ended (reject sv a c code message)
              (reject-KeepsEnded id ended sv a c code message)

        by_type-Keeps : (c : CommandEnvelope) → KeepsEnded id ended (by_type lib sv a t dispatch c)
        unfolding by_type start
        by_type-Keeps c =
            if_Keeps (Holds (Kept id ended)) (c.command_type == "StartWorkflow")
              (start lib sv a t dispatch c)
              (if c.command_type == "CancelWorkflow"
                then on_engine (cancel sv a c)
                else on_engine (unsupported lib sv a c))
              (λ _. start-Keeps c (admitted a c))
              (λ _.
                if_Keeps (Holds (Kept id ended)) (c.command_type == "CancelWorkflow")
                  (on_engine (cancel sv a c)) (on_engine (unsupported lib sv a c))
                  (λ _.
                    engine-Keeps id ended (cancel sv a c) (cancel-KeepsEnded id ended sv a c final))
                  (λ _. refusal-Keeps c _ _))

        new-Keeps : (c : CommandEnvelope) → KeepsEnded id ended (handle_new lib sv a t dispatch c)
        unfolding handle_new
        new-Keeps c =
            if_Keeps (Holds (Kept id ended)) (not (c.target_component == "Workflow Engine"))
              (raise (value_error "Command target does not match Workflow Engine"))
              (if not (is_known c)
                then on_engine (unknown_version lib sv a c)
                else by_type lib sv a t dispatch c)
              (λ _ s h. h)
              (λ _.
                if_Keeps (Holds (Kept id ended)) (not (is_known c))
                  (on_engine (unknown_version lib sv a c)) (by_type lib sv a t dispatch c)
                  (λ _. refusal-Keeps c _ _) (λ _. by_type-Keeps c))

        received-Keeps :
            (c : CommandEnvelope) (rc : WorkflowCommandReceipt) (state : CommandProcessingState)
            → KeepsEnded id ended (received lib sv a t dispatch c rc state)
        unfolding received
        received-Keeps c rc processed = λ s h. h
        received-Keeps c rc in_progress =
            if_Keeps (Holds (Kept id ended)) (c.command_type == "StartWorkflow")
              (resume_start lib sv a t dispatch rc) (handle_new lib sv a t dispatch c)
              (λ _. resume_start-Keeps rc) (λ _. new-Keeps c)

        handled-Keeps :
            (c : CommandEnvelope) (o : Option WorkflowCommandReceipt)
            → KeepsEnded id ended (handle_received lib sv a t dispatch c o)
        unfolding handle_received
        handled-Keeps c none = new-Keeps c
        handled-Keeps c (some rc) =
            if_Keeps (Holds (Kept id ended)) (not (rc.command == c)) (raise _)
              (received lib sv a t dispatch c rc rc.state) (λ _ s h. h)
              (λ _. received-Keeps c rc rc.state)

        -- In a repository that keeps each workflow under its own identifier, a command of
        -- whatever type, however its handling ends, leaves a workflow that has ended with an
        -- outcome as it is, with its state, outcome and admissions, but for the list of its
        -- processed events, if the consumers of events and what commands are dispatched to leave
        -- it so.
        pub handle-KeepsEnded :
            (c : CommandEnvelope) → KeepsEnded id ended (handle lib sv a t dispatch c)
        unfolding handle
        handle-KeepsEnded c s h =
            handled-Keeps c (receipt_for_command c.command_id (engine_of s)) s h
