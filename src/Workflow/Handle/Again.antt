-- ===== src/Workflow/Handle/Again.antt =====
-- About `handle` of WorkflowEngine (engine.py), called again with the same CommandId.
use aieos.Base.{
  String, sym, ◌∙◌, Option, some, none, ◌==◌, string_eq, Result, ok, err, Exception, value_error,
  if◌then◌else◌, ◌≡◌, refl, arith, Option-cases, Bool-cases, inl, inr,
}
use mathlib.Core.Path.{subst}
use aieos.Base.Dict.{get}
use aieos.Base.Exec.{Exec, gets, modify, ◌>>=◌, bind-ok}
use aieos.Contracts.Commands.{CommandEnvelope, command_eq}
use aieos.Contracts.Results.{ResultEnvelope}
use aieos.Domain.{Services}
use aieos.EventBus.{Consumers}
use aieos.Security.{ScopeAuthorizer}
use aieos.Workflow.Instance.{
  CommandProcessingState, in_progress, processed, WorkflowDefinition, WorkflowInstance,
  WorkflowCommandReceipt, Engine,
}
use aieos.Workflow.Governance.{WorkflowAiBudgetEnvelope}
use aieos.Workflow.Repository.{receipt_for_command, add, begin_command, complete_command}
use aieos.Workflow.Cancel.{reject, cancel, draw}
use aieos.Workflow.Cancel.Answers.{Remembered, own, reject-Answers, cancel-Answers, bind_returns}
use aieos.Workflow.Live.{
  admission_code, attempt, live, change_receipt, change_instance, dispatch_in_context,
}
use aieos.Workflow.Payload.{Library}
use aieos.Workflow.System.{Platform, System, engine_of, on_engine, publish_workflow_event}
use aieos.Workflow.Attempt.{create_attempt_command}
use aieos.Workflow.Start.{
  begin_start, start_receipt, begun, acknowledge, new_instance, Admitted, refused, start_with,
  admitted,
}
use aieos.Workflow.Handle.{
  start_failure, failed_start, failed_receipt, with_attempt, conclude_start, resume_found,
  attempt_of, end_start, dispatch_initial, not_started, initial_created, initial_attempt,
  resume_with, resume_start, start_admitted, start, handle_new, received, handle_received, handle,
}
use aieos.EventBus.Keeps.{TableKeeps}
use aieos.Workflow.Receipt.{
  Named, NamedIn, KeepsNamed, change_instance-Keeps, change_receipt-Named, engine-Named,
  dispatch-Named, publish-Named,
}
use aieos.Workflow.Attempt.Receipt.{create-Named}
use aieos.Workflow.Start.Receipt.{start-Named}
use aieos.Workflow.Handle.Replies.{
  Replies, EngineReplies, complete-Replies, engine-Replies, answer-Replies, bind-Replies_if,
  bind-Replies, if_Replies, raise-Replies,
}

module _ (lib : Library) (sv : Services) (a : ScopeAuthorizer) (c : CommandEnvelope) where
  end-Replies :
      (i : WorkflowInstance) (code : String)
      → EngineReplies c (end_start lib sv a i c.command_id code)
  unfolding end_start
  end-Replies i code s r n h =
      let (x, p, e) =
        bind-ok (draw (start_failure lib sv a i c.command_id code))
          (conclude_start lib sv a i c.command_id) s h in
      let t : Engine = (draw (start_failure lib sv a i c.command_id code) s).1 in
      let u : Engine =
        change_receipt (failed_receipt lib sv a x) c.command_id
          (change_instance (failed_start lib sv a x) i.workflow_id t) in
      subst (λ q. Remembered c r q.1) (sym e)
        (complete-Replies c u r
          (change_receipt-Named c (failed_receipt lib sv a x) c.command_id
            (change_instance (failed_start lib sv a x) i.workflow_id t) (λ _. refl)
            (change_instance-Keeps c (failed_start lib sv a x) i.workflow_id t n))
          (subst (λ q. q.0 ≡ ok r) e h))

  begin_command-command :
      (d : WorkflowDefinition) (b : Option WorkflowAiBudgetEnvelope) (s : Engine)
      (rc : WorkflowCommandReceipt)
      → (begin_start lib sv c d b s).0 ≡ ok rc
      → rc.command ≡ c
  unfolding begin_start begin_command
  begin_command-command d b =
      bind_returns own c (λ rc. rc.command ≡ c) (new_instance lib sv c d b) (start_receipt lib sv c)
        (λ i.
          bind_returns own c (λ rc. rc.command ≡ c) (add i)
            (λ _. draw (acknowledge lib sv c i) >>= begun lib sv c i)
            (λ _.
              bind_returns own c (λ rc. rc.command ≡ c) (draw (acknowledge lib sv c i))
                (begun lib sv c i) (λ x s rc h. ground arith)))

  module _ {W : Type 0} (t : Consumers (Platform W))
      (dispatch : CommandEnvelope → Exec (System W) ResultEnvelope) (k : TableKeeps (NamedIn c) t)
      (l : (d : CommandEnvelope) → KeepsNamed c (dispatch d)) where
    dispatch-Replies :
        (d : CommandEnvelope) → Replies c (dispatch_initial lib sv a t dispatch c.command_id d)
    unfolding dispatch_initial
    dispatch-Replies d =
        bind-Replies c (dispatch_in_context dispatch d)
          (λ _. on_engine (complete_command c.command_id)) (dispatch-Named c dispatch l d)
          (λ _. engine-Replies c (complete_command c.command_id) (complete-Replies c))

    not_started-Replies :
        (i : WorkflowInstance) (x : Exception) (o : Option String)
        → Replies c (not_started lib sv a t dispatch i c.command_id x o)
    unfolding not_started
    not_started-Replies i x none = raise-Replies c x
    not_started-Replies i x (some code) =
        engine-Replies c (end_start lib sv a i c.command_id code) (end-Replies i code)

    created-Replies :
        (i : WorkflowInstance) (q : Result CommandEnvelope)
        → Replies c (initial_created lib sv a t dispatch i c.command_id q)
    unfolding initial_created
    created-Replies i (err x) = not_started-Replies i x (admission_code x)
    created-Replies i (ok d) =
        bind-Replies c
          (on_engine (modify (change_instance (with_attempt lib sv a t dispatch d) i.workflow_id)))
          (λ _. dispatch_initial lib sv a t dispatch c.command_id d)
          (engine-Named c
            (modify (change_instance (with_attempt lib sv a t dispatch d) i.workflow_id))
            (change_instance-Keeps c (with_attempt lib sv a t dispatch d) i.workflow_id))
          (λ _. dispatch-Replies d)

    attempt-Replies :
        (i : WorkflowInstance) (o : Option CommandEnvelope)
        → Replies c (initial_attempt lib sv a t dispatch i c.command_id o)
    unfolding initial_attempt on_engine
    attempt-Replies i (some d) = dispatch-Replies d
    attempt-Replies i none =
        bind-Replies c (on_engine (attempt (create_attempt_command lib sv a i c.command_id)))
          (initial_created lib sv a t dispatch i c.command_id)
          (λ s n. create-Named c lib sv a i c.command_id (engine_of s) n) (created-Replies i)

    resume-Replies :
        (i : WorkflowInstance) (o : Option ResultEnvelope)
        → Replies c (resume_with lib sv a t dispatch i c.command_id o)
    unfolding resume_with on_engine
    resume-Replies i (some r) =
        engine-Replies c (complete_command c.command_id) (complete-Replies c)
    resume-Replies i none =
        bind-Replies c (publish_workflow_event sv t i "WorkflowStarted" c.command_id)
          (λ _. on_engine (gets (live i)) >>= attempt_of lib sv a t dispatch c.command_id)
          (publish-Named c sv t k i "WorkflowStarted" c.command_id)
          (λ _.
            bind-Replies c (on_engine (gets (live i))) (attempt_of lib sv a t dispatch c.command_id)
              (λ s n. n) (λ j. attempt-Replies j j.initial_attempt_command))

    receipt-Replies :
        (rc : WorkflowCommandReceipt) (s : System W) (r : ResultEnvelope)
        → rc.command ≡ c
        → Named c (engine_of s)
        → (resume_start lib sv a t dispatch rc s).0 ≡ ok r
        → Remembered c r (engine_of (resume_start lib sv a t dispatch rc s).1)
    unfolding resume_start resume_found
    receipt-Replies rc s r e n h =
        elim (Option-cases (get rc.workflow_id (engine_of s).instances)) [
          | inl p ↦ absurd (ground (arith, rw (p, resume_found) at h))
          | inr (i, p) ↦
              rw (p, resume_found, e)
                (resume-Replies i i.outcome s r n (rw (p, resume_found, e) at h))
        ]

    start-Replies : (d : Admitted) → Replies c (start_admitted lib sv a t dispatch c d)
    unfolding start_admitted on_engine
    start-Replies (refused code message) =
        answer-Replies c (reject sv a c code message) (reject-Answers sv a c code message)
    start-Replies (start_with d b) =
        bind-Replies_if c (λ rc. rc.command ≡ c) (on_engine (begin_start lib sv c d b))
          (resume_start lib sv a t dispatch)
          (engine-Named c (begin_start lib sv c d b) (start-Named c lib sv d b)) (begun_is d b)
          (λ rc e s r n h. receipt-Replies rc s r e n h)
      where
        begun_is :
            (d : WorkflowDefinition) (b : Option WorkflowAiBudgetEnvelope) (s : System W)
            (rc : WorkflowCommandReceipt)
            → (on_engine (begin_start lib sv c d b) s).0 ≡ ok rc
            → rc.command ≡ c
        begun_is d b s rc h = begin_command-command d b (engine_of s) rc h

    new-Replies : Replies c (handle_new lib sv a t dispatch c)
    unfolding handle_new start
    new-Replies = if_Replies c _ _ _ (raise-Replies c _) (
        if_Replies c _ _ _ (refusal _ _) (
          if_Replies c _ _ _ (start-Replies (admitted a c)) (
            if_Replies c _ _ _ (answer-Replies c (cancel sv a c) (cancel-Answers sv a c))
              (refusal _ _))))
      where
        refusal :
            (code message : String) → Replies c (on_engine {W = W} (reject sv a c code message))
        refusal code message =
            answer-Replies c (reject sv a c code message) (reject-Answers sv a c code message)

    received-Replies :
        (rc : WorkflowCommandReceipt) (state : CommandProcessingState) (s : System W)
        (r : ResultEnvelope)
        → get c.command_id (engine_of s).command_receipts ≡ some rc
        → rc.command ≡ c
        → rc.state ≡ state
        → (received lib sv a t dispatch c rc state s).0 ≡ ok r
        → Remembered c r (engine_of (received lib sv a t dispatch c rc state s).1)
    unfolding received
    received-Replies rc processed s r g e p h = (rc, g, e, p, ground (arith, h))
    received-Replies rc in_progress s r g e p h =
        if_Replies c (c.command_type == "StartWorkflow") (resume_start lib sv a t dispatch rc)
          (handle_new lib sv a t dispatch c) (λ u q n. receipt-Replies rc u q e n) new-Replies s r
          (rw g e) h

    handle-Replies :
        (s : System W) (r : ResultEnvelope)
        → (handle lib sv a t dispatch c s).0 ≡ ok r
        → Remembered c r (engine_of (handle lib sv a t dispatch c s).1)
    unfolding handle handle_received receipt_for_command
    handle-Replies s r h = elim (Option-cases (get c.command_id (engine_of s).command_receipts)) [
      | inl p ↦ rw (p, handle_received) (new-Replies s r (rw p tt) (rw (p, handle_received) at h))
      | inr (rc, p) ↦ elim (Bool-cases (command_eq.beq rc.command c)) [
        | inl q ↦
            rw (p, handle_received, q)
              (received-Replies rc rc.state s r p ((command_eq.beq_iff rc.command c).0 q) refl
                (rw (p, handle_received, q) at h))
        | inr q ↦ ground (arith, rw (p, handle_received, q) at h)
      ]
    ]

    replayed :
        (d : CommandEnvelope) (rc : WorkflowCommandReceipt) (r : ResultEnvelope) (s : System W)
        → get d.command_id (engine_of s).command_receipts ≡ some rc
        → rc.state ≡ processed
        → rc.result ≡ r
        → handle lib sv a t dispatch d s ≡ (
          if rc.command == d
              then ok r
              else err (value_error "CommandId cannot be reused with changed immutable content"),
          s,
        )
    unfolding handle handle_received receipt_for_command received
    replayed d rc r s g p q = rw (g, handle_received) (ground (arith, p, q))

    -- If the consumers of events and what commands are dispatched to never replace what is stored
    -- under a command's identifier by another command's receipt, then once `handle` has returned a
    -- result for the command, a command of the same CommandId changes nothing in any state in which
    -- the same receipt is still stored: it is answered with that result when it is the same command,
    -- and refused as changed content when it is not.
    pub handle_again :
        (d : CommandEnvelope) (s u : System W) (r : ResultEnvelope)
        → (handle lib sv a t dispatch c s).0 ≡ ok r
        → d.command_id ≡ c.command_id
        → get c.command_id (engine_of u).command_receipts
          ≡ get c.command_id (engine_of (handle lib sv a t dispatch c s).1).command_receipts
        → handle lib sv a t dispatch d u ≡ (
          if c == d
              then ok r
              else err (value_error "CommandId cannot be reused with changed immutable content"),
          u,
        )
    handle_again d s u r h e same =
        let (rc, g, w, p, q) = handle-Replies s r h in
        subst
          (λ x. handle lib sv a t dispatch d u ≡ (
            if x == d
                then ok r
                else err (value_error "CommandId cannot be reused with changed immutable content"),
            u,
          ))
          w (replayed d rc r u (rw e (same ∙ g)) p q)
