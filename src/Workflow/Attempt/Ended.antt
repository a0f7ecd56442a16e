-- ===== src/Workflow/Attempt/Ended.antt =====
-- About `_create_attempt_command` (engine.py) and another workflow that has ended.
use Prim.Native.String.{◌++◌ as ◌<>◌}
use aieos.Base.{
  ◌++◌, ◌∷◌, [], ◌+◌, String, Option, some, none, ok, ◌≡◌, ◌≢◌, sym, ◌∙◌, arith, Fields,
}
use aieos.Base.Exec.{lift, modify, ◌>>=◌}
use aieos.Base.Exec.Keeps.{Keeps, bind-Keeps, bind-Keeps_if, if_Keeps}
use aieos.Domain.{Services, new, now}
use aieos.Security.{ScopeAuthorizer}
use aieos.Workflow.Governance.{WorkflowAiBudgetEnvelope}
use aieos.Workflow.Instance.{WorkflowInstance, Engine}
use aieos.Workflow.Repository.{put_instance}
use aieos.Workflow.Payload.{Library}
use aieos.Workflow.Attempt.{
  begin_attempt, admit_step, create_governed, create_plain, create_attempt_command, requested,
  committed, binding_for, commit, budgeted_envelope, admitted_command, bound_command, plain_command,
  calls_model,
}
use aieos.Workflow.Command.{attempt_command}
use aieos.Workflow.Ended.{Stays, put-Keeps}

module _ (id : String) (ended : WorkflowInstance) (lib : Library) (sv : Services) where
  begin-Keeps :
      (i : WorkflowInstance) → i.workflow_id ≢ id → Keeps (Stays id ended) (begin_attempt lib sv i)
  unfolding begin_attempt new put_instance
  begin-Keeps i ne s h =
      let j : WorkflowInstance = record i { attempt_number = i.attempt_number + 1 } in
      let k : WorkflowInstance = record j {
        execution_ids = j.execution_ids ++ ("execution" <> ("_" <> sv.hex s.supply.drawn)) ∷ [];
      } in
      put-Keeps id ended k ne (put_instance j s) (put-Keeps id ended j ne s h)

  admit-Keeps :
      (e : WorkflowAiBudgetEnvelope) (i : WorkflowInstance) (command_id execution_id : String)
      → i.workflow_id ≢ id
      → Keeps (Stays id ended) (admit_step e i command_id execution_id)
  unfolding admit_step requested committed
  admit-Keeps e i command_id execution_id ne =
      bind-Keeps (Stays id ended) (modify (put_instance (requested i command_id execution_id)))
        (λ _.
          lift (binding_for e (requested i command_id execution_id) command_id execution_id)
          >>= commit (requested i command_id execution_id) command_id execution_id)
        (put-Keeps id ended (requested i command_id execution_id) ne)
        (λ _.
          bind-Keeps (Stays id ended)
            (lift (binding_for e (requested i command_id execution_id) command_id execution_id))
            (commit (requested i command_id execution_id) command_id execution_id) (λ s h. h)
            (λ b.
              put-Keeps id ended
                (committed (requested i command_id execution_id) command_id execution_id b) ne))

  command-Keeps :
      (i : WorkflowInstance) (cause command_id execution_id : String) (b : Option Fields)
      → Keeps (Stays id ended) (attempt_command lib sv i cause command_id execution_id b)
  unfolding attempt_command now
  command-Keeps i cause command_id execution_id b s h = h

  admitted-Keeps :
      (cause : String) (e : WorkflowAiBudgetEnvelope) (i : WorkflowInstance)
      (command_id execution_id : String)
      → i.workflow_id ≢ id
      → Keeps (Stays id ended) (admitted_command lib sv cause e (i, (command_id, execution_id)))
  admitted-Keeps cause e i command_id execution_id ne =
      bind-Keeps (Stays id ended) (admit_step e i command_id execution_id)
        (bound_command lib sv cause command_id execution_id)
        (admit-Keeps e i command_id execution_id ne)
        (λ (k, b). command-Keeps k cause command_id execution_id (some b))

  begin-workflow_id :
      (i : WorkflowInstance) (s : Engine) (x : WorkflowInstance × (String × String))
      → (begin_attempt lib sv i s).0 ≡ ok x
      → x.0.workflow_id ≡ i.workflow_id
  unfolding begin_attempt new
  begin-workflow_id i s x h = ground (arith, h)

  pub create-Keeps :
      (a : ScopeAuthorizer) (i : WorkflowInstance) (cause : String)
      → i.workflow_id ≢ id
      → Keeps (Stays id ended) (create_attempt_command lib sv a i cause)
  unfolding create_attempt_command create_governed create_plain
  create-Keeps a i cause ne =
      if_Keeps (Stays id ended) (calls_model i) (create_governed lib sv a i cause)
        (create_plain lib sv i cause)
        (λ _.
          bind-Keeps (Stays id ended) (lift (budgeted_envelope a i))
            (λ e. begin_attempt lib sv i >>= admitted_command lib sv cause e) (λ s h. h)
            (λ e.
              bind-Keeps_if (Stays id ended) (λ x. x.0.workflow_id ≡ i.workflow_id)
                (begin_attempt lib sv i) (admitted_command lib sv cause e) (begin-Keeps i ne)
                (begin-workflow_id i)
                (λ (j, (c, x)) same. admitted-Keeps cause e j c x (λ p. ne (sym same ∙ p)))))
        (λ _.
          bind-Keeps (Stays id ended) (begin_attempt lib sv i) (plain_command lib sv cause)
            (begin-Keeps i ne) (λ (j, (c, x)). command-Keeps j cause c x none))
