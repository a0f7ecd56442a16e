-- ===== src/Workflow/Attempt/Receipt.antt =====
-- About `_create_attempt_command` (engine.py) and the receipt of the command that asked for it.
use aieos.Base.{String, Option, some, none, Fields}
use aieos.Base.Exec.{lift, modify, ◌>>=◌}
use aieos.Base.Exec.Keeps.{Keeps, bind-Keeps, if_Keeps}
use aieos.Contracts.Commands.{CommandEnvelope}
use aieos.Domain.{Services, new, now}
use aieos.Security.{ScopeAuthorizer}
use aieos.Workflow.Governance.{WorkflowAiBudgetEnvelope}
use aieos.Workflow.Instance.{WorkflowInstance}
use aieos.Workflow.Repository.{put_instance}
use aieos.Workflow.Payload.{Library}
use aieos.Workflow.Attempt.{
  begin_attempt, admit_step, create_governed, create_plain, create_attempt_command, requested,
  committed, binding_for, commit, budgeted_envelope, admitted_command, bound_command, plain_command,
  calls_model,
}
use aieos.Workflow.Command.{attempt_command}
use aieos.Workflow.Receipt.{Named, instance-Keeps}

module _ (c : CommandEnvelope) (lib : Library) (sv : Services) where
  begin-Keeps : (i : WorkflowInstance) → Keeps (Named c) (begin_attempt lib sv i)
  unfolding begin_attempt new put_instance
  begin-Keeps i s h = h

  admit-Keeps :
      (e : WorkflowAiBudgetEnvelope) (i : WorkflowInstance) (command_id execution_id : String)
      → Keeps (Named c) (admit_step e i command_id execution_id)
  unfolding admit_step requested committed
  admit-Keeps e i command_id execution_id =
      bind-Keeps (Named c) (modify (put_instance (requested i command_id execution_id)))
        (λ _.
          lift (binding_for e (requested i command_id execution_id) command_id execution_id)
          >>= commit (requested i command_id execution_id) command_id execution_id)
        (instance-Keeps c (requested i command_id execution_id))
        (λ _.
          bind-Keeps (Named c)
            (lift (binding_for e (requested i command_id execution_id) command_id execution_id))
            (commit (requested i command_id execution_id) command_id execution_id) (λ s h. h)
            (λ b.
              instance-Keeps c
                (committed (requested i command_id execution_id) command_id execution_id b)))

  command-Keeps :
      (i : WorkflowInstance) (cause command_id execution_id : String) (b : Option Fields)
      → Keeps (Named c) (attempt_command lib sv i cause command_id execution_id b)
  unfolding attempt_command now
  command-Keeps i cause command_id execution_id b s h = h

  pub create-Named :
      (a : ScopeAuthorizer) (i : WorkflowInstance) (cause : String)
      → Keeps (Named c) (create_attempt_command lib sv a i cause)
  unfolding create_attempt_command create_governed create_plain
  create-Named a i cause =
      if_Keeps (Named c) (calls_model i) (create_governed lib sv a i cause)
        (create_plain lib sv i cause)
        (λ _.
          bind-Keeps (Named c) (lift (budgeted_envelope a i))
            (λ e. begin_attempt lib sv i >>= admitted_command lib sv cause e) (λ s h. h)
            (λ e.
              bind-Keeps (Named c) (begin_attempt lib sv i) (admitted_command lib sv cause e)
                (begin-Keeps i)
                (λ (j, (k, x)).
                  bind-Keeps (Named c) (admit_step e j k x) (bound_command lib sv cause k x)
                    (admit-Keeps e j k x) (λ (l, b). command-Keeps l cause k x (some b)))))
        (λ _.
          bind-Keeps (Named c) (begin_attempt lib sv i) (plain_command lib sv cause) (begin-Keeps i)
            (λ (j, (k, x)). command-Keeps j cause k x none))
