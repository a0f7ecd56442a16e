-- ===== src/Workflow/Start/Ended.antt =====
-- About the start of a workflow (engine.py), its receipt, and another workflow that has ended.
use aieos.Base.{
  String, Option, some, none, string_eq, ◌≡◌, sym, arith, Option-cases, Result-cases, inl, inr,
}
use mathlib.Core.Path.{subst}
use aieos.Base.Dict.{get}
use aieos.Base.Exec.{◌>>=◌}
use aieos.Base.Exec.Keeps.{Keeps, bind-Keeps}
use aieos.Contracts.Commands.{CommandEnvelope, command_eq}
use aieos.Domain.{Services, new}
use aieos.Workflow.Governance.{WorkflowAiBudgetEnvelope}
use aieos.Workflow.Instance.{WorkflowDefinition, WorkflowInstance, WorkflowCommandReceipt, Engine}
use aieos.Workflow.Repository.{
  put_instance, put_receipt, add, begin_command, complete_command, receipt_for_command,
}
use aieos.Workflow.Cancel.{draw}
use aieos.Workflow.Payload.{Library, payload_float}
use aieos.Workflow.Live.{change_receipt}
use aieos.Workflow.Start.{new_instance, start_receipt, begin_start, acknowledge, begun, one_second}
use aieos.Workflow.Ended.{Stays, same-Stays, put-Keeps, draw-Keeps}

module _ (id : String) (ended : WorkflowInstance) where
  complete_command-instances :
      (command_id : String) (s : Engine) → (complete_command command_id s).1.instances ≡ s.instances
  unfolding complete_command
  complete_command-instances command_id s =
      ground (arith, Option-cases (receipt_for_command command_id s))

  pub complete_command-Keeps :
      (command_id : String) → Keeps (Stays id ended) (complete_command command_id)
  complete_command-Keeps command_id s h =
      same-Stays id ended s (complete_command command_id s).1
        (complete_command-instances command_id s) h

  add-contained :
      (i j : WorkflowInstance) (s : Engine)
      → get i.workflow_id s.instances ≡ some j
      → (add i s).1 ≡ s
  unfolding add
  add-contained i j s p = ground (arith, p)

  add-missing :
      (i : WorkflowInstance) (s : Engine)
      → get i.workflow_id s.instances ≡ none
      → (add i s).1 ≡ put_instance i s
  unfolding add
  add-missing i s p = ground (arith, p)

  pub add-Keeps : (i : WorkflowInstance) → Keeps (Stays id ended) (add i)
  add-Keeps i s h = elim (Option-cases (get i.workflow_id s.instances)) [
    | inr (j, p) ↦ subst (Stays id ended) (sym (add-contained i j s p)) h
    | inl p ↦
        let (keyed, (j, there, like)) = h in
        subst (Stays id ended) (sym (add-missing i s p))
          (put-Keeps id ended i (λ q. ground (arith, q, p, there)) s h)
  ]

  pub change_receipt-Keeps :
      (f : WorkflowCommandReceipt → WorkflowCommandReceipt) (command_id : String) (s : Engine)
      → Stays id ended s
      → Stays id ended (change_receipt f command_id s)
  unfolding change_receipt
  change_receipt-Keeps f command_id s h = elim (Option-cases (get command_id s.command_receipts)) [
    | inl p ↦ rw (p, change_receipt) h
    | inr (r, p) ↦ rw (p, change_receipt) h
  ]

  module _ (lib : Library) (sv : Services) where
    new_instance-instances :
        (c : CommandEnvelope) (d : WorkflowDefinition) (b : Option WorkflowAiBudgetEnvelope)
        (s : Engine)
        → (new_instance lib sv c d b s).1.instances ≡ s.instances
    unfolding new_instance new
    new_instance-instances c d b s =
        ground (arith, Result-cases (payload_float lib c.payload "timeout_seconds" one_second))

    pub begin-Keeps :
        (c : CommandEnvelope) (d : WorkflowDefinition) (b : Option WorkflowAiBudgetEnvelope)
        → Keeps (Stays id ended) (begin_start lib sv c d b)
    unfolding begin_start begin_command put_receipt
    begin-Keeps c d b =
        bind-Keeps (Stays id ended) (new_instance lib sv c d b) (start_receipt lib sv c)
          (λ s h.
            same-Stays id ended s (new_instance lib sv c d b s).1 (new_instance-instances c d b s)
              h)
          (λ i.
            bind-Keeps (Stays id ended) (add i)
              (λ _. draw (acknowledge lib sv c i) >>= begun lib sv c i) (add-Keeps i)
              (λ _.
                bind-Keeps (Stays id ended) (draw (acknowledge lib sv c i)) (begun lib sv c i)
                  (draw-Keeps id ended (acknowledge lib sv c i)) (λ x s h. h)))
