-- ===== src/Workflow/Start/Receipt.antt =====
-- About the start of a workflow (engine.py) and the receipt that it stores.
use aieos.Base.{Option, none, string_eq, ◌≡◌, arith, Option-cases, Result-cases}
use aieos.Base.Dict.{get, get-put_self}
use aieos.Base.Exec.{◌>>=◌}
use aieos.Base.Exec.Keeps.{Keeps, bind-Keeps}
use aieos.Contracts.Commands.{CommandEnvelope}
use aieos.Contracts.Results.{ResultEnvelope}
use aieos.Domain.{Services, new}
use aieos.Workflow.Governance.{WorkflowAiBudgetEnvelope}
use aieos.Workflow.Instance.{WorkflowDefinition, WorkflowInstance, Engine}
use aieos.Workflow.Repository.{put_instance, put_receipt, add, begin_command, new_receipt}
use aieos.Workflow.Cancel.{draw}
use aieos.Workflow.Payload.{Library, payload_float}
use aieos.Workflow.Start.{new_instance, start_receipt, begin_start, acknowledge, begun, one_second}
use aieos.Workflow.Receipt.{Named, same-Named, draw-Named}

module _ (c : CommandEnvelope) (lib : Library) (sv : Services) where
  new_instance-receipts :
      (d : WorkflowDefinition) (b : Option WorkflowAiBudgetEnvelope) (s : Engine)
      → (new_instance lib sv c d b s).1.command_receipts ≡ s.command_receipts
  unfolding new_instance new
  new_instance-receipts d b s =
      ground (arith, Result-cases (payload_float lib c.payload "timeout_seconds" one_second))

  add-receipts :
      (i : WorkflowInstance) (s : Engine) → (add i s).1.command_receipts ≡ s.command_receipts
  unfolding add put_instance
  add-receipts i s = ground (arith, Option-cases (get i.workflow_id s.instances))

  begun-Named : (i : WorkflowInstance) (r : ResultEnvelope) → Keeps (Named c) (begun lib sv c i r)
  unfolding begin_command put_receipt
  begun-Named i r s h =
      ground
        (arith, get-put_self c.command_id (new_receipt c r i.workflow_id none) s.command_receipts)

  -- The start stores a receipt of its own command.
  pub start-Named :
      (d : WorkflowDefinition) (b : Option WorkflowAiBudgetEnvelope)
      → Keeps (Named c) (begin_start lib sv c d b)
  unfolding begin_start
  start-Named d b =
      bind-Keeps (Named c) (new_instance lib sv c d b) (start_receipt lib sv c)
        (λ s h. same-Named c s (new_instance lib sv c d b s).1 (new_instance-receipts d b s) h)
        (λ i.
          bind-Keeps (Named c) (add i) (λ _. draw (acknowledge lib sv c i) >>= begun lib sv c i)
            (λ s h. same-Named c s (add i s).1 (add-receipts i s) h)
            (λ _.
              bind-Keeps (Named c) (draw (acknowledge lib sv c i)) (begun lib sv c i)
                (draw-Named c (acknowledge lib sv c i)) (begun-Named i)))
