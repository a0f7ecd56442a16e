-- ===== src/Workflow/Receipt.antt =====
-- About the receipt of a command (engine.py) under what `handle` does after it is stored.
use aieos.Base.{
  String, Option, some, none, string_eq, string_beq_iff, ◌≡◌, sym, arith, Option-cases, inl, inr,
}
use mathlib.Core.Path.{subst}
use aieos.Base.Dict.{get, put, get-put}
use aieos.Base.Exec.{Exec, modify, pure, ◌>>◌}
use aieos.Base.Exec.Keeps.{Keeps, bind-Keeps}
use aieos.Contracts.Commands.{CommandEnvelope}
use aieos.Contracts.Events.{EventEnvelope}
use aieos.Contracts.Results.{ResultEnvelope}
use aieos.Domain.{Services, Supply, new, now}
use aieos.EventBus.{Consumers}
use aieos.EventBus.Outbox.{record_event, drain}
use aieos.EventBus.Keeps.{Holds, TableKeeps, record-Keeps, drain-Keeps}
use aieos.Workflow.Instance.{WorkflowInstance, WorkflowCommandReceipt, Engine}
use aieos.Workflow.Repository.{put_instance}
use aieos.Workflow.Cancel.{draw}
use aieos.Workflow.Live.{change_instance, change_receipt, with_context, dispatch_in_context}
use aieos.Workflow.System.{
  Platform, System, engine_of, on_engine, workflow_event, named_event, event_for,
  publish_workflow_event,
}

module _ (c : CommandEnvelope) where
  abbrev pub IsOf : Option WorkflowCommandReceipt → Type 0
  IsOf none = Unit
  IsOf (some rc) = rc.command ≡ c

  -- What is stored under the command's identifier is a receipt of that very command.
  abbrev pub Named : Engine → Type 0
  Named s = IsOf (get c.command_id s.command_receipts)

  pub same-Named : (s t : Engine) → t.command_receipts ≡ s.command_receipts → Named s → Named t
  same-Named s t p h = subst (λ d. IsOf (get c.command_id d)) (sym p) h

  pub instance-Keeps : (i : WorkflowInstance) → Keeps Named (modify (put_instance i))
  unfolding put_instance
  instance-Keeps i s h = h

  pub change_instance-Keeps :
      (f : WorkflowInstance → WorkflowInstance) (w : String) (s : Engine)
      → Named s
      → Named (change_instance f w s)
  unfolding change_instance put_instance
  change_instance-Keeps f w s h = elim (Option-cases (get w s.instances)) [
    | inl p ↦ rw (p, change_instance) h
    | inr (i, p) ↦ rw (p, change_instance) h
  ]

  pub change_receipt-Named :
      (f : WorkflowCommandReceipt → WorkflowCommandReceipt) (id : String) (s : Engine)
      → ((rc : WorkflowCommandReceipt) → (f rc).command ≡ rc.command)
      → Named s
      → Named (change_receipt f id s)
  unfolding change_receipt
  change_receipt-Named f id s k h = elim (Option-cases (get id s.command_receipts)) [
    | inl p ↦ rw (p, change_receipt) h
    | inr (rc, p) ↦ ground (
      arith,
      p,
      h,
      k rc,
      get-put id c.command_id (f rc) s.command_receipts,
      string_beq_iff id c.command_id,
    )
  ]

  pub draw-Named : {A : Type 0} (m : Exec Supply A) → Keeps Named (draw m)
  draw-Named m s h = h

  module _ {W : Type 0} where
    -- the same in the whole process
    abbrev pub NamedIn : Platform W → Type 0
    NamedIn p = Named p.engine

    abbrev pub KeepsNamed : {A : Type 0} → Exec (System W) A → Type 0
    KeepsNamed = Keeps (Holds NamedIn)

    pub engine-Named : {A : Type 0} (m : Exec Engine A) → Keeps Named m → KeepsNamed (on_engine m)
    unfolding on_engine
    engine-Named m k s h = k (engine_of s) h

    pub dispatch-Named :
        (dispatch : CommandEnvelope → Exec (System W) ResultEnvelope)
        → ((d : CommandEnvelope) → KeepsNamed (dispatch d))
        → (d : CommandEnvelope) → KeepsNamed (dispatch_in_context dispatch d)
    unfolding dispatch_in_context
    dispatch-Named dispatch k d s h = k d (with_context dispatch (some d) s) h

  module _ (sv : Services) where
    event-Named :
        (i : WorkflowInstance) (event_type cause : String)
        → Keeps Named (event_for sv i event_type cause)
    unfolding event_for new now
    event-Named i event_type cause = named (get event_type i.workflow_events)
      where
        named : (o : Option EventEnvelope) → Keeps Named (named_event sv i event_type cause o)
        named (some e) = λ s h. h
        named none =
            bind-Keeps Named (workflow_event sv i event_type cause)
              (λ e. do
                modify (
                    put_instance
                      (record i { workflow_events = put event_type e i.workflow_events }))
                pure e)
              (λ s h. h)
              (λ e.
                instance-Keeps (record i { workflow_events = put event_type e i.workflow_events }))

    pub publish-Named :
        {W : Type 0} (t : Consumers (Platform W)) (k : TableKeeps NamedIn t) (i : WorkflowInstance)
        (event_type cause : String)
        → KeepsNamed (publish_workflow_event sv t i event_type cause)
    unfolding publish_workflow_event
    publish-Named t k i event_type cause =
        bind-Keeps (Holds NamedIn) (on_engine (event_for sv i event_type cause))
          (λ e. do record_event e; drain t; pure tt)
          (engine-Named (event_for sv i event_type cause) (event-Named i event_type cause))
          (λ e.
            bind-Keeps (Holds NamedIn) (record_event e) (λ _. do drain t; pure tt)
              (record-Keeps NamedIn e)
              (λ _.
                bind-Keeps (Holds NamedIn) (drain t) (λ _. pure tt) (drain-Keeps NamedIn t k)
                  (λ _ s h. h)))
