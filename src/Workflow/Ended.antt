-- ===== src/Workflow/Ended.antt =====
-- About a workflow that has ended (engine.py), and what the engine's methods leave of it.
use aieos.Base.{
  String, Option, some, none, List, ◌∷◌, ◌==◌, string_eq, string_beq_iff, ◌≡◌, ◌≢◌, sym, ap, ◌∙◌,
  arith, inl, inr, Bool-cases, Option-cases,
}
use mathlib.Core.Path.{subst}
use aieos.Base.Dict.{get, put, get-put}
use aieos.Base.Exec.{Exec, pure, gets, modify, ◌>>=◌, ◌>>◌}
use aieos.Base.Exec.Keeps.{Keeps, bind-Keeps}
use aieos.Contracts.Commands.{CommandEnvelope}
use aieos.Contracts.Events.{EventEnvelope}
use aieos.Contracts.Results.{ResultEnvelope}
use aieos.Domain.{Services, Supply, new, now}
use aieos.EventBus.{Consumers}
use aieos.EventBus.Outbox.{record_event, drain}
use aieos.EventBus.Keeps.{Holds, TableKeeps, record-Keeps, drain-Keeps}
use aieos.Workflow.Instance.{WorkflowInstance, Engine}
use aieos.Workflow.Repository.{put_instance}
use aieos.Workflow.Cancel.{draw}
use aieos.Workflow.Cancel.Laws.{Keyed}
use aieos.Workflow.System.{
  Platform, System, engine_of, on_engine, workflow_event, named_event, event_for,
  publish_workflow_event,
}
use aieos.Workflow.Live.{change_instance, live, mark_processed, with_context, dispatch_in_context}

module _ (id : String) (ended : WorkflowInstance) where
  -- the ended workflow, with whatever list of processed events
  abbrev pub IsAs : WorkflowInstance → Type 0
  IsAs j = j ≡ record ended { processed_event_ids = j.processed_event_ids }

  -- Each workflow is kept under its own identifier, and the ended one is there.
  abbrev pub Stays : Engine → Type 0
  Stays s = Keyed s × ((j : WorkflowInstance) × (get id s.instances ≡ some j) × IsAs j)

  -- a write to another workflow, or of processed events to the ended one
  put-Stays :
      (k : WorkflowInstance) (s : Engine)
      → (k.workflow_id ≡ id → IsAs k)
      → Stays s
      → Stays (put_instance k s)
  unfolding put_instance
  put-Stays k s f (keyed, (j, g, e)) = (
    λ l i p.
        ground
          (arith, get-put k.workflow_id l k s.instances, string_beq_iff k.workflow_id l, keyed l i),
    elim (Bool-cases (k.workflow_id == id)) [
      | inl p ↦ (
        k,
        ground (arith, p, get-put k.workflow_id id k s.instances),
        f ((string_beq_iff k.workflow_id id).0 p),
      )
      | inr p ↦ (j, ground (arith, p, g, get-put k.workflow_id id k s.instances), e)
    ],
  )

  pub put-Keeps :
      (k : WorkflowInstance) → k.workflow_id ≢ id → Keeps Stays (modify (put_instance k))
  put-Keeps k ne s h = put-Stays k s (λ p. absurd (ne p)) h

  -- what does not touch the instances
  pub same-Stays : (s t : Engine) → t.instances ≡ s.instances → Stays s → Stays t
  same-Stays s t p (keyed, (j, g, e)) = (
    λ k i q. keyed k i (subst (λ d. get k d ≡ some i) p q),
    (j, subst (λ d. get id d ≡ some j) (sym p) g, e),
  )

  pub draw-Keeps : {A : Type 0} (m : Exec Supply A) → Keeps Stays (draw m)
  draw-Keeps m s h = h

  pub change-Keeps :
      (f : WorkflowInstance → WorkflowInstance) (w : String)
      → w ≢ id
      → ((i : WorkflowInstance) → (f i).workflow_id ≡ i.workflow_id)
      → Keeps Stays (modify (change_instance f w))
  unfolding change_instance
  change-Keeps f w ne k s h = elim (Option-cases (get w s.instances)) [
    | inl p ↦ rw (p, change_instance) h
    | inr (i, p) ↦
        rw (p, change_instance)
          (put-Stays (f i) s (λ q. absurd (ne (sym (h.0 w i p) ∙ sym (k i) ∙ q))) h)
  ]

  processed_IsAs :
      (ids : List String) (j : WorkflowInstance)
      → IsAs j
      → IsAs (record j { processed_event_ids = ids })
  processed_IsAs ids j e = ap (λ (z : WorkflowInstance). record z { processed_event_ids = ids }) e

  pub mark-Keeps : (w event_id : String) → Keeps Stays (modify (mark_processed w event_id))
  unfolding mark_processed change_instance
  mark-Keeps w event_id s h = elim (Option-cases (get w s.instances)) [
    | inl p ↦ rw (p, change_instance) h
    | inr (i, p) ↦
        let (keyed, (j, g, e)) = h in
        rw (p, change_instance)
          (put-Stays (record i { processed_event_ids = event_id ∷ i.processed_event_ids }) s
            (λ q.
              let there : get id s.instances ≡ some i = rw (sym (sym (keyed w i p) ∙ q)) p in
              let same : j ≡ i = ground (arith, there, g) in processed_IsAs _ i (rw same at e))
            h)
  ]

  live-workflow_id :
      (i : WorkflowInstance) (s : Engine) → Stays s → (live i s).workflow_id ≡ i.workflow_id
  unfolding live
  live-workflow_id i s h = elim (Option-cases (get i.workflow_id s.instances)) [
    | inl p ↦ ground (arith, p)
    | inr (j, p) ↦ rw (p, live) (h.0 i.workflow_id j p)
  ]

  module _ {W : Type 0} where
    -- The ended workflow stays so in the whole process.
    abbrev pub Kept : Platform W → Type 0
    Kept p = Stays p.engine

    abbrev pub KeepsEnded : {A : Type 0} → Exec (System W) A → Type 0
    KeepsEnded = Keeps (Holds Kept)

    pub engine-Keeps : {A : Type 0} (m : Exec Engine A) → Keeps Stays m → KeepsEnded (on_engine m)
    unfolding on_engine
    engine-Keeps m k s h = k (engine_of s) h

    pub mark-KeepsEnded :
        (w event_id : String) → KeepsEnded (on_engine (modify (mark_processed w event_id)))
    mark-KeepsEnded w event_id =
        engine-Keeps (modify (mark_processed w event_id)) (mark-Keeps w event_id)

    -- the rest of a method that reads its instance again
    pub live-Keeps :
        {A : Type 0} (i : WorkflowInstance) (f : WorkflowInstance → Exec (System W) A)
        → ((j : WorkflowInstance) → j.workflow_id ≡ i.workflow_id → KeepsEnded (f j))
        → KeepsEnded (on_engine (gets (live i)) >>= f)
    unfolding on_engine
    live-Keeps i f k s h = k (live i (engine_of s)) (live-workflow_id i (engine_of s) h) s h

    pub dispatch-Keeps :
        (dispatch : CommandEnvelope → Exec (System W) ResultEnvelope)
        → ((c : CommandEnvelope) → KeepsEnded (dispatch c))
        → (c : CommandEnvelope) → KeepsEnded (dispatch_in_context dispatch c)
    unfolding dispatch_in_context
    dispatch-Keeps dispatch k c s h = k c (with_context dispatch (some c) s) h

  module _ (sv : Services) where
    event-Keeps :
        (i : WorkflowInstance) (event_type cause : String)
        → i.workflow_id ≢ id
        → Keeps Stays (event_for sv i event_type cause)
    unfolding event_for new now
    event-Keeps i event_type cause ne = named (get event_type i.workflow_events)
      where
        named : (o : Option EventEnvelope) → Keeps Stays (named_event sv i event_type cause o)
        named (some e) = λ s h. h
        named none =
            bind-Keeps Stays (workflow_event sv i event_type cause)
              (λ e. do
                modify (
                    put_instance
                      (record i { workflow_events = put event_type e i.workflow_events }))
                pure e)
              (λ s h. h)
              (λ e.
                put-Keeps (record i { workflow_events = put event_type e i.workflow_events }) ne)

    module _ {W : Type 0} (t : Consumers (Platform W)) (k : TableKeeps Kept t) where
      pub publish-KeepsEnded :
          (i : WorkflowInstance) (event_type cause : String)
          → i.workflow_id ≢ id
          → KeepsEnded (publish_workflow_event sv t i event_type cause)
      unfolding publish_workflow_event
      publish-KeepsEnded i event_type cause ne =
          bind-Keeps (Holds Kept) (on_engine (event_for sv i event_type cause))
            (λ e. do record_event e; drain t; pure tt)
            (engine-Keeps (event_for sv i event_type cause) (event-Keeps i event_type cause ne))
            (λ e.
              bind-Keeps (Holds Kept) (record_event e) (λ _. do drain t; pure tt)
                (record-Keeps Kept e)
                (λ _.
                  bind-Keeps (Holds Kept) (drain t) (λ _. pure tt) (drain-Keeps Kept t k)
                    (λ _ s h. h)))
