-- ===== src/Workflow/System.antt =====
-- engine.py: the engine among the other components. What it records reaches the subscribers of the
-- event bus, the engine itself among them, before the call returns.
use aieos.Base.{String, Option, some, none, str, field, end, string_eq, empty_mapping}
use aieos.Base.Dict.{get, put}
use aieos.Base.Exec.{Exec, pure, lift, modify, ◌>>=◌, ◌>>◌}
use aieos.Contracts.Events.{EventEnvelope, checked_event}
use aieos.Contracts.Results.{ResultEnvelope}
use aieos.Domain.{Services, new, now}
use aieos.EventBus.{Hub, Consumers}
use aieos.EventBus.Outbox.{record_event, drain}
use aieos.Workflow.Instance.{
  WorkflowState, created, running, completed, failed, cancelled, WorkflowInstance, Engine,
}
use aieos.Workflow.Repository.{put_instance}
use aieos.Workflow.Cancel.{draw}
use aieos.Workflow.Payload.{optional_text}

-- the engine's state and that of the other components
pub record Platform (W : Type 0) : Type 0 where
  pub engine : Engine
  pub rest : W

abbrev pub System : Type 0 → Type 0
System W = Hub (Platform W)

abbrev pub engine_of : {W : Type 0} → System W → Engine
engine_of s = s.world.engine

module _ {W : Type 0} where
  abbrev pub set_engine : Engine → System W → System W
  set_engine e s = record s { world = record s.world { engine = e } }

  -- a method that only touches the engine's state
  unfoldable pub on_engine : {A : Type 0} → Exec Engine A → Exec (System W) A
  on_engine m s = let (r, e) = m (engine_of s) in (r, set_engine e s)

abbrev pub state_text : WorkflowState → String
state_text created = "Created"
state_text running = "Running"
state_text completed = "Completed"
state_text failed = "Failed"
state_text cancelled = "Cancelled"

abbrev result_id_of : Option ResultEnvelope → Option String
result_id_of none = none
result_id_of (some r) = some r.result_id

module _ (sv : Services) where
  unfoldable pub workflow_event : WorkflowInstance → String → String → Exec Engine EventEnvelope
  workflow_event i event_type causation_id = do
    t ← draw (now sv)
    id ← draw (new sv "event")
    lift (
        checked_event (record {
          event_id = id;
          event_type = event_type;
          event_version = "1.0";
          occurred_at = t;
          recorded_at = t;
          producer = "Workflow Engine";
          correlation_id = i.correlation_id;
          subject = i.workflow_id;
          payload =
              field "state" (str (state_text i.state))
                (field "result_id" (optional_text (result_id_of i.outcome)) end);
          metadata = record {
            contract_version = "1.0";
            trace_id = none;
            span_id = none;
            attributes = empty_mapping;
          };
          causation_id = some causation_id;
          tenant_id = some i.tenant_id;
          workspace_id = some i.workspace_id;
          request_id = some i.request_id;
          workflow_id = some i.workflow_id;
          workflow_step_id = some i.workflow_step_id;
          execution_id = none;
          ai_invocation_id = none;
        }))

  -- the instance's event of that type, which is made once
  unfoldable pub named_event :
      WorkflowInstance → String → String → Option EventEnvelope → Exec Engine EventEnvelope
  unfolding workflow_event
  named_event i event_type causation_id (some e) = do draw (now sv); pure e
  named_event i event_type causation_id none = do
    e ← workflow_event i event_type causation_id
    modify (put_instance (record i { workflow_events = put event_type e i.workflow_events }))
    pure e

  unfoldable pub event_for : WorkflowInstance → String → String → Exec Engine EventEnvelope
  unfolding named_event
  event_for i event_type causation_id =
      named_event i event_type causation_id (get event_type i.workflow_events)

  module _ {W : Type 0} (t : Consumers (Platform W)) where
    -- _publish_workflow_event
    unfoldable pub publish_workflow_event :
        WorkflowInstance → String → String → Exec (System W) (Unit {0})
    publish_workflow_event i event_type causation_id = do
      e ← on_engine (event_for i event_type causation_id)
      record_event e
      drain t
      pure tt

    -- `_observe` reads the clock; the record itself goes to the observations
    unfoldable pub observe : Exec (System W) (Unit {0})
    observe = do on_engine (draw (now sv)); pure tt
