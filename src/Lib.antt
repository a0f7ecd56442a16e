-- ===== src/Lib.antt =====
-- AIEOS: the platform's contracts, its in-process transport, the store and router of the AI
-- Gateway, the Workflow Engine, the Manager and the records of the Skill Runtime.
--
-- The program is a set of packages that exchange commands, events and results. A component takes
-- a command from the dispatcher, checks it with the authorizer, changes its own state and records
-- events in an outbox, which a relay publishes to the subscribers of the event bus. Work for a
-- model goes through the AI Gateway, which admits a request once, lets one worker at a time
-- execute it under a lease, keeps each tenant and workspace within a budget and chooses a model.
--
-- Which file models which code:
--   Base           Python's dict, exceptions, JSON values and text tests, with their lemmas.
--   Contracts      packages/contracts/src/aieos/contracts: the envelopes; a `checked_` function is
--                  the `__post_init__` of its class.
--   Domain         packages/domain/src/aieos/domain/runtime.py: clock, identifiers, evidence.
--   Outcomes       packages/result_error_support/.../factory.py: OutcomeFactory.
--   Security       packages/security_support/.../authorization.py: ScopeAuthorizer.
--   Memory         packages/memory_service/.../service.py and
--                  adapters/memory_persistence/.../repository.py.
--   Registry       packages/skill_registry, packages/capability_registry and
--                  adapters/command_dispatch_in_process.
--   EventBus       adapters/event_bus_in_process/.../bus.py: the bus; EventBus/Outbox its store and
--                  relay.
--   Gateway        packages/ai_gateway/src/aieos/ai_gateway/gateway.py: Types (dataclasses), Store
--                  (admission, checkpoints), Execution (leases), Budget, Usage, Effects (provider
--                  effects, cache) of ReferenceGatewayStore; Routing (catalog, health, order) and
--                  Preflight (_preflight, _validate_workflow_admission) of ReferenceAIGateway.
--   Workflow       packages/workflow_engine/src/aieos/workflow_engine: Governance (scale6, amounts
--                  as text, the envelope, the bindings of governance.py); of engine.py: Instance
--                  and Repository, Payload (reading payloads), Command and Attempt
--                  (_create_attempt_command), System (the events of a workflow), Ending (_fail and
--                  the two rejections), Accounting and Complete (_reconcile_ai_admission,
--                  _complete), Live (objects held across an await), Consume (consume), Start and
--                  Handle (_start, _resume_start, handle) and Cancel (_reject, _cancel).
--   Manager        packages/manager/src/aieos/manager/manager.py.
--   SkillRuntime   packages/skill_runtime/src/aieos/skill_runtime/runtime.py: the repository of
--                  attempts, and in Binding the check of an admission binding.
--   Tests          the theorems at concrete inputs.
--
-- State and errors. A method that changes state is an `Exec`: from the state to a result and the
-- state after it, also when it raises, as what was written before a raise stays written. An `async
-- with lock` block runs as one step, and interleavings are sequences of such steps (Reach,
-- BudgetReach). The store's objects are values here; what a worker passes to
-- `checkpoint` is its copy. As the store hands out the object itself, the owner and the generation of
-- that copy are up to date, which is a premise where a theorem needs it. The clock and the identifiers are functions of how many were drawn before.
--
-- The engine's methods act on the whole process (`System`), as the events that they record reach
-- consumers before they return. An instance or a receipt that a method holds across an `await` is
-- looked up again, under its identifier, where the method uses it after that.
--
-- Bounds. A number is turned into text with as much fuel as its value, which is more than its
-- digits; no other fuel is used: every loop is over a list. Instants, time spans and amounts are
-- natural numbers of a fixed unit; Python's integers have no bound. A float is its bits, and a
-- mapping is compared in its order, in which the program writes it.
--
-- Parameters: the digest of a request and of a route (SHA-256 over canonical JSON), the hexadecimal
-- text of an identifier, the clock, the consumers and handlers, which are other components, and
-- what the engine calls of Python's library: `json.loads` and `json.dumps`, `str` of a value that
-- is no text and `float` of an integer (`Library`).
--
-- Not modelled: the Gateway's execute and stream loops, context assembly and validation; the
-- records that the engine's `_observe` writes; the Skill Runtime's handling of an attempt;
-- PostgreSQL persistence and the providers' adapters, which are calls of services outside the
-- repository; the API application, observability, migrations and tooling.
pub mod Base
pub mod Contracts
pub mod Domain
pub mod Outcomes
pub mod Security
pub mod Memory
pub mod Registry
pub mod EventBus
pub mod Gateway
pub mod Workflow
pub mod Manager
pub mod SkillRuntime
pub mod Tests
