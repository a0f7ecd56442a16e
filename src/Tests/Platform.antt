-- ===== src/Tests/Platform.antt =====
-- Security, Memory, the registries, the dispatcher and the outcomes.
use aieos.Base.{
  ℕ, ◌+◌, String, Option, some, none, List, [], ◌∷◌, string_eq, pair_eq, ok, ◌≡◌, refl, ◌↔◌, Within,
  empty_mapping,
}
use aieos.Base.Dict.{get, put}
use aieos.Base.Dict.FromList.{add_all}
use aieos.Domain.{now, new}
use aieos.Contracts.Results.{failed, policy_violation, error, never_retry}
use aieos.Tests.Samples.{alice, services, supply, a_command, an_acknowledgement}
use aieos.Contracts.Common.{AuthorizationContext}
use aieos.Security.{ScopeAuthorizer, require, revoke}
use aieos.Security.Laws.{Granted, require_iff, require-revoke}
use aieos.Memory.{MemoryWrite, MemoryRecord, Memory, save, store, fetch}
use aieos.Memory.Laws.{fetch-store, fetch_in_scope}
use aieos.Registry.Skill as Skills
use aieos.Registry.Capability as Capabilities
use aieos.Registry.Dispatcher.{Handler, register, dispatch, dispatch-register}
use aieos.Outcomes.{Lineage, Fault, Extras, unsuccessful}
use aieos.Outcomes.Laws.{Reports, unsuccessful-Reports}

abbrev authorizer : ScopeAuthorizer
authorizer = record { active_policy_versions = none; revoked_policy_versions = [] }

require_iff_example :
    (require authorizer alice "ai.invoke" "tenant_a" "workspace_1" ≡ ok tt)
    ↔ Granted authorizer alice "ai.invoke" "tenant_a" "workspace_1"
require_iff_example = require_iff authorizer alice "ai.invoke" "tenant_a" "workspace_1"

-- under the next version of the policy
abbrev later_alice : AuthorizationContext
later_alice = record alice { policy_version_id = "policy-v2" }

require-revoke_example :
    require (revoke alice authorizer) later_alice "ai.invoke" "tenant_a" "workspace_1"
    ≡ require authorizer later_alice "ai.invoke" "tenant_a" "workspace_1"
require-revoke_example =
    require-revoke authorizer alice later_alice "ai.invoke" "tenant_a" "workspace_1"

abbrev a_write : MemoryWrite
a_write = record {
  content = "note";
  tenant_id = "tenant_a";
  workspace_id = "workspace_1";
  correlation_id = "correlation_1";
  provenance = "test";
  authorization = alice;
}

abbrev a_record : String → MemoryRecord
a_record id = record {
  memory_id = id;
  content = "note";
  tenant_id = "tenant_a";
  workspace_id = "workspace_1";
  correlation_id = "correlation_1";
  provenance = "test";
}

abbrev a_memory : Memory
a_memory = record { records = ("memory_1", a_record "memory_1") ∷ []; supply = supply }

fetch-store_example :
    let t = (store services authorizer a_write a_memory).1 in
    fetch services authorizer "memory_0f" "tenant_a" "workspace_1" alice t
    ≡ (ok (a_record "memory_0f"), t)
unfolding store require now new save get
fetch-store_example =
    fetch-store services authorizer a_write (a_record "memory_0f") alice a_memory refl refl

fetch_in_scope_example :
    (get "memory_1" a_memory.records ≡ some (a_record "memory_1"))
    × ((a_record "memory_1").tenant_id ≡ "tenant_a")
    × ((a_record "memory_1").workspace_id ≡ "workspace_1")
    × Granted authorizer alice "memory.read" "tenant_a" "workspace_1"
unfolding fetch require get
fetch_in_scope_example =
    fetch_in_scope services authorizer "memory_1" "tenant_a" "workspace_1" alice a_memory
      (a_record "memory_1") refl

abbrev a_skill : String → Skills.SkillDefinition
a_skill version = record {
  skill_id = "skill";
  skill_version_id = version;
  capability_id = "classify";
  capability_contract_version_id = "capability-v1";
  implementation_reference = "reference";
}

abbrev two_skills : List Skills.SkillDefinition
two_skills = a_skill "v1" ∷ a_skill "v2" ∷ []

abbrev skills : Skills.SkillRegistry
skills = record { definitions = ("v1", a_skill "v1") ∷ ("v2", a_skill "v2") ∷ [] }

skill-resolve_iff_example :
    (Skills.resolve skills "v2" ≡ ok (a_skill "v2"))
    ↔ (Within (a_skill "v2") two_skills × ((a_skill "v2").skill_version_id ≡ "v2"))
unfolding Skills.skill_registry add_all put
skill-resolve_iff_example = Skills.skill-resolve_iff two_skills skills refl "v2" (a_skill "v2")

abbrev an_implementation : Capabilities.CapabilityImplementation
an_implementation = record {
  capability_id = "classify";
  capability_contract_version_id = "capability-v1";
  implementation_reference = "reference";
  boundary = "ai";
  prompt_package_ref = none;
  prompt_package_version_ref = none;
  output_schema_ref = none;
}

abbrev capabilities : Capabilities.CapabilityRegistry
capabilities = record { implementations = (("classify", "capability-v1"), an_implementation) ∷ [] }

capability-resolve_iff_example :
    (Capabilities.resolve capabilities "classify" "capability-v1" ≡ ok an_implementation) ↔ (
      Within an_implementation (an_implementation ∷ [])
      × (◌≡◌ {A = String × String}
          (an_implementation.capability_id, an_implementation.capability_contract_version_id)
          ("classify", "capability-v1")))
unfolding Capabilities.capability_registry add_all put
capability-resolve_iff_example =
    Capabilities.capability-resolve_iff (an_implementation ∷ []) capabilities refl "classify"
      "capability-v1" an_implementation

abbrev acknowledges : Handler ℕ
acknowledges c n = (ok an_acknowledgement, n + 1)

dispatch-register_example :
    (dispatch (("Workflow Engine", acknowledges) ∷ []) a_command 0 ≡ (ok an_acknowledgement, 1))
    × (◌≡◌ {A = Option (Handler ℕ)} (get {K = String} "Workflow Engine" []) none)
unfolding register put get
dispatch-register_example =
    dispatch-register "Workflow Engine" acknowledges [] (("Workflow Engine", acknowledges) ∷ [])
      a_command 0 refl (refl, refl, refl)

abbrev a_lineage : Lineage
a_lineage = record {
  subject = "execution_1";
  producer = "AI Gateway";
  tenant_id = "tenant_a";
  workspace_id = "workspace_1";
  correlation_id = "correlation_1";
  causation_id = "command_1";
}

abbrev a_fault : Fault
a_fault = record {
  error_code = "AI_BUDGET_EXCEEDED";
  category = policy_violation;
  severity = error;
  retry = never_retry;
  message = "hard budget exceeded";
}

abbrev no_extras : Extras
no_extras = record {
  command_id = none;
  event_id = none;
  value_reference = none;
  metadata = empty_mapping;
  predecessor_result_id = none;
}

unsuccessful-Reports_example :
    Reports failed (unsuccessful services failed a_lineage a_fault no_extras supply).0
unsuccessful-Reports_example =
    unsuccessful-Reports services failed a_lineage a_fault no_extras supply refl refl
