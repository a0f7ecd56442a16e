-- ===== src/Tests/Store.antt =====
-- The store of the AI Gateway.
use aieos.Base.{
  ◌<◌, ◌≢◌, String, true, false, some, none, [], ◌∷◌, ok, err, value_error, ◌≡◌, refl, arith,
  string_eq, string_beq_iff, ownership_lost,
}
use aieos.Base.Dict.{get, put}
use aieos.Tests.Samples.{a_request, an_acknowledgement, some_usage}
use aieos.Gateway.Types.{GatewayInvocation, AiInvocationRequest, CachedContent, ProviderResult}
use aieos.Gateway.Store.{
  ReferenceGatewayStore, checkpoint, new_store, accept, admission_key, put_invocation,
  new_invocation,
}
use aieos.Gateway.Store.Admission.{accept_again}
use aieos.Gateway.Execution.{
  claim_execution, checkpoint_terminal_intent, assert_execution_owner, claimed, held_by_another,
  owns,
}
use aieos.Gateway.Execution.Fencing.{Step, Reach, Claims, claim-Claims, Lost-for_ever}
use aieos.Gateway.Budget.{fence, reserve, release_expired, reservation_lifetime, total, of_tenant}
use aieos.Gateway.Budget.Limits.{WithinBudget}
use aieos.Gateway.Budget.Reachable.{BudgetReach, BudgetStep, reached-WithinBudget}
use aieos.Gateway.Budget.Revival.{overlapping, overlapping_overspends}
use aieos.Gateway.Usage.{meter, Events, cumulative_cost, add_event, record_usage, events_of}
use aieos.Gateway.Usage.Laws.{cumulative_cost-add_event, spent, record_usage_once}
use aieos.Gateway.Effects.{
  load_provider_effect, record_provider_effect, cached, cache_content, invalidate_cache,
}
use aieos.Gateway.Effects.Laws.{
  record_provider_effect_keeps, cached-invalidate, cached-cache_content,
}

abbrev empty_store : ReferenceGatewayStore
empty_store = new_store 100 none

-- two reservations and an expiry
abbrev budgeted : ReferenceGatewayStore
budgeted =
    (release_expired 400_000_000
      (reserve "ai_2" "tenant_a" "workspace_1" 50 2
        (reserve "ai_1" "tenant_a" "workspace_1" 60 1 empty_store).1).1).1

reached-WithinBudget_example : WithinBudget budgeted
reached-WithinBudget_example = reached-WithinBudget 100 none (
    BudgetReach.next
      (BudgetReach.next
        (BudgetReach.next BudgetReach.here
          (BudgetStep.reserving "ai_1" "tenant_a" "workspace_1" 60 1 empty_store))
        (BudgetStep.reserving "ai_2" "tenant_a" "workspace_1" 50 2
          (reserve "ai_1" "tenant_a" "workspace_1" 60 1 empty_store).1))
      (BudgetStep.expiring 400_000_000
        (reserve "ai_2" "tenant_a" "workspace_1" 50 2
          (reserve "ai_1" "tenant_a" "workspace_1" 60 1 empty_store).1).1))

distinct : ◌≢◌ {A = String} "ai_1" "ai_2"
distinct h = ground (arith, string_beq_iff "ai_1" "ai_2")

overlapping_overspends_example :
    let s =
      overlapping "ai_1" "ai_2" "tenant_a" "workspace_1" 60 50 0 reservation_lifetime 60 some_usage
        empty_store in
    s.tenant_limit < total (of_tenant "tenant_a") s.reservations
overlapping_overspends_example =
    overlapping_overspends "ai_1" "ai_2" "tenant_a" "workspace_1" 60 50 0 reservation_lifetime 60
      100 some_usage distinct (omega arith) (omega arith) (omega arith) (omega arith)

abbrev by_prompt : AiInvocationRequest → String
by_prompt r = r.prompt

accept_again_example :
    let t = (accept by_prompt a_request "ai_1" an_acknowledgement 1 empty_store).1 in
    accept by_prompt (record a_request { prompt = "another prompt" }) "ai_2" an_acknowledgement 2 t
    ≡ (err (value_error "IdempotencyKey payload conflict"), t)
unfolding accept new_store get admission_key
accept_again_example =
    accept_again by_prompt a_request (record a_request { prompt = "another prompt" }) "ai_1" "ai_2"
      an_acknowledgement an_acknowledgement 1 2
      (record { ai_invocation_id = "ai_1"; acknowledgement = an_acknowledgement; replay = false })
      empty_store refl refl

abbrev admitted : ReferenceGatewayStore
admitted = put_invocation "ai_1" (new_invocation a_request "ai_1" an_acknowledgement 1) empty_store

claim-Claims_example :
    Claims "ai_1" "worker_1" 10 1 admitted (claim_execution "ai_1" "worker_1" 10 5 admitted).1
unfolding claim_execution new_store put_invocation new_invocation get put
claim-Claims_example = claim-Claims "ai_1" "worker_1" 10 5 1 admitted refl

-- a worker that claimed at 10 for 5, and another one at 20
abbrev taken_over : ReferenceGatewayStore
taken_over =
    (claim_execution "ai_1" "worker_2" 20 5 (claim_execution "ai_1" "worker_1" 10 5 admitted).1).1

-- the object of the invocation as the second worker's claim left it
abbrev held : GatewayInvocation
held =
    claimed "worker_2" 20 5
      (claimed "worker_1" 10 5 (new_invocation a_request "ai_1" an_acknowledgement 1))

Lost-for_ever_example :
    let u = (checkpoint held taken_over).1 in
    assert_execution_owner "ai_1" "worker_1" 1 (checkpoint_terminal_intent held u).1 ≡ (
      err (ownership_lost "AI Gateway execution ownership was lost"),
      (checkpoint_terminal_intent held u).1,
    )
unfolding claim_execution new_store put_invocation new_invocation get put claimed held_by_another
    owns
Lost-for_ever_example =
    Lost-for_ever "ai_1" "worker_1" 1 {s = taken_over} (refl, omega arith)
      (Reach.next (Reach.next Reach.here (Step.save held held taken_over refl refl refl))
        (Step.save_intent held (checkpoint held taken_over).1))

abbrev one_event : Events
one_event = ("attempt_1", (some_usage, 7)) ∷ []

cumulative_cost-add_event_example :
    cumulative_cost (add_event "attempt_2" some_usage 5 "provider_final" one_event) ≡ 12
unfolding cumulative_cost get
cumulative_cost-add_event_example =
    cumulative_cost-add_event "attempt_2" some_usage 5 "provider_final" one_event

abbrev reserved : ReferenceGatewayStore
reserved = (reserve "ai_1" "tenant_a" "workspace_1" 60 1 empty_store).1

-- the reservation of an invocation that a worker has claimed
abbrev claimed_reserved : ReferenceGatewayStore
claimed_reserved =
    (claim_execution "ai_1" "worker_1" 10 5
      (put_invocation "ai_1" (new_invocation a_request "ai_1" an_acknowledgement 1) reserved)).1

record_usage_once_example :
    let t =
      (record_usage "ai_1" some_usage 7 "attempt_1" "provider_final" false
        (some "worker_1")
        (some 1)
        claimed_reserved).1 in
    (spent "ai_1" t
      ≡ some (
          cumulative_cost (
            add_event "attempt_1" some_usage 7 "provider_final"
              (events_of "ai_1" claimed_reserved))))
    × (spent "ai_1"
          (record_usage "ai_1" some_usage 9 "attempt_1" "provider_final" true
            (some "worker_2")
            (some 2)
            t).1
        ≡ spent "ai_1" t)
unfolding record_usage reserve new_store get put total claim_execution put_invocation new_invocation
    claimed assert_execution_owner owns fence meter held_by_another
record_usage_once_example =
    record_usage_once "ai_1" some_usage some_usage 7 9 "attempt_1" "provider_final" "provider_final"
      false true (some "worker_1") (some "worker_2") (some 1) (some 2) claimed_reserved refl

abbrev an_answer : String → ProviderResult
an_answer content = record { content = content; usage = none; confidence = 1 }

abbrev answered : ReferenceGatewayStore
answered = record empty_store { provider_effects = (("ai_1", "effect_1"), an_answer "yes") ∷ [] }

record_provider_effect_keeps_example :
    (load_provider_effect "ai_1" "effect_1"
      (record_provider_effect "ai_1" "effect_1" (an_answer "no") none none answered).1).0
    ≡ ok (some (an_answer "yes"))
unfolding get
record_provider_effect_keeps_example =
    record_provider_effect_keeps "ai_1" "effect_1" (an_answer "yes") (an_answer "no") none none
      answered refl

abbrev an_entry : CachedContent
an_entry = record {
  content = "yes";
  usage = some_usage;
  expires_at = 50;
  provenance = "provider";
  route = none;
}

abbrev caching : ReferenceGatewayStore
caching = (cache_content "tenant_a" "workspace_1" "key" an_entry empty_store).1

cached-cache_content_example :
    (cached "tenant_a" "workspace_1" "key" 10 caching).0 ≡ ok (some an_entry)
cached-cache_content_example =
    cached-cache_content "tenant_a" "workspace_1" "key" an_entry "tenant_a" "workspace_1" "key" 10
      empty_store

cached-invalidate_example :
    (cached "tenant_a" "workspace_2" "key" 10
      (invalidate_cache "tenant_a" "workspace_1" none caching).1).0
    ≡ (cached "tenant_a" "workspace_2" "key" 10 caching).0
cached-invalidate_example =
    cached-invalidate "tenant_a" "workspace_1" none "tenant_a" "workspace_2" "key" 10 caching
