-- ===== src/Gateway/Store.antt =====
-- ReferenceGatewayStore of gateway.py: its state, and the admission of invocations. Each method
-- runs under the store's lock, so it is one step.
pub mod Admission
use aieos.Base.{
  ℕ, zero, suc, String, Bool, true, false, not, ◌&&◌, ◌||◌, Option, some, none, List, [], ◌∷◌, ◌==◌,
  string_eq, nat_eq, pair_eq, Result, ok, err, value_error, key_error, ownership_lost, is_some,
  if◌then◌else◌,
}
use aieos.Base.Dict.{Dict, get, put, set_default}
use aieos.Base.Exec.{Exec, pure, gets, modify, guard_not, or_raise, ◌>>=◌, ◌>>◌}
use aieos.Contracts.Results.{ResultEnvelope}
use aieos.Gateway.Types.{
  AiInvocationRequest, AiUsage, AiInvocationResponse, Acceptance, GatewayInvocation,
  GatewayReservation, CachedContent, ProviderResult, InvocationState, requested,
  optional_response_eq,
}

-- an entry of `attempts`
pub record Attempt : Type 0 where
  pub attempt_number : ℕ
  pub model_key : String
  pub state : String
  pub usage : Option AiUsage
  pub cost : ℕ

pub record ReferenceGatewayStore : Type 0 where
  pub invocations : Dict String GatewayInvocation
  pub admission : Dict ((String × String) × String) (String × String)
  pub reservations : Dict String GatewayReservation
  pub cache : Dict ((String × String) × String) CachedContent
  pub usage : Dict String AiUsage
  pub attempts : Dict String (List Attempt)
  pub usage_events : Dict String (Dict String (AiUsage × ℕ))
  pub provider_effects : Dict (String × String) ProviderResult
  pub provider_effect_reservations : List (String × String)
  pub terminal_events : Dict String Bool  -- asyncio.Event, by whether it is set
  pub tenant_limit : ℕ
  pub workspace_limit : ℕ

-- `workspace_limit or tenant_limit`: no limit and a zero limit give the tenant's
or_tenant : Option ℕ → ℕ → ℕ
or_tenant none t = t
or_tenant (some zero) t = t
or_tenant (some (suc n)) t = suc n

unfoldable pub new_store : ℕ → Option ℕ → ReferenceGatewayStore
unfolding or_tenant
new_store tenant_limit workspace_limit = record {
  invocations = [];
  admission = [];
  reservations = [];
  cache = [];
  usage = [];
  attempts = [];
  usage_events = [];
  provider_effects = [];
  provider_effect_reservations = [];
  terminal_events = [];
  tenant_limit = tenant_limit;
  workspace_limit = or_tenant workspace_limit tenant_limit;
}

abbrev pub no_usage : AiUsage
no_usage = record {
  input_tokens = 0;
  output_tokens = 0;
  cached_tokens = 0;
  reasoning_tokens = 0;
  estimated = false;
}

unfoldable pub new_invocation :
    AiInvocationRequest → String → ResultEnvelope → ℕ → GatewayInvocation
new_invocation request invocation_id acknowledgement now = record {
  request = request;
  invocation_id = invocation_id;
  acknowledgement = acknowledgement;
  state = requested;
  accepted_at = now;
  route = none;
  terminal = none;
  execution_owner = none;
  execution_lease_expires_at = none;
  claim_generation = 0;
  recovery_phase = "accepted";
  terminal_intent = none;
  stream_started = false;
  stream_sequence = 0;
  stream_content = [];
  stream_usage = none;
  provider_sequence = [];
  next_provider_attempt = 1;
  cumulative_usage = no_usage;
  cumulative_cost = 0;
  last_provider_failure_code = none;
  last_provider_failure_retryable = false;
  stream_terminal_emitted = false;
}

-- self.invocations[invocation_id]
unfoldable pub load : String → Exec ReferenceGatewayStore GatewayInvocation
load id s = or_raise key_error (get id s.invocations) s

unfoldable pub put_invocation :
    String → GatewayInvocation → ReferenceGatewayStore → ReferenceGatewayStore
put_invocation id v s = record s { invocations = put id v s.invocations }

unfoldable pub admission_key : AiInvocationRequest → (String × String) × String
admission_key r = ((r.tenant_id, r.workspace_id), r.idempotency_key)

-- SHA-256 of the canonical JSON of the request's fields
module _ (request_digest : AiInvocationRequest → String) where
  replay : String × String → String → Exec ReferenceGatewayStore Acceptance
  unfolding load
  replay (existing_id, existing_digest) digest = do
    guard_not (not (existing_digest == digest)) (value_error "IdempotencyKey payload conflict")
    existing ← load existing_id
    pure (record {
      ai_invocation_id = existing_id;
      acknowledgement = existing.acknowledgement;
      replay = true;
    })

  admit : AiInvocationRequest → String → ResultEnvelope → ℕ → Exec ReferenceGatewayStore Acceptance
  unfolding admission_key new_invocation put_invocation
  admit r id ack now = do
    modify (λ s. record (put_invocation id (new_invocation r id ack now) s) {
      admission = put (admission_key r) (id, request_digest r) s.admission;
      terminal_events = put id false s.terminal_events;
    })
    pure (record { ai_invocation_id = id; acknowledgement = ack; replay = false })

  unfoldable pub accept :
      AiInvocationRequest → String → ResultEnvelope → ℕ → Exec ReferenceGatewayStore Acceptance
  unfolding replay admit admission_key
  accept r id ack now s = elim (get (admission_key r) s.admission) [
    | some entry ↦ replay entry (request_digest r) s
    | none ↦ admit r id ack now s
  ]

-- the event of an invocation, set
set_terminal_event : String → ReferenceGatewayStore → ReferenceGatewayStore
set_terminal_event id s = record s { terminal_events = put id true s.terminal_events }

unfoldable pub checkpoint : GatewayInvocation → Exec ReferenceGatewayStore (Unit {0})
unfolding put_invocation set_terminal_event
checkpoint v s =
    let t = put_invocation v.invocation_id v s in
    (ok tt, if is_some v.terminal then set_terminal_event v.invocation_id t else t)
