-- ===== src/Workflow/Accounting.antt =====
-- engine.py: what `_reconcile_ai_admission` computes
use aieos.Base.{
  ℕ, ◌+◌, String, Bool, true, false, not, ◌||◌, Option, some, none, List, [], ◌∷◌, ◌==◌, string_eq,
  Result, ok, err, value_error, ◌>>=◌, if◌then◌else◌, Value, Fields, bool, int, str, mapping, end,
  field, pos, Eq, eq_of_discrete, Value-discrete,
}
use aieos.Base.Dict.{get, put}
use aieos.Workflow.Governance.{lookup, is_text, is_number, scale6}
use aieos.Workflow.Instance.{WorkflowInstance}
use aieos.Workflow.Payload.{put_field, or_null}

-- `if not isinstance(...): raise ValueError(code)`
abbrev pub or_error {ℓ} : {A : Type ℓ} → String → Option A → Result A
or_error code none = err (value_error code)
or_error code (some a) = ok a

abbrev missing : String
missing = "WORKFLOW_AI_GATEWAY_EVIDENCE_MISSING"

abbrev state_invalid : String
state_invalid = "WORKFLOW_AI_ADMISSION_STATE_INVALID"

instance abbrev value_eq : Eq Value
value_eq = eq_of_discrete Value-discrete

-- a Boolean as the integer that it equals
as_number : Value → Value
as_number (bool true) = int (pos 1)
as_number (bool false) = int (pos 0)
as_number v = v

-- `!=` of two looked-up identities: a missing one is None. Floats compare by their bits.
unfoldable pub differ : Option Value → Option Value → Bool
unfolding as_number
differ a b = not (as_number (or_null a) == as_number (or_null b))

-- isinstance(value, Mapping)
abbrev pub as_mapping : Option Value → Option Fields
as_mapping (some (mapping fs)) = some fs
as_mapping _ = none

abbrev pub as_string : Option Value → Option String
as_string (some (str s)) = some s
as_string _ = none

-- what the lineage and the admission's record say of the settlement
pub record Settlement : Type 0 where
  pub command_id : String
  pub recorded : Fields
  pub gateway : Fields
  pub actual : String

-- the gateway's evidence does not fit the instance and the lineage
mismatched : WorkflowInstance → Fields → Fields → Bool
unfolding differ
mismatched i lineage gateway =
    not (is_number 1 (lookup "evidence_version" gateway))
    || not (is_text "settled" (lookup "status" gateway))
    || not (is_text i.tenant_id (lookup "tenant_id" gateway))
    || not (is_text i.workspace_id (lookup "workspace_id" gateway))
    || differ (lookup "ai_invocation_id" gateway) (lookup "ai_invocation_id" lineage)
    || differ (lookup "settled_result_id" gateway) (lookup "gateway_result_id" lineage)
    || not (is_text "USD" (lookup "currency_or_reference_unit" gateway))

-- the checks before anything is written
unfoldable pub settlement_of : WorkflowInstance → Fields → Result Settlement
unfolding mismatched
settlement_of i lineage = do
  command_id ← or_error missing (as_string (lookup "command_id" lineage))
  recorded ← or_error missing (get command_id i.ai_admission_states)
  _ ← or_error missing (as_mapping (lookup "Binding" recorded))
  accounting ← or_error missing (as_mapping (lookup "accounting_evidence" lineage))
  gateway ← or_error missing (as_mapping (lookup "gateway_evidence" accounting))
  actual ←
      (if mismatched i lineage gateway
        then err (value_error "WORKFLOW_AI_GATEWAY_EVIDENCE_MISMATCH")
        else or_error "WORKFLOW_AI_GATEWAY_EVIDENCE_MISMATCH"
            (as_string (lookup "actual_cost" gateway)))
  _ ← scale6 actual
  ok (record { command_id = command_id; recorded = recorded; gateway = gateway; actual = actual })

-- the record of the admission, through GatewayAccepted, Settling and Reconciled
unfoldable pub reconciled_record : Fields → Settlement → Fields
reconciled_record lineage x =
    let accepted = put_field "Disposition" (str "gateway_acceptance_correlated") (
      put_field "GatewayEvidence" (mapping x.gateway) (
        put_field "AIInvocationId" (or_null (lookup "ai_invocation_id" lineage))
          (put_field "State" (str "GatewayAccepted") x.recorded))) in
    let settling =
      put_field "Disposition" (str "gateway_terminal_accounting_validating")
        (put_field "State" (str "Settling") accepted) in
    put_field "Disposition" (str "gateway_authoritative_actual_settled") (
      put_field "SettledActual"
        (mapping (field "Amount" (str x.actual) (field "CurrencyOrReferenceUnit" (str "USD") end)))
        (put_field "State" (str "Reconciled") settling))

unfoldable pub reconciled : WorkflowInstance → Fields → Settlement → WorkflowInstance
reconciled i lineage x = record i {
  ai_admission_states = put x.command_id (reconciled_record lineage x) i.ai_admission_states;
}

-- the amount of a money mapping
money : String → Option Value → Result ℕ
money code v = do
  fs ← or_error code (as_mapping v)
  amount ← or_error code (as_string (lookup "Amount" fs))
  scale6 amount

is_committed : Option Value → Bool
is_committed state =
    is_text "Committed" state || is_text "GatewayAccepted" state || is_text "Settling" state

-- what one record adds to the settled and to the committed total
unfoldable pub share : Fields → Result (ℕ × ℕ)
unfolding money is_committed
share fs =
    if is_text "Reconciled" (lookup "State" fs)
    then (money missing (lookup "SettledActual" fs) >>= λ n. ok (n, 0))
    else if is_committed (lookup "State" fs)
    then (money state_invalid (lookup "CommittedExposure" fs) >>= λ n. ok (0, n))
    else ok (0, 0)

-- the loop over the records
unfoldable pub totals : List Fields → Result (ℕ × ℕ)
totals [] = ok (0, 0)
totals (fs ∷ rest) = share fs >>= λ (a, b). totals rest >>= λ (m, n). ok (a + m, b + n)
