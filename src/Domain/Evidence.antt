-- ===== src/Domain/Evidence.antt =====
-- DecisionEvidence and InMemoryDecisionEvidenceRepository of runtime.py
use aieos.Base.{
  String, Bool, false, not, Option, some, none, ◌==◌, string_eq, String-discrete, ok, err,
  value_error, Timestamp, Timestamp-discrete, Eq, eq_of_discrete, if◌then◌else◌,
}
use aieos.Base.Dict.{Dict, get, put}
use aieos.Base.Exec.{Exec}

pub record DecisionEvidence : Type 0 where
  pub decision_id : String
  pub decision_type : String
  pub component : String
  pub tenant_id : String
  pub workspace_id : String
  pub correlation_id : String
  pub recorded_at : Timestamp
  pub triggering_id : Option String

pub DecisionEvidence-discrete : Discrete DecisionEvidence
DecisionEvidence-discrete = hlevel (String-discrete, Timestamp-discrete)

instance abbrev pub evidence_eq : Eq DecisionEvidence
evidence_eq = eq_of_discrete DecisionEvidence-discrete

abbrev differs : Option DecisionEvidence → DecisionEvidence → Bool
differs none e = false
differs (some old) e = not (old == e)

unfoldable pub record_decision : DecisionEvidence → Exec (Dict String DecisionEvidence) (Unit {0})
record_decision e d =
    if differs (get e.decision_id d) e
    then (err (value_error "DecisionId cannot be reused with changed evidence"), d)
    else (ok tt, put e.decision_id e d)
