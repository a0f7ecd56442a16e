-- ===== src/Workflow/Governance/Text.antt =====
-- About `is_text`, the test that a value of a mapping is a given string (governance.py).
use aieos.Base.{String, true, Option, some, none, string_beq_iff, ◌≡◌, arith, Value, str}
use aieos.Workflow.Governance.{is_text}

pub is_text_lem : (s : String) (o : Option Value) → is_text s o ≡ true → o ≡ some (str s)
unfolding is_text
is_text_lem s none h = cc
is_text_lem s (some (str x)) h = ground (arith, string_beq_iff s x, string_beq_iff x s)
is_text_lem s (some _) h = cc
