-- ===== src/Gateway/Usage.antt =====
-- Metered usage in ReferenceGatewayStore: record_usage and record_attempt.
pub mod Laws
use aieos.Base.{
  ℕ, ◌+◌, ◌-◌, String, Bool, true, false, not, ◌&&◌, ◌||◌, Option, some, none, List, [], ◌∷◌, ◌++◌,
  ◌==◌, string_eq, Result, ok, err, key_error, leb, ltb, map, if◌then◌else◌,
}
use aieos.Base.Dict.{Dict, get, put, set_default, values}
use aieos.Base.Exec.{Exec, pure, modify, ◌>>=◌, ◌>>◌}
use aieos.Gateway.Types.{GatewayReservation, AiUsage, ReservationState, committed, usage_pending}
use aieos.Gateway.Store.{ReferenceGatewayStore, Attempt, no_usage}
use aieos.Gateway.Budget.{put_reservation, fence}

abbrev pub Events : Type 0
Events = Dict String (AiUsage × ℕ)

abbrev pub or_no_events : Option Events → Events
or_no_events none = []
or_no_events (some d) = d

-- sum((item[1] for item in events.values()), Decimal("0"))
unfoldable pub cumulative_cost : Events → ℕ
cumulative_cost [] = 0
cumulative_cost ((k, (u, c)) ∷ d) = c + cumulative_cost d

-- (not a.estimated, a.input_tokens + a.output_tokens) < (the same of b)
weaker : AiUsage → AiUsage → Bool
weaker a b =
    if a.estimated
    then not b.estimated
      || ltb (a.input_tokens + a.output_tokens) (b.input_tokens + b.output_tokens)
    else not b.estimated
      && ltb (a.input_tokens + a.output_tokens) (b.input_tokens + b.output_tokens)

-- `max` by that key: the first of the greatest
strongest_from : AiUsage → Events → AiUsage
unfolding weaker
strongest_from best [] = best
strongest_from best ((k, (u, c)) ∷ d) = strongest_from (if weaker best u then u else best) d

-- The events are never empty here.
strongest : Events → AiUsage
unfolding strongest_from
strongest [] = no_usage
strongest ((k, (u, c)) ∷ d) = strongest_from u d

-- the cost of an event: of a partial one, what it adds to the events before
unfoldable pub event_cost : String → ℕ → Events → ℕ
event_cost kind cost events =
    if kind == "provider_partial" then cost - cumulative_cost events else cost

abbrev pub events_of : String → ReferenceGatewayStore → Events
events_of id s = or_no_events (get id s.usage_events)

unfoldable pub add_event : String → AiUsage → ℕ → String → Events → Events
add_event key usage cost kind events = set_default key (usage, event_cost kind cost events) events

abbrev pub metered : ℕ → Bool → GatewayReservation → GatewayReservation
metered actual final r = record r {
  state = if final then committed else usage_pending;
  actual = some actual;
}

meter_found :
    String → Events → Bool → Option GatewayReservation → Exec ReferenceGatewayStore (Unit {0})
unfolding strongest cumulative_cost put_reservation
meter_found id events final none s = (err key_error, s)
meter_found id events final (some r) s = (
  ok tt,
  record (put_reservation id (metered (cumulative_cost events) final r) s) {
    usage = put id (strongest events) s.usage;
  },
)

unfoldable pub meter :
    String → AiUsage → ℕ → String → String → Bool → Exec ReferenceGatewayStore (Unit {0})
unfolding meter_found
meter id usage cost key kind final s =
    let events = add_event key usage cost kind (events_of id s) in
    meter_found id events final (get id s.reservations)
      (record s { usage_events = put id events s.usage_events })

unfoldable pub record_usage :
    String
    → AiUsage
    → ℕ
    → String
    → String
    → Bool
    → Option String
    → Option ℕ
    → Exec ReferenceGatewayStore (Unit {0})
unfolding meter fence
record_usage id usage cost key kind final owner generation = do
  fence id owner generation
  meter id usage cost key kind final

or_no_attempts : Option (List Attempt) → List Attempt
or_no_attempts none = []
or_no_attempts (some xs) = xs

unfoldable pub record_attempt : String → Attempt → Exec ReferenceGatewayStore (Unit {0})
unfolding or_no_attempts
record_attempt id a =
    modify (λ s. record s {
      attempts = put id (or_no_attempts (get id s.attempts) ++ a ∷ []) s.attempts;
    })
