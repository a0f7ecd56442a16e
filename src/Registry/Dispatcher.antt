-- ===== src/Registry/Dispatcher.antt =====
-- adapters/command_dispatch_in_process/src/aieos/adapters/command_dispatch_in_process/dispatcher.py
-- A handler is a method of its component, over the state of the whole system.
use aieos.Base.{
  String, false, ◌||◌, Option, some, none, ◌==◌, string_eq, string_beq_iff, ok, err, value_error,
  duplicate_target, unknown_target, ◌≡◌, arith, if◌then◌else◌, Result, raise_if, ◌>>◌,
}
use aieos.Base.Dict.{Dict, get, put, contains, get-put}
use aieos.Base.Exec.{Exec}
use aieos.Contracts.Common.{is_empty}
use aieos.Contracts.Commands.{CommandEnvelope}
use aieos.Contracts.Results.{ResultEnvelope}

abbrev pub Handler : Type 0 → Type 0
Handler World = CommandEnvelope → Exec World ResultEnvelope

-- the identities that a command must carry
abbrev pub IsComplete : CommandEnvelope → Type 0
IsComplete c =
    (is_empty c.target_component ≡ false)
    × (is_empty c.command_id ≡ false)
    × (is_empty c.command_version ≡ false)

module _ {World : Type 0} where
  -- InProcessCommandDispatcher.register, over the table of handlers
  unfoldable pub register :
      String → Handler World → Dict String (Handler World) → Result (Dict String (Handler World))
  register target handler d = do
    raise_if (is_empty target) (value_error "target component must be non-empty")
    raise_if (contains target d) (duplicate_target target)
    ok (put target handler d)

  route : Option (Handler World) → CommandEnvelope → Exec World ResultEnvelope
  route none c w = (err (unknown_target c.target_component), w)
  route (some handler) c w = handler c w

  -- InProcessCommandDispatcher.dispatch
  unfoldable pub dispatch :
      Dict String (Handler World) → CommandEnvelope → Exec World ResultEnvelope
  unfolding route
  dispatch d c w =
      if is_empty c.target_component || is_empty c.command_id || is_empty c.command_version
      then (err (value_error "Command routing envelope is incomplete"), w)
      else route (get c.target_component d) c w

  -- After a registration the commands for the new target go to its handler, and all others are
  -- handled as before. A target is never registered twice.
  pub dispatch-register :
      (target : String) (handler : Handler World) (d d' : Dict String (Handler World))
      (c : CommandEnvelope) (w : World)
      → register target handler d ≡ ok d'
      → IsComplete c
      → (dispatch d' c w ≡ (if c.target_component == target then handler c w else dispatch d c w))
        × (get target d ≡ none)
  unfolding register dispatch
  dispatch-register target handler d d' c w h full = ground (
    arith,
    get-put target c.target_component handler d,
    string_beq_iff target c.target_component,
    string_beq_iff c.target_component target,
  )
