-- ===== src/Domain.antt =====
-- packages/domain/src/aieos/domain/runtime.py: identifiers, the clock and decision evidence.
-- `uuid4` and the system clock are parameters: what the n-th call returns.
pub mod Evidence
use Prim.Native.String.{◌++◌ as ◌<>◌}
use aieos.Base.{ℕ, ◌+◌, String, true, ok, Timestamp}
use aieos.Base.Exec.{Exec}

pub record Services : Type 0 where
  pub hex : ℕ → String  -- uuid4().hex
  pub clock : ℕ → ℕ  -- datetime.now(UTC)

-- how many identifiers and instants have been drawn
pub record Supply : Type 0 where
  pub drawn : ℕ
  pub ticks : ℕ

module _ (sv : Services) where
  -- UuidIdentifierFactory.new
  unfoldable pub new : String → Exec Supply String
  new prefix s = (ok (prefix <> ("_" <> sv.hex s.drawn)), record s { drawn = s.drawn + 1 })

  -- SystemClock.now
  unfoldable pub now : Exec Supply Timestamp
  now s =
      (ok (record { instant = sv.clock s.ticks; aware = true }), record s { ticks = s.ticks + 1 })
