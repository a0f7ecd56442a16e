-- ===== src/Gateway/Routing/Health.antt =====
-- `_health_state`, `_record_health_failure` and `_record_health_success`
pub mod Laws
use aieos.Base.{
  ℕ, ◌+◌, String, Bool, true, false, not, ◌||◌, Option, some, none, List, [], ◌∷◌, ◌==◌, string_eq,
  any, keep, ltb, if◌then◌else◌,
}
use aieos.Base.Dict.{Dict, get, put, without}

pub data HealthState : Type 0 where
  cooldown degraded healthy : HealthState

-- the cooldowns, the degraded models, and how many instants were read from the clock
pub record ModelHealth : Type 0 where
  pub cooldowns : Dict String ℕ
  pub degraded : List String
  pub ticks : ℕ

abbrev tick : ModelHealth → ModelHealth
tick h = record h { ticks = h.ticks + 1 }

-- self._cooldowns.pop(key, None)
abbrev pub drop_cooldown : String → ModelHealth → ModelHealth
drop_cooldown key h = record h { cooldowns = without (λ k. k == key) h.cooldowns }

abbrev pub is_degraded : String → ModelHealth → Bool
is_degraded key h = any (λ k. k == key) h.degraded

abbrev without_cooldown : String → ModelHealth → HealthState × ModelHealth
without_cooldown key h = (if is_degraded key h then degraded else healthy, h)

judged : String → ℕ → Option ℕ → ModelHealth → HealthState × ModelHealth
judged key now none h = without_cooldown key h
judged key now (some until) h =
    if ltb now until then (cooldown, h) else without_cooldown key (drop_cooldown key h)

-- the codes that put a model into a cooldown
abbrev pub is_transient : String → Bool
is_transient code =
    code == "AI_PROVIDER_RATE_LIMITED"
    || code == "AI_PROVIDER_QUOTA_EXHAUSTED"
    || code == "AI_PROVIDER_OVERLOADED"
    || code == "AI_PROVIDER_TRANSIENT_FAILURE"

module _ (clock : ℕ → ℕ) where
  unfoldable pub health_state : String → ModelHealth → HealthState × ModelHealth
  unfolding judged
  health_state key h = judged key (clock h.ticks) (get key h.cooldowns) (tick h)

  unfoldable pub record_health_failure : ℕ → String → String → ModelHealth → ModelHealth
  record_health_failure health_cooldown key code h =
      if is_transient code
      then record (tick h) {
        degraded = key ∷ h.degraded;
        cooldowns = put key (clock h.ticks + health_cooldown) h.cooldowns;
      }
      else h

unfoldable pub record_health_success : String → ModelHealth → ModelHealth
record_health_success key h = record (drop_cooldown key h) {
  degraded = keep (λ k. not (k == key)) h.degraded;
}
