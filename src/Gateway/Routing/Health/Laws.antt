-- ===== src/Gateway/Routing/Health/Laws.antt =====
-- About the health of models in ReferenceAIGateway (gateway.py).
use aieos.Base.{
  ℕ, ◌+◌, String, true, false, none, ◌≡◌, ◌≢◌, refl, inl, inr, arith, Option-cases, string_eq,
  string_beq_iff, if◌then◌else◌, ltb, ◌==◌, List, [], ◌∷◌, any, keep, not,
}
use aieos.Base.Dict.{get, get-put_self, get-without}
use aieos.Gateway.Routing.Health.{
  ModelHealth, cooldown, degraded, healthy, is_transient, health_state, record_health_failure,
  record_health_success, judged,
}

any-keep :
    (key : String) (xs : List String) → any (λ k. k == key) (keep (λ k. not (k == key)) xs) ≡ false
any-keep key [] = refl
any-keep key (x ∷ xs) = ground (arith, any-keep key xs)

module _ (clock : ℕ → ℕ) where
  pub cool-state :
      (key : String) (h : ModelHealth)
      → get key h.cooldowns ≡ none
      → (health_state clock key h).0 ≢ cooldown
  unfolding health_state judged
  cool-state key h p = ground arith

  pub cool-health_state :
      (key k : String) (h : ModelHealth)
      → get key h.cooldowns ≡ none
      → get key (health_state clock k h).1.cooldowns ≡ none
  unfolding health_state judged
  cool-health_state key k h p = elim (Option-cases (get k h.cooldowns)) [
    | inl q ↦ rw q p
    | inr (u, q) ↦ rw q (ground (arith, get-without (λ j. j == k) key h.cooldowns))
  ]

  -- After a transient failure, the next reading of the model's health is a cooldown if the clock is
  -- before the end of the cooldown then, and degraded if it is not.
  pub cooldown-failure :
      (length : ℕ) (key code : String) (h : ModelHealth)
      → is_transient code ≡ true
      → (health_state clock key (record_health_failure clock length key code h)).0
        ≡ (if ltb (clock (h.ticks + 1)) (clock h.ticks + length) then cooldown else degraded)
  unfolding health_state judged record_health_failure
  cooldown-failure length key code h t =
      ground (arith, get-put_self key (clock h.ticks + length) h.cooldowns, string_beq_iff key key)

  -- After a success the model is healthy at once, whatever was recorded of it before.
  pub success-heals :
      (key : String) (h : ModelHealth)
      → (health_state clock key (record_health_success key h)).0 ≡ healthy
  unfolding health_state judged record_health_success
  success-heals key h =
      rw
        (
          get-without (λ j. j == key) key h.cooldowns,
          (string_beq_iff key key).1 refl,
          any-keep key h.degraded,
        )
        refl
