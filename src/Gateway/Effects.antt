-- ===== src/Gateway/Effects.antt =====
-- Provider effects and the content cache in ReferenceGatewayStore
pub mod Laws
use aieos.Base.{
  ℕ, String, Bool, true, false, not, ◌&&◌, ◌||◌, Option, some, none, List, [], ◌∷◌, ◌==◌, string_eq,
  pair_eq, Result, ok, err, leb, keep, any, length, if◌then◌else◌,
}
use aieos.Base.Dict.{Dict, get, put, set_default, without}
use aieos.Base.Exec.{Exec, pure, gets, modify, ◌>>=◌, ◌>>◌}
use aieos.Gateway.Types.{ProviderResult, CachedContent}
use aieos.Gateway.Store.{ReferenceGatewayStore}
use aieos.Gateway.Execution.{assert_execution_owner}
use aieos.Gateway.Budget.{fence}

unfoldable pub load_provider_effect :
    String → String → Exec ReferenceGatewayStore (Option ProviderResult)
load_provider_effect id effect_key = gets (λ s. get (id, effect_key) s.provider_effects)

unfoldable pub reserve_provider_effect :
    String → String → String → ℕ → Exec ReferenceGatewayStore (Unit {0})
reserve_provider_effect id effect_key owner generation = do
  assert_execution_owner id owner generation
  modify (λ s. record s {
    provider_effect_reservations = (id, effect_key) ∷ s.provider_effect_reservations;
  })

unfoldable pub record_provider_effect :
    String
    → String
    → ProviderResult
    → Option String
    → Option ℕ
    → Exec ReferenceGatewayStore (Unit {0})
unfolding fence
record_provider_effect id effect_key result owner generation = do
  fence id owner generation
  modify
      (λ s. record s { provider_effects = set_default (id, effect_key) result s.provider_effects })

current : ℕ → Option CachedContent → Option CachedContent
current now none = none
current now (some c) = if leb c.expires_at now then none else some c

unfoldable pub cached :
    String → String → String → ℕ → Exec ReferenceGatewayStore (Option CachedContent)
unfolding current
cached t w key now = gets (λ s. current now (get ((t, w), key) s.cache))

unfoldable pub cache_content :
    String → String → String → CachedContent → Exec ReferenceGatewayStore (Unit {0})
cache_content t w key value = modify (λ s. record s { cache = put ((t, w), key) value s.cache })

-- `cache_key is None or key[2] == cache_key`
key_matches : Option String → String → Bool
key_matches none k = true
key_matches (some c) k = k == c

unfoldable pub invalidated : String → String → Option String → (String × String) × String → Bool
unfolding key_matches
invalidated t w cache_key k = k.0.0 == t && k.0.1 == w && key_matches cache_key k.1

count_keys :
    ((String × String) × String → Bool) → Dict ((String × String) × String) CachedContent → ℕ
count_keys p d = length (keep (λ e. p e.0) d)

unfoldable pub invalidate_cache : String → String → Option String → Exec ReferenceGatewayStore ℕ
unfolding invalidated without count_keys
invalidate_cache t w cache_key s = (
  ok (count_keys (invalidated t w cache_key) s.cache),
  record s { cache = without (invalidated t w cache_key) s.cache },
)
