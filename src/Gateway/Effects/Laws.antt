-- ===== src/Gateway/Effects/Laws.antt =====
-- About the provider effects and the cache of ReferenceGatewayStore (gateway.py).
use aieos.Base.{
  ℕ, String, Bool, true, string_beq_iff, ◌&&◌, Option, some, none, ◌==◌, string_eq, pair_eq, ok,
  ◌≡◌, arith, leb, if◌then◌else◌,
}
use aieos.Base.Dict.{get, set_default, get-put, get-without}
use aieos.Gateway.Types.{ProviderResult, CachedContent}
use aieos.Gateway.Store.{ReferenceGatewayStore}
use aieos.Gateway.Execution.{assert_execution_owner}
use aieos.Gateway.Effects.{
  load_provider_effect, record_provider_effect, cached, cache_content, invalidated,
  invalidate_cache,
}

-- The first result recorded for an effect stays: a recording by a worker that passes the fence,
-- and by a worker that does not, leaves what was recorded before.
pub record_provider_effect_keeps :
    (id key : String) (first result : ProviderResult) (owner : Option String) (g : Option ℕ)
    (s : ReferenceGatewayStore)
    → get (id, key) s.provider_effects ≡ some first
    → (load_provider_effect id key (record_provider_effect id key result owner g s).1).0
      ≡ ok (some first)
unfolding load_provider_effect record_provider_effect assert_execution_owner set_default
record_provider_effect_keeps id key first result none none s h = ground arith
record_provider_effect_keeps id key first result none (some g) s h = ground arith
record_provider_effect_keeps id key first result (some o) none s h = ground arith
record_provider_effect_keeps id key first result (some o) (some g) s h = ground arith

-- whether an invalidation is for that key; without a key it is for all
abbrev pub concerns : Option String → String → Bool
concerns none key = true
concerns (some k) key = k == key

-- After an invalidation a look-up in the same tenant and the same workspace finds nothing, under
-- any key or, where a key is given, under that key; any other look-up finds what it found before.
pub cached-invalidate :
    (t w : String) (cache_key : Option String) (t' w' key : String) (now : ℕ)
    (s : ReferenceGatewayStore)
    → (cached t' w' key now (invalidate_cache t w cache_key s).1).0 ≡ (
        if t == t' && w == w' && concerns cache_key key
        then ok none
        else (cached t' w' key now s).0)
unfolding cached invalidate_cache
cached-invalidate t w none t' w' key now s = ground (
  arith,
  get-without (invalidated t w none) ((t', w'), key) s.cache,
  string_beq_iff t t',
  string_beq_iff t' t,
  string_beq_iff w w',
  string_beq_iff w' w,
)
cached-invalidate t w (some k) t' w' key now s = ground (
  arith,
  get-without (invalidated t w (some k)) ((t', w'), key) s.cache,
  string_beq_iff t t',
  string_beq_iff t' t,
  string_beq_iff w w',
  string_beq_iff w' w,
  string_beq_iff k key,
  string_beq_iff key k,
)

-- What is cached is found again in its own scope, under its own key, until it expires, and nothing
-- else that a look-up finds changes.
pub cached-cache_content :
    (t w key : String) (c : CachedContent) (t' w' key' : String) (now : ℕ)
    (s : ReferenceGatewayStore)
    → (cached t' w' key' now (cache_content t w key c s).1).0 ≡ (
        if t == t' && w == w' && key == key'
        then if leb c.expires_at now then ok none else ok (some c)
        else (cached t' w' key' now s).0)
unfolding cached cache_content
cached-cache_content t w key c t' w' key' now s =
    ground (arith, get-put ((t, w), key) ((t', w'), key') c s.cache)
