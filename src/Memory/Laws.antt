-- ===== src/Memory/Laws.antt =====
-- About `store` and `fetch` of MemoryService (service.py).
use Prim.Native.String.{◌++◌ as ◌<>◌}
use aieos.Base.{◌+◌, String, some, string_eq, string_beq_iff, ok, ◌≡◌, arith}
use aieos.Base.Dict.{get, get-put, get-put_self}
use aieos.Contracts.Common.{AuthorizationContext}
use aieos.Domain.{Services, new, now}
use aieos.Security.{ScopeAuthorizer, require}
use aieos.Security.Laws.{Granted, require_iff}
use aieos.Memory.{MemoryWrite, MemoryRecord, Memory, memory_eq, save, written, store, fetch}

-- `save` never changes the record of an identifier that is taken.
save-get :
    (r old : MemoryRecord) (id : String) (s : Memory)
    → get id s.records ≡ some old
    → get id (save r s).1.records ≡ some old
unfolding save
save-get r old id s h = ground (
  arith,
  get-put r.memory_id id r s.records,
  string_beq_iff r.memory_id id,
  memory_eq.beq_iff old r,
)

module _ (sv : Services) (a : ScopeAuthorizer) where
  -- Whatever is stored, and whether the call returns or raises, a record that was there stays.
  pub store_keeps :
      (w : MemoryWrite) (id : String) (old : MemoryRecord) (s : Memory)
      → get id s.records ≡ some old
      → get id (store sv a w s).1.records ≡ some old
  unfolding store new now
  store_keeps w id old s h =
      let n : String = "memory" <> ("_" <> sv.hex s.supply.drawn) in
      let u : Memory = record s {
        supply = record { drawn = s.supply.drawn + 1; ticks = s.supply.ticks + 1 };
      } in
      ground (arith, save-get (written w n) old id u h)

  -- A reader who is granted "memory.read" in the scope of a write gets back what was stored.
  pub fetch-store :
      (w : MemoryWrite) (r : MemoryRecord) (c : AuthorizationContext) (s : Memory)
      → (store sv a w s).0 ≡ ok r
      → require a c "memory.read" w.tenant_id w.workspace_id ≡ ok tt
      → let t = (store sv a w s).1 in
        fetch sv a r.memory_id w.tenant_id w.workspace_id c t ≡ (ok r, t)
  unfolding store save fetch new now
  fetch-store w r c s h g = ground (
    arith,
    get-put_self r.memory_id r s.records,
    string_beq_iff w.tenant_id w.tenant_id,
    string_beq_iff w.workspace_id w.workspace_id,
  )

  -- What a fetch returns lies in the scope that was asked for, and the caller was granted it.
  pub fetch_in_scope :
      (id t w : String) (c : AuthorizationContext) (s : Memory) (r : MemoryRecord)
      → (fetch sv a id t w c s).0 ≡ ok r
      → (get id s.records ≡ some r)
        × (r.tenant_id ≡ t)
        × (r.workspace_id ≡ w)
        × Granted a c "memory.read" t w
  unfolding fetch
  fetch_in_scope id t w c s r h = ground (
    arith,
    (require_iff a c "memory.read" t w).0,
    string_beq_iff r.tenant_id t,
    string_beq_iff r.workspace_id w,
  )
