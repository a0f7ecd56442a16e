-- ===== src/Memory.antt =====
-- packages/memory_service/src/aieos/memory_service/service.py over the repository of
-- adapters/memory_persistence/src/aieos/adapters/memory_persistence/repository.py
pub mod Laws
use aieos.Base.{
  String, Bool, true, false, not, ◌||◌, Option, some, none, ◌==◌, string_eq, String-discrete, Eq,
  eq_of_discrete, Result, ok, err, value_error, lookup_error, permission_error, if◌then◌else◌,
}
use aieos.Base.Dict.{Dict, get, put}
use aieos.Base.Exec.{Exec, pure, raise, lift, gets, guard_not, or_raise, ◌>>=◌, ◌>>◌}
use aieos.Contracts.Common.{AuthorizationContext}
use aieos.Domain.{Services, Supply, new, now}
use aieos.Security.{ScopeAuthorizer, require}

pub record MemoryWrite : Type 0 where
  pub content : String
  pub tenant_id : String
  pub workspace_id : String
  pub correlation_id : String
  pub provenance : String
  pub authorization : AuthorizationContext

pub record MemoryRecord : Type 0 where
  pub memory_id : String
  pub content : String
  pub tenant_id : String
  pub workspace_id : String
  pub correlation_id : String
  pub provenance : String

pub MemoryRecord-discrete : Discrete MemoryRecord
MemoryRecord-discrete = hlevel String-discrete

instance abbrev pub memory_eq : Eq MemoryRecord
memory_eq = eq_of_discrete MemoryRecord-discrete

-- the repository's records, and the identifiers and instants that the service draws
pub record Memory : Type 0 where
  pub records : Dict String MemoryRecord
  pub supply : Supply

differs : Option MemoryRecord → MemoryRecord → Bool
differs none r = false
differs (some old) r = not (old == r)

-- InMemoryMemoryRepository.save
unfoldable pub save : MemoryRecord → Exec Memory (Unit {0})
unfolding differs
save r s =
    if differs (get r.memory_id s.records) r
    then (err (value_error "MemoryId cannot be reused"), s)
    else (ok tt, record s { records = put r.memory_id r s.records })

in_scope : String → String → MemoryRecord → Bool
in_scope t w r = not (not (r.tenant_id == t) || not (r.workspace_id == w))

visible : String → String → Option MemoryRecord → Option MemoryRecord
unfolding in_scope
visible t w none = none
visible t w (some r) = if in_scope t w r then some r else none

-- InMemoryMemoryRepository.get
unfoldable pub find : String → String → String → Exec Memory (Option MemoryRecord)
unfolding visible
find id t w = gets (λ s. visible t w (get id s.records))

-- the record that a write becomes
unfoldable pub written : MemoryWrite → String → MemoryRecord
written w id = record {
  memory_id = id;
  content = w.content;
  tenant_id = w.tenant_id;
  workspace_id = w.workspace_id;
  correlation_id = w.correlation_id;
  provenance = w.provenance;
}

abbrev draw {ℓ} : {A : Type ℓ} → Exec Supply A → Exec Memory A
draw m s = let (r, u) = m s.supply in (r, record s { supply = u })

module _ (sv : Services) (a : ScopeAuthorizer) where
  -- MemoryService.store
  unfoldable pub store : MemoryWrite → Exec Memory MemoryRecord
  unfolding written
  store w = do
    lift (require a w.authorization "memory.write" w.tenant_id w.workspace_id)
    draw (now sv)
    id ← draw (new sv "memory")
    let r = written w id
    save r
    pure r

  -- MemoryService.fetch
  unfoldable pub fetch : String → String → String → AuthorizationContext → Exec Memory MemoryRecord
  unfolding find in_scope
  fetch id t w c = do
    lift (require a c "memory.read" t w)
    found ← find id t w
    r ← or_raise (lookup_error id) found
    guard_not (not (in_scope t w r)) (permission_error "cross-scope Memory access denied")
    pure r
