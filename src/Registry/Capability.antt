-- ===== src/Registry/Capability.antt =====
-- packages/capability_registry/src/aieos/capability_registry/registry.py
use aieos.Base.{
  String, not, ◌+◌, List, [], ◌==◌, nat_eq, string_eq, pair_eq, length, Within, Result, ok, err,
  value_error, lookup_error, Option, some, none, ◌≡◌, ◌↔◌, inl, inr, arith, ◌⊎◌, if◌then◌else◌,
}
use aieos.Base.Dict.{Dict, get}
use aieos.Base.Dict.FromList.{add_all, get-add_all-Within, Within-get-add_all}

pub record CapabilityImplementation : Type 0 where
  pub capability_id : String
  pub capability_contract_version_id : String
  pub implementation_reference : String
  pub boundary : String
  pub prompt_package_ref : Option String
  pub prompt_package_version_ref : Option String
  pub output_schema_ref : Option String

pub record CapabilityRegistry : Type 0 where
  pub implementations : Dict (String × String) CapabilityImplementation

abbrev contract : CapabilityImplementation → String × String
contract i = (i.capability_id, i.capability_contract_version_id)

-- CapabilityRegistry.__init__
unfoldable pub capability_registry : List CapabilityImplementation → Result CapabilityRegistry
capability_registry implementations =
    let table = add_all contract implementations [] in
    if not (length table == length implementations)
    then err (value_error "duplicate Capability contract registration")
    else ok (record { implementations = table })

or_unsupported : Option CapabilityImplementation → Result CapabilityImplementation
or_unsupported none = err (lookup_error "unsupported Capability contract")
or_unsupported (some i) = ok i

unfoldable pub resolve : CapabilityRegistry → String → String → Result CapabilityImplementation
unfolding or_unsupported
resolve r capability_id version_id =
    or_unsupported (get (capability_id, version_id) r.implementations)

module _ (xs : List CapabilityImplementation) (r : CapabilityRegistry)
    (built : capability_registry xs ≡ ok r) where
  distinct :
      length (add_all contract xs [])
      ≡ length xs + length {A = (String × String) × CapabilityImplementation} []
  unfolding capability_registry
  distinct = ground arith

  table : r.implementations ≡ add_all contract xs []
  unfolding capability_registry
  table = ground arith

  -- A registry that was built resolves a contract to an implementation exactly when that
  -- implementation is one of the catalog's and was registered for that very contract version.
  pub capability-resolve_iff :
      (k v : String) (i : CapabilityImplementation)
      → (resolve r k v ≡ ok i) ↔ (Within i xs × (contract i ≡ (k, v)))
  unfolding resolve get
  capability-resolve_iff k v i =
      (forth, λ (m, p). ground (arith, table, get-add_all-Within contract i xs [] distinct m))
    where
      pick :
          (Within i xs × (contract i ≡ (k, v))) ⊎ (none ≡ some i)
          → Within i xs × (contract i ≡ (k, v))
      pick (inl m) = m
      pick (inr e) = cc

      forth : resolve r k v ≡ ok i → Within i xs × (contract i ≡ (k, v))
      forth h = pick (Within-get-add_all contract (k, v) i xs [] (ground (arith, table)))
