-- ===== src/Registry/Skill.antt =====
-- packages/skill_registry/src/aieos/skill_registry/registry.py
use aieos.Base.{
  String, not, ◌+◌, List, [], ◌==◌, nat_eq, string_eq, length, Within, Result, ok, err, value_error,
  lookup_error, ◌⊎◌, Option, some, none, ◌≡◌, ◌↔◌, inl, inr, arith, ◌⊎◌, if◌then◌else◌,
}
use aieos.Base.Dict.{Dict, get}
use aieos.Base.Dict.FromList.{add_all, get-add_all-Within, Within-get-add_all}

pub record SkillDefinition : Type 0 where
  pub skill_id : String
  pub skill_version_id : String
  pub capability_id : String
  pub capability_contract_version_id : String
  pub implementation_reference : String

pub record SkillRegistry : Type 0 where
  pub definitions : Dict String SkillDefinition

abbrev version : SkillDefinition → String
version d = d.skill_version_id

-- SkillRegistry.__init__
unfoldable pub skill_registry : List SkillDefinition → Result SkillRegistry
skill_registry definitions =
    let table = add_all version definitions [] in
    if not (length table == length definitions)
    then err (value_error "duplicate SkillVersionId")
    else ok (record { definitions = table })

or_unknown : Option SkillDefinition → Result SkillDefinition
or_unknown none = err (lookup_error "unknown SkillVersionId")
or_unknown (some d) = ok d

unfoldable pub resolve : SkillRegistry → String → Result SkillDefinition
unfolding or_unknown
resolve r skill_version_id = or_unknown (get skill_version_id r.definitions)

module _ (xs : List SkillDefinition) (r : SkillRegistry) (built : skill_registry xs ≡ ok r) where
  distinct : length (add_all version xs []) ≡ length xs + length {A = String × SkillDefinition} []
  unfolding skill_registry
  distinct = ground arith

  table : r.definitions ≡ add_all version xs []
  unfolding skill_registry
  table = ground arith

  -- A registry that was built resolves a SkillVersionId to a definition exactly when that
  -- definition is one of the catalog's and has that SkillVersionId.
  pub skill-resolve_iff :
      (k : String) (d : SkillDefinition)
      → (resolve r k ≡ ok d) ↔ (Within d xs × (d.skill_version_id ≡ k))
  unfolding resolve get
  skill-resolve_iff k d =
      (forth, λ (m, p). ground (arith, table, get-add_all-Within version d xs [] distinct m))
    where
      found : resolve r k ≡ ok d → get k (add_all version xs []) ≡ some d
      found h = ground (arith, table)

      pick :
          (Within d xs × (d.skill_version_id ≡ k)) ⊎ (none ≡ some d)
          → Within d xs × (d.skill_version_id ≡ k)
      pick (inl m) = m
      pick (inr e) = cc

      forth : resolve r k ≡ ok d → Within d xs × (d.skill_version_id ≡ k)
      forth h = pick (Within-get-add_all version k d xs [] (found h))
