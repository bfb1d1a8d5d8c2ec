-- ===== src/Core/Tool/Examples.antt =====
-- Tests and witnesses for tool.rs.
use llmdevsilo.Prelude.{◌≡◌, refl, List, [], ◌∷◌, none, some, ◌==◌, string_eq, any, if◌then◌else◌}
use llmdevsilo.Core.Tool.{
  ToolDef, ToolRegistry, both, top_level_only, sandbox, harness, add_all, owner_of,
}
use llmdevsilo.Core.Tool.Routing.{owner_of-add_all}

abbrev registry : ToolRegistry
registry = record {
  entries = record { def = record { name = "Bash"; availability = both }; owner = sandbox } ∷ [];
}

-- One name that the registry has, and one that is new.
abbrev added : List ToolDef
added =
    record { name = "Bash"; availability = both }
    ∷ (record { name = "Agent"; availability = top_level_only } ∷ [])

owner_of_test : owner_of (add_all registry added harness) "Bash" ≡ some sandbox
unfolding owner_of add_all
owner_of_test = refl

owner_of-add_all_example :
    owner_of (add_all registry added harness) "Agent" ≡ (elim (owner_of registry "Agent") [
      | some o ↦ some o
      | none ↦ if any (λ d. d.name == "Agent") added then some harness else none
    ])
owner_of-add_all_example = owner_of-add_all registry added harness "Agent"
