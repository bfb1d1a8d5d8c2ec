-- ===== src/Core/Tool.antt =====
-- crates/silo-core/src/tool.rs: tool definitions and the registry that routes tool calls.
pub mod Routing
mod Examples
use llmdevsilo.Prelude.{
  ℕ, Bool, true, false, String, List, [], ◌∷◌, ◌++◌, map, Option, none, some, ◌==◌, string_eq, find,
  keep,
}
use llmdevsilo.Core.Conversation.{AgentKind, top_level, subagent}

pub data ToolAvailability : Type 0 where
  top_level_only subagent_only both : ToolAvailability

abbrev pub available_to : ToolAvailability → AgentKind → Bool
available_to both _ = true
available_to top_level_only top_level = true
available_to subagent_only subagent = true
available_to _ _ = false

-- The description and the input schema are only passed on to the model.
pub record ToolDef : Type 0 where
  pub name : String
  pub availability : ToolAvailability

pub record ToolCall (Json : Type 0) : Type 0 where
  pub id : String
  pub name : String
  pub input : Json

abbrev pub interrupted_by_user : String
interrupted_by_user = "[interrupted by the user]"

pub record ToolOutput : Type 0 where
  pub content : String
  pub is_error : Bool

pub data ToolOwner : Type 0 where
  sandbox frontend harness : ToolOwner

pub record RegisteredTool : Type 0 where
  pub def : ToolDef
  pub owner : ToolOwner

pub record ToolRegistry : Type 0 where
  pub entries : List RegisteredTool

unfoldable pub add : ToolRegistry → ToolDef → ToolOwner → ToolRegistry
add registry def owner = record {
  entries = registry.entries ++ (record { def = def; owner = owner } ∷ []);
}

unfoldable pub add_all : ToolRegistry → List ToolDef → ToolOwner → ToolRegistry
unfolding add
add_all registry [] owner = registry
add_all registry (def ∷ defs) owner = add_all (add registry def owner) defs owner

unfoldable pub defs_for : ToolRegistry → AgentKind → List ToolDef
defs_for registry kind =
    map (λ e. e.def) (keep (λ e. available_to e.def.availability kind) registry.entries)

unfoldable pub owner_of : ToolRegistry → String → Option ToolOwner
owner_of registry name = elim (find (λ e. e.def.name == name) registry.entries) [
  | some e ↦ some e.owner
  | none ↦ none
]
