-- ===== src/Core/Conversation.antt =====
-- crates/silo-core/src/conversation.rs. The JSON of a tool's input is a type of its own.
use Prim.Native.String
use llmdevsilo.Prelude.{Bool, String, List, [], ◌∷◌}

pub data AgentKind : Type 0 where
  top_level subagent : AgentKind

pub data Role : Type 0 where
  user assistant : Role

pub data ContentBlock (Json : Type 0) : Type 0 where
  text : String → ContentBlock Json
  tool_use : String → String → Json → ContentBlock Json
  -- The id of the tool use, the content, and whether it is an error.
  tool_result : String → String → Bool → ContentBlock Json

pub record Message (Json : Type 0) : Type 0 where
  pub role : Role
  pub content : List (ContentBlock Json)

pub data StopReason : Type 0 where
  end_turn tool_use max_tokens : StopReason
  other : String → StopReason

pub record CompletionResponse (Json : Type 0) : Type 0 where
  pub content : List (ContentBlock Json)
  pub stop_reason : StopReason

-- The text blocks, in order; `CompletionResponse::text` joins them by line ends.
abbrev pub texts : {Json : Type 0} → List (ContentBlock Json) → List String
texts [] = []
texts (ContentBlock.text t ∷ blocks) = t ∷ texts blocks
texts (ContentBlock.tool_use id name input ∷ blocks) = texts blocks
texts (ContentBlock.tool_result id content is_error ∷ blocks) = texts blocks

-- `join("\n")`.
abbrev pub join_lines : List String → String
join_lines [] = ""
join_lines (t ∷ []) = t
join_lines (t ∷ (u ∷ ts)) = String.◌++◌ t (String.◌++◌ "\n" (join_lines (u ∷ ts)))
