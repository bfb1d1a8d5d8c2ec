-- ===== src/Harness/Session.antt =====
-- crates/silo-harness/src/agent.rs and crates/silo-core/src/{event,journal}.rs: what an agent loop
-- shares with its session. The log is the journal, in order; an event stands in it where the bus
-- journals it. Message texts of lifecycle notes are constructors.
use llmdevsilo.Prelude.{ℕ, suc, Bool, String, List, [], ◌∷◌, ◌++◌, map, Option, is_some}
use llmdevsilo.Core.Conversation.{ContentBlock, Message, StopReason, CompletionResponse}
use llmdevsilo.Core.Tool.{ToolCall, ToolOutput, ToolRegistry}
use llmdevsilo.Harness.Shutdown.{ShutdownSignal, FrontendCommand, drain, interrupted_since}

pub data Event (Json : Type 0) : Type 0 where
  assistant_text : String → String → Event Json
  tool_use : String → ToolCall Json → Event Json
  -- The agent, the id and the name of the call, and the output.
  tool_result : String → String → String → ToolOutput → Event Json
  cost_report : Event Json
  turn_complete : String → StopReason → Event Json
  -- The context and the message.
  error : String → String → Event Json

-- The messages of `JournalEntry::Lifecycle`, each with the agent that it names.
pub data Note : Type 0 where
  llm_aborted : String → Note
  llm_mismatch llm_failed sandbox_mismatch : String → String → Note
  calls_cancelled : String → ℕ → Note
  hit_max_tokens : String → Note

pub data Entry (Json : Type 0) : Type 0 where
  event : Event Json → Entry Json
  llm_request : String → List (Message Json) → Entry Json
  llm_response : String → List (ContentBlock Json) → Entry Json
  -- The agent, the owner, the call and its output.
  tool_exec : String → String → ToolCall Json → ToolOutput → Entry Json
  frontend_command : FrontendCommand → Entry Json
  lifecycle : Note → Entry Json

-- `moment` counts the points at which the loop has looked for commands.
pub record Session (Json : Type 0) : Type 0 where
  pub signal : ShutdownSignal
  pub log : List (Entry Json)
  pub moment : ℕ

-- What a mock component, or a backend, answers.
pub data Completion (Json : Type 0) : Type 0 where
  response : CompletionResponse Json → Completion Json
  script_mismatch failed : String → Completion Json

pub data ToolResult : Type 0 where
  output : ToolOutput → ToolResult
  script_mismatch failed : String → ToolResult

-- A tool either has its result at once, or it waits and races against an abort.
pub data Race : Type 0 where
  ready waits : ToolResult → Race

-- The components behind the traits of silo-core, as functions of the moment at which they are
-- called: the commands that have arrived since the moment before, the backend, the tools of the
-- sandbox and the frontend, whether cancelling them fails, and the JSON and base64 libraries.
pub record World : Type 1 where
  pub Json : Type 0
  pub get_str : Json → String → Option String
  pub insert_str : Json → String → String → Json
  pub path_input : String → Json
  pub encode : String → String
  pub arrivals : ℕ → List FrontendCommand
  pub complete : ℕ → List (Message Json) → Completion Json
  pub run_sandbox : ℕ → ToolCall Json → Race
  pub run_frontend : ℕ → ToolCall Json → Race
  pub interrupt_sandbox : ℕ → Option String
  pub interrupt_frontend : ℕ → Option String
  pub registry : ToolRegistry

-- How a tool call ended. `harness_error` is the error that ends the session.
pub data Disposition : Type 0 where
  output : String → ToolOutput → Disposition
  shutdown interrupted : Disposition
  script_failed harness_error : String → Disposition

module _ {Json : Type 0} where
  unfoldable pub journal : Session Json → Entry Json → Session Json
  journal s entry = record s { log = s.log ++ (entry ∷ []) }

  -- `EventBus::emit`: sequence numbers and time stamps are left out.
  unfoldable pub emit : Session Json → Event Json → Session Json
  unfolding journal
  emit s e = journal s (event e)

  abbrev pub is_shutdown : Session Json → Bool
  is_shutdown s = is_some s.signal.state

  abbrev pub is_interrupted : Session Json → ℕ → Bool
  is_interrupted s generation = interrupted_since s.signal generation

-- `ShutdownSignal::check`, and the same look of `wait_abort`: the commands that have arrived are
-- journalled and applied.
unfoldable pub check : (w : World) → Session w.Json → Session w.Json
check w s = record {
  signal = drain s.signal (w.arrivals s.moment);
  log = s.log ++ map frontend_command (w.arrivals s.moment);
  moment = suc s.moment;
}
