-- ===== src/Core/Replay/FromJournal.antt =====
-- crates/silo-core/src/replay.rs, with the entries of crates/silo-core/src/{journal,event}.rs: the script
-- that a recorded journal makes. Entries and events that the script leaves out are one constructor each.
use llmdevsilo.Prelude.{
  not, ◌||◌, String, List, [], ◌∷◌, ◌++◌, Option, none, some, is_some, ◌==◌, string_eq,
  if◌then◌else◌,
}
use llmdevsilo.Core.Conversation.{CompletionResponse}
use llmdevsilo.Core.Journal.{NetworkRecord}
use llmdevsilo.Core.Tool.{ToolCall, ToolOutput}
use llmdevsilo.Core.Replay.{
  FrontendStep, send_prompt, answer_question, upload_file, expect_shutdown, TestScript,
}
use llmdevsilo.Harness.Shutdown.{FrontendCommand}

abbrev pub interrupted_answer : String
interrupted_answer = "[interrupted]"

pub data FileOrigin : Type 0 where
  client llm : String → FileOrigin

pub data EventPayload : Type 0 where
  user_prompt : String → EventPayload
  -- The client, and the answer.
  question_answered : Option String → String → EventPayload
  file_shared : String → String → FileOrigin → EventPayload
  shutdown : Option String → EventPayload
  other_event : EventPayload

pub data JournalEntry (J : Type 0) : Type 0 where
  llm_response : CompletionResponse J → JournalEntry J
  -- The owner, the call and its output.
  tool_exec : String → ToolCall J → ToolOutput → JournalEntry J
  event : EventPayload → JournalEntry J
  frontend_command : J → JournalEntry J
  network : NetworkRecord → JournalEntry J
  other_entry : JournalEntry J

module _ {J : Type 0} where
  abbrev pub push_step : TestScript J → FrontendStep → TestScript J
  push_step script step = record script { frontend = script.frontend ++ (step ∷ []) }

  abbrev pub add_event : TestScript J → EventPayload → TestScript J
  add_event script (user_prompt text) = push_step script (send_prompt text)
  add_event script (question_answered client_id answer) =
      if is_some client_id || not (answer == interrupted_answer)
      then push_step script (answer_question none answer)
      else script
  add_event script (file_shared name content_b64 (client id)) =
      push_step script (upload_file name content_b64)
  add_event script (file_shared name content_b64 (llm agent)) = script
  add_event script (shutdown message) = push_step script (expect_shutdown message)
  add_event script other_event = script

  -- How a command is read from its JSON form is an argument.
  module _ (command_of : J → Option FrontendCommand) where
    abbrev pub add_command : TestScript J → Option FrontendCommand → TestScript J
    add_command script (some FrontendCommand.interrupt) = push_step script FrontendStep.interrupt
    add_command script (some (FrontendCommand.shutdown message)) = script
    add_command script none = script

    unfoldable pub add_entry : TestScript J → JournalEntry J → TestScript J
    add_entry script (llm_response response) = record script {
      llm = script.llm ++ (record { expect_user_contains = none; response = response } ∷ []);
    }
    add_entry script (tool_exec owner call output) =
        if owner == "sandbox"
        then record script {
          tools =
              script.tools
              ++ (record {
                expect_name = call.name;
                expect_input = some call.input;
                output = output;
              }
                  ∷ []);
        }
        else script
    add_entry script (event payload) = add_event script payload
    add_entry script (frontend_command command) = add_command script (command_of command)
    add_entry script (network entry) = record script { network = script.network ++ (entry ∷ []) }
    add_entry script other_entry = script

    unfoldable pub add_entries : TestScript J → List (JournalEntry J) → TestScript J
    unfolding add_entry
    add_entries script [] = script
    add_entries script (entry ∷ entries) = add_entries (add_entry script entry) entries

    unfoldable pub script_from_journal : List (JournalEntry J) → String → TestScript J
    unfolding add_entries
    script_from_journal entries name =
        add_entries (record { name = name; llm = []; tools = []; frontend = []; network = [] })
          entries
