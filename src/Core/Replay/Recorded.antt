-- ===== src/Core/Replay/Recorded.antt =====
-- replay.rs: a session that asks the mock components what the recorded session asked.
use llmdevsilo.Prelude.{
  Bool, true, false, not, ◌||◌, List, [], ◌∷◌, ◌++◌, Option, none, some, is_some, ◌==◌, string_eq,
  if◌then◌else◌,
}
use llmdevsilo.Core.Conversation.{Message, CompletionResponse}
use llmdevsilo.Core.Tool.{ToolCall, ToolOutput}
use llmdevsilo.Core.Replay.{
  ScriptedLlmTurn, ScriptedToolExec, FrontendStep, send_prompt, answer_question, upload_file,
  expect_shutdown, ScriptState, Reply, ok, next_llm, next_tool, next_frontend,
}
use llmdevsilo.Core.Replay.FromJournal.{
  interrupted_answer, EventPayload, user_prompt, question_answered, file_shared, shutdown,
  other_event, client, llm, JournalEntry, llm_response, tool_exec, event, frontend_command, network,
  other_entry,
}
use llmdevsilo.Harness.Shutdown.{FrontendCommand}

-- What a session gets from the mock components.
pub data Answer (J : Type 0) : Type 0 where
  turn : Reply J (CompletionResponse J) → Answer J
  exec : Reply J ToolOutput → Answer J
  step : Option FrontendStep → Answer J

-- The steps that the user's side of an event asks for.
abbrev pub steps_of_event : EventPayload → List FrontendStep
steps_of_event (user_prompt text) = send_prompt text ∷ []
steps_of_event (question_answered client_id answer) =
    if is_some client_id || not (answer == interrupted_answer)
    then answer_question none answer ∷ []
    else []
steps_of_event (file_shared name content_b64 (client id)) = upload_file name content_b64 ∷ []
steps_of_event (file_shared name content_b64 (llm agent)) = []
steps_of_event (shutdown message) = expect_shutdown message ∷ []
steps_of_event other_event = []

abbrev pub steps_of_command : Option FrontendCommand → List FrontendStep
steps_of_command (some FrontendCommand.interrupt) = FrontendStep.interrupt ∷ []
steps_of_command (some (FrontendCommand.shutdown message)) = []
steps_of_command none = []

module _ {J : Type 0} where
  abbrev pub turns_of : JournalEntry J → List (ScriptedLlmTurn J)
  turns_of (llm_response response) =
      record { expect_user_contains = none; response = response } ∷ []
  turns_of _ = []

  abbrev pub execs_when : Bool → ToolCall J → ToolOutput → List (ScriptedToolExec J)
  execs_when true call output =
      record { expect_name = call.name; expect_input = some call.input; output = output } ∷ []
  execs_when false call output = []

  abbrev pub execs_of : JournalEntry J → List (ScriptedToolExec J)
  execs_of (tool_exec owner call output) = execs_when (owner == "sandbox") call output
  execs_of _ = []

  module _ {A : Type 0} (of : JournalEntry J → List A) where
    abbrev pub all_of : List (JournalEntry J) → List A
    all_of [] = []
    all_of (entry ∷ entries) = of entry ++ all_of entries

  -- Asks for as many steps as were recorded.
  unfoldable pub ask_steps : ScriptState J → List FrontendStep → ScriptState J × List (Answer J)
  unfolding next_frontend
  ask_steps s [] = (s, [])
  ask_steps s (recorded ∷ more) =
      let t = next_frontend s in let u = ask_steps t.0 more in (u.0, step t.1 ∷ u.1)

  module _ (subset_matches : J → J → Bool) where
    unfoldable pub ask_exec : Bool → ScriptState J → ToolCall J → ScriptState J × List (Answer J)
    unfolding next_tool
    ask_exec true s call = let t = next_tool subset_matches s call in (t.0, exec t.1 ∷ [])
    ask_exec false s call = (s, [])

    module _ (command_of : J → Option FrontendCommand) where
      -- What one entry of the recorded session asks of the mock components: the request is what the
      -- replayed session asks at that place, whatever that is; the call is the recorded one.
      unfoldable pub ask :
          ScriptState J → JournalEntry J → List (Message J) → ScriptState J × List (Answer J)
      unfolding next_llm ask_exec ask_steps
      ask s (llm_response response) messages = let t = next_llm s messages in (t.0, turn t.1 ∷ [])
      ask s (tool_exec owner call output) messages = ask_exec (owner == "sandbox") s call
      ask s (event payload) messages = ask_steps s (steps_of_event payload)
      ask s (frontend_command command) messages =
          ask_steps s (steps_of_command (command_of command))
      ask s (network entry) messages = (s, [])
      ask s other_entry messages = (s, [])

      unfoldable pub replay :
          ScriptState J → List (JournalEntry J × List (Message J)) → ScriptState J × List (Answer J)
      unfolding ask
      replay s [] = (s, [])
      replay s ((entry, messages) ∷ rest) =
          let t = ask s entry messages in let u = replay t.0 rest in (u.0, t.1 ++ u.1)

  abbrev pub recorded_steps : List FrontendStep → List (Answer J)
  recorded_steps [] = []
  recorded_steps (s ∷ steps) = step (some s) ∷ recorded_steps steps

  abbrev pub recorded_exec : Bool → ToolOutput → List (Answer J)
  recorded_exec true output = exec (ok output) ∷ []
  recorded_exec false output = []

  module _ (command_of : J → Option FrontendCommand) where
    abbrev pub steps_of : JournalEntry J → List FrontendStep
    steps_of (event payload) = steps_of_event payload
    steps_of (frontend_command command) = steps_of_command (command_of command)
    steps_of _ = []

    -- What the components of the recorded session had answered.
    abbrev pub recorded : JournalEntry J → List (Answer J)
    recorded (llm_response response) = turn (ok response) ∷ []
    recorded (tool_exec owner call output) = recorded_exec (owner == "sandbox") output
    recorded (event payload) = recorded_steps (steps_of_event payload)
    recorded (frontend_command command) = recorded_steps (steps_of_command (command_of command))
    recorded (network entry) = []
    recorded other_entry = []
