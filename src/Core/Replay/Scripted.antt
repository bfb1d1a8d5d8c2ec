-- ===== src/Core/Replay/Scripted.antt =====
-- replay.rs: the lists of the script that a recorded journal makes.
use mathlib.Core.List.{append-nil, append_assoc}
use llmdevsilo.Prelude.{
  ◌≡◌, refl, sym, ◌∙◌, Bool, true, false, not, ◌||◌, List, [], ◌∷◌, ◌++◌, Option, none, some,
  is_some, ◌==◌, string_eq, if◌then◌else◌, All,
}
use llmdevsilo.Core.Replay.{
  ScriptedLlmTurn, ScriptedToolExec, FrontendStep, send_prompt, answer_question, upload_file,
  expect_shutdown, TestScript,
}
use llmdevsilo.Core.Replay.FromJournal.{
  interrupted_answer, EventPayload, user_prompt, question_answered, file_shared, shutdown,
  other_event, client, llm, JournalEntry, llm_response, tool_exec, event, frontend_command, network,
  other_entry, push_step, add_event, add_command, add_entry, add_entries,
}
use llmdevsilo.Harness.Shutdown.{FrontendCommand}
use llmdevsilo.Core.Replay.Recorded.{
  steps_of_event, steps_of_command, turns_of, execs_when, execs_of, all_of, steps_of,
}

module _ {J : Type 0} where
  abbrev pub Plain : ScriptedLlmTurn J → Type 0
  Plain t = t.expect_user_contains ≡ none

  pub all_plain : (entries : List (JournalEntry J)) → All Plain (all_of turns_of entries)
  all_plain [] = tt
  all_plain (llm_response response ∷ entries) = (refl, all_plain entries)
  all_plain (tool_exec owner call output ∷ entries) = all_plain entries
  all_plain (event payload ∷ entries) = all_plain entries
  all_plain (frontend_command command ∷ entries) = all_plain entries
  all_plain (network entry ∷ entries) = all_plain entries
  all_plain (other_entry ∷ entries) = all_plain entries

  -- The lists of a script, and what is added at their ends.
  abbrev Adds :
      TestScript J
      → TestScript J
      → List (ScriptedLlmTurn J)
      → List (ScriptedToolExec J)
      → List FrontendStep
      → Type 0
  Adds script t turns execs steps =
      (t.llm ≡ script.llm ++ turns)
      × (t.tools ≡ script.tools ++ execs)
      × (t.frontend ≡ script.frontend ++ steps)

  Adds-none : (script : TestScript J) → Adds script script [] [] []
  Adds-none script =
      (sym (append-nil script.llm), sym (append-nil script.tools), sym (append-nil script.frontend))

  Adds-step :
      (script : TestScript J) (this : FrontendStep)
      → Adds script (push_step script this) [] [] (this ∷ [])
  Adds-step script this = (sym (append-nil script.llm), sym (append-nil script.tools), refl)

  add_event-Adds :
      (script : TestScript J) (payload : EventPayload)
      → Adds script (add_event script payload) [] [] (steps_of_event payload)
  add_event-Adds script (user_prompt text) = Adds-step script (send_prompt text)
  add_event-Adds script (question_answered client_id answer) =
      go (is_some client_id || not (answer == interrupted_answer))
    where
      go :
          (b : Bool)
          → Adds script
              (if b then push_step script (answer_question none answer) else script)
              []
              []
              (if b then answer_question none answer ∷ [] else [])
      go true = Adds-step script (answer_question none answer)
      go false = Adds-none script
  add_event-Adds script (file_shared name content_b64 (client id)) =
      Adds-step script (upload_file name content_b64)
  add_event-Adds script (file_shared name content_b64 (llm agent)) = Adds-none script
  add_event-Adds script (shutdown message) = Adds-step script (expect_shutdown message)
  add_event-Adds script other_event = Adds-none script

  module _ (command_of : J → Option FrontendCommand) where
    add_command-Adds :
        (script : TestScript J) (command : Option FrontendCommand)
        → Adds script (add_command command_of script command) [] [] (steps_of_command command)
    add_command-Adds script (some FrontendCommand.interrupt) =
        Adds-step script FrontendStep.interrupt
    add_command-Adds script (some (FrontendCommand.shutdown message)) = Adds-none script
    add_command-Adds script none = Adds-none script

    add_entry-Adds :
        (script : TestScript J) (entry : JournalEntry J)
        → Adds script
            (add_entry command_of script entry)
            (turns_of entry)
            (execs_of entry)
            (steps_of command_of entry)
    unfolding add_entry
    add_entry-Adds script (llm_response response) =
        (refl, sym (append-nil script.tools), sym (append-nil script.frontend))
    add_entry-Adds script (tool_exec owner call output) = go (owner == "sandbox")
      where
        go :
            (b : Bool)
            → Adds script
                (if b
                  then record script {
                    tools =
                        script.tools
                        ++ (record {
                          expect_name = call.name;
                          expect_input = some call.input;
                          output = output;
                        }
                            ∷ []);
                  }
                  else script)
                []
                (execs_when b call output)
                []
        go true = (sym (append-nil script.llm), refl, sym (append-nil script.frontend))
        go false = Adds-none script
    add_entry-Adds script (event payload) = add_event-Adds script payload
    add_entry-Adds script (frontend_command command) = add_command-Adds script (command_of command)
    add_entry-Adds script (network entry) = Adds-none script
    add_entry-Adds script other_entry = Adds-none script

    pub add_entries-lists :
        (entries : List (JournalEntry J)) (script : TestScript J)
        → ((add_entries command_of script entries).llm ≡ script.llm ++ all_of turns_of entries)
          × ((add_entries command_of script entries).tools
              ≡ script.tools ++ all_of execs_of entries)
          × ((add_entries command_of script entries).frontend
              ≡ script.frontend ++ all_of (steps_of command_of) entries)
    unfolding add_entries
    add_entries-lists [] script = Adds-none script
    add_entries-lists (entry ∷ entries) script =
        let (turns, execs, steps) = add_entries-lists entries (add_entry command_of script entry) in
        let (t, x, q) = add_entry-Adds script entry in
        (
          turns ∙ rw (t) (append_assoc script.llm (turns_of entry) (all_of turns_of entries)),
          execs ∙ rw (x) (append_assoc script.tools (execs_of entry) (all_of execs_of entries)),
          steps
              ∙ rw (q) (
                  append_assoc script.frontend (steps_of command_of entry)
                    (all_of (steps_of command_of) entries)),
        )
