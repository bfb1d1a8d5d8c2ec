-- ===== src/Core/Replay/Examples.antt =====
-- replay.rs: replays of concrete scripts.
use llmdevsilo.Prelude.{
  ℕ, suc, ◌≡◌, ◌≤◌, refl, true, false, String, List, [], ◌∷◌, Option, none, some, map, string_eq,
  codes,
}
use llmdevsilo.Core.Conversation.{
  texts, join_lines, user, ContentBlock, Message, end_turn, CompletionResponse,
}
use llmdevsilo.Core.Replay.{
  Json, object, other, no_fields, field, json_subset_matches, ScriptedLlmTurn, TestScript, ok,
  count_done, set_done, new, next_llm, finished,
}
use llmdevsilo.Core.Replay.FromJournal.{
  user_prompt, JournalEntry, llm_response, tool_exec, event, frontend_command, script_from_journal,
}
use llmdevsilo.Core.Replay.Expects.{Waits, next_llm-Waits}
use llmdevsilo.Core.Replay.Recorded.{all_of, replay, recorded}
use llmdevsilo.Core.Replay.Roundtrip.{replay-script_from_journal}
use llmdevsilo.Harness.Shutdown.{FrontendCommand}

abbrev Value : Type 0
Value = Json String

abbrev command_line : Value
command_line = object (field "command" (other "ls") (field "timeout" (other "60") no_fields))

abbrev says : String → Message Value
says t = record { role = user; content = ContentBlock.text t ∷ [] }

abbrev answers : String → CompletionResponse Value
answers t = record { content = ContentBlock.text t ∷ []; stop_reason = end_turn }

abbrev command_of : Value → Option FrontendCommand
command_of (object _) = none
command_of (other _) = some FrontendCommand.interrupt

abbrev asked : List (JournalEntry Value × List (Message Value))
asked =
    (event (user_prompt "list the files"), [])
    ∷ (llm_response (answers "running ls"), says "another prompt" ∷ [])
    ∷ (
      tool_exec "sandbox" (record { id = "t1"; name = "Bash"; input = command_line })
          (record { content = "README.md"; is_error = false }),
      [],
    )
    ∷ (llm_response (answers "one file"), [])
    ∷ (frontend_command (other "interrupt"), [])
    ∷ []

replay-script_from_journal_example :
    ((replay json_subset_matches command_of
        (new (script_from_journal command_of (map (λ a. a.0) asked) "demo"))
        asked).1
      ≡ all_of (recorded command_of) (map (λ a. a.0) asked))
    × (finished
          (replay json_subset_matches command_of
            (new (script_from_journal command_of (map (λ a. a.0) asked) "demo"))
            asked).0
        ≡ true)
replay-script_from_journal_example =
    replay-script_from_journal command_of "demo" asked
      (tt, (tt, ((refl, tt, (refl, tt, tt)), (tt, (tt, tt)))))

abbrev two_agents : TestScript Value
two_agents = record {
  name = "two agents";
  llm =
      record { expect_user_contains = some "alpha"; response = answers "one" }
      ∷ record { expect_user_contains = some "beta"; response = answers "two" }
      ∷ [];
  tools = [];
  frontend = [];
  network = [];
}

abbrev beta_turn : ScriptedLlmTurn Value
beta_turn = record { expect_user_contains = some "beta"; response = answers "two" }

abbrev beta_asks : List (Message Value)
beta_asks = says "look at alpha" ∷ says "look at beta first" ∷ []

next_llm-Waits_example :
    (j : ℕ) × (chosen : ScriptedLlmTurn Value) × (j ≤ 1)
    × Waits (new two_agents) (join_lines (texts (says "look at beta first").content)) j chosen
    × (next_llm (new two_agents) beta_asks ≡ (
      record (new two_agents) { llm_consumed = set_done j (new two_agents).llm_consumed },
      ok chosen.response,
    ))
    × (count_done (set_done j (new two_agents).llm_consumed)
        ≡ suc (count_done (new two_agents).llm_consumed))
unfolding new
next_llm-Waits_example =
    next_llm-Waits (new two_agents) beta_asks (says "look at alpha" ∷ []) []
      (says "look at beta first") 1 beta_turn refl refl tt
      (refl, refl, ("beta", refl, (codes "look at ", codes " first", refl)))
