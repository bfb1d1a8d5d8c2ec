-- ===== src/Harness/Examples.antt =====
-- Tests and witnesses for shutdown.rs and agent.rs: a turn with two tool calls, in which the user
-- interrupts before the second.
use llmdevsilo.Prelude.{
  ℕ, ◌≤◌, ◌≡◌, refl, true, false, String, List, [], ◌∷◌, ◌++◌, Option, none, some, is_some, arith,
  if◌then◌else◌, ltb, ◌==◌, nat_eq,
}
use llmdevsilo.Core.Conversation.{top_level, user, assistant, ContentBlock, Message, StopReason}
use llmdevsilo.Core.Tool.{ToolCall, ToolOutput, ToolRegistry, both, sandbox, interrupted_by_user}
use llmdevsilo.Harness.Shutdown.{
  FrontendCommand, interrupt, AbortReason, new, drain, interrupted_since, abort_reason,
}
use llmdevsilo.Harness.Shutdown.Requests.{expected_abort, abort_reason-drain}
use llmdevsilo.Harness.Session.{
  World, Session, Completion, response, ToolResult, ready, waits, Disposition, shutdown,
}
use llmdevsilo.Harness.Agent.{interrupted, Ended, round, drive_inner}
use llmdevsilo.Harness.Agent.Conversation.{WellFormed}
use llmdevsilo.Harness.Agent.Legal.{drive_inner-WellFormed}
use llmdevsilo.Harness.Agent.Turns.{ends_turn, drive_inner-ends}

abbrev commands : List FrontendCommand
commands =
    interrupt
    ∷ (FrontendCommand.shutdown (some "bye") ∷ (interrupt ∷ (FrontendCommand.shutdown none ∷ [])))

abort_reason_test : abort_reason (drain new commands) 0 ≡ some (AbortReason.shutdown (some "bye"))
unfolding abort_reason drain
abort_reason_test = refl

abort_reason-drain_example : abort_reason (drain new commands) 0 ≡ expected_abort new commands 0
abort_reason-drain_example = abort_reason-drain new commands 0 refl (omega arith)

abbrev two_calls : List (ContentBlock String)
two_calls =
    ContentBlock.text "Running."
    ∷ (ContentBlock.tool_use "c1" "Bash" "ls" ∷ (ContentBlock.tool_use "c2" "Bash" "pwd" ∷ []))

-- The backend asks for two calls at first, and answers with text from the moment 2 on.
abbrev answers : ℕ → List (Message String) → Completion String
answers k ms =
    if ltb k 2
    then response (record { content = two_calls; stop_reason = StopReason.tool_use })
    else response
        (record { content = ContentBlock.text "Done." ∷ []; stop_reason = StopReason.end_turn })

abbrev registry : ToolRegistry
registry = record {
  entries = record { def = record { name = "Bash"; availability = both }; owner = sandbox } ∷ [];
}

abbrev ok_output : ToolOutput
ok_output = record { content = "ok"; is_error = false }

-- The commands that arrive at each moment are a parameter.
abbrev world : (ℕ → List FrontendCommand) → World
world arriving = record {
  Json = String;
  get_str = λ json key. none;
  insert_str = λ json key value. json;
  path_input = λ path. path;
  encode = λ content. content;
  arrivals = arriving;
  complete = answers;
  run_sandbox = λ moment call. waits (ToolResult.output ok_output);
  run_frontend = λ moment call. ready (ToolResult.output ok_output);
  interrupt_sandbox = λ moment. none;
  interrupt_frontend = λ moment. none;
  registry = registry;
}

abbrev interrupting : World
interrupting = world (λ k. if k == 4 then interrupt ∷ [] else [])

abbrev undisturbed : World
undisturbed = world (λ k. [])

abbrev harness_tool : Session String → ToolCall String → Session String × Disposition
harness_tool s call = (s, shutdown)

abbrev start : Session String
start = record { signal = new; log = []; moment = 0 }

abbrev asked : List (Message String)
asked = record { role = user; content = ContentBlock.text "List the files." ∷ [] } ∷ []

abbrev nothing : Ended String
nothing = record { messages = []; session = start; outcome = interrupted }

abbrev result_of : Option (Ended String) → Ended String
result_of (some e) = e
result_of none = nothing

abbrev after_interrupt : List (Message String)
after_interrupt =
    asked
    ++ (record { role = assistant; content = two_calls }
        ∷ (record {
          role = user;
          content =
              ContentBlock.tool_result "c1" "ok" false
              ∷ (ContentBlock.tool_result "c2" interrupted_by_user true ∷ []);
        }
            ∷ []))

drive_inner_test :
    (result_of (drive_inner interrupting "main" top_level harness_tool 0 1 asked start)).messages
    ≡ after_interrupt
unfolding drive_inner round drain interrupted_since
drive_inner_test = refl

drive_inner-WellFormed_example :
    WellFormed
      (result_of (drive_inner interrupting "main" top_level harness_tool 0 1 asked start)).messages
unfolding drive_inner round drain interrupted_since
drive_inner-WellFormed_example =
    drive_inner-WellFormed interrupting "main" top_level harness_tool 0 1 asked start
      (result_of (drive_inner interrupting "main" top_level harness_tool 0 1 asked start)) (tt, tt)
      refl refl

later_harness :
    (s : Session String) (call : ToolCall String) → s.moment ≤ (harness_tool s call).0.moment
later_harness s call = omega arith

quiet_from : (k : ℕ) (ms : List (Message String)) → 2 ≤ k → ends_turn (answers k ms) ≡ true
quiet_from k ms h = ground arith

drive_inner-ends_example :
    is_some (drive_inner undisturbed "main" top_level harness_tool 0 2 asked start) ≡ true
drive_inner-ends_example =
    drive_inner-ends undisturbed "main" top_level harness_tool 0 later_harness 2 1 asked start
      quiet_from (omega arith)
