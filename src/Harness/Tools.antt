-- ===== src/Harness/Tools.antt =====
-- crates/silo-harness/src/agent.rs: running one tool call of the sandbox or the frontend, and the
-- routing of a call to its owner. The tools that the harness owns itself (Agent, AwaitAgent) are an
-- argument.
pub mod Moments
use Prim.Native.String
use llmdevsilo.Prelude.{
  ℕ, Bool, true, false, String, List, [], ◌∷◌, Option, none, some, ◌==◌, string_eq, if◌then◌else◌,
}
use llmdevsilo.Core.Tool.{ToolCall, ToolOutput, ToolOwner, sandbox, frontend, harness, owner_of}
use llmdevsilo.Harness.Session.{
  World, Session, Event, error, Note, sandbox_mismatch, Entry, tool_exec, lifecycle, ToolResult,
  Race, ready, waits, Disposition, shutdown, interrupted, script_failed, harness_error, journal,
  emit, check, is_shutdown, is_interrupted,
}

module _ (w : World) (agent : String) where
  open w use {
    Json, get_str, insert_str, path_input, encode, run_sandbox, run_frontend, interrupt_sandbox,
    interrupt_frontend,
  }

  -- The `match result` at the end of `run_sandbox_tool`.
  unfoldable pub sandbox_result :
      Session Json → ToolCall Json → ToolResult → Session Json × Disposition
  unfolding journal emit
  sandbox_result s call (ToolResult.output out) = (s, Disposition.output "sandbox" out)
  sandbox_result s call (ToolResult.script_mismatch message) =
      (journal s (lifecycle (sandbox_mismatch agent message)), script_failed message)
  sandbox_result s call (ToolResult.failed message) =
      (emit s (error (String.◌++◌ "sandbox tool " call.name) message), harness_error message)

  -- The Error event where cancelling a tool fails.
  unfoldable pub report_interrupt : Session Json → String → Option String → Session Json
  unfolding emit
  report_interrupt s context none = s
  report_interrupt s context (some message) = emit s (error context message)

  unfoldable pub run_sandbox_tool : Session Json → ToolCall Json → ℕ → Session Json × Disposition
  unfolding sandbox_result report_interrupt check
  run_sandbox_tool s call generation = elim (run_sandbox s.moment call) [
    | ready result ↦ sandbox_result s call result
    | waits result ↦
        let s' = check w s in
        if is_shutdown s'
        then (s', shutdown)
        else if is_interrupted s' generation
        then sandbox_result (report_interrupt s' "sandbox interrupt" (interrupt_sandbox s.moment))
            call result
        else sandbox_result s' call result
  ]

  -- A frontend tool that failed: a shutdown is looked for first.
  unfoldable pub frontend_failed :
      Session Json → ToolCall Json → String → Session Json × Disposition
  unfolding emit check
  frontend_failed s call message =
      let s' = check w s in
      if is_shutdown s'
      then (s', shutdown)
      else (emit s' (error (String.◌++◌ "frontend tool " call.name) message), harness_error message)

  -- The `match result` at the end of `run_frontend_tool`.
  unfoldable pub frontend_result :
      Session Json → ToolCall Json → ToolResult → Session Json × Disposition
  unfolding frontend_failed
  frontend_result s call (ToolResult.output out) = (s, Disposition.output "frontend" out)
  frontend_result s call (ToolResult.script_mismatch message) = frontend_failed s call message
  frontend_result s call (ToolResult.failed message) = frontend_failed s call message

  -- The race of `run_frontend_tool`, for the call as it is forwarded.
  unfoldable pub forward :
      Session Json → ToolCall Json → ToolCall Json → ℕ → Session Json × Disposition
  unfolding frontend_result report_interrupt check
  forward s call forwarded generation = elim (run_frontend s.moment forwarded) [
    | ready result ↦ frontend_result s call result
    | waits result ↦
        let s' = check w s in
        if is_shutdown s'
        then (s', shutdown)
        else if is_interrupted s' generation
        then frontend_result
            (report_interrupt s' "frontend interrupt" (interrupt_frontend s.moment)) call result
        else frontend_result s' call result
  ]

  -- A call that is awaited without a race.
  abbrev pub awaited : Race → ToolResult
  awaited (ready result) = result
  awaited (waits result) = result

  abbrev pub read_call : ToolCall Json → String → ToolCall Json
  read_call call path = record {
    id = String.◌++◌ call.id "-read";
    name = "Read";
    input = path_input path;
  }

  -- The file of a SendUserFile call is read through the sandbox first.
  unfoldable pub send_file :
      Session Json → ToolCall Json → String → ℕ → ToolResult → Session Json × Disposition
  unfolding forward journal emit
  send_file s call path generation (ToolResult.script_mismatch message) =
      (journal s (lifecycle (sandbox_mismatch agent message)), script_failed message)
  send_file s call path generation (ToolResult.failed message) =
      (emit s (error "sandbox tool Read (SendUserFile)" message), harness_error message)
  send_file s call path generation (ToolResult.output out) =
      let s' = journal s (tool_exec agent "sandbox" (read_call call path) out) in
      if out.is_error
      then (
        s',
        Disposition.output "frontend" (record {
          content =
              String.◌++◌ "SendUserFile: cannot read "
                (String.◌++◌ path (String.◌++◌ ": " out.content));
          is_error = true;
        }),
      )
      else forward s' call
          (record call { input = insert_str call.input "content_b64" (encode out.content) })
          generation

  unfoldable pub run_frontend_tool : Session Json → ToolCall Json → ℕ → Session Json × Disposition
  unfolding forward send_file
  run_frontend_tool s call generation =
      if call.name == "SendUserFile"
      then elim (get_str call.input "path") [
        | some path ↦
            send_file s call path generation (awaited (run_sandbox s.moment (read_call call path)))
        | none ↦ forward s call call generation
      ]
      else forward s call call generation

  unfoldable pub execute_tool :
      (Session Json → ToolCall Json → Session Json × Disposition)
      → Session Json
      → ToolCall Json
      → ℕ
      → Session Json × Disposition
  unfolding run_sandbox_tool run_frontend_tool owner_of
  execute_tool run_harness_tool s call generation = elim (owner_of w.registry call.name) [
    | some owner ↦ elim owner [
      | sandbox ↦ run_sandbox_tool s call generation
      | frontend ↦ run_frontend_tool s call generation
      | harness ↦ run_harness_tool s call
    ]
    | none ↦ (
      s,
      Disposition.output "harness"
          (record { content = String.◌++◌ "unknown tool: " call.name; is_error = true }),
    )
  ]
