-- ===== src/Harness/Tools/Moments.antt =====
-- agent.rs: running a tool only moves on to later moments.
use llmdevsilo.Prelude.{
  ℕ, ◌≤◌, ◌≡◌, refl, String, Option, none, some, if_elim, arith, ◌==◌, string_eq, if◌then◌else◌,
}
use llmdevsilo.Core.Tool.{ToolCall, ToolOwner, sandbox, frontend, harness, owner_of}
use llmdevsilo.Harness.Session.{
  World, Session, ToolResult, Race, ready, waits, Disposition, shutdown, journal, emit, check,
  is_shutdown, is_interrupted,
}
use llmdevsilo.Harness.Tools.{
  sandbox_result, report_interrupt, run_sandbox_tool, frontend_failed, frontend_result, forward,
  send_file, run_frontend_tool, execute_tool, awaited, read_call,
}

module _ (w : World) (agent : String) where
  open w use {Json}

  sandbox_result-moment :
      (s : Session Json) (call : ToolCall Json) (r : ToolResult)
      → (sandbox_result w agent s call r).0.moment ≡ s.moment
  unfolding sandbox_result journal emit
  sandbox_result-moment s call (ToolResult.output out) = refl
  sandbox_result-moment s call (ToolResult.script_mismatch message) = refl
  sandbox_result-moment s call (ToolResult.failed message) = refl

  report_interrupt-moment :
      (s : Session Json) (context : String) (e : Option String)
      → (report_interrupt w agent s context e).moment ≡ s.moment
  unfolding report_interrupt journal emit
  report_interrupt-moment s context none = refl
  report_interrupt-moment s context (some message) = refl

  pub check-moment : (s : Session Json) → s.moment ≤ (check w s).moment
  unfolding check
  check-moment s = omega arith

  abbrev Later : ℕ → Session Json × Disposition → Type 0
  Later m step = m ≤ step.0.moment

  -- The race of a tool with an abort, for what is made of its result.
  race-moment :
      (result : Session Json → ToolResult → Session Json × Disposition) (s : Session Json)
      (generation : ℕ) (context : String) (e : Option String) (race : Race)
      → ((s' : Session Json) (r : ToolResult) → s.moment ≤ s'.moment → Later s.moment (result s' r))
      → Later s.moment (elim race [
        | ready r ↦ result s r
        | waits r ↦
            let s' = check w s in
            if is_shutdown s'
            then (s', shutdown)
            else if is_interrupted s' generation
            then result (report_interrupt w agent s' context e) r
            else result s' r
      ])
  race-moment result s generation context e (ready r) keeps = keeps s r (omega arith)
  race-moment result s generation context e (waits r) keeps =
      if_elim (Later s.moment) (is_shutdown (check w s)) (λ _. check-moment s)
        (λ _.
          if_elim (Later s.moment) (is_interrupted (check w s) generation)
            (λ _.
              keeps (report_interrupt w agent (check w s) context e) r
                (rw (report_interrupt-moment (check w s) context e) (check-moment s)))
            (λ _. keeps (check w s) r (check-moment s)))

  run_sandbox_tool-moment :
      (s : Session Json) (call : ToolCall Json) (generation : ℕ)
      → Later s.moment (run_sandbox_tool w agent s call generation)
  unfolding run_sandbox_tool
  run_sandbox_tool-moment s call generation =
      race-moment (λ s' r. sandbox_result w agent s' call r) s generation "sandbox interrupt"
        (w.interrupt_sandbox s.moment) (w.run_sandbox s.moment call)
        (λ s' r h. rw (sandbox_result-moment s' call r) h)

  frontend_failed-moment :
      (s : Session Json) (call : ToolCall Json) (message : String)
      → Later s.moment (frontend_failed w agent s call message)
  unfolding frontend_failed emit journal
  frontend_failed-moment s call message =
      if_elim (Later s.moment) (is_shutdown (check w s)) (λ _. check-moment s) (λ _. check-moment s)

  frontend_result-moment :
      (s : Session Json) (call : ToolCall Json) (r : ToolResult)
      → Later s.moment (frontend_result w agent s call r)
  unfolding frontend_result
  frontend_result-moment s call (ToolResult.output out) = omega arith
  frontend_result-moment s call (ToolResult.script_mismatch message) =
      frontend_failed-moment s call message
  frontend_result-moment s call (ToolResult.failed message) = frontend_failed-moment s call message

  forward-moment :
      (s : Session Json) (call forwarded : ToolCall Json) (generation : ℕ)
      → Later s.moment (forward w agent s call forwarded generation)
  unfolding forward
  forward-moment s call forwarded generation =
      race-moment (λ s' r. frontend_result w agent s' call r) s generation "frontend interrupt"
        (w.interrupt_frontend s.moment) (w.run_frontend s.moment forwarded)
        (λ s' r h. let k = frontend_result-moment s' call r in omega arith)

  send_file-moment :
      (s : Session Json) (call : ToolCall Json) (path : String) (generation : ℕ) (r : ToolResult)
      → Later s.moment (send_file w agent s call path generation r)
  unfolding send_file journal emit
  send_file-moment s call path generation (ToolResult.output out) =
      if_elim (Later s.moment) out.is_error (λ _. omega arith)
        (λ _. forward-moment _ call _ generation)
  send_file-moment s call path generation (ToolResult.script_mismatch message) = omega arith
  send_file-moment s call path generation (ToolResult.failed message) = omega arith

  run_frontend_tool-moment :
      (s : Session Json) (call : ToolCall Json) (generation : ℕ)
      → Later s.moment (run_frontend_tool w agent s call generation)
  unfolding run_frontend_tool
  run_frontend_tool-moment s call generation =
      if_elim (Later s.moment) (call.name == "SendUserFile")
        (λ _. read_first (w.get_str call.input "path")) (λ _. forward-moment s call call generation)
    where
      read_first :
          (path : Option String)
          → Later s.moment (elim path [
            | some p ↦
                send_file w agent s call p generation
                  (awaited w agent (w.run_sandbox s.moment (read_call w agent call p)))
            | none ↦ forward w agent s call call generation
          ])
      read_first none = forward-moment s call call generation
      read_first (some p) = send_file-moment s call p generation _

  pub execute_tool-moment :
      (run_harness_tool : Session Json → ToolCall Json → Session Json × Disposition)
      (s : Session Json) (call : ToolCall Json) (generation : ℕ)
      → ((s' : Session Json) (c : ToolCall Json) → s'.moment ≤ (run_harness_tool s' c).0.moment)
      → s.moment ≤ (execute_tool w agent run_harness_tool s call generation).0.moment
  unfolding execute_tool
  execute_tool-moment run_harness_tool s call generation later =
      go (owner_of w.registry call.name) refl
    where
      go :
          (owner : Option ToolOwner)
          → owner_of w.registry call.name ≡ owner
          → Later s.moment (execute_tool w agent run_harness_tool s call generation)
      go none e = rw (e, execute_tool) (omega arith)
      go (some sandbox) e = rw (e, execute_tool) (run_sandbox_tool-moment s call generation)
      go (some frontend) e = rw (e, execute_tool) (run_frontend_tool-moment s call generation)
      go (some harness) e = rw (e, execute_tool) (later s call)
