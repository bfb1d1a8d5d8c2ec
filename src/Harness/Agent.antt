-- ===== src/Harness/Agent.antt =====
-- crates/silo-harness/src/agent.rs: the loop of one conversation, `drive_inner`.
pub mod Conversation
pub mod Turns
pub mod Legal
use Prim.Native.String
use llmdevsilo.Prelude.{
  ℕ, zero, suc, ◌-◌, Bool, true, false, String, List, [], ◌∷◌, ◌++◌, map, Option, none, some,
  is_some, length, drop, if◌then◌else◌, ◌⊎◌, inl, inr,
}
use llmdevsilo.Core.Conversation.{
  AgentKind, top_level, subagent, user, assistant, ContentBlock, Message, StopReason,
  CompletionResponse, texts,
}
use llmdevsilo.Core.Tool.{ToolCall, ToolOutput, interrupted_by_user}
use llmdevsilo.Harness.Session.{
  World, Session, Event, assistant_text, cost_report, turn_complete, error, Note, llm_aborted,
  llm_mismatch, calls_cancelled, hit_max_tokens, Entry, llm_request, llm_response, tool_exec,
  lifecycle, Completion, response, Disposition, journal, emit, check, is_shutdown, is_interrupted,
}
use llmdevsilo.Harness.Tools.{execute_tool}

-- How a conversation ended; `failed` is the `Err` of `drive`. The final text is its text blocks.
pub data TurnOutcome : Type 0 where
  completed : List String → TurnOutcome
  shutdown_requested interrupted : TurnOutcome
  llm_failed script_failed failed : String → TurnOutcome

-- The tool uses of a response, in order.
abbrev pub tool_calls : {Json : Type 0} → List (ContentBlock Json) → List (ToolCall Json)
tool_calls [] = []
tool_calls (ContentBlock.text t ∷ blocks) = tool_calls blocks
tool_calls (ContentBlock.tool_use id name input ∷ blocks) =
    record { id = id; name = name; input = input } ∷ tool_calls blocks
tool_calls (ContentBlock.tool_result id content is_error ∷ blocks) = tool_calls blocks

-- `stop_reason == StopReason::X`.
abbrev pub is_tool_use : StopReason → Bool
is_tool_use StopReason.tool_use = true
is_tool_use _ = false

abbrev pub is_max_tokens : StopReason → Bool
is_max_tokens StopReason.max_tokens = true
is_max_tokens _ = false

abbrev pub is_top_level : AgentKind → Bool
is_top_level top_level = true
is_top_level subagent = false

-- The conversation, the session and the outcome when the loop returns.
pub record Ended (Json : Type 0) : Type 0 where
  pub messages : List (Message Json)
  pub session : Session Json
  pub outcome : TurnOutcome

-- How the loop over the tool calls of one response ends: with all results, cut off by an interrupt
-- with the results so far, or by leaving the conversation.
pub data Calls (Json : Type 0) : Type 0 where
  all_run : Session Json → List (ContentBlock Json) → Calls Json
  cut : Session Json → List (ContentBlock Json) → Calls Json
  left : Session Json → TurnOutcome → Calls Json

module _ (w : World) (agent : String) (kind : AgentKind)
    (run_harness_tool : Session w.Json → ToolCall w.Json → Session w.Json × Disposition)
    (generation : ℕ) where
  open w use {Json, complete}

  unfoldable pub end_of_turn : Session Json → CompletionResponse Json → Session Json
  unfolding journal emit
  end_of_turn s r =
      let s' =
        if is_max_tokens r.stop_reason then journal s (lifecycle (hit_max_tokens agent)) else s in
      if is_top_level kind then emit s' (turn_complete agent r.stop_reason) else s'

  -- A result is journalled, emitted and kept.
  unfoldable pub record_output : Session Json → ToolCall Json → String → ToolOutput → Session Json
  unfolding journal emit
  record_output s call owner out =
      emit (journal s (tool_exec agent owner call out))
        (Event.tool_result agent call.id call.name out)

  abbrev result_block : ToolCall Json → ToolOutput → ContentBlock Json
  result_block call out = ContentBlock.tool_result call.id out.content out.is_error

  -- What follows a call: the next one behind an output, or the end of the loop.
  abbrev after_tool :
      Session Json
      → List (ContentBlock Json)
      → (String → ToolOutput → Calls Json)
      → Disposition
      → Calls Json
  after_tool s results next (Disposition.output owner out) = next owner out
  after_tool s results next Disposition.shutdown = left s shutdown_requested
  after_tool s results next Disposition.interrupted = cut s results
  after_tool s results next (Disposition.script_failed message) = left s (script_failed message)
  after_tool s results next (Disposition.harness_error message) = left s (failed message)

  abbrev start_call : Session Json → ToolCall Json → Session Json × Disposition
  start_call s call =
      execute_tool w agent run_harness_tool (emit s (Event.tool_use agent call)) call generation

  -- The `for call in &tool_calls` loop; the results so far are the last argument.
  unfoldable pub run_calls :
      Session Json → List (ToolCall Json) → List (ContentBlock Json) → Calls Json
  unfolding check emit execute_tool record_output
  run_calls s [] results = all_run s results
  run_calls s (call ∷ calls) results =
      let s1 = check w s in
      let step = start_call s1 call in
      if is_shutdown s1
      then left s1 shutdown_requested
      else if is_interrupted s1 generation
      then cut s1 results
      else after_tool step.0 results
          (λ owner out.
            run_calls (record_output step.0 call owner out) calls
              (results ++ (result_block call out ∷ [])))
          step.1

  unfoldable pub emit_texts : Session Json → List String → Session Json
  unfolding emit
  emit_texts s [] = s
  emit_texts s (t ∷ ts) = emit_texts (emit s (assistant_text agent t)) ts

  -- The synthetic results of the calls that were not run.
  abbrev pub synthetic : List (ToolCall Json) → List (ContentBlock Json)
  synthetic calls = map (λ call. ContentBlock.tool_result call.id interrupted_by_user true) calls

  abbrev pub says : List (ContentBlock Json) → Message Json
  says content = record { role = user; content = content }

  -- Either the conversation ends, or it goes on with the messages and the session.
  abbrev pub Next : Type 0
  Next = Ended Json ⊎ (List (Message Json) × Session Json)

  abbrev stop : List (Message Json) → Session Json → TurnOutcome → Next
  stop ms s outcome = inl (record { messages = ms; session = s; outcome = outcome })

  -- The part of the loop's body behind the tool calls.
  unfoldable pub after_calls : List (Message Json) → CompletionResponse Json → Calls Json → Next
  unfolding journal end_of_turn
  after_calls ms r (left s outcome) = stop ms s outcome
  after_calls ms r (cut s results) =
      let calls = tool_calls r.content in
      stop (ms ++ (says (results ++ synthetic (drop (length results) calls)) ∷ []))
        (journal s (lifecycle (calls_cancelled agent (length calls - length results))))
        TurnOutcome.interrupted
  after_calls ms r (all_run s results) =
      let ms' = ms ++ (says results ∷ []) in
      if is_tool_use r.stop_reason
      then inr (ms', s)
      else stop ms' (end_of_turn s r) (completed (texts r.content))

  -- The part of the loop's body behind a response of the backend.
  unfoldable pub respond : List (Message Json) → Session Json → CompletionResponse Json → Next
  unfolding journal emit emit_texts end_of_turn run_calls after_calls
  respond ms s r =
      let s' =
        emit (emit_texts (journal s (llm_response agent r.content)) (texts r.content))
          cost_report in
      let ms' = ms ++ (record { role = assistant; content = r.content } ∷ []) in
      elim (tool_calls r.content) [
        | [] ↦ stop ms' (end_of_turn s' r) (completed (texts r.content))
        | call ∷ calls ↦ after_calls ms' r (run_calls s' (call ∷ calls) [])
      ]

  unfoldable pub complete_turn : List (Message Json) → Session Json → Completion Json → Next
  unfolding journal emit respond
  complete_turn ms s (response r) = respond ms s r
  complete_turn ms s (Completion.script_mismatch message) =
      stop ms (journal s (lifecycle (llm_mismatch agent message))) (script_failed message)
  complete_turn ms s (Completion.failed message) =
      stop ms
        (emit (journal s (lifecycle (Note.llm_failed agent message)))
          (error (String.◌++◌ "llm:" agent) message))
        (llm_failed message)

  -- One round of the loop: the checks, the request, and the race of the completion with an abort.
  unfoldable pub round : List (Message Json) → Session Json → Next
  unfolding check journal complete_turn
  round ms s =
      let s1 = check w s in
      let s2 = journal s1 (llm_request agent ms) in
      let s3 = check w s2 in
      if is_shutdown s1
      then stop ms s1 shutdown_requested
      else if is_interrupted s1 generation
      then stop ms s1 interrupted
      else if is_shutdown s3
      then stop ms s3 shutdown_requested
      else if is_interrupted s3 generation
      then stop ms (journal s3 (lifecycle (llm_aborted agent))) interrupted
      else complete_turn ms s3 (complete s2.moment ms)

  -- `drive_inner`: `none` is a loop that has not ended within the fuel.
  unfoldable pub drive_inner : ℕ → List (Message Json) → Session Json → Option (Ended Json)
  drive_inner zero ms s = none
  drive_inner (suc fuel) ms s = elim (round ms s) [
    | inl ended ↦ some ended
    | inr next ↦ drive_inner fuel next.0 next.1
  ]
