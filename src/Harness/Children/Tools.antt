-- ===== src/Harness/Children/Tools.antt =====
-- agent.rs: the Agent and AwaitAgent tools, as functions of the subagents' state. How an agent's number is
-- written as an id is an argument.
use Prim.Native.String
use llmdevsilo.Prelude.{
  ℕ, ◌+◌, ◌-◌, ◌%◌, ◌^◌, false, ◌&&◌, String, [], ◌∷◌, ◌++◌, Option, none, some, ◌==◌, string_eq,
  eqb, leb, if◌then◌else◌, set_at,
}
use llmdevsilo.Core.Tool.{ToolOutput}
use llmdevsilo.Harness.Shutdown.{AbortReason}
use llmdevsilo.Harness.Session.{Disposition}
use llmdevsilo.Harness.Children.{
  max_subagent_depth, ChildResult, Subagents, is_finished, parked_under, find_below, put_child,
  harness_error, harness_ok, label, release, parked, held, running, finished, aborted,
  agent_spawned,
}

module _ (agent_id : ℕ → String) where
  abbrev started : Option String → ℕ → String
  started name i = String.◌++◌ "Started subagent '" (
      String.◌++◌ (label name (agent_id i)) (
        String.◌++◌ "' (" (
          String.◌++◌ (agent_id i) (
            String.◌++◌ "). It runs in the background; collect it with AwaitAgent. Pass agent \""
              (String.◌++◌ (agent_id i) "\" to wait for this one.")))))

  -- The part of `run_agent_tool` behind its checks.
  unfoldable pub start_child : Subagents → ℕ → ℕ → Option String → String → Subagents × ToolOutput
  start_child s agent depth name prompt = (
    record {
      next = (s.next + 1) % 2 ^ 64;
      slots = s.slots - 1;
      child =
          set_at s.next
            (record {
              parent = agent;
              depth = depth + 1;
              name = name;
              task = running;
              doomed = false;
              place = parked;
              emitted = false;
            })
            s.child;
      log = s.log ++ (agent_spawned agent s.next name prompt ∷ []);
    },
    harness_ok (started name s.next),
  )

  -- An empty string counts as absent.
  abbrev pub non_empty : Option String → Option String
  non_empty none = none
  non_empty (some text) = if text == "" then none else some text

  -- The prompt and the name are the strings of the call's input, where it has them.
  unfoldable pub run_agent_tool :
      Subagents → ℕ → ℕ → Option String → Option String → Subagents × ToolOutput
  unfolding start_child
  run_agent_tool s agent depth prompt name = elim (non_empty prompt) [
    | none ↦ (s, harness_error "Agent requires a non-empty 'prompt' string")
    | some text ↦
        if leb max_subagent_depth depth
        then (s, harness_error "subagent depth limit (3) reached")
        else if eqb s.slots 0
        then (s, harness_error "subagent concurrency limit (8) reached")
        else start_child s agent depth (non_empty name) text
  ]

  -- How far AwaitAgent gets before it waits for a task: an answer, nothing yet, or a handle.
  pub data Begun : Type 0 where
    answered : ToolOutput → Begun
    waiting : Begun
    collecting : ℕ → Begun

  abbrev pub take_handle : ℕ → Subagents → Subagents
  take_handle i s = put_child i (record (s.child i) { place = held }) s

  -- A specific child is named by the input; otherwise it is the one that the completion channel, or
  -- the look for a finished task, comes up with (`ready`).
  unfoldable pub await_begin : Subagents → ℕ → Option String → Option ℕ → Subagents × Begun
  await_begin s agent requested ready = elim (non_empty requested) [
    | some id ↦
        elim (find_below (λ i. parked_under agent (s.child i) && (agent_id i == id)) s.next) [
          | some i ↦ (take_handle i s, collecting i)
          | none ↦ (
            s,
            answered (
                harness_error (
                  String.◌++◌ "AwaitAgent: \""
                    (String.◌++◌ id "\" is not an outstanding subagent of this agent"))),
          )
        ]
    | none ↦ elim (find_below (λ i. parked_under agent (s.child i)) s.next) [
      | none ↦ (s, answered (harness_error "AwaitAgent: no subagents are running"))
      | some _ ↦ elim ready [
        | none ↦ (s, waiting)
        | some i ↦
            if parked_under agent (s.child i) && is_finished (s.child i)
            then (take_handle i s, collecting i)
            else (s, waiting)
      ]
    ]
  ]

  abbrev pub abort_disposition : AbortReason → Disposition
  abort_disposition (AbortReason.shutdown message) = Disposition.shutdown
  abort_disposition AbortReason.interrupted = Disposition.interrupted

  -- What the parent is told of a result.
  abbrev pub collected : ℕ → Option String → ChildResult → Disposition
  collected i name r = if r.shutdown then Disposition.shutdown else elim r.script_failure [
    | some detail ↦ Disposition.script_failed detail
    | none ↦ Disposition.output "harness" (record {
      content = String.◌++◌ "Subagent '" (
          String.◌++◌ (label name (agent_id i))
            (String.◌++◌ "' (" (String.◌++◌ (agent_id i) (String.◌++◌ ") finished.\n" r.output))));
      is_error = r.is_error;
    })
  ]

  -- The race of the join with an abort, for a handle that was taken: `none` while it waits.
  unfoldable pub await_end : Subagents → ℕ → Option AbortReason → Subagents × Option Disposition
  unfolding release
  await_end s i (some reason) =
      (put_child i (record (s.child i) { place = parked }) s, some (abort_disposition reason))
  await_end s i none = elim (s.child i).task [
    | running ↦ (s, none)
    | finished r ↦ (release i s, some (collected i (s.child i).name r))
    | aborted ↦ (
      release i s,
      some (
          Disposition.output "harness" (
            harness_error
              (String.◌++◌ "AwaitAgent: subagent " (String.◌++◌ (agent_id i) " task failed")))),
    )
  ]
