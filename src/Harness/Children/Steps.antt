-- ===== src/Harness/Children/Steps.antt =====
-- agent.rs: the moves of a session's agents, in any order that the scheduler chooses. A cancellation
-- aborts, cancels below and joins one child after the other; its moves allow this order and others.
use llmdevsilo.Prelude.{
  ℕ, Bool, true, false, not, ◌&&◌, ◌||◌, String, List, [], ◌∷◌, Option, is_some, eqb, if◌then◌else◌,
}
use llmdevsilo.Harness.Shutdown.{AbortReason}
use llmdevsilo.Harness.Agent.{TurnOutcome}
use llmdevsilo.Harness.Children.{
  Subagents, Child, held, is_running, held_under, parked_under, taken_by, find_below, finish,
  remove_pool, abort, cancelled, die,
}
use llmdevsilo.Harness.Children.Tools.{run_agent_tool, await_begin, await_end}

pub data Op : Type 0 where
  -- The agent, the prompt and the name.
  spawns : ℕ → Option String → Option String → Op
  -- The agent, the requested child, and the child that is ready.
  awaits : ℕ → Option String → Option ℕ → Op
  -- A wait for the child goes on: an abort, or a look at its task.
  resumes : ℕ → Option AbortReason → Op
  -- The child's `drive` is over.
  finishes : ℕ → TurnOutcome → Op
  -- A cancellation: the task of the first agent takes the pool of the second; the task asks for the
  -- abort of a child; the child's task has ended, and the join returns.
  removes : ℕ → ℕ → Op
  aborts : ℕ → ℕ → Op
  joins : ℕ → ℕ → Op
  -- An aborted task is dropped.
  dies : ℕ → Op

-- An agent makes moves of its own while its task runs, no AwaitAgent call of it is open, and it has no
-- cancellation under way. (One that is to be aborted may still do so.)
abbrev pub awaits_child : Subagents → ℕ → Bool
awaits_child s agent = is_some (find_below (λ i. held_under agent (s.child i)) s.next)

abbrev pub lives : Subagents → ℕ → Bool
lives s agent = eqb agent 0 || is_running (s.child agent)

abbrev pub cancels : Subagents → ℕ → Bool
cancels s agent = is_some (find_below (λ i. taken_by agent (s.child i)) s.next)

abbrev pub acts : Subagents → ℕ → Bool
acts s agent = lives s agent && (not (awaits_child s agent) && not (cancels s agent))

abbrev pub has_pool : Subagents → ℕ → Bool
has_pool s agent = is_some (find_below (λ i. parked_under agent (s.child i)) s.next)

-- A cancellation takes the pool of the agent that runs it, whose turn is over, or of a child that it has
-- asked to abort.
abbrev pub may_remove : Subagents → ℕ → ℕ → Bool
may_remove s canceller agent =
    if eqb canceller agent
    then acts s agent
    else lives s canceller && (taken_by canceller (s.child agent) && (s.child agent).doomed)

abbrev pub depth_of : Subagents → ℕ → ℕ
depth_of s agent = if eqb agent 0 then 0 else (s.child agent).depth

abbrev pub is_held : Child → Bool
is_held c = elim c.place [ held ↦ true | _ ↦ false ]

module _ (agent_id : ℕ → String) where
  -- A move that is not enabled changes nothing.
  unfoldable pub step : Subagents → Op → Subagents
  unfolding run_agent_tool await_begin await_end finish remove_pool abort cancelled die
  step s (spawns agent prompt name) =
      if acts s agent then (run_agent_tool agent_id s agent (depth_of s agent) prompt name).0 else s
  step s (awaits agent requested ready) =
      if acts s agent then (await_begin agent_id s agent requested ready).0 else s
  step s (resumes i abort) = if is_held (s.child i) then (await_end agent_id s i abort).0 else s
  step s (finishes i outcome) =
      if is_running (s.child i) && (acts s i && not (has_pool s i)) then finish i outcome s else s
  step s (removes canceller agent) =
      if may_remove s canceller agent then remove_pool canceller agent s else s
  step s (aborts canceller i) =
      if lives s canceller && taken_by canceller (s.child i) then abort i s else s
  step s (joins canceller i) =
      if lives s canceller && (taken_by canceller (s.child i) && not (is_running (s.child i)))
      then cancelled i s
      else s
  step s (dies i) = if is_running (s.child i) && (s.child i).doomed then die i s else s

  unfoldable pub run : Subagents → List Op → Subagents
  unfolding step
  run s [] = s
  run s (op ∷ ops) = run (step s op) ops
