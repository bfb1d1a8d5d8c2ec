-- ===== src/Harness/Children.antt =====
-- crates/silo-harness/src/agent.rs: the subagents of a session. Agents are numbered by the counter,
-- and agent 0 is the top-level agent. A child is the task, whether its abort was asked for, its handle
-- and the flag that they share; the places of the handle are its owner's pool, an AwaitAgent call that
-- took it, a cancellation that took it, or nowhere. The journal's line on a cancellation is left out.
pub mod Tools
pub mod Steps
pub mod Moves
pub mod Slots
pub mod Bounded
pub mod Completed
pub mod Depths
mod Examples
use Prim.Native.String
use llmdevsilo.Prelude.{
  ℕ, zero, suc, ◌+◌, ◌-◌, ◌%◌, ◌^◌, Bool, true, false, not, ◌&&◌, ◌||◌, String, List, [], ◌∷◌, ◌++◌,
  Option, none, some, ◌==◌, string_eq, eqb, leb, if◌then◌else◌, set_at,
}
use llmdevsilo.Core.Conversation.{join_lines}
use llmdevsilo.Core.Tool.{ToolOutput}
use llmdevsilo.Harness.Shutdown.{AbortReason}
use llmdevsilo.Harness.Session.{Disposition}
use llmdevsilo.Harness.Agent.{
  TurnOutcome, completed, shutdown_requested, interrupted, llm_failed, script_failed, failed,
}

abbrev pub max_subagent_depth : ℕ
max_subagent_depth = 3

abbrev pub max_concurrent_subagents : ℕ
max_concurrent_subagents = 8

pub record ChildResult : Type 0 where
  pub output : String
  pub is_error : Bool
  pub shutdown : Bool
  pub script_failure : Option String

abbrev pub child_result_of : TurnOutcome → ChildResult
child_result_of (completed texts) = record {
  output = join_lines texts;
  is_error = false;
  shutdown = false;
  script_failure = none;
}
child_result_of (llm_failed message) = record {
  output = message;
  is_error = true;
  shutdown = false;
  script_failure = none;
}
child_result_of (script_failed message) = record {
  output = message;
  is_error = true;
  shutdown = false;
  script_failure = some message;
}
child_result_of interrupted = record {
  output = "interrupted by the user";
  is_error = true;
  shutdown = false;
  script_failure = none;
}
child_result_of shutdown_requested = record {
  output = "session shutdown requested";
  is_error = true;
  shutdown = true;
  script_failure = none;
}
child_result_of (failed message) = record {
  output = message;
  is_error = true;
  shutdown = false;
  script_failure = none;
}

pub data Task : Type 0 where
  running : Task
  finished : ChildResult → Task
  aborted : Task

pub data Place : Type 0 where
  parked held gone : Place
  -- With the cancellation that this agent's task runs.
  taken : ℕ → Place

pub record Child : Type 0 where
  pub parent : ℕ
  pub depth : ℕ
  pub name : Option String
  pub task : Task
  -- `join.abort()` was called.
  pub doomed : Bool
  pub place : Place
  pub emitted : Bool

-- What stands at a number that was not given out.
abbrev pub no_child : Child
no_child = record {
  parent = 0;
  depth = 0;
  name = none;
  task = aborted;
  doomed = false;
  place = gone;
  emitted = false;
}

pub data Notice : Type 0 where
  -- The parent, the child, its name and the prompt.
  agent_spawned : ℕ → ℕ → Option String → String → Notice
  -- The child, the result, and whether it is an error.
  agent_completed : ℕ → String → Bool → Notice

pub record Subagents : Type 0 where
  pub next : ℕ
  pub slots : ℕ
  pub child : ℕ → Child
  pub log : List Notice

abbrev pub new : Subagents
new = record { next = 1; slots = max_concurrent_subagents; child = λ _. no_child; log = [] }

abbrev pub is_running : Child → Bool
is_running c = elim c.task [ running ↦ true | _ ↦ false ]

abbrev pub is_finished : Child → Bool
is_finished c = elim c.task [ finished _ ↦ true | _ ↦ false ]

abbrev pub parked_under : ℕ → Child → Bool
parked_under agent c = elim c.place [ parked ↦ eqb c.parent agent | _ ↦ false ]

abbrev pub held_under : ℕ → Child → Bool
held_under agent c = elim c.place [ held ↦ eqb c.parent agent | _ ↦ false ]

-- The agent's task has the handle, for an AwaitAgent call or for a cancellation.
abbrev pub taken_by : ℕ → Child → Bool
taken_by agent c = elim c.place [ taken canceller ↦ eqb canceller agent | _ ↦ false ]

abbrev pub with_task : ℕ → Child → Bool
with_task agent c = held_under agent c || taken_by agent c

-- The least number below the bound with a property.
abbrev pub find_below : (ℕ → Bool) → ℕ → Option ℕ
find_below p zero = none
find_below p (suc n) = elim (find_below p n) [
  | some i ↦ some i
  | none ↦ if p n then some n else none
]

abbrev pub put_child : ℕ → Child → Subagents → Subagents
put_child i c s = record s { child = set_at i c s.child }

abbrev pub harness_error : String → ToolOutput
harness_error message = record { content = message; is_error = true }

abbrev pub harness_ok : String → ToolOutput
harness_ok message = record { content = message; is_error = false }

-- `name.as_deref().unwrap_or(&id)`.
abbrev pub label : Option String → String → String
label none id = id
label (some n) id = n

-- `emitted.swap(true)`, and the event for whoever wins it.
unfoldable pub complete : ℕ → String → Bool → Subagents → Subagents
complete i result is_error s = if (s.child i).emitted then s else record s {
  child = set_at i (record (s.child i) { emitted = true }) s.child;
  log = s.log ++ (agent_completed i result is_error ∷ []);
}

-- The permit goes back, and the handle is gone.
unfoldable pub release : ℕ → Subagents → Subagents
release i s = record s {
  slots = suc s.slots;
  child = set_at i (record (s.child i) { place = gone }) s.child;
}

-- The handles that an aborted task drops.
unfoldable pub drop_handles : ℕ → ℕ → Subagents → Subagents
unfolding release
drop_handles agent zero s = s
drop_handles agent (suc i) s =
    let t = drop_handles agent i s in if with_task agent (t.child i) then release i t else t

-- `registry.remove(&agent)`, by the task that cancels.
unfoldable pub remove_pool : ℕ → ℕ → Subagents → Subagents
remove_pool canceller agent s = record s {
  child = λ j.
      if parked_under agent (s.child j)
      then record (s.child j) { place = taken canceller }
      else s.child j;
}

-- `handle.join.abort()`. The task goes on until it next awaits.
unfoldable pub abort : ℕ → Subagents → Subagents
abort i s = put_child i (record (s.child i) { doomed = true }) s

-- The task is dropped at an await.
unfoldable pub die : ℕ → Subagents → Subagents
unfolding drop_handles
die i s =
    put_child i (record ((drop_handles i s.next s).child i) { task = aborted })
      (drop_handles i s.next s)

abbrev pub cancelled_text : String
cancelled_text = "cancelled (parent ended turn without collecting)"

-- What follows the join of a cancelled child.
unfoldable pub cancelled : ℕ → Subagents → Subagents
unfolding complete release
cancelled i s = release i (complete i cancelled_text true s)

-- The end of a child's task, after its `drive`: the result is reported and returned.
unfoldable pub finish : ℕ → TurnOutcome → Subagents → Subagents
unfolding complete
finish i outcome s =
    let r = child_result_of outcome in
    let u = complete i r.output r.is_error s in
    put_child i (record (u.child i) { task = finished r }) u
