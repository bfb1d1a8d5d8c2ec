-- ===== src/Harness/Children/Examples.antt =====
-- agent.rs: runs of the subagents at concrete moves.
use llmdevsilo.Prelude.{
  ℕ, ◌+◌, ◌≡◌, ◌≤◌, refl, true, not, ◌||◌, String, List, [], ◌∷◌, none, some, eqb, arith,
  if◌then◌else◌,
}
use llmdevsilo.Harness.Agent.{completed}
use llmdevsilo.Harness.Children.{
  gone, parked, new, is_running, is_finished, complete, release, remove_pool, abort, die,
  drop_handles, cancelled,
}
use llmdevsilo.Harness.Children.Tools.{start_child, run_agent_tool, await_begin}
use llmdevsilo.Harness.Children.Steps.{
  Op, spawns, awaits, resumes, finishes, removes, aborts, joins, dies, step, run,
}
use llmdevsilo.Harness.Children.Slots.{permits}
use llmdevsilo.Harness.Children.Bounded.{run-permits}
use llmdevsilo.Harness.Children.Depths.{NestedAt, run-NestedAt}
use llmdevsilo.Harness.Children.Completed.{completions, run-completions}

abbrev agent_id : ℕ → String
agent_id n = if eqb n 1 then "agent-1" else "agent-2"

-- A child with a child of its own.
abbrev two_levels : List Op
two_levels = spawns 0 (some "review") none ∷ spawns 1 (some "search") (some "scout") ∷ []

-- The first child is collected.
abbrev collected_child : List Op
collected_child =
    spawns 0 (some "review") none
    ∷ finishes 1 (completed ("done" ∷ []))
    ∷ awaits 0 none (some 1)
    ∷ resumes 1 none
    ∷ []

-- The top-level turn ends while the first child waits, so that it is aborted and cancelled.
abbrev ended : List Op
ended =
    spawns 0 (some "review") none
    ∷ spawns 1 (some "search") (some "scout")
    ∷ awaits 1 (some "agent-2") none
    ∷ removes 0 0
    ∷ aborts 0 1
    ∷ dies 1
    ∷ joins 0 1
    ∷ []

-- The first child spawns after the cancellation has looked for its children.
abbrev late_spawn : List Op
late_spawn =
    spawns 0 (some "review") none
    ∷ removes 0 0
    ∷ aborts 0 1
    ∷ removes 0 1
    ∷ spawns 1 (some "search") none
    ∷ dies 1
    ∷ joins 0 1
    ∷ []

run-permits_example :
    (run agent_id new two_levels).slots + permits (run agent_id new two_levels) ≡ 8
run-permits_example = run-permits agent_id two_levels (omega arith)

run-completions_example :
    (completions 1 (run agent_id new collected_child).log ≤ 1)
    × (not (is_finished ((run agent_id new collected_child).child 1))
          || eqb (completions 1 (run agent_id new collected_child).log) 1
        ≡ true)
run-completions_example = run-completions agent_id collected_child 1 (omega arith)

run-NestedAt_example : NestedAt (run agent_id new two_levels) 2
unfolding run step run_agent_tool start_child
run-NestedAt_example = run-NestedAt agent_id two_levels 2 (omega arith) (omega arith) (omega arith)

-- The child that the aborted agent waited for runs on, with its slot given back.
waiting_child_runs_on :
    (is_running ((run agent_id new ended).child 2) ≡ true)
    × (((run agent_id new ended).child 2).place ≡ gone)
    × ((run agent_id new ended).slots ≡ 8)
unfolding run step run_agent_tool start_child await_begin remove_pool abort die drop_handles
    cancelled release complete
waiting_child_runs_on = (refl, refl, refl)

-- The late child runs on in a pool that is never cancelled, and keeps its slot.
late_child_runs_on :
    (is_running ((run agent_id new late_spawn).child 2) ≡ true)
    × (((run agent_id new late_spawn).child 2).place ≡ parked)
    × ((run agent_id new late_spawn).slots ≡ 7)
unfolding run step run_agent_tool start_child remove_pool abort die drop_handles cancelled release
    complete
late_child_runs_on = (refl, refl, refl)
