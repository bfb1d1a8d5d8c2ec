-- ===== src/Harness/Children/Moves.antt =====
-- agent.rs: what a move does, by the ways it can change the state.
use llmdevsilo.Prelude.{
  ℕ, zero, suc, ◌≡◌, refl, Bool, true, false, not, ◌&&◌, String, Option, none, some, eqb, leb,
  if◌then◌else◌, if_elim, ◌==◌, string_eq, arith,
}
use llmdevsilo.Core.Tool.{ToolOutput}
use llmdevsilo.Harness.Shutdown.{AbortReason}
use llmdevsilo.Harness.Agent.{TurnOutcome}
use llmdevsilo.Harness.Children.{
  Task, running, finished, aborted, parked, Subagents, is_running, is_finished, parked_under,
  find_below, put_child, release, finish, harness_error, Child, taken, taken_by, remove_pool, abort,
  cancelled, die, max_subagent_depth,
}
use llmdevsilo.Harness.Children.Tools.{
  start_child, run_agent_tool, non_empty, await_begin, await_end, take_handle, Begun, waiting,
  collecting,
}
use llmdevsilo.Harness.Children.Steps.{
  Op, spawns, awaits, resumes, removes, aborts, joins, dies, acts, has_pool, may_remove, lives,
  depth_of, is_held, step,
}

pub find_below_sound : (p : ℕ → Bool) (n i : ℕ) → find_below p n ≡ some i → p i ≡ true
find_below_sound p zero i h = ground arith
find_below_sound p (suc n) i h = ground (arith, find_below_sound p n i)

and_left : (a b : Bool) → (a && b) ≡ true → a ≡ true
and_left a b h = ground arith

and_right : (a b : Bool) → (a && b) ≡ true → b ≡ true
and_right a b h = ground arith

-- A cancellation has the handle.
abbrev pub is_taken : Child → Bool
is_taken c = elim c.place [ taken _ ↦ true | _ ↦ false ]

taken_by-is_taken : (agent : ℕ) (c : Child) → taken_by agent c ≡ true → is_taken c ≡ true
taken_by-is_taken agent c h = ground arith

module _ {ℓ} (agent_id : ℕ → String) (P : Subagents → Type ℓ) (s : Subagents) where
  run_agent_tool-cases :
      (agent depth : ℕ) (prompt name : Option String)
      → P s
      → ((n : Option String) (text : String)
          → leb max_subagent_depth depth ≡ false
          → eqb s.slots 0 ≡ false
          → P (start_child agent_id s agent depth n text).0)
      → P (run_agent_tool agent_id s agent depth prompt name).0
  unfolding run_agent_tool
  run_agent_tool-cases agent depth prompt name stay start = go (non_empty agent_id prompt)
    where
      go :
          (o : Option String)
          → P
              (elim o as (λ _. Subagents × ToolOutput) [
                | none ↦ (s, harness_error "Agent requires a non-empty 'prompt' string")
                | some text ↦
                    if leb max_subagent_depth depth
                    then (s, harness_error "subagent depth limit (3) reached")
                    else if eqb s.slots 0
                    then (s, harness_error "subagent concurrency limit (8) reached")
                    else start_child agent_id s agent depth (non_empty agent_id name) text
              ]).0
      go none = stay
      go (some text) =
          if_elim (λ (r : Subagents × ToolOutput). P r.0) (leb max_subagent_depth depth) (λ _. stay)
            (λ d.
              if_elim (λ (r : Subagents × ToolOutput). P r.0) (eqb s.slots 0) (λ _. stay)
                (λ z. start (non_empty agent_id name) text d z))

  await_end-cases :
      (i : ℕ) (reason : Option AbortReason)
      → P s
      → P (put_child i (record (s.child i) { place = parked }) s)
      → (is_running (s.child i) ≡ false → P (release i s))
      → P (await_end agent_id s i reason).0
  unfolding await_end
  await_end-cases i (some reason) stay repark collect = repark
  await_end-cases i none stay repark collect = go (s.child i).task refl
    where
      go : (t : Task) → (s.child i).task ≡ t → P (await_end agent_id s i none).0
      go running e = rw (e, await_end) stay
      go (finished r) e = rw (e, await_end) (collect (rw (e) refl))
      go aborted e = rw (e, await_end) (collect (rw (e) refl))

  await_begin-cases :
      (agent : ℕ) (requested : Option String) (ready : Option ℕ)
      → P s
      → ((i : ℕ) → parked_under agent (s.child i) ≡ true → P (take_handle agent_id i s))
      → P (await_begin agent_id s agent requested ready).0
  unfolding await_begin
  await_begin-cases agent requested ready stay take = asked (non_empty agent_id requested) refl
    where
      known : ℕ → String → Bool
      known i id = parked_under agent (s.child i) && (agent_id i == id)

      named :
          (id : String) (found : Option ℕ)
          → non_empty agent_id requested ≡ some id
          → find_below (λ i. known i id) s.next ≡ found
          → P (await_begin agent_id s agent requested ready).0
      named id none e f = rw (e, f, await_begin) stay
      named id (some i) e f =
          rw (e, f, await_begin)
            (take i (
              and_left (parked_under agent (s.child i)) (agent_id i == id)
                (find_below_sound (λ k. known k id) s.next i f)))

      pick :
          (o : Option ℕ)
          → P
              (elim o as (λ _. Subagents × Begun agent_id) [
                | none ↦ (s, waiting)
                | some i ↦
                    if parked_under agent (s.child i) && is_finished (s.child i)
                    then (take_handle agent_id i s, collecting i)
                    else (s, waiting)
              ]).0
      pick none = stay
      pick (some i) =
          if_elim (λ (r : Subagents × Begun agent_id). P r.0)
            (parked_under agent (s.child i) && is_finished (s.child i))
            (λ h. take i (and_left (parked_under agent (s.child i)) (is_finished (s.child i)) h))
            (λ _. stay)

      any_child :
          (found : Option ℕ)
          → non_empty agent_id requested ≡ none
          → find_below (λ i. parked_under agent (s.child i)) s.next ≡ found
          → P (await_begin agent_id s agent requested ready).0
      any_child none e f = rw (e, f, await_begin) stay
      any_child (some i) e f = rw (e, f, await_begin) (pick ready)

      asked :
          (o : Option String)
          → non_empty agent_id requested ≡ o
          → P (await_begin agent_id s agent requested ready).0
      asked none e = any_child (find_below (λ i. parked_under agent (s.child i)) s.next) e refl
      asked (some id) e = named id (find_below (λ i. known i id) s.next) e refl

  -- The ways in which a move can change the state.
  pub step-cases :
      (op : Op)
      → P s
      → ((agent : ℕ) (name : Option String) (text : String)
          → acts s agent ≡ true
          → leb max_subagent_depth (depth_of s agent) ≡ false
          → eqb s.slots 0 ≡ false
          → P (start_child agent_id s agent (depth_of s agent) name text).0)
      → ((agent i : ℕ)
          → acts s agent ≡ true
          → parked_under agent (s.child i) ≡ true
          → P (take_handle agent_id i s))
      → ((i : ℕ)
          → is_held (s.child i) ≡ true
          → P (put_child i (record (s.child i) { place = parked }) s))
      → ((i : ℕ) → is_held (s.child i) ≡ true → is_running (s.child i) ≡ false → P (release i s))
      → ((i : ℕ) (outcome : TurnOutcome) → is_running (s.child i) ≡ true → P (finish i outcome s))
      → ((canceller agent : ℕ) → P (remove_pool canceller agent s))
      → ((i : ℕ) → is_taken (s.child i) ≡ true → P (abort i s))
      → ((i : ℕ) → is_taken (s.child i) ≡ true → P (cancelled i s))
      → ((i : ℕ) → is_running (s.child i) ≡ true → P (die i s))
      → P (step agent_id s op)
  unfolding step
  step-cases (spawns agent prompt name) stay start take repark collect ended removed doom joined
        died =
      if_elim P (acts s agent)
        (λ a.
          run_agent_tool-cases agent (depth_of s agent) prompt name stay
            (λ n text d z. start agent n text a d z))
        (λ _. stay)
  step-cases (awaits agent requested ready) stay start take repark collect ended removed doom joined
        died =
      if_elim P (acts s agent)
        (λ a. await_begin-cases agent requested ready stay (λ i h. take agent i a h)) (λ _. stay)
  step-cases (resumes i reason) stay start take repark collect ended removed doom joined died =
      if_elim P (is_held (s.child i))
        (λ h. await_end-cases i reason stay (repark i h) (λ r. collect i h r)) (λ _. stay)
  step-cases (Op.finishes i outcome) stay start take repark collect ended removed doom joined died =
      if_elim P (is_running (s.child i) && (acts s i && not (has_pool s i)))
        (λ h. ended i outcome (and_left (is_running (s.child i)) _ h)) (λ _. stay)
  step-cases (removes canceller agent) stay start take repark collect ended removed doom joined
        died =
      if_elim P (may_remove s canceller agent) (λ _. removed canceller agent) (λ _. stay)
  step-cases (aborts canceller i) stay start take repark collect ended removed doom joined died =
      if_elim P (lives s canceller && taken_by canceller (s.child i))
        (λ h. doom i (taken_by-is_taken canceller (s.child i) (and_right (lives s canceller) _ h)))
        (λ _. stay)
  step-cases (joins canceller i) stay start take repark collect ended removed doom joined died =
      if_elim P
        (lives s canceller && (taken_by canceller (s.child i) && not (is_running (s.child i))))
        (λ h. joined i (
          taken_by-is_taken canceller (s.child i)
            (and_left (taken_by canceller (s.child i)) _ (and_right (lives s canceller) _ h))))
        (λ _. stay)
  step-cases (dies i) stay start take repark collect ended removed doom joined died =
      if_elim P (is_running (s.child i) && (s.child i).doomed)
        (λ h. died i (and_left (is_running (s.child i)) _ h)) (λ _. stay)
