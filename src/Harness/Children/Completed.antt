-- ===== src/Harness/Children/Completed.antt =====
-- agent.rs: the `AgentCompleted` events of the subagents.
use llmdevsilo.Prelude.{
  ℕ, zero, suc, not, ◌≤◌, ◌+◌, ◌^◌, ◌<◌, ◌≡◌, refl, sym, ap, subst, ◌∙◌, or_true, Bool, true, false,
  ◌||◌, String, List, [], ◌∷◌, ◌++◌, Option, eqb, eqb_iff, length, arith, if◌then◌else◌, if_elim,
  set_at, set_at_same,
}
use llmdevsilo.Harness.Agent.{TurnOutcome}
use llmdevsilo.Harness.Children.Moves.{step-cases}
use llmdevsilo.Harness.Children.Steps.{Op, depth_of, step, run}
use llmdevsilo.Harness.Children.Slots.{Balanced}
use llmdevsilo.Harness.Children.Bounded.{Room, step-Room, new-Balanced}
use llmdevsilo.Harness.Children.{
  running, finished, aborted, parked, held, gone, Place, Child, Notice, agent_spawned,
  agent_completed, Subagents, new, is_finished, parked_under, with_task, put_child, complete,
  release, drop_handles, remove_pool, abort, die, cancelled_text, cancelled, finish,
  child_result_of,
}
use llmdevsilo.Harness.Children.Tools.{start_child}

-- How often the log says that the child completed.
abbrev pub completions : ℕ → List Notice → ℕ
completions i [] = 0
completions i (agent_spawned parent child name prompt ∷ log) = completions i log
completions i (agent_completed child result is_error ∷ log) =
    (if eqb child i then 1 else 0) + completions i log

abbrev pub flag : Bool → ℕ
flag b = if b then 1 else 0

-- The flag says whether the event is out, and it is out for a task that ran to its end.
abbrev pub ToldOf : ℕ → Child → Type 0
ToldOf n c = (n ≡ flag c.emitted) × (c.emitted || not (is_finished c) ≡ true)

abbrev pub Told : Subagents → Type 0
Told s = (j : ℕ) → ToldOf (completions j s.log) (s.child j)

completions-append :
    (i : ℕ) (xs ys : List Notice) → completions i (xs ++ ys) ≡ completions i xs + completions i ys
completions-append i [] ys = omega arith
completions-append i (agent_spawned p c n t ∷ xs) ys = completions-append i xs ys
completions-append i (agent_completed c r e ∷ xs) ys =
    let h = completions-append i xs ys in omega arith

module _ (s : Subagents) (told : Told s) where
  -- A change of one child that keeps its flag.
  set_at-Told :
      (i : ℕ) (c : Child) (t : Subagents)
      → t.child ≡ set_at i c s.child
      → t.log ≡ s.log
      → c.emitted ≡ (s.child i).emitted
      → c.emitted || not (is_finished c) ≡ true
      → Told t
  set_at-Told i c t e l f u j =
      rw (e, l)
        (if_elim (ToldOf (completions j s.log)) (eqb i j)
          (λ h. (
            subst (λ k. completions k s.log ≡ flag c.emitted) ((eqb_iff i j).0 h)
                ((told i).0 ∙ ap flag (sym f)),
            u,
          ))
          (λ _. told j))

  complete-Told : (i : ℕ) (result : String) (is_error : Bool) → Told (complete i result is_error s)
  unfolding complete
  complete-Told i result is_error =
      if_elim Told (s.child i).emitted (λ _. told)
        (λ h j.
          let n = completions-append j s.log (agent_completed i result is_error ∷ []) in
          if_elim (ToldOf (completions j (s.log ++ (agent_completed i result is_error ∷ []))))
            (eqb i j)
            (λ e.
              let zero_yet : completions j s.log ≡ 0 =
                subst (λ k. completions k s.log ≡ 0) ((eqb_iff i j).0 e) ((told i).0 ∙ ap flag h) in
              (n ∙ rw (e) (omega arith), refl))
            (λ e. (n ∙ rw (e) (omega arith) ∙ (told j).0, (told j).1)))

complete-emitted :
    (i : ℕ) (result : String) (is_error : Bool) (s : Subagents)
    → ((complete i result is_error s).child i).emitted ≡ true
unfolding complete
complete-emitted i result is_error s =
    if_elim (λ (t : Subagents). (t.child i).emitted ≡ true) (s.child i).emitted (λ h. h)
      (λ _.
        ap (λ (c : Child). c.emitted)
          (set_at_same i (record (s.child i) { emitted = true }) s.child))

-- A change of one child's place.
placed-Told :
    (i : ℕ) (place : Place) (s : Subagents)
    → Told s
    → Told (put_child i (record (s.child i) { place = place }) s)
placed-Told i place s told =
    set_at-Told s told i (record (s.child i) { place = place })
      (put_child i (record (s.child i) { place = place }) s) refl refl refl (told i).1

release-Told : (i : ℕ) (s : Subagents) → Told s → Told (release i s)
unfolding release
release-Told i s told =
    set_at-Told s told i (record (s.child i) { place = gone }) (release i s) refl refl refl
      (told i).1

drop_handles-Told : (a i : ℕ) (s : Subagents) → Told s → Told (drop_handles a i s)
unfolding drop_handles
drop_handles-Told a zero s told = told
drop_handles-Told a (suc i) s told =
    if_elim Told (with_task a ((drop_handles a i s).child i))
      (λ _. release-Told i (drop_handles a i s) (drop_handles-Told a i s told))
      (λ _. drop_handles-Told a i s told)

die-Told : (i : ℕ) (s : Subagents) → Told s → Told (die i s)
unfolding die
die-Told i s told =
    let t = drop_handles i s.next s in
    set_at-Told t (drop_handles-Told i s.next s told) i (record (t.child i) { task = aborted })
      (put_child i (record (t.child i) { task = aborted }) t) refl refl refl
      (or_true (t.child i).emitted)

abort-Told : (i : ℕ) (s : Subagents) → Told s → Told (abort i s)
unfolding abort
abort-Told i s told =
    set_at-Told s told i (record (s.child i) { doomed = true })
      (put_child i (record (s.child i) { doomed = true }) s) refl refl refl (told i).1

remove_pool-Told :
    (canceller agent : ℕ) (s : Subagents) → Told s → Told (remove_pool canceller agent s)
unfolding remove_pool
remove_pool-Told canceller agent s told j =
    if_elim (ToldOf (completions j s.log)) (parked_under agent (s.child j)) (λ _. told j)
      (λ _. told j)

cancelled-Told : (i : ℕ) (s : Subagents) → Told s → Told (cancelled i s)
unfolding cancelled
cancelled-Told i s told =
    release-Told i (complete i cancelled_text true s) (complete-Told s told i cancelled_text true)

finish-Told : (i : ℕ) (outcome : TurnOutcome) (s : Subagents) → Told s → Told (finish i outcome s)
unfolding finish
finish-Told i outcome s told =
    let r = child_result_of outcome in
    let u = complete i r.output r.is_error s in
    set_at-Told u (complete-Told s told i r.output r.is_error) i
      (record (u.child i) { task = finished r })
      (put_child i (record (u.child i) { task = finished r }) u) refl refl refl
      (ap (λ b. b || not (is_finished (record (u.child i) { task = finished r })))
        (complete-emitted i r.output r.is_error s))

flag_once : (n : ℕ) (c : Child) → ToldOf n c → (n ≤ 1) × (not (is_finished c) || eqb n 1 ≡ true)
flag_once n c (e, h) = ground (arith, eqb_iff n 1)

module _ (agent_id : ℕ → String) where
  start_child-Told :
      (s : Subagents) (agent depth : ℕ) (name : Option String) (prompt : String)
      → Told s
      → Balanced s
      → Told (start_child agent_id s agent depth name prompt).0
  unfolding start_child
  start_child-Told s agent depth name prompt told b j =
      let fresh : Child = record {
        parent = agent;
        depth = depth + 1;
        name = name;
        task = running;
        doomed = false;
        place = parked;
        emitted = false;
      } in
      let n = completions-append j s.log (agent_spawned agent s.next name prompt ∷ []) in
      if_elim (ToldOf (completions j (s.log ++ (agent_spawned agent s.next name prompt ∷ []))))
        (eqb s.next j)
        (λ e.
          let blank = b.beyond j (ground (arith, eqb_iff s.next j)) in
          let zero_yet : completions j s.log ≡ 0 =
            (told j).0 ∙ ap (λ (c : Child). flag c.emitted) blank in
          (n ∙ omega arith, refl))
        (λ _. (n ∙ omega arith ∙ (told j).0, (told j).1))

  step-Told : (s : Subagents) (op : Op) → Balanced s → Told s → Told (step agent_id s op)
  step-Told s op b told =
      step-cases agent_id Told s op told
        (λ agent name text _ _ _. start_child-Told s agent (depth_of s agent) name text told b)
        (λ agent i _ _. placed-Told i held s told) (λ i _. placed-Told i parked s told)
        (λ i _ _. release-Told i s told) (λ i outcome _. finish-Told i outcome s told)
        (λ canceller agent. remove_pool-Told canceller agent s told) (λ i _. abort-Told i s told)
        (λ i _. cancelled-Told i s told) (λ i _. die-Told i s told)

  run-Told :
      (ops : List Op) (s : Subagents) → Room (length ops) s → Told s → Told (run agent_id s ops)
  unfolding run
  run-Told [] s r told = told
  run-Told (op ∷ ops) s r told =
      run-Told ops (step agent_id s op) (step-Room agent_id (length ops) s op r)
        (step-Told s op r.0 told)

  -- In every state that a session reaches by fewer than 2 ^ 64 - 1 moves of its agents, in whatever
  -- order and with cancellations at any point, the log says at most once of a child that it completed,
  -- and exactly once if the child's task ran to its end. (Of a child whose task was aborted it may never
  -- say so: its handle may be dropped with the task that cancels it.)
  pub run-completions :
      (ops : List Op) (i : ℕ)
      → 1 + length ops < 2 ^ 64
      → (completions i (run agent_id new ops).log ≤ 1)
        × (not (is_finished ((run agent_id new ops).child i))
              || eqb (completions i (run agent_id new ops).log) 1
            ≡ true)
  run-completions ops i h =
      flag_once (completions i (run agent_id new ops).log) ((run agent_id new ops).child i)
        (run-Told ops new (new-Balanced agent_id, h) (λ j. (refl, refl)) i)
