-- ===== src/Harness/Children/Bounded.antt =====
-- agent.rs: no more subagents than slots, whatever the agents do.
use mathlib.Core.Bool.{false≢true}
use llmdevsilo.Prelude.{
  ℕ, suc, Bool, ◌≤◌, if_elim, ◌+◌, ◌%◌, ◌^◌, ◌<◌, ◌≡◌, refl, sym, ap, ◌∙◌, inl, inr, true, false,
  String, List, [], ◌∷◌, Option, eqb, eqb_iff, length, Bool-cases, ltb, ltb→lt, set_at_same,
  set_at_other, arith, sum_below, sum_below-set_at_beyond,
}
use llmdevsilo.Harness.Agent.{TurnOutcome}
use llmdevsilo.Harness.Children.Moves.{is_taken, step-cases}
use llmdevsilo.Harness.Children.Steps.{Op, depth_of, is_held, step, run}
use llmdevsilo.Harness.Children.Slots.{
  permit, permits, Balanced, below_next, put_child-Balanced, release-Balanced, complete-Balanced,
  parked_under-permit, remove_pool-Balanced, abort-Balanced, cancelled-Balanced, die-Balanced,
  drop_handles-next,
}
use llmdevsilo.Harness.Children.{
  running, finished, parked, held, Child, Subagents, new, is_running, complete, release, finish,
  remove_pool, abort, cancelled, cancelled_text, die, child_result_of,
}
use llmdevsilo.Harness.Children.Tools.{start_child}

-- The balance, with room in the counter for n more children.
abbrev pub Room : ℕ → Subagents → Type 0
Room n s = Balanced s × (s.next + n < 2 ^ 64)

complete-next :
    (i : ℕ) (result : String) (is_error : Bool) (s : Subagents)
    → (complete i result is_error s).next ≡ s.next
unfolding complete
complete-next i result is_error s =
    if_elim (λ (t : Subagents). t.next ≡ s.next) (s.child i).emitted (λ _. refl) (λ _. refl)

module _ (agent_id : ℕ → String) where
  start_child-Balanced :
      (s : Subagents) (agent depth : ℕ) (name : Option String) (prompt : String)
      → Balanced s
      → s.next + 1 < 2 ^ 64
      → eqb s.slots 0 ≡ false
      → Balanced (start_child agent_id s agent depth name prompt).0
  unfolding start_child sum_below
  start_child-Balanced s agent depth name prompt b h nz =
      let fresh : Child = record {
        parent = agent;
        depth = depth + 1;
        name = name;
        task = running;
        doomed = false;
        place = parked;
        emitted = false;
      } in
      let e : (s.next + 1) % 2 ^ 64 ≡ suc s.next = omega arith in
      let u = b.total in
      record {
        total =
            rw
              (
                e,
                set_at_same s.next fresh s.child,
                sum_below-set_at_beyond permit s.child fresh s.next s.next (omega arith),
              )
              (ground (arith, eqb_iff s.slots 0));
        beyond =
            λ j le. set_at_other s.next j fresh s.child (ground arith) ∙ b.beyond j (omega arith);
      }

  finish-Balanced :
      (i : ℕ) (outcome : TurnOutcome) (s : Subagents)
      → Balanced s
      → i < s.next
      → Balanced (finish i outcome s)
  unfolding finish
  finish-Balanced i outcome s b lt =
      let r = child_result_of outcome in
      let u = complete i r.output r.is_error s in
      put_child-Balanced u (complete-Balanced s b i r.output r.is_error lt) i
        (record (u.child i) { task = finished r }) (rw (complete-next i r.output r.is_error s) lt)
        refl

  pub running_below_next :
      (s : Subagents) (i : ℕ) → Balanced s → is_running (s.child i) ≡ true → i < s.next
  running_below_next s i b h = elim (Bool-cases (ltb i s.next)) [
    | inl e ↦ ltb→lt i s.next e
    | inr e ↦ absurd (false≢true (sym (ap is_running (b.beyond i (ground arith))) ∙ h))
  ]

  held-permit : (c : Child) → is_held c ≡ true → permit c ≡ 1
  held-permit c h = ground arith

  taken-permit : (c : Child) → is_taken c ≡ true → permit c ≡ 1
  taken-permit c h = ground arith

  pub step-Balanced :
      (s : Subagents) (op : Op) → s.next + 1 < 2 ^ 64 → Balanced s → Balanced (step agent_id s op)
  step-Balanced s op h b =
      step-cases agent_id Balanced s op b
        (λ agent name text _ _ z. start_child-Balanced s agent (depth_of s agent) name text b h z)
        (λ agent i _ p.
          let e = parked_under-permit agent (s.child i) p in
          put_child-Balanced s b i (record (s.child i) { place = held }) (below_next s b i e)
            (sym e))
        (λ i p.
          let e = held-permit (s.child i) p in
          put_child-Balanced s b i (record (s.child i) { place = parked }) (below_next s b i e)
            (sym e))
        (λ i p _. release-Balanced s b i (held-permit (s.child i) p))
        (λ i outcome r. finish-Balanced i outcome s b (running_below_next s i b r))
        (λ canceller agent. remove_pool-Balanced canceller agent s b)
        (λ i p. abort-Balanced i s b (below_next s b i (taken-permit (s.child i) p)))
        (λ i p. cancelled-Balanced i s b (taken-permit (s.child i) p))
        (λ i r. die-Balanced i s b (running_below_next s i b r))

  -- A move numbers one child at most.
  step-next :
      (s : Subagents) (op : Op) → s.next + 1 < 2 ^ 64 → (step agent_id s op).next ≤ s.next + 1
  unfolding start_child release finish remove_pool abort cancelled die
  step-next s op h =
      step-cases agent_id (λ (t : Subagents). t.next ≤ s.next + 1) s op (omega arith)
        (λ agent name text _ _ _. omega arith) (λ agent i _ _. omega arith) (λ i _. omega arith)
        (λ i _ _. omega arith)
        (λ i outcome _.
          let r = child_result_of outcome in
          let e = complete-next i r.output r.is_error s in omega (arith, e))
        (λ canceller agent. omega arith) (λ i _. omega arith)
        (λ i _. let e = complete-next i cancelled_text true s in omega (arith, e))
        (λ i _. let e = drop_handles-next i s.next s in omega (arith, e))

  pub step-Room : (n : ℕ) (s : Subagents) (op : Op) → Room (suc n) s → Room n (step agent_id s op)
  step-Room n s op (b, h) =
      let next = step-next s op (omega arith) in
      (step-Balanced s op (omega arith) b, omega (arith, next))

  pub run-Balanced :
      (ops : List Op) (s : Subagents)
      → Balanced s
      → s.next + length ops < 2 ^ 64
      → Balanced (run agent_id s ops)
  unfolding run
  run-Balanced [] s b h = b
  run-Balanced (op ∷ ops) s b h =
      let r = step-Room (length ops) s op (b, h) in run-Balanced ops (step agent_id s op) r.0 r.1

  pub new-Balanced : Balanced new
  unfolding sum_below
  new-Balanced = record { total = refl; beyond = λ i h. refl }

  -- In every state that a session reaches by fewer than 2 ^ 64 - 1 moves of its agents, in whatever
  -- order and with cancellations at any point: the free slots and the permits in handles that were not
  -- dropped make up 8. So at most 8 handles are out, no permit is lost, and none goes back twice. (It
  -- does not count the tasks: one whose handle was dropped with a task that was aborted may still run.)
  pub run-permits :
      (ops : List Op)
      → 1 + length ops < 2 ^ 64
      → (run agent_id new ops).slots + permits (run agent_id new ops) ≡ 8
  run-permits ops h = (run-Balanced ops new new-Balanced h).total
