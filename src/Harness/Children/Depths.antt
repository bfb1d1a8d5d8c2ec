-- ===== src/Harness/Children/Depths.antt =====
-- agent.rs: how deep subagents nest.
use llmdevsilo.Prelude.{
  ℕ, zero, suc, ◌+◌, ◌^◌, ◌<◌, ◌≤◌, ◌≡◌, refl, ap, ◌∙◌, inl, inr, Bool, true, false, String, List,
  [], ◌∷◌, Option, eqb, eqb_iff, length, Bool-cases, or_cases, leb, if◌then◌else◌, if_elim, set_at,
  set_at_other, arith,
}
use llmdevsilo.Harness.Agent.{TurnOutcome}
use llmdevsilo.Harness.Children.Moves.{step-cases}
use llmdevsilo.Harness.Children.Steps.{Op, acts, lives, depth_of, step, run}
use llmdevsilo.Harness.Children.Slots.{Balanced}
use llmdevsilo.Harness.Children.Bounded.{Room, step-Room, running_below_next, new-Balanced}
use llmdevsilo.Harness.Children.{
  running, finished, aborted, parked, held, gone, Child, Subagents, new, is_running, parked_under,
  with_task, put_child, complete, release, drop_handles, remove_pool, abort, die, cancelled_text,
  cancelled, finish, child_result_of, max_subagent_depth,
}
use llmdevsilo.Harness.Children.Tools.{start_child}

-- The same children, each under the same parent and at the same depth.
pub record SameTree (s t : Subagents) : Type 0 where
  pub same_next : t.next ≡ s.next
  pub same_parent : (j : ℕ) → (t.child j).parent ≡ (s.child j).parent
  pub same_depth : (j : ℕ) → (t.child j).depth ≡ (s.child j).depth

SameTree-refl : (s : Subagents) → SameTree s s
SameTree-refl s = record { same_next = refl; same_parent = λ j. refl; same_depth = λ j. refl }

SameTree-trans : (s t u : Subagents) → SameTree s t → SameTree t u → SameTree s u
SameTree-trans s t u a b = record {
  same_next = b.same_next ∙ a.same_next;
  same_parent = λ j. b.same_parent j ∙ a.same_parent j;
  same_depth = λ j. b.same_depth j ∙ a.same_depth j;
}

set_at-SameTree :
    (i : ℕ) (c : Child) (s t : Subagents)
    → t.next ≡ s.next
    → t.child ≡ set_at i c s.child
    → c.parent ≡ (s.child i).parent
    → c.depth ≡ (s.child i).depth
    → SameTree s t
set_at-SameTree i c s t n e p d = record {
  same_next = n;
  same_parent = λ j. rw (e) (
      if_elim (λ (x : Child). x.parent ≡ (s.child j).parent) (eqb i j)
        (λ h. p ∙ ap (λ k. (s.child k).parent) ((eqb_iff i j).0 h)) (λ _. refl));
  same_depth = λ j. rw (e) (
      if_elim (λ (x : Child). x.depth ≡ (s.child j).depth) (eqb i j)
        (λ h. d ∙ ap (λ k. (s.child k).depth) ((eqb_iff i j).0 h)) (λ _. refl));
}

complete-SameTree :
    (i : ℕ) (result : String) (is_error : Bool) (s : Subagents)
    → SameTree s (complete i result is_error s)
unfolding complete
complete-SameTree i result is_error s =
    if_elim (SameTree s) (s.child i).emitted (λ _. SameTree-refl s)
      (λ _. set_at-SameTree i (record (s.child i) { emitted = true }) s _ refl refl refl refl)

release-SameTree : (i : ℕ) (s : Subagents) → SameTree s (release i s)
unfolding release
release-SameTree i s =
    set_at-SameTree i (record (s.child i) { place = gone }) s (release i s) refl refl refl refl

drop_handles-SameTree : (a i : ℕ) (s : Subagents) → SameTree s (drop_handles a i s)
unfolding drop_handles
drop_handles-SameTree a zero s = SameTree-refl s
drop_handles-SameTree a (suc i) s =
    if_elim (SameTree s) (with_task a ((drop_handles a i s).child i))
      (λ _.
        SameTree-trans s (drop_handles a i s) (release i (drop_handles a i s))
          (drop_handles-SameTree a i s) (release-SameTree i (drop_handles a i s)))
      (λ _. drop_handles-SameTree a i s)

abort-SameTree : (i : ℕ) (s : Subagents) → SameTree s (abort i s)
unfolding abort
abort-SameTree i s =
    set_at-SameTree i (record (s.child i) { doomed = true }) s (abort i s) refl refl refl refl

die-SameTree : (i : ℕ) (s : Subagents) → SameTree s (die i s)
unfolding die
die-SameTree i s =
    let t = drop_handles i s.next s in
    SameTree-trans s t (put_child i (record (t.child i) { task = aborted }) t)
      (drop_handles-SameTree i s.next s)
      (set_at-SameTree i (record (t.child i) { task = aborted }) t _ refl refl refl refl)

cancelled-SameTree : (i : ℕ) (s : Subagents) → SameTree s (cancelled i s)
unfolding cancelled
cancelled-SameTree i s =
    let u = complete i cancelled_text true s in
    SameTree-trans s u (release i u) (complete-SameTree i cancelled_text true s)
      (release-SameTree i u)

finish-SameTree : (i : ℕ) (outcome : TurnOutcome) (s : Subagents) → SameTree s (finish i outcome s)
unfolding finish
finish-SameTree i outcome s =
    let r = child_result_of outcome in
    let u = complete i r.output r.is_error s in
    SameTree-trans s u (put_child i (record (u.child i) { task = finished r }) u)
      (complete-SameTree i r.output r.is_error s)
      (set_at-SameTree i (record (u.child i) { task = finished r }) u _ refl refl refl refl)

remove_pool-SameTree :
    (canceller agent : ℕ) (s : Subagents) → SameTree s (remove_pool canceller agent s)
unfolding remove_pool
remove_pool-SameTree canceller agent s = record {
  same_next = refl;
  same_parent = λ j.
      if_elim (λ (x : Child). x.parent ≡ (s.child j).parent) (parked_under agent (s.child j))
        (λ _. refl) (λ _. refl);
  same_depth = λ j.
      if_elim (λ (x : Child). x.depth ≡ (s.child j).depth) (parked_under agent (s.child j))
        (λ _. refl) (λ _. refl);
}

-- The child has a parent with a lower number, and is one level below it, and at most at level 3.
abbrev pub NestedAt : Subagents → ℕ → Type 0
NestedAt s i =
    ((s.child i).parent < i)
    × ((s.child i).depth ≡ suc (depth_of s (s.child i).parent))
    × ((s.child i).depth ≤ 3)

pub record Nested (s : Subagents) : Type 0 where
  pub begun : 0 < s.next
  pub nested : (i : ℕ) → 0 < i → i < s.next → NestedAt s i

SameTree-Nested : (s t : Subagents) → SameTree s t → Nested s → Nested t
SameTree-Nested s t same h = record {
  begun = let n = same.same_next in let b = h.begun in omega (arith, n, b);
  nested = λ i pos lt.
      let n = same.same_next in
      let (below, level, bound) = h.nested i pos (omega (arith, n, lt)) in
      let p = same.same_parent i in
      let d = same.same_depth i in
      let parent_depth : depth_of t (t.child i).parent ≡ depth_of s (s.child i).parent =
        ap (depth_of t) p
        ∙ ap (λ x. if eqb (s.child i).parent 0 then 0 else x)
            (same.same_depth (s.child i).parent) in
      (omega (arith, p, below), omega (arith, d, level, parent_depth), omega (arith, d, bound));
}

module _ (agent_id : ℕ → String) where
  acts_below_next :
      (s : Subagents) (agent : ℕ) → Balanced s → 0 < s.next → acts s agent ≡ true → agent < s.next
  acts_below_next s agent b pos h =
      let alive : lives s agent ≡ true = ground arith in
      elim (or_cases (eqb agent 0) (is_running (s.child agent)) alive) [
        | inl e ↦ let z = (eqb_iff agent 0).0 e in omega (arith, z, pos)
        | inr e ↦ running_below_next agent_id s agent b e
      ]

  start_child-Nested :
      (s : Subagents) (agent : ℕ) (name : Option String) (prompt : String)
      → Nested s
      → s.next + 1 < 2 ^ 64
      → agent < s.next
      → leb max_subagent_depth (depth_of s agent) ≡ false
      → Nested (start_child agent_id s agent (depth_of s agent) name prompt).0
  unfolding start_child
  start_child-Nested s agent name prompt h room lt shallow =
      let fresh : Child = record {
        parent = agent;
        depth = depth_of s agent + 1;
        name = name;
        task = running;
        doomed = false;
        place = parked;
        emitted = false;
      } in
      let t = (start_child agent_id s agent (depth_of s agent) name prompt).0 in
      let kept : (j : ℕ) → j < s.next → set_at s.next fresh s.child j ≡ s.child j =
        λ j l. set_at_other s.next j fresh s.child (ground arith) in
      let kept_depth : (j : ℕ) → j < s.next → depth_of t j ≡ depth_of s j =
        λ j l. ap (λ (c : Child). if eqb j 0 then 0 else c.depth) (kept j l) in
      let begun = h.begun in
      record {
        begun = omega (arith, begun);
        nested = λ i pos l. elim (Bool-cases (eqb s.next i)) [
          | inl e ↦
              let same = (eqb_iff s.next i).0 e in
              let d = kept_depth agent lt in
              let small : depth_of s agent < 3 = ground arith in
              rw (e) (omega (arith, same, lt), omega (arith, d), omega (arith, small))
          | inr e ↦
              let l' : i < s.next = ground arith in
              let (below, level, bound) = h.nested i pos l' in
              let d = kept_depth (s.child i).parent (omega (arith, below, l')) in
              rw (e) (below, omega (arith, d, level), bound)
        ];
      }

  step-Nested :
      (n : ℕ) (s : Subagents) (op : Op) → Room (suc n) s → Nested s → Nested (step agent_id s op)
  step-Nested n s op (b, h) nested =
      let like : (t : Subagents) → SameTree s t → Nested t =
        λ t same. SameTree-Nested s t same nested in
      let begun = nested.begun in
      step-cases agent_id Nested s op nested
        (λ agent name text a d _.
          start_child-Nested s agent name text nested (omega (arith, h))
            (acts_below_next s agent b begun a) d)
        (λ agent i _ _.
          like _ (set_at-SameTree i (record (s.child i) { place = held }) s _ refl refl refl refl))
        (λ i _.
          like _
            (set_at-SameTree i (record (s.child i) { place = parked }) s _ refl refl refl refl))
        (λ i _ _. like (release i s) (release-SameTree i s))
        (λ i outcome _. like (finish i outcome s) (finish-SameTree i outcome s))
        (λ canceller agent.
          like (remove_pool canceller agent s) (remove_pool-SameTree canceller agent s))
        (λ i _. like (abort i s) (abort-SameTree i s))
        (λ i _. like (cancelled i s) (cancelled-SameTree i s))
        (λ i _. like (die i s) (die-SameTree i s))

  run-Nested :
      (ops : List Op) (s : Subagents) → Room (length ops) s → Nested s → Nested (run agent_id s ops)
  unfolding run
  run-Nested [] s r h = h
  run-Nested (op ∷ ops) s r h =
      run-Nested ops (step agent_id s op) (step-Room agent_id (length ops) s op r)
        (step-Nested (length ops) s op r h)

  -- In every state that a session reaches by fewer than 2 ^ 64 - 1 moves of its agents, in whatever
  -- order, each subagent that was spawned is one level below its parent, which has a lower number, and
  -- no subagent is deeper than level 3 (the top-level agent, number 0, is at level 0).
  pub run-NestedAt :
      (ops : List Op) (i : ℕ)
      → 1 + length ops < 2 ^ 64
      → 0 < i
      → i < (run agent_id new ops).next
      → NestedAt (run agent_id new ops) i
  run-NestedAt ops i h pos lt =
      (run-Nested ops new (new-Balanced agent_id, h)
          (record { begun = omega arith; nested = λ j p l. absurd (omega (arith, p, l)) })).nested
        i pos lt
