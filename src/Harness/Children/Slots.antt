-- ===== src/Harness/Children/Slots.antt =====
-- agent.rs: the permits of the session-wide pool.
use llmdevsilo.Prelude.{
  ℕ, zero, suc, ◌+◌, ◌<◌, ◌≤◌, ◌≡◌, refl, sym, ap, ◌∙◌, inl, inr, Bool, true, String, Bool-cases,
  ltb, ltb→lt, set_at_same, set_at_other, arith, if_elim, set_at, sum_below, sum_below-set_at,
  sum_below-same, if◌then◌else◌,
}
use llmdevsilo.Harness.Children.{
  aborted, taken, gone, Place, Child, no_child, Subagents, parked_under, with_task, put_child,
  complete, release, drop_handles, remove_pool, abort, die, cancelled_text, cancelled,
}

-- A child's handle holds a permit, wherever it is.
abbrev pub permit : Child → ℕ
permit c = elim c.place [ gone ↦ 0 | _ ↦ 1 ]

abbrev pub permits : Subagents → ℕ
permits s = sum_below permit s.child s.next

-- The free slots and the permits that are out make up all slots.
pub record Balanced (s : Subagents) : Type 0 where
  pub total : s.slots + permits s ≡ 8
  pub beyond : (i : ℕ) → s.next ≤ i → s.child i ≡ no_child

module _ (s : Subagents) (b : Balanced s) where
  -- What has a permit stands below the next number.
  pub below_next : (i : ℕ) → permit (s.child i) ≡ 1 → i < s.next
  below_next i h = elim (Bool-cases (ltb i s.next)) [
    | inl e ↦ ltb→lt i s.next e
    | inr e ↦ absurd (one_at_least (ap permit (b.beyond i (ground arith))))
  ]
    where
      one_at_least : permit (s.child i) ≡ 0 → ⊥
      one_at_least q = omega arith

  -- A change of one child, with as many slots as it takes.
  pub set_at-Balanced :
      (i : ℕ) (c : Child) (t : Subagents)
      → i < s.next
      → t.next ≡ s.next
      → t.child ≡ set_at i c s.child
      → t.slots + permit c ≡ s.slots + permit (s.child i)
      → Balanced t
  set_at-Balanced i c t lt n e p = record {
    total =
        let q = sum_below-set_at permit s.child c i s.next lt in
        let u = b.total in rw (e, n) (omega arith);
    beyond = λ j le. rw (e) (set_at_other i j c s.child (ground arith) ∙ b.beyond j (omega arith));
  }

  pub put_child-Balanced :
      (i : ℕ) (c : Child) → i < s.next → permit c ≡ permit (s.child i) → Balanced (put_child i c s)
  put_child-Balanced i c lt e = set_at-Balanced i c (put_child i c s) lt refl refl (omega arith)

  pub release-Balanced : (i : ℕ) → permit (s.child i) ≡ 1 → Balanced (release i s)
  unfolding release
  release-Balanced i e =
      set_at-Balanced i (record (s.child i) { place = gone }) (release i s) (below_next i e) refl
        refl (omega arith)

  -- The flag is not part of the balance.
  pub complete-Balanced :
      (i : ℕ) (result : String) (is_error : Bool)
      → i < s.next
      → Balanced (complete i result is_error s)
  unfolding complete
  complete-Balanced i result is_error lt =
      if_elim Balanced (s.child i).emitted (λ _. b)
        (λ _. set_at-Balanced i (record (s.child i) { emitted = true }) _ lt refl refl refl)

pub with_task-permit : (a : ℕ) (c : Child) → with_task a c ≡ true → permit c ≡ 1
with_task-permit a c h = ground arith

pub parked_under-permit : (a : ℕ) (c : Child) → parked_under a c ≡ true → permit c ≡ 1
parked_under-permit a c h = ground arith

-- What a pool's removal leaves at one number.
abbrev moved : ℕ → ℕ → Child → Child
moved canceller agent c = if parked_under agent c then record c { place = taken canceller } else c

moved-permit : (canceller agent : ℕ) (c : Child) → permit (moved canceller agent c) ≡ permit c
moved-permit canceller agent c =
    if_elim (λ d. permit d ≡ permit c) (parked_under agent c)
      (λ h. sym (parked_under-permit agent c h)) (λ _. refl)

pub remove_pool-Balanced :
    (canceller agent : ℕ) (s : Subagents) → Balanced s → Balanced (remove_pool canceller agent s)
unfolding remove_pool
remove_pool-Balanced canceller agent s b = record {
  total =
      ap (λ n. s.slots + n)
        (sum_below-same permit (λ j. moved canceller agent (s.child j)) s.child s.next
          (λ j. moved-permit canceller agent (s.child j)))
      ∙ b.total;
  beyond = λ j le. ap (moved canceller agent) (b.beyond j le);
}

pub drop_handles-next : (a i : ℕ) (s : Subagents) → (drop_handles a i s).next ≡ s.next
unfolding drop_handles release
drop_handles-next a zero s = refl
drop_handles-next a (suc i) s =
    let ih = drop_handles-next a i s in
    if_elim (λ (t : Subagents). t.next ≡ s.next) (with_task a ((drop_handles a i s).child i))
      (λ _. ih) (λ _. ih)

drop_handles-Balanced : (a i : ℕ) (s : Subagents) → Balanced s → Balanced (drop_handles a i s)
unfolding drop_handles
drop_handles-Balanced a zero s b = b
drop_handles-Balanced a (suc i) s b =
    if_elim Balanced (with_task a ((drop_handles a i s).child i))
      (λ h.
        release-Balanced (drop_handles a i s) (drop_handles-Balanced a i s b) i
          (with_task-permit a ((drop_handles a i s).child i) h))
      (λ _. drop_handles-Balanced a i s b)

pub die-Balanced : (i : ℕ) (s : Subagents) → Balanced s → i < s.next → Balanced (die i s)
unfolding die
die-Balanced i s b lt =
    let t = drop_handles i s.next s in
    let n = drop_handles-next i s.next s in
    put_child-Balanced t (drop_handles-Balanced i s.next s b) i
      (record (t.child i) { task = aborted }) (rw (n) lt) refl

pub abort-Balanced : (i : ℕ) (s : Subagents) → Balanced s → i < s.next → Balanced (abort i s)
unfolding abort
abort-Balanced i s b lt = put_child-Balanced s b i (record (s.child i) { doomed = true }) lt refl

complete-place :
    (i : ℕ) (result : String) (is_error : Bool) (s : Subagents)
    → ((complete i result is_error s).child i).place ≡ (s.child i).place
unfolding complete
complete-place i result is_error s =
    if_elim (λ (t : Subagents). (t.child i).place ≡ (s.child i).place) (s.child i).emitted
      (λ _. refl)
      (λ _.
        ap (λ (c : Child). c.place) (set_at_same i (record (s.child i) { emitted = true }) s.child))

abbrev place_permit : Place → ℕ
place_permit p = elim p [ gone ↦ 0 | _ ↦ 1 ]

pub cancelled-Balanced :
    (i : ℕ) (s : Subagents) → Balanced s → permit (s.child i) ≡ 1 → Balanced (cancelled i s)
unfolding cancelled
cancelled-Balanced i s b e =
    let u = complete i cancelled_text true s in
    release-Balanced u (complete-Balanced s b i cancelled_text true (below_next s b i e)) i
      (ap place_permit (complete-place i cancelled_text true s) ∙ e)
