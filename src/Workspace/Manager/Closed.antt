-- ===== src/Workspace/Manager/Closed.antt =====
-- lib.rs: a workspace whose unlock has begun gets no new attachment.
use llmdevsilo.Prelude.{
  ℕ, ◌≡◌, refl, ap, subst, inr, Bool, true, not, ◌||◌, String, List, [], ◌∷◌, Option, none, some,
  ◌==◌, string_eq, list_eq, is_empty, All, arith, if_elim, beq_refl, starts_with,
}
use llmdevsilo.Workspace.Manager.Steps.{
  Op, locks, commits, begins_unlock, ends_unlock, reads_status, attaches, shares, detaches,
  stops_sharing, step, run,
}
use llmdevsilo.Workspace.Manager.{
  ContainerStrategy, Attachment, SecondaryAttachment, RegistryEntry, Key, Registry, WorkspaceError,
  Outcome, ok, err, on_entry, lock_reserve, lock_commit, unlock_begin, unlock_end, survivors,
  remove_own, reserve_entry, commit_entry, begin_entry,
}
use llmdevsilo.Workspace.Manager.Attachments.{
  live_harness, prune_dead_attachments, attachable, status, attach, attach_shared, detach_workspace,
  detach_shared_workspace, status_entry, attach_by, attach_entry, share_mounted, share_entry,
  detach_entry, stop_entry,
}
use llmdevsilo.Workspace.Manager.Within.{
  Within, AllAmong, StillClosed, ClosedAt, OtherId, keep-AllAmong, remove_secondary-AllAmong,
  AllAmong-self, live_harness-Within, clear_attachment-Within, on_entry-keeps,
}

module _ (first : RegistryEntry) where
  -- What an operation may do to an entry of the same lock.
  prune-StillClosed :
      (alive : ℕ → String → Bool) (e : RegistryEntry)
      → StillClosed first e
      → StillClosed first (prune_dead_attachments alive e)
  prune-StillClosed alive e h same =
      let (marked, one, shells) = h same in
      (
        marked,
        live_harness-Within alive e.attached first.attached one,
        keep-AllAmong (λ s. alive s.pid s.start_hint) e.secondary_attachments
            first.secondary_attachments shells,
      )

  -- An entry that can be attached to is of another lock.
  attachable-other :
      (key : Key) (e : RegistryEntry)
      → attachable key e ≡ none
      → StillClosed first e
      → e.id ≡ first.id
      → ⊥
  attachable-other key e free h same = let (marked, _, _) = h same in ground arith

  removed-ClosedAt :
      (id : String) (e : RegistryEntry)
      → StillClosed first e
      → ClosedAt first (remove_own id (some e))
  removed-ClosedAt id e h = if_elim (ClosedAt first) (e.id == id) (λ _. tt) (λ _. h)

  -- One entry after another.
  reserve_entry-ClosedAt :
      (key : Key) (id : String) (strategy : ContainerStrategy) (x : RegistryEntry)
      → (id ≡ first.id → ⊥)
      → StillClosed first x
      → ClosedAt first (reserve_entry key id strategy (some x)).0
  reserve_entry-ClosedAt key id strategy x other h =
      if_elim (λ (r : Option RegistryEntry × Outcome String). ClosedAt first r.0) x.locked (λ _. h)
        (λ _ same. absurd (other same))

  commit_entry-ClosedAt :
      (key : Key) (id : String) (work : Outcome (ContainerStrategy × List String))
      (x : RegistryEntry)
      → StillClosed first x
      → ClosedAt first (commit_entry key id work (some x)).0
  commit_entry-ClosedAt key id (err e) x h = removed-ClosedAt id x h
  commit_entry-ClosedAt key id (ok (strategy, warnings)) x h =
      if_elim (λ (r : Option RegistryEntry × Outcome (List String)). ClosedAt first r.0)
        (x.id == id) (λ _. h) (λ _. h)

  commit_entry-none :
      (key : Key) (id : String) (work : Outcome (ContainerStrategy × List String))
      → ClosedAt first (commit_entry key id work none).0
  commit_entry-none key id (err e) = tt
  commit_entry-none key id (ok (strategy, warnings)) = tt

  attach_entry-ClosedAt :
      (key : Key) (alive : ℕ → String → Bool) (attachment : Attachment) (mount : Outcome String)
      (x : RegistryEntry)
      → StillClosed first x
      → ClosedAt first (attach_entry alive key attachment mount (some x)).0
  attach_entry-ClosedAt key alive attachment mount x h =
      go (attachable key x) (live_harness alive x.attached) mount refl
    where
      go :
          (c : Option WorkspaceError) (a : Option Attachment) (m : Outcome String)
          → attachable key x ≡ c
          → ClosedAt first (attach_by alive c a key attachment m x).0
      go (some e) a m q = h
      go none (some a) m q = h
      go none none (err e) q = h
      go none none (ok mount_path) q = λ same. absurd (attachable-other key x q h same)

  share_entry-ClosedAt :
      (key : Key) (alive : ℕ → String → Bool) (attachment : SecondaryAttachment)
      (mount : Outcome String) (x : RegistryEntry)
      → StillClosed first x
      → ClosedAt first (share_entry alive key attachment mount (some x)).0
  share_entry-ClosedAt key alive attachment mount x h = checked (attachable key x) refl
    where
      mounted :
          (m : Outcome String)
          → attachable key x ≡ none
          → ClosedAt first (share_mounted alive attachment m x).0
      mounted (err e) free = h
      mounted (ok mount_path) free = λ same. absurd (attachable-other key x free h same)

      checked :
          (c : Option WorkspaceError)
          → attachable key x ≡ c
          → ClosedAt first (share_entry alive key attachment mount (some x)).0
      checked none e = rw (e, ClosedAt) (mounted mount e)
      checked (some c) e = rw (e, ClosedAt) h

  unlock_end-ClosedAt :
      (here key : Key) (survives : ℕ → String → Bool) (entry : RegistryEntry)
      (work : Outcome String) (registry : Registry)
      → ClosedAt first (registry here)
      → ClosedAt first ((unlock_end survives key entry work registry).0 here)
  unfolding unlock_end
  unlock_end-ClosedAt here key survives entry work registry p =
      if_elim (λ (r : Registry × Outcome String). ClosedAt first (r.0 here))
        (not (is_empty (survivors survives entry))) (λ _. p) (λ _. go work)
    where
      go :
          (w : Outcome String)
          → ClosedAt first (
              (elim w as (λ _. Registry × Outcome String) [
                | err e ↦ (registry, err e)
                | ok report ↦
                    on_entry key (λ current. (remove_own entry.id current, ok report)) registry
              ]).0
                here)
      go (err e) = p
      go (ok report) =
          on_entry-keeps (ClosedAt first) (λ current. (remove_own entry.id current, ok report)) key
            here registry tt (λ x q. removed-ClosedAt entry.id x q) p

  step-ClosedAt :
      (here : Key) (op : Op) (registry : Registry)
      → OtherId first.id op
      → ClosedAt first (registry here)
      → ClosedAt first (step op registry here)
  unfolding step lock_reserve lock_commit unlock_begin status attach attach_shared detach_workspace
      detach_shared_workspace
  step-ClosedAt here (locks key state_dir id strategy) registry other p =
      if_elim (λ (r : Registry × Outcome String). ClosedAt first (r.0 here))
        (starts_with key state_dir || starts_with state_dir key) (λ _. p)
        (λ _.
          on_entry-keeps (ClosedAt first) (reserve_entry key id strategy) key here registry
            (λ same. absurd (other same)) (λ x h. reserve_entry-ClosedAt key id strategy x other h)
            p)
  step-ClosedAt here (commits key id work) registry other p =
      on_entry-keeps (ClosedAt first) (commit_entry key id work) key here registry
        (commit_entry-none key id work) (commit_entry-ClosedAt key id work) p
  step-ClosedAt here (begins_unlock key) registry other p =
      on_entry-keeps (ClosedAt first) (begin_entry key) key here registry tt
        (λ x q same. let (_, one, shells) = q same in (refl, one, shells)) p
  step-ClosedAt here (ends_unlock key survives entry work) registry other p =
      unlock_end-ClosedAt here key survives entry work registry p
  step-ClosedAt here (reads_status key alive) registry other p =
      on_entry-keeps (ClosedAt first) (status_entry alive) key here registry tt
        (prune-StillClosed alive) p
  step-ClosedAt here (attaches key alive attachment mount) registry other p =
      on_entry-keeps (ClosedAt first) (attach_entry alive key attachment mount) key here registry tt
        (attach_entry-ClosedAt key alive attachment mount) p
  step-ClosedAt here (shares key alive attachment mount) registry other p =
      on_entry-keeps (ClosedAt first) (share_entry alive key attachment mount) key here registry tt
        (share_entry-ClosedAt key alive attachment mount) p
  step-ClosedAt here (detaches key alive strategy token) registry other p =
      on_entry-keeps (ClosedAt first) (detach_entry alive strategy token) key here registry tt
        (λ x q same.
          let (marked, one, shells) = q same in
          (marked, clear_attachment-Within token x.attached first.attached one, shells))
        p
  step-ClosedAt here (stops_sharing key alive strategy pid token) registry other p =
      on_entry-keeps (ClosedAt first) (stop_entry alive strategy pid token) key here registry tt
        (λ x q same.
          let (marked, one, shells) = q same in
          (
            marked,
            one,
            remove_secondary-AllAmong pid token x.secondary_attachments first.secondary_attachments
                shells,
          ))
        p

  run-ClosedAt :
      (here : Key) (ops : List Op) (registry : Registry)
      → All (OtherId first.id) ops
      → ClosedAt first (registry here)
      → ClosedAt first (run ops registry here)
  unfolding run
  run-ClosedAt here [] registry other p = p
  run-ClosedAt here (op ∷ ops) registry other p =
      run-ClosedAt here ops (step op registry) other.1 (step-ClosedAt here op registry other.0 p)

abbrev marked_entry : RegistryEntry → Outcome RegistryEntry → RegistryEntry
marked_entry x (ok y) = y
marked_entry x (err e) = x

begin_entry-ClosedAt :
    (key : Key) (o : Option RegistryEntry) (first : RegistryEntry)
    → (begin_entry key o).1 ≡ ok first
    → ClosedAt first (begin_entry key o).0
begin_entry-ClosedAt key none first h = tt
begin_entry-ClosedAt key (some x) first h =
    let y : RegistryEntry = record x { unlocking = true } in
    subst (λ f. ClosedAt f (some y)) (ap (marked_entry y) h)
      (λ same. (refl, inr refl, AllAmong-self x.secondary_attachments))

unlock_begin-ClosedAt :
    (key : Key) (registry : Registry) (first : RegistryEntry)
    → (unlock_begin key registry).1 ≡ ok first
    → ClosedAt first ((unlock_begin key registry).0 key)
unfolding unlock_begin on_entry
unlock_begin-ClosedAt key registry first begun =
    rw (beq_refl key) (begin_entry-ClosedAt key (registry key) first begun)

-- After the first step of an unlock, whatever operations of other processes come in whatever order, where
-- a later lock has an id of its own: while the entry of this lock is in the registry, it is marked, and it
-- has no attached harness and no shell but those that the unlock terminates.
pub run-unlock_begin :
    (key : Key) (registry : Registry) (first : RegistryEntry) (ops : List Op) (e : RegistryEntry)
    → (unlock_begin key registry).1 ≡ ok first
    → All (OtherId first.id) ops
    → run ops (unlock_begin key registry).0 key ≡ some e
    → e.id ≡ first.id
    → (e.unlocking ≡ true)
      × Within e.attached first.attached
      × AllAmong e.secondary_attachments first.secondary_attachments
run-unlock_begin key registry first ops e begun other found = subst (ClosedAt first) found (
    run-ClosedAt first key ops (unlock_begin key registry).0 other
      (unlock_begin-ClosedAt key registry first begun))
