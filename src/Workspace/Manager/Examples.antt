-- ===== src/Workspace/Manager/Examples.antt =====
-- lib.rs: the registry at concrete operations.
use llmdevsilo.Prelude.{
  keep, ℕ, ◌≡◌, ◌↔◌, refl, Bool, true, false, ◌||◌, String, List, [], ◌∷◌, none, some, eqb, list_eq,
  string_eq, arith, strip_prefix,
}
use llmdevsilo.Workspace.Manager.{
  plain_dir, ext4_fuse, Attachment, SecondaryAttachment, RegistryEntry, Key, Registry, Outcome, ok,
  on_entry, lock_reserve, unlock_begin,
}
use llmdevsilo.Workspace.Manager.Attachments.{attach, detach_workspace, attach_shared}
use llmdevsilo.Workspace.Manager.Steps.{Op, attaches, shares, step, run}
use llmdevsilo.Workspace.Manager.Within.{Within, AllAmong}
use llmdevsilo.Workspace.Manager.Closed.{run-unlock_begin}
use llmdevsilo.Workspace.Manager.Attached.{
  Attachable, NoneLeft, attach_iff, detach_workspace-attach,
}

abbrev work : Key
work = "home" ∷ "me" ∷ "work" ∷ []

abbrev harness : Attachment
harness = record { harness_id = "h1"; pid = 100; start_hint = "a"; token = "t1" }

abbrev dead_harness : Attachment
dead_harness = record { harness_id = "h0"; pid = 7; start_hint = "z"; token = "t0" }

abbrev shell : SecondaryAttachment
shell = record { purpose = "shell"; pid = 200; start_hint = "b"; token = "t2" }

abbrev mounted : Outcome String
mounted = ok "/mnt"

abbrev alive : ℕ → String → Bool
alive pid hint = eqb pid 100 || eqb pid 200

-- Locked, with a harness whose process is gone, and a shell.
abbrev entry : RegistryEntry
entry = record {
  id = "w1";
  locked = true;
  unlocking = false;
  strategy = ext4_fuse;
  attached = some dead_harness;
  secondary_attachments = shell ∷ [];
  warnings = [];
}

abbrev registry : Registry
registry k = some entry

abbrev closed : RegistryEntry
closed = record entry { unlocking = true }

attach_iff_example :
    ((attach alive work harness mounted registry).1 ≡ ok "/mnt")
    ↔ ((x : RegistryEntry) × (registry work ≡ some x) × Attachable alive x × (mounted ≡ ok "/mnt"))
attach_iff_example = attach_iff alive work harness mounted registry "/mnt"

free_entry : Attachable alive entry
free_entry = (refl, refl, λ a e. ground arith)

detach_workspace-attach_example :
    ((detach_workspace alive work ext4_fuse "t1"
          (attach alive work harness (ok "/mnt") registry).0).0
        work
      ≡ some (record entry {
        attached = none;
        secondary_attachments = keep (λ s. alive s.pid s.start_hint) (shell ∷ []);
      }))
    × (((detach_workspace alive work ext4_fuse "t1"
            (attach alive work harness (ok "/mnt") registry).0).1
          ≡ true)
        ↔ (¬ (ext4_fuse ≡ plain_dir) × NoneLeft alive alive (shell ∷ [])))
detach_workspace-attach_example =
    detach_workspace-attach alive alive work harness "/mnt" registry entry refl free_entry

abbrev later : List Op
later =
    attaches work alive harness (ok "/mnt")
    ∷ shares work alive (record { purpose = "shell"; pid = 300; start_hint = "c"; token = "t3" })
        (ok "/mnt")
    ∷ []

run-unlock_begin_example :
    (closed.unlocking ≡ true)
    × Within closed.attached closed.attached
    × AllAmong closed.secondary_attachments closed.secondary_attachments
unfolding run step attach attach_shared on_entry unlock_begin
run-unlock_begin_example =
    run-unlock_begin work registry closed later closed refl (tt, (tt, tt)) refl refl

-- Between the two parts of `lock`, while the contents are moved, a harness can be attached.
attached_while_locking :
    (attach alive work harness
      (ok "/mnt")
      (lock_reserve ("state" ∷ []) work "w2" plain_dir (λ _. none)).0).1
    ≡ ok "/mnt"
unfolding lock_reserve attach on_entry strip_prefix
attached_while_locking = refl
