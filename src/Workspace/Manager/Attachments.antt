-- ===== src/Workspace/Manager/Attachments.antt =====
-- crates/silo-workspace/src/lib.rs: the harness and the shells that are attached to a workspace.
use llmdevsilo.Prelude.{
  ℕ, Bool, false, not, ◌&&◌, ◌||◌, String, List, [], ◌∷◌, ◌++◌, Option, none, some, is_some, ◌==◌,
  string_eq, nat_eq, list_eq, eqb, keep, length, if◌then◌else◌,
}
use llmdevsilo.Workspace.Manager.{
  ContainerStrategy, uses_image, Attachment, SecondaryAttachment, RegistryEntry, Key, Registry,
  WorkspaceError, Outcome, on_entry, not_locked, unlock_in_progress, already_attached, ok, err,
}

-- The checks that `attach` and `attach_shared` share.
abbrev pub attachable : Key → RegistryEntry → Option WorkspaceError
attachable key x =
    if not x.locked
    then some (not_locked key)
    else if x.unlocking
    then some (unlock_in_progress key)
    else none

abbrev pub clear_attachment : String → Option Attachment → Option Attachment
clear_attachment token none = none
clear_attachment token (some a) = if a.token == token then none else some a

abbrev pub remove_secondary : ℕ → String → List SecondaryAttachment → List SecondaryAttachment
remove_secondary pid token [] = []
remove_secondary pid token (s ∷ rest) =
    if eqb s.pid pid && (s.token == token) then rest else s ∷ remove_secondary pid token rest

module _ (alive : ℕ → String → Bool) where
  abbrev pub live_harness : Option Attachment → Option Attachment
  live_harness none = none
  live_harness (some a) = if alive a.pid a.start_hint then some a else none

  abbrev pub prune_dead_attachments : RegistryEntry → RegistryEntry
  prune_dead_attachments entry = record entry {
    attached = live_harness entry.attached;
    secondary_attachments = keep (λ s. alive s.pid s.start_hint) entry.secondary_attachments;
  }

  abbrev pub live_secondary_count : RegistryEntry → ℕ
  live_secondary_count entry =
      length (keep (λ s. alive s.pid s.start_hint) entry.secondary_attachments)

  abbrev pub has_live_attachments : RegistryEntry → Bool
  has_live_attachments entry =
      is_some (live_harness entry.attached) || not (eqb (live_secondary_count entry) 0)

  -- Whether the workspace is locked, the attached harness, and the number of shells.
  abbrev pub status_entry : Option RegistryEntry → Option RegistryEntry × (Bool × Option String × ℕ)
  status_entry none = (none, (false, none, 0))
  status_entry (some x) =
      let y = prune_dead_attachments x in
      (
        some y,
        (
          y.locked,
          (elim y.attached [ some a ↦ some a.harness_id | none ↦ none ]),
          length y.secondary_attachments,
        ),
      )

  unfoldable pub status : Key → Registry → Registry × (Bool × Option String × ℕ)
  unfolding on_entry
  status key registry = on_entry key status_entry registry

  -- The part of `attach` behind its checks: the mount, and the entry that is saved.
  abbrev pub attach_mounted :
      Attachment → Outcome String → RegistryEntry → Option RegistryEntry × Outcome String
  attach_mounted attachment (err e) x = (some x, err e)
  attach_mounted attachment (ok mount_path) x =
      (some (record (prune_dead_attachments x) { attached = some attachment }), ok mount_path)

  -- By the error of the checks, and the harness that is attached.
  abbrev pub attach_by :
      Option WorkspaceError
      → Option Attachment
      → Key
      → Attachment
      → Outcome String
      → RegistryEntry
      → Option RegistryEntry × Outcome String
  attach_by (some e) _ key attachment mount x = (some x, err e)
  attach_by none (some a) key attachment mount x =
      (some x, err (already_attached key a.harness_id a.pid))
  attach_by none none key attachment mount x = attach_mounted attachment mount x

  abbrev pub attach_entry :
      Key
      → Attachment
      → Outcome String
      → Option RegistryEntry
      → Option RegistryEntry × Outcome String
  attach_entry key attachment mount none = (none, err (not_locked key))
  attach_entry key attachment mount (some x) =
      attach_by (attachable key x) (live_harness x.attached) key attachment mount x

  unfoldable pub attach : Key → Attachment → Outcome String → Registry → Registry × Outcome String
  unfolding on_entry
  attach key attachment mount registry = on_entry key (attach_entry key attachment mount) registry

  abbrev pub share_mounted :
      SecondaryAttachment → Outcome String → RegistryEntry → Option RegistryEntry × Outcome String
  share_mounted attachment (err e) x = (some x, err e)
  share_mounted attachment (ok mount_path) x =
      let y = prune_dead_attachments x in
      (
        some (record y { secondary_attachments = y.secondary_attachments ++ (attachment ∷ []) }),
        ok mount_path,
      )

  abbrev pub share_entry :
      Key
      → SecondaryAttachment
      → Outcome String
      → Option RegistryEntry
      → Option RegistryEntry × Outcome String
  share_entry key attachment mount none = (none, err (not_locked key))
  share_entry key attachment mount (some x) = elim (attachable key x) [
    | some e ↦ (some x, err e)
    | none ↦ share_mounted attachment mount x
  ]

  unfoldable pub attach_shared :
      Key → SecondaryAttachment → Outcome String → Registry → Registry × Outcome String
  unfolding on_entry
  attach_shared key attachment mount registry =
      on_entry key (share_entry key attachment mount) registry

  -- Whether the mount is released.
  abbrev pub releases : ContainerStrategy → RegistryEntry → Bool
  releases strategy x = uses_image strategy && not (has_live_attachments x)

  abbrev pub detach_entry :
      ContainerStrategy → String → Option RegistryEntry → Option RegistryEntry × Bool
  detach_entry strategy token none = (none, false)
  detach_entry strategy token (some x) =
      let y : RegistryEntry = record x { attached = clear_attachment token x.attached } in
      (some y, releases strategy y)

  unfoldable pub detach_workspace : Key → ContainerStrategy → String → Registry → Registry × Bool
  unfolding on_entry
  detach_workspace key strategy token registry = on_entry key (detach_entry strategy token) registry

  abbrev pub stop_entry :
      ContainerStrategy → ℕ → String → Option RegistryEntry → Option RegistryEntry × Bool
  stop_entry strategy pid token none = (none, false)
  stop_entry strategy pid token (some x) =
      let y : RegistryEntry = record x {
        secondary_attachments = remove_secondary pid token x.secondary_attachments;
      } in
      (some y, releases strategy y)

  unfoldable pub detach_shared_workspace :
      Key → ContainerStrategy → ℕ → String → Registry → Registry × Bool
  unfolding on_entry
  detach_shared_workspace key strategy pid token registry =
      on_entry key (stop_entry strategy pid token) registry
