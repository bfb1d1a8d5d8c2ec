-- ===== src/Workspace/Manager/Attached.antt =====
-- lib.rs: when a harness is attached, and what its detachment leaves.
use mathlib.Core.Bool.{false≢true}
use llmdevsilo.Prelude.{
  ℕ, ◌≡◌, refl, ap, subst, ◌∙◌, ◌↔◌, Bool, true, false, not, ◌&&◌, String, Option, none, some, inl,
  inr, sym, List, [], ◌∷◌, length, keep, All, Bool-cases, string_eq, list_eq, eqb, arith, beq_refl,
}
use llmdevsilo.Workspace.Manager.{
  ContainerStrategy, plain_dir, sparse_bundle, ext4_fuse, SecondaryAttachment, uses_image,
  Attachment, RegistryEntry, Key, Registry, WorkspaceError, Outcome, ok, err, on_entry,
}
use llmdevsilo.Workspace.Manager.Attachments.{
  attachable, live_harness, attach_by, attach_mounted, attach_entry, attach, detach_workspace,
}

-- The workspace is locked, no unlock of it has begun, and no harness that lives is attached.
abbrev pub Attachable : (ℕ → String → Bool) → RegistryEntry → Type 0
Attachable alive x =
    (x.locked ≡ true)
    × (x.unlocking ≡ false)
    × ((a : Attachment) → x.attached ≡ some a → alive a.pid a.start_hint ≡ false)

attachable-Attachable :
    (key : Key) (alive : ℕ → String → Bool) (x : RegistryEntry)
    → Attachable alive x
    → attachable key x ≡ none
attachable-Attachable key alive x (locked, closed, dead) = rw (locked, closed) refl

live_harness-dead :
    (alive : ℕ → String → Bool) (o : Option Attachment)
    → ((a : Attachment) → o ≡ some a → alive a.pid a.start_hint ≡ false)
    → live_harness alive o ≡ none
live_harness-dead alive none dead = refl
live_harness-dead alive (some a) dead = rw (dead a refl) refl

dead-live_harness :
    (alive : ℕ → String → Bool) (o : Option Attachment)
    → live_harness alive o ≡ none
    → (a : Attachment) → o ≡ some a
    → alive a.pid a.start_hint ≡ false
dead-live_harness alive none h a e = ground arith
dead-live_harness alive (some b) h a e =
    let q : alive b.pid b.start_hint ≡ false = ground arith in subst (λ c. dead_of c ≡ false) e q
  where
    dead_of : Option Attachment → Bool
    dead_of none = false
    dead_of (some c) = alive c.pid c.start_hint

attach_entry-Attachable :
    (alive : ℕ → String → Bool) (key : Key) (attachment : Attachment) (mount : Outcome String)
    (x : RegistryEntry)
    → Attachable alive x
    → attach_entry alive key attachment mount (some x) ≡ attach_mounted alive attachment mount x
attach_entry-Attachable alive key attachment mount x free =
    rw
      (
        attachable-Attachable key alive x free,
        live_harness-dead alive x.attached free.2,
        attach_entry,
      )
      refl

attach_mounted-ok :
    (alive : ℕ → String → Bool) (attachment : Attachment) (mount : Outcome String)
    (x : RegistryEntry) (mount_path : String)
    → (attach_mounted alive attachment mount x).1 ≡ mount
attach_mounted-ok alive attachment (err e) x mount_path = refl
attach_mounted-ok alive attachment (ok m) x mount_path = refl

attach_entry-ok :
    (alive : ℕ → String → Bool) (key : Key) (attachment : Attachment) (mount : Outcome String)
    (x : RegistryEntry) (mount_path : String)
    → (attach_entry alive key attachment mount (some x)).1 ≡ ok mount_path
    → Attachable alive x × (mount ≡ ok mount_path)
attach_entry-ok alive key attachment mount x mount_path h =
    go (attachable key x) (live_harness alive x.attached) mount refl refl h
  where
    go :
        (c : Option WorkspaceError) (a : Option Attachment) (m : Outcome String)
        → attachable key x ≡ c
        → live_harness alive x.attached ≡ a
        → (attach_by alive c a key attachment m x).1 ≡ ok mount_path
        → Attachable alive x × (m ≡ ok mount_path)
    go (some e) a m p q r = ground arith
    go none (some a) m p q r = ground arith
    go none none (err e) p q r = ground arith
    go none none (ok n) p q r =
        ((ground arith, ground arith, dead-live_harness alive x.attached q), r)

-- A harness is attached exactly when there is an entry that is `Attachable` and the mount succeeds.
pub attach_iff :
    (alive : ℕ → String → Bool) (key : Key) (attachment : Attachment) (mount : Outcome String)
    (registry : Registry) (mount_path : String)
    → ((attach alive key attachment mount registry).1 ≡ ok mount_path) ↔ (
        (x : RegistryEntry) × (registry key ≡ some x)
        × Attachable alive x
        × (mount ≡ ok mount_path))
unfolding attach on_entry
attach_iff alive key attachment mount registry mount_path = (
  go (registry key),
  λ (x, found, free, mounted). rw (found) (
      ap (λ r. r.1) (attach_entry-Attachable alive key attachment mount x free)
      ∙ attach_mounted-ok alive attachment mount x mount_path
      ∙ mounted),
)
  where
    go :
        (o : Option RegistryEntry)
        → (attach_entry alive key attachment mount o).1 ≡ ok mount_path
        → (x : RegistryEntry) × (o ≡ some x) × Attachable alive x × (mount ≡ ok mount_path)
    go none h = ground arith
    go (some x) h =
        let (free, mounted) = attach_entry-ok alive key attachment mount x mount_path h in
        (x, refl, free, mounted)

-- No process is left that was alive before.
abbrev pub NoneLeft : (ℕ → String → Bool) → (ℕ → String → Bool) → List SecondaryAttachment → Type 0
NoneLeft alive alive_after shells =
    All
      (λ (s : SecondaryAttachment).
        alive s.pid s.start_hint ≡ true → alive_after s.pid s.start_hint ≡ false)
      shells

uses_image_iff :
    (strategy : ContainerStrategy) → (uses_image strategy ≡ true) ↔ ¬ (strategy ≡ plain_dir)
uses_image_iff plain_dir = (λ h. absurd (ground arith), λ h. absurd (h refl))
uses_image_iff sparse_bundle = (λ h e. absurd (ground arith), λ h. refl)
uses_image_iff ext4_fuse = (λ h e. absurd (ground arith), λ h. refl)

shells_left-NoneLeft :
    (alive alive_after : ℕ → String → Bool) (shells : List SecondaryAttachment)
    → (eqb
          (length (
            keep
              (λ (s : SecondaryAttachment). alive_after s.pid s.start_hint)
              (keep (λ (s : SecondaryAttachment). alive s.pid s.start_hint) shells)))
          0
        ≡ true)
      ↔ NoneLeft alive alive_after shells
shells_left-NoneLeft alive alive_after [] = (λ _. tt, λ _. refl)
shells_left-NoneLeft alive alive_after (s ∷ shells) =
    let ih = shells_left-NoneLeft alive alive_after shells in
    elim (Bool-cases (alive s.pid s.start_hint)) [
      | inr e ↦ rw (e) (λ h. ((λ q. absurd (false≢true q)), ih.0 h), λ h. ih.1 h.1)
      | inl e ↦ elim (Bool-cases (alive_after s.pid s.start_hint)) [
        | inl f ↦ rw (e, f) (λ h. absurd (ground arith), λ h. absurd (false≢true (sym (h.0 refl))))
        | inr f ↦ rw (e, f) (λ h. ((λ _. refl), ih.0 h), λ h. ih.1 h.1)
      ]
    ]

both_iff :
    {X Y : Type 0} {b c : Bool}
    → ((b ≡ true) ↔ X)
    → ((c ≡ true) ↔ Y)
    → (b && not (not c) ≡ true) ↔ (X × Y)
both_iff {b = true} {c = true} x y = (λ h. (x.0 refl, y.0 refl), λ h. refl)
both_iff {b = true} {c = false} x y = (λ h. absurd (false≢true h), λ h. y.1 h.1)
both_iff {b = false} x y = (λ h. absurd (false≢true h), λ h. x.1 h.0)

-- A harness that is attached and then detached by the token of its attachment leaves the entry as it
-- was, but without a harness and with those of its shells that were alive when it was attached; and the
-- mount is released exactly when the strategy is not the plain directory and none of these shells is
-- alive at the detachment.
pub detach_workspace-attach :
    (alive alive_after : ℕ → String → Bool) (key : Key) (attachment : Attachment)
    (mount_path : String) (registry : Registry) (x : RegistryEntry)
    → registry key ≡ some x
    → Attachable alive x
    → ((detach_workspace alive_after key x.strategy attachment.token
            (attach alive key attachment (ok mount_path) registry).0).0
          key
        ≡ some (record x {
          attached = none;
          secondary_attachments = keep (λ s. alive s.pid s.start_hint) x.secondary_attachments;
        }))
      × (((detach_workspace alive_after key x.strategy attachment.token
              (attach alive key attachment (ok mount_path) registry).0).1
            ≡ true)
          ↔ (¬ (x.strategy ≡ plain_dir) × NoneLeft alive alive_after x.secondary_attachments))
unfolding attach detach_workspace on_entry
detach_workspace-attach alive alive_after key attachment mount_path registry x found free =
    rw
      (
        beq_refl key,
        found,
        attach_entry-Attachable alive key attachment (ok mount_path) x free,
        beq_refl attachment.token,
      )
      (
        refl,
        both_iff (uses_image_iff x.strategy)
            (shells_left-NoneLeft alive alive_after x.secondary_attachments),
      )
