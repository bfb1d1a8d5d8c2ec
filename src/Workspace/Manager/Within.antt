-- ===== src/Workspace/Manager/Within.antt =====
-- lib.rs: the attachments that a lock had when its unlock began, and what keeps to them.
use llmdevsilo.Prelude.{
  ℕ, ◌≡◌, refl, sym, subst, ◌⊎◌, inl, inr, Bool, true, ◌&&◌, String, List, [], ◌∷◌, Option, none,
  some, ◌==◌, string_eq, list_eq, eqb, keep, All, All-mono, Exists, if_elim, list_beq_iff,
}
use llmdevsilo.Workspace.Manager.Steps.{Op, locks}
use llmdevsilo.Workspace.Manager.{
  Attachment, SecondaryAttachment, RegistryEntry, Key, Registry, on_entry,
}
use llmdevsilo.Workspace.Manager.Attachments.{live_harness, clear_attachment, remove_secondary}

-- No harness but the one at the beginning, and no shell but those.
abbrev pub Within : Option Attachment → Option Attachment → Type 0
Within a b = (a ≡ none) ⊎ (a ≡ b)

abbrev pub AllAmong : List SecondaryAttachment → List SecondaryAttachment → Type 0
AllAmong xs ys = All (λ x. Exists (λ y. x ≡ y) ys) xs

-- An entry of the same lock is marked, and has no attachment that the first did not have.
abbrev pub StillClosed : RegistryEntry → RegistryEntry → Type 0
StillClosed first e =
    e.id ≡ first.id
    → (e.unlocking ≡ true)
      × Within e.attached first.attached
      × AllAmong e.secondary_attachments first.secondary_attachments

abbrev pub ClosedAt : RegistryEntry → Option RegistryEntry → Type 0
ClosedAt first none = Unit
ClosedAt first (some e) = StillClosed first e

-- A later lock of the path has an id of its own.
abbrev pub OtherId : String → Op → Type 0
OtherId id (locks key state_dir other strategy) = other ≡ id → ⊥
OtherId id _ = Unit

pub keep-AllAmong :
    (p : SecondaryAttachment → Bool) (xs ys : List SecondaryAttachment)
    → AllAmong xs ys
    → AllAmong (keep p xs) ys
keep-AllAmong p [] ys h = tt
keep-AllAmong p (x ∷ xs) ys h =
    if_elim (λ zs. AllAmong zs ys) (p x) (λ _. (h.0, keep-AllAmong p xs ys h.1))
      (λ _. keep-AllAmong p xs ys h.1)

pub remove_secondary-AllAmong :
    (pid : ℕ) (token : String) (xs ys : List SecondaryAttachment)
    → AllAmong xs ys
    → AllAmong (remove_secondary pid token xs) ys
remove_secondary-AllAmong pid token [] ys h = tt
remove_secondary-AllAmong pid token (x ∷ xs) ys h =
    if_elim (λ zs. AllAmong zs ys) (eqb x.pid pid && (x.token == token)) (λ _. h.1)
      (λ _. (h.0, remove_secondary-AllAmong pid token xs ys h.1))

pub AllAmong-self : (xs : List SecondaryAttachment) → AllAmong xs xs
AllAmong-self [] = tt
AllAmong-self (x ∷ xs) = (
  inl refl,
  All-mono (λ y. Exists (λ z. y ≡ z) xs) (λ y. Exists (λ z. y ≡ z) (x ∷ xs)) (λ y h. inr h) xs
      (AllAmong-self xs),
)

pub live_harness-Within :
    (alive : ℕ → String → Bool) (a b : Option Attachment)
    → Within a b
    → Within (live_harness alive a) b
live_harness-Within alive none b h = h
live_harness-Within alive (some a) b h =
    if_elim (λ x. Within x b) (alive a.pid a.start_hint) (λ _. h) (λ _. inl refl)

pub clear_attachment-Within :
    (token : String) (a b : Option Attachment) → Within a b → Within (clear_attachment token a) b
clear_attachment-Within token none b h = h
clear_attachment-Within token (some a) b h =
    if_elim (λ x. Within x b) (a.token == token) (λ _. inl refl) (λ _. h)

-- An operation on one entry keeps what it keeps of the entry.
module _ {R : Type 0} (P : Option RegistryEntry → Type 0)
    (f : Option RegistryEntry → Option RegistryEntry × R) where
  pub on_entry-keeps :
      (key here : Key) (registry : Registry)
      → P (f none).0
      → ((x : RegistryEntry) → P (some x) → P (f (some x)).0)
      → P (registry here)
      → P ((on_entry key f registry).0 here)
  unfolding on_entry
  on_entry-keeps key here registry at_none at_some p =
      if_elim P (key == here)
        (λ e. go (registry key) (subst (λ k. P (registry k)) (sym ((list_beq_iff key here).0 e)) p))
        (λ _. p)
    where
      go : (o : Option RegistryEntry) → P o → P (f o).0
      go none q = at_none
      go (some x) q = at_some x q
