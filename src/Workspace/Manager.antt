-- ===== src/Workspace/Manager.antt =====
-- crates/silo-workspace/src/lib.rs and registry.rs: the registry of locked workspaces. Every operation
-- takes the registry's lock, loads it, looks at one entry and saves it, so that it is a function of the
-- entry; a slow operation is cut where it gives the lock up. A canonical path is its components. The
-- processes that are alive, the results of the work on files, ids and tokens are arguments.
pub mod Attachments
pub mod Steps
pub mod Within
pub mod Closed
pub mod Attached
mod Examples
use llmdevsilo.Prelude.{
  ℕ, zero, suc, ◌+◌, Bool, true, false, not, ◌&&◌, ◌||◌, String, List, [], ◌∷◌, ◌++◌, map, Option,
  none, some, is_some, ◌==◌, string_eq, nat_eq, list_eq, Eq, eqb, keep, any, length, is_empty,
  starts_with, if◌then◌else◌,
}

pub data ContainerStrategy : Type 0 where
  plain_dir sparse_bundle ext4_fuse : ContainerStrategy

abbrev pub uses_image : ContainerStrategy → Bool
uses_image plain_dir = false
uses_image sparse_bundle = true
uses_image ext4_fuse = true

pub record Attachment : Type 0 where
  pub harness_id : String
  pub pid : ℕ
  pub start_hint : String
  pub token : String

pub record SecondaryAttachment : Type 0 where
  pub purpose : String
  pub pid : ℕ
  pub start_hint : String
  pub token : String

pub record RegistryEntry : Type 0 where
  pub id : String
  pub locked : Bool
  pub unlocking : Bool
  pub strategy : ContainerStrategy
  pub attached : Option Attachment
  pub secondary_attachments : List SecondaryAttachment
  pub warnings : List String

abbrev pub Key : Type 0
Key = List String

abbrev pub Registry : Type 0
Registry = Key → Option RegistryEntry

-- `WorkspaceError`, by what its texts are made of.
pub data WorkspaceError : Type 0 where
  overlaps_state_dir locked not_locked unlock_in_progress changed_while_locking :
      Key → WorkspaceError
  -- The harness and its process.
  already_attached : Key → String → ℕ → WorkspaceError
  not_terminated : List ℕ → WorkspaceError
  failed : String → WorkspaceError

pub data Outcome (A : Type 0) : Type 0 where
  ok : A → Outcome A
  err : WorkspaceError → Outcome A

-- One entry is looked at, and saved.
unfoldable pub on_entry :
    {R : Type 0} → Key → (Option RegistryEntry → Option RegistryEntry × R) → Registry → Registry × R
on_entry key f registry =
    let r = f (registry key) in ((λ k. if key == k then r.0 else registry k), r.1)

abbrev pub fresh_entry : String → ContainerStrategy → RegistryEntry
fresh_entry id strategy = record {
  id = id;
  locked = true;
  unlocking = false;
  strategy = strategy;
  attached = none;
  secondary_attachments = [];
  warnings = [];
}

-- What `lock` does to the entry that it reserves.
abbrev pub reserve_entry :
    Key → String → ContainerStrategy → Option RegistryEntry → Option RegistryEntry × Outcome String
reserve_entry key id strategy none = (some (fresh_entry id strategy), ok id)
reserve_entry key id strategy (some x) =
    if x.locked
    then (some x, err (WorkspaceError.locked key))
    else (some (fresh_entry id strategy), ok id)

-- The first part of `lock`, up to the reserved entry.
unfoldable pub lock_reserve :
    Key → Key → String → ContainerStrategy → Registry → Registry × Outcome String
unfolding on_entry
lock_reserve state_dir key id strategy registry =
    if starts_with key state_dir || starts_with state_dir key
    then (registry, err (overlaps_state_dir key))
    else on_entry key (reserve_entry key id strategy) registry

abbrev pub remove_own : String → Option RegistryEntry → Option RegistryEntry
remove_own id none = none
remove_own id (some x) = if x.id == id then none else some x

abbrev pub commit_entry :
    Key
    → String
    → Outcome (ContainerStrategy × List String)
    → Option RegistryEntry
    → Option RegistryEntry × Outcome (List String)
commit_entry key id (err e) entry = (remove_own id entry, err e)
commit_entry key id (ok (strategy, warnings)) none = (none, err (changed_while_locking key))
commit_entry key id (ok (strategy, warnings)) (some x) =
    if x.id == id
    then (some (record x { strategy = strategy; warnings = warnings }), ok warnings)
    else (some x, err (changed_while_locking key))

-- The last part of `lock`, by the result of the work on the files.
unfoldable pub lock_commit :
    Key
    → String
    → Outcome (ContainerStrategy × List String)
    → Registry
    → Registry × Outcome (List String)
unfolding on_entry
lock_commit key id work registry = on_entry key (commit_entry key id work) registry

abbrev pub begin_entry : Key → Option RegistryEntry → Option RegistryEntry × Outcome RegistryEntry
begin_entry key none = (none, err (not_locked key))
begin_entry key (some x) =
    (some (record x { unlocking = true }), ok (record x { unlocking = true }))

-- Step 1 of `unlock`.
unfoldable pub unlock_begin : Key → Registry → Registry × Outcome RegistryEntry
unfolding on_entry
unlock_begin key registry = on_entry key (begin_entry key) registry

-- The processes that step 2 terminates.
abbrev pub targets : RegistryEntry → List (ℕ × String)
targets entry =
    (elim entry.attached [ some a ↦ (a.pid, a.start_hint) ∷ [] | none ↦ [] ])
    ++ map (λ s. (s.pid, s.start_hint)) entry.secondary_attachments

abbrev pub pids_of : List (ℕ × String) → List ℕ
pids_of targets = map (λ t. t.0) targets

abbrev pub survivors : (ℕ → String → Bool) → RegistryEntry → List ℕ
survivors survives entry = pids_of (keep (λ t. survives t.0 t.1) (targets entry))

-- Steps 2 to 7 of `unlock`: which processes survive, the result of the work on the files, and the
-- removal of the entry.
unfoldable pub unlock_end :
    {Report : Type 0}
    → (ℕ → String → Bool)
    → Key
    → RegistryEntry
    → Outcome Report
    → Registry
    → Registry × Outcome Report
unfolding on_entry
unlock_end survives key entry work registry =
    if not (is_empty (survivors survives entry))
    then (registry, err (not_terminated (survivors survives entry)))
    else elim work [
      | err e ↦ (registry, err e)
      | ok report ↦ on_entry key (λ current. (remove_own entry.id current, ok report)) registry
    ]
