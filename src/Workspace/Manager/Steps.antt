-- ===== src/Workspace/Manager/Steps.antt =====
-- lib.rs: the operations of several processes, each from taking the registry's lock to giving it up.
use llmdevsilo.Prelude.{ℕ, Bool, String, List, [], ◌∷◌}
use llmdevsilo.Workspace.Manager.{
  ContainerStrategy, Attachment, SecondaryAttachment, RegistryEntry, Key, Registry, Outcome,
  lock_reserve, lock_commit, unlock_begin, unlock_end,
}
use llmdevsilo.Workspace.Manager.Attachments.{
  status, attach, attach_shared, detach_workspace, detach_shared_workspace,
}

-- The path of the operation is its first key; the processes that are alive are those of its moment.
pub data Op : Type 0 where
  locks : Key → Key → String → ContainerStrategy → Op
  commits : Key → String → Outcome (ContainerStrategy × List String) → Op
  begins_unlock : Key → Op
  ends_unlock : Key → (ℕ → String → Bool) → RegistryEntry → Outcome String → Op
  reads_status : Key → (ℕ → String → Bool) → Op
  attaches : Key → (ℕ → String → Bool) → Attachment → Outcome String → Op
  shares : Key → (ℕ → String → Bool) → SecondaryAttachment → Outcome String → Op
  detaches : Key → (ℕ → String → Bool) → ContainerStrategy → String → Op
  stops_sharing : Key → (ℕ → String → Bool) → ContainerStrategy → ℕ → String → Op

unfoldable pub step : Op → Registry → Registry
unfolding lock_reserve lock_commit unlock_begin unlock_end status attach attach_shared
    detach_workspace detach_shared_workspace
step (locks key state_dir id strategy) registry =
    (lock_reserve state_dir key id strategy registry).0
step (commits key id work) registry = (lock_commit key id work registry).0
step (begins_unlock key) registry = (unlock_begin key registry).0
step (ends_unlock key survives entry work) registry =
    (unlock_end survives key entry work registry).0
step (reads_status key alive) registry = (status alive key registry).0
step (attaches key alive attachment mount) registry = (attach alive key attachment mount registry).0
step (shares key alive attachment mount) registry =
    (attach_shared alive key attachment mount registry).0
step (detaches key alive strategy token) registry =
    (detach_workspace alive key strategy token registry).0
step (stops_sharing key alive strategy pid token) registry =
    (detach_shared_workspace alive key strategy pid token registry).0

unfoldable pub run : List Op → Registry → Registry
unfolding step
run [] registry = registry
run (op ∷ ops) registry = run ops (step op registry)
