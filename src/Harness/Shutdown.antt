-- ===== src/Harness/Shutdown.antt =====
-- crates/silo-harness/src/shutdown.rs: shutdown and interrupts. The command channel is the list of
-- the commands that have arrived; which agent task holds its receiver makes no difference to what
-- is applied, and in which order.
pub mod Requests
use llmdevsilo.Prelude.{
  ℕ, ◌+◌, ◌%◌, ◌^◌, Bool, String, List, [], ◌∷◌, Option, none, some, is_some, ltb, if◌then◌else◌,
}

-- silo-core, traits.rs.
pub data FrontendCommand : Type 0 where
  shutdown : Option String → FrontendCommand
  interrupt : FrontendCommand

pub data AbortReason : Type 0 where
  shutdown : Option String → AbortReason
  interrupted : AbortReason

pub record ShutdownSignal : Type 0 where
  pub state : Option (Option String)
  -- A `u64`.
  pub interrupts : ℕ

abbrev pub new : ShutdownSignal
new = record { state = none; interrupts = 0 }

unfoldable pub request : ShutdownSignal → Option String → ShutdownSignal
request signal message = elim signal.state [
  | none ↦ record signal { state = some message }
  | some _ ↦ signal
]

unfoldable pub apply : ShutdownSignal → FrontendCommand → ShutdownSignal
unfolding request
apply signal (FrontendCommand.shutdown message) = request signal message
apply signal interrupt = record signal { interrupts = (signal.interrupts + 1) % 2 ^ 64 }

-- `drain` over the commands that have arrived.
unfoldable pub drain : ShutdownSignal → List FrontendCommand → ShutdownSignal
unfolding apply
drain signal [] = signal
drain signal (command ∷ commands) = drain (apply signal command) commands

unfoldable pub interrupted_since : ShutdownSignal → ℕ → Bool
interrupted_since signal generation = ltb generation signal.interrupts

-- What `wait_abort` returns as soon as it does not wait: a shutdown wins over an interrupt.
unfoldable pub abort_reason : ShutdownSignal → ℕ → Option AbortReason
unfolding interrupted_since
abort_reason signal generation = elim signal.state [
  | some message ↦ some (AbortReason.shutdown message)
  | none ↦ if interrupted_since signal generation then some interrupted else none
]
