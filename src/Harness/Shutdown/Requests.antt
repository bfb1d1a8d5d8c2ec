-- ===== src/Harness/Shutdown/Requests.antt =====
-- shutdown.rs: the first shutdown request wins, and interrupts are counted.
use llmdevsilo.Prelude.{
  ℕ, suc, ◌+◌, ◌^◌, ◌<◌, ◌≡◌, refl, ap, ◌∙◌, String, List, [], ◌∷◌, Option, none, some, arith,
  if◌then◌else◌, ltb,
}
use llmdevsilo.Harness.Shutdown.{
  FrontendCommand, interrupt, AbortReason, interrupted, ShutdownSignal, request, apply, drain,
  interrupted_since, abort_reason,
}

-- The message of the first shutdown command.
abbrev pub first_shutdown : List FrontendCommand → Option (Option String)
first_shutdown [] = none
first_shutdown (FrontendCommand.shutdown message ∷ commands) = some message
first_shutdown (interrupt ∷ commands) = first_shutdown commands

abbrev pub count_interrupts : List FrontendCommand → ℕ
count_interrupts [] = 0
count_interrupts (FrontendCommand.shutdown message ∷ commands) = count_interrupts commands
count_interrupts (interrupt ∷ commands) = suc (count_interrupts commands)

abbrev pub or_first : {A : Type 0} → Option A → Option A → Option A
or_first (some a) o = some a
or_first none o = o

request-interrupts :
    (signal : ShutdownSignal) (message : Option String)
    → (request signal message).interrupts ≡ signal.interrupts
unfolding request
request-interrupts signal message = ground arith

request-state :
    (signal : ShutdownSignal) (message : Option String)
    → (request signal message).state ≡ or_first signal.state (some message)
unfolding request
request-state signal message = ground arith

or_first_assoc :
    {A : Type 0} (a : Option A) (m : A) (o : Option A)
    → or_first (or_first a (some m)) o ≡ or_first a (some m)
or_first_assoc none m o = refl
or_first_assoc (some a) m o = refl

drain-interrupts :
    (signal : ShutdownSignal) (commands : List FrontendCommand)
    → signal.interrupts + count_interrupts commands < 2 ^ 64
    → (drain signal commands).interrupts ≡ signal.interrupts + count_interrupts commands
unfolding drain
drain-interrupts signal [] h = omega arith
drain-interrupts signal (FrontendCommand.shutdown message ∷ commands) h =
    let same = request-interrupts signal message in
    drain-interrupts (request signal message) commands (omega (arith, same))
    ∙ ap (λ n. n + count_interrupts commands) same
drain-interrupts signal (interrupt ∷ commands) h =
    omega (arith, drain-interrupts (apply signal interrupt) commands (omega arith))

drain-state :
    (signal : ShutdownSignal) (commands : List FrontendCommand)
    → (drain signal commands).state ≡ or_first signal.state (first_shutdown commands)
unfolding drain
drain-state signal [] = ground arith
drain-state signal (FrontendCommand.shutdown message ∷ commands) =
    drain-state (request signal message) commands
    ∙ ap (λ o. or_first o (first_shutdown commands)) (request-state signal message)
    ∙ or_first_assoc signal.state message (first_shutdown commands)
drain-state signal (interrupt ∷ commands) = drain-state (apply signal interrupt) commands

-- Why a turn stops when commands are waiting: the first shutdown of them, wherever it stands among
-- the interrupts; without one, an interrupt that takes the count past the turn's generation.
abbrev pub expected_abort : ShutdownSignal → List FrontendCommand → ℕ → Option AbortReason
expected_abort signal commands generation = elim (first_shutdown commands) [
  | some message ↦ some (AbortReason.shutdown message)
  | none ↦
      if ltb generation (signal.interrupts + count_interrupts commands)
      then some interrupted
      else none
]

-- Where no shutdown was requested before and the interrupts stay below 2 ^ 64, a turn that applies the
-- waiting commands is stopped by the first shutdown among them, wherever it stands, and without one by
-- an interrupt exactly when the interrupts counted so far exceed the turn's generation.
pub abort_reason-drain :
    (signal : ShutdownSignal) (commands : List FrontendCommand) (generation : ℕ)
    → signal.state ≡ none
    → signal.interrupts + count_interrupts commands < 2 ^ 64
    → abort_reason (drain signal commands) generation ≡ expected_abort signal commands generation
unfolding abort_reason interrupted_since
abort_reason-drain signal commands generation e h =
    ground (arith, drain-state signal commands, drain-interrupts signal commands h)

-- Once a shutdown is requested its message stays, whatever commands follow.
pub drain-state_kept :
    (signal : ShutdownSignal) (message : Option String) (commands : List FrontendCommand)
    → signal.state ≡ some message
    → (drain signal commands).state ≡ some message
drain-state_kept signal message commands e =
    drain-state signal commands ∙ ap (λ o. or_first o (first_shutdown commands)) e
