-- ===== src/Core/EventBus.antt =====
-- crates/silo-core/src/event.rs: the event bus. The payload and the clock's time are arguments of an
-- emit; the journal is the list of the lines that reached it, and the channel the list of what was sent
-- on it. (That the channel keeps 4096 events for a slow receiver is left out.) The lock of the history
-- is given up before an event is journalled and sent, so that an emit is three moves, which other emits
-- may come between.
pub mod CatchUp
pub mod Interleaved
mod Examples
use llmdevsilo.Prelude.{
  ℕ, zero, suc, Option, some, none, Bool, true, false, List, [], ◌∷◌, ◌++◌, length, keep, leb,
  if◌then◌else◌,
}

pub record Event (Payload : Type 0) : Type 0 where
  pub seq : ℕ
  pub time : ℕ
  pub payload : Payload

pub record EventBus (Payload : Type 0) : Type 0 where
  pub history : List (Event Payload)
  pub journal : List (Event Payload)
  pub sent : List (Event Payload)

module _ {Payload : Type 0} where
  abbrev pub new : EventBus Payload
  new = record { history = []; journal = []; sent = [] }

  -- Under the lock: the event gets its number, and joins the history.
  unfoldable pub push_event : EventBus Payload → ℕ → Payload → EventBus Payload × Event Payload
  push_event bus now payload =
      let event : Event Payload = record {
        seq = length bus.history;
        time = now;
        payload = payload;
      } in
      (record bus { history = bus.history ++ (event ∷ []) }, event)

  unfoldable pub append_journal : Event Payload → EventBus Payload → EventBus Payload
  append_journal event bus = record bus { journal = bus.journal ++ (event ∷ []) }

  unfoldable pub send : Event Payload → EventBus Payload → EventBus Payload
  send event bus = record bus { sent = bus.sent ++ (event ∷ []) }

  -- The new bus and the event, where no other emit comes between.
  unfoldable pub emit : EventBus Payload → ℕ → Payload → EventBus Payload × Event Payload
  unfolding push_event append_journal send
  emit bus now payload =
      let (pushed, event) = push_event bus now payload in
      (send event (append_journal event pushed), event)

  -- `since` keeps the events with `seq >= from_seq`.
  unfoldable pub since : EventBus Payload → ℕ → List (Event Payload)
  since bus from_seq = keep (λ event. leb from_seq event.seq) bus.history

  -- A sequence of emits.
  unfoldable pub emit_all : EventBus Payload → List (ℕ × Payload) → EventBus Payload
  unfolding emit
  emit_all bus [] = bus
  emit_all bus (e ∷ es) = emit_all (emit bus e.0 e.1).0 es

-- The bus, with the events of the emits that are not over: those to be journalled and then sent, and
-- those that are still to be sent.
pub record Emits (Payload : Type 0) : Type 0 where
  pub bus : EventBus Payload
  pub to_journal : List (Event Payload)
  pub to_send : List (Event Payload)

pub data Move (Payload : Type 0) : Type 0 where
  -- An emit begins, at this time and with this payload.
  pushes : ℕ → Payload → Move Payload
  -- The emit at this place goes on.
  journals : ℕ → Move Payload
  sends : ℕ → Move Payload

module _ {A : Type 0} where
  abbrev pub take_at : ℕ → List A → Option (A × List A)
  take_at n [] = none
  take_at zero (x ∷ xs) = some (x, xs)
  take_at (suc n) (x ∷ xs) = elim (take_at n xs) [ some (y, ys) ↦ some (y, x ∷ ys) | none ↦ none ]

module _ {Payload : Type 0} where
  -- A move of an emit that is not there changes nothing.
  unfoldable pub move : Emits Payload → Move Payload → Emits Payload
  unfolding push_event append_journal send
  move s (pushes now payload) =
      let (bus, event) = push_event s.bus now payload in
      record s { bus = bus; to_journal = event ∷ s.to_journal }
  move s (journals n) = elim (take_at n s.to_journal) [
    | none ↦ s
    | some (event, others) ↦ record {
      bus = append_journal event s.bus;
      to_journal = others;
      to_send = event ∷ s.to_send;
    }
  ]
  move s (sends n) = elim (take_at n s.to_send) [
    | none ↦ s
    | some (event, others) ↦ record s { bus = send event s.bus; to_send = others }
  ]

  unfoldable pub moves : Emits Payload → List (Move Payload) → Emits Payload
  unfolding move
  moves s [] = s
  moves s (m ∷ ms) = moves (move s m) ms

  abbrev pub idle : Emits Payload
  idle = record { bus = new; to_journal = []; to_send = [] }
