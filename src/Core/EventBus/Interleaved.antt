-- ===== src/Core/EventBus/Interleaved.antt =====
-- event.rs: what reaches the journal and the channel where emits interleave.
use llmdevsilo.Prelude.{
  ℕ, zero, suc, ◌+◌, ◌≡◌, refl, ap, Bool, List, [], ◌∷◌, ◌++◌, length, Option, some, none, arith,
  if◌then◌else◌,
}
use llmdevsilo.Core.EventBus.{
  Event, Emits, Move, pushes, journals, sends, take_at, move, moves, idle, push_event,
  append_journal, send,
}

module _ {A : Type 0} (p : A → Bool) where
  -- How many of the list's elements pass the test.
  abbrev pub count : List A → ℕ
  count [] = 0
  count (x ∷ xs) = (if p x then 1 else 0) + count xs

  count-append : (xs ys : List A) → count (xs ++ ys) ≡ count xs + count ys
  count-append [] ys = omega arith
  count-append (x ∷ xs) ys = omega (arith, count-append xs ys)

  abbrev put_back : A → Option (A × List A) → Option (A × List A)
  put_back x none = none
  put_back x (some (z, zs)) = some (z, x ∷ zs)

  abbrev count_of : Option (A × List A) → ℕ
  count_of none = 0
  count_of (some (z, zs)) = count (z ∷ zs)

  count-take_at :
      (n : ℕ) (xs : List A) (y : A) (ys : List A)
      → take_at n xs ≡ some (y, ys)
      → count xs ≡ count (y ∷ ys)
  count-take_at n [] y ys h = absurd (ground arith)
  count-take_at zero (x ∷ xs) y ys h = ap count_of h
  count-take_at (suc n) (x ∷ xs) y ys h =
      go (λ z zs e. count-take_at n xs z zs e) (take_at n xs) refl h
    where
      go :
          ((z : A) (zs : List A) → take_at n xs ≡ some (z, zs) → count xs ≡ count (z ∷ zs))
          → (o : Option (A × List A)) → take_at n xs ≡ o
          → put_back x o ≡ some (y, ys)
          → count (x ∷ xs) ≡ count (y ∷ ys)
      go same none e q = absurd (ground arith)
      go same (some (z, zs)) e q =
          let ih = same z zs e in let there = ap count_of q in omega (arith, ih, there)

module _ {Payload : Type 0} (p : Event Payload → Bool) where
  -- The events of the history that pass the test: those in the journal and those on their way to it,
  -- and those sent and those on their way to the channel.
  pub record Conserved (s : Emits Payload) : Type 0 where
    pub to_journal : count p s.bus.journal + count p s.to_journal ≡ count p s.bus.history
    pub to_channel :
        count p s.bus.sent + (count p s.to_send + count p s.to_journal) ≡ count p s.bus.history

  journalled-Conserved :
      (s : Emits Payload) (event : Event Payload) (others : List (Event Payload))
      → count p s.to_journal ≡ count p (event ∷ others)
      → Conserved s
      → Conserved (record {
        bus = append_journal event s.bus;
        to_journal = others;
        to_send = event ∷ s.to_send;
      })
  unfolding append_journal
  journalled-Conserved s event others taken c =
      let added = count-append p s.bus.journal (event ∷ []) in
      let j = c.to_journal in
      let t = c.to_channel in
      record { to_journal = omega (arith, taken, added, j); to_channel = omega (arith, taken, t) }

  sent-Conserved :
      (s : Emits Payload) (event : Event Payload) (others : List (Event Payload))
      → count p s.to_send ≡ count p (event ∷ others)
      → Conserved s
      → Conserved (record s { bus = send event s.bus; to_send = others })
  unfolding send
  sent-Conserved s event others taken c =
      let added = count-append p s.bus.sent (event ∷ []) in
      let t = c.to_channel in
      record { to_journal = c.to_journal; to_channel = omega (arith, taken, added, t) }

  move-Conserved : (s : Emits Payload) (m : Move Payload) → Conserved s → Conserved (move s m)
  unfolding move push_event
  move-Conserved s (pushes now payload) c =
      let event : Event Payload = record {
        seq = length s.bus.history;
        time = now;
        payload = payload;
      } in
      let added = count-append p s.bus.history (event ∷ []) in
      let j = c.to_journal in
      let t = c.to_channel in
      record { to_journal = omega (arith, added, j); to_channel = omega (arith, added, t) }
  move-Conserved s (journals n) c = go (take_at n s.to_journal) refl
    where
      go :
          (o : Option (Event Payload × List (Event Payload)))
          → take_at n s.to_journal ≡ o
          → Conserved (elim o [
            | none ↦ s
            | some (event, others) ↦ record {
              bus = append_journal event s.bus;
              to_journal = others;
              to_send = event ∷ s.to_send;
            }
          ])
      go none e = c
      go (some (event, others)) e =
          journalled-Conserved s event others (count-take_at p n s.to_journal event others e) c
  move-Conserved s (sends n) c = go (take_at n s.to_send) refl
    where
      go :
          (o : Option (Event Payload × List (Event Payload)))
          → take_at n s.to_send ≡ o
          → Conserved (elim o [
            | none ↦ s
            | some (event, others) ↦ record s { bus = send event s.bus; to_send = others }
          ])
      go none e = c
      go (some (event, others)) e =
          sent-Conserved s event others (count-take_at p n s.to_send event others e) c

  moves-Conserved :
      (ms : List (Move Payload)) (s : Emits Payload) → Conserved s → Conserved (moves s ms)
  unfolding moves
  moves-Conserved [] s c = c
  moves-Conserved (m ∷ ms) s c = moves-Conserved ms (move s m) (move-Conserved s m c)

  -- However the parts of the emits interleave, the journal, with the events on their way to it, has each
  -- event of the history just as often as the history; and so has the channel, with the events on their
  -- way to it. So where no emit is on its way, none is missing and none comes twice. (The order may differ
  -- from the history's.)
  pub moves-count :
      (ms : List (Move Payload))
      → (count p (moves idle ms).bus.journal + count p (moves idle ms).to_journal
          ≡ count p (moves idle ms).bus.history)
        × (count p (moves idle ms).bus.sent
              + (count p (moves idle ms).to_send + count p (moves idle ms).to_journal)
            ≡ count p (moves idle ms).bus.history)
  moves-count ms =
      let c = moves-Conserved ms idle (record { to_journal = refl; to_channel = refl }) in
      (c.to_journal, c.to_channel)
