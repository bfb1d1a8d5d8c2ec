-- ===== src/Core/EventBus/Examples.antt =====
-- Tests and witnesses for the bus of event.rs.
use llmdevsilo.Prelude.{◌+◌, ℕ, eqb, ◌≡◌, refl, String, List, [], ◌∷◌, ◌++◌, map, length}
use llmdevsilo.Core.EventBus.{
  Event, new, since, emit_all, Move, pushes, journals, sends, moves, move, idle, push_event,
  append_journal, send,
}
use llmdevsilo.Core.EventBus.Interleaved.{count, moves-count}
use llmdevsilo.Core.EventBus.CatchUp.{numbered, since-emit_all}

abbrev seen : List (ℕ × String)
seen = (10, "started") ∷ ((11, "prompt") ∷ [])

abbrev missed : List (ℕ × String)
missed = (12, "text") ∷ ((12, "turn complete") ∷ [])

since_test :
    map (λ (e : Event String). e.seq) (since (emit_all new (seen ++ missed)) 2) ≡ 2 ∷ (3 ∷ [])
unfolding since emit_all
since_test = refl

-- The second event overtakes the first.
abbrev overtaken : List (Move String)
overtaken =
    pushes 10 "started" ∷ pushes 11 "prompt" ∷ journals 0 ∷ sends 0 ∷ journals 0 ∷ sends 0 ∷ []

overtaken_order : map (λ (e : Event String). e.seq) (moves idle overtaken).bus.sent ≡ 1 ∷ (0 ∷ [])
unfolding moves move push_event append_journal send
overtaken_order = refl

moves-count_example :
    (count (λ e. eqb e.seq 0) (moves idle overtaken).bus.journal
        + count (λ e. eqb e.seq 0) (moves idle overtaken).to_journal
      ≡ count (λ e. eqb e.seq 0) (moves idle overtaken).bus.history)
    × (count (λ e. eqb e.seq 0) (moves idle overtaken).bus.sent
          + (count (λ e. eqb e.seq 0) (moves idle overtaken).to_send
              + count (λ e. eqb e.seq 0) (moves idle overtaken).to_journal)
        ≡ count (λ e. eqb e.seq 0) (moves idle overtaken).bus.history)
moves-count_example = moves-count (λ e. eqb e.seq 0) overtaken

since-emit_all_example :
    since (emit_all new (seen ++ missed)) (length seen) ≡ numbered (length seen) missed
since-emit_all_example = since-emit_all seen missed
