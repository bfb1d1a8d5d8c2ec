-- ===== src/Core/EventBus/CatchUp.antt =====
-- event.rs: a client that catches up from a sequence number misses nothing and sees nothing twice.
use mathlib.Core.List.{append_assoc, append-nil}
use llmdevsilo.Prelude.{
  ℕ, suc, ◌+◌, ◌≤◌, ◌≡◌, refl, sym, ap, ◌∙◌, false, List, [], ◌∷◌, ◌++◌, length, keep, leb, le→leb,
  arith, length-append, subst,
}
use llmdevsilo.Core.EventBus.{Event, EventBus, new, emit, since, emit_all}

module _ {Payload : Type 0} where
  -- The events of these emits, numbered from n on.
  abbrev pub numbered : ℕ → List (ℕ × Payload) → List (Event Payload)
  numbered n [] = []
  numbered n (e ∷ es) = record { seq = n; time = e.0; payload = e.1 } ∷ numbered (suc n) es

  emit_all-history :
      (es : List (ℕ × Payload)) (bus : EventBus Payload)
      → (emit_all bus es).history ≡ bus.history ++ numbered (length bus.history) es
  unfolding emit_all emit
  emit_all-history [] bus = sym (append-nil bus.history)
  emit_all-history (e ∷ es) bus =
      emit_all-history es (emit bus e.0 e.1).0
      ∙ append_assoc bus.history (event ∷ []) (numbered (length (bus.history ++ (event ∷ []))) es)
      ∙ ap (λ n. bus.history ++ (event ∷ numbered n es))
          (length-append bus.history (event ∷ []) ∙ omega arith)
    where
      event : Event Payload
      event = record { seq = length bus.history; time = e.0; payload = e.1 }

  keep-numbered :
      (from n : ℕ) (es : List (ℕ × Payload))
      → from ≤ n
      → keep (λ (event : Event Payload). leb from event.seq) (numbered n es) ≡ numbered n es
  keep-numbered from n [] h = refl
  keep-numbered from n (e ∷ es) h = rw (le→leb from n h) (
      ap (λ rest. record { seq = n; time = e.0; payload = e.1 } ∷ rest)
        (keep-numbered from (suc n) es (omega arith)))

  keep-behind :
      (from n : ℕ) (before behind : List (ℕ × Payload))
      → from ≡ n + length before
      → keep (λ (event : Event Payload). leb from event.seq) (numbered n (before ++ behind))
        ≡ numbered from behind
  keep-behind from n [] behind h =
      subst
        (λ k.
          keep (λ (event : Event Payload). leb from event.seq) (numbered k behind)
          ≡ numbered from behind)
        (h ∙ omega arith) (keep-numbered from from behind (omega arith))
  keep-behind from n (e ∷ before) behind h =
      rw (not_yet) (keep-behind from (suc n) before behind (omega arith))
    where
      not_yet : leb from n ≡ false
      not_yet = ground arith

  -- A client that has seen the events of the first emits, and asks for those from their count on, gets
  -- just the events of all later emits, in order and numbered on: none is missing and none comes twice.
  pub since-emit_all :
      (before behind : List (ℕ × Payload))
      → since (emit_all new (before ++ behind)) (length before) ≡ numbered (length before) behind
  unfolding since
  since-emit_all before behind =
      rw (emit_all-history (before ++ behind) new)
        (keep-behind (length before) 0 before behind (omega arith))
