-- ===== src/Core/Replay/Expects.antt =====
-- replay.rs: the turn that a request gets, by the text of its last user message.
use mathlib.Core.Bool.{false≢true}
use mathlib.Core.List.{append_assoc, reverse-cons, reverse-append}
use llmdevsilo.Prelude.{
  ℕ, suc, ◌≤◌, ◌≡◌, refl, ap, ◌∙◌, ◌↔◌, inl, inr, Bool, true, false, ◌||◌, String, List, [], ◌∷◌,
  ◌++◌, reverse, some, none, Text, codes, find, All, or_cases, starts_with, starts_with_iff, nat_eq,
  arith, Option, subst,
}
use llmdevsilo.Core.Conversation.{user, assistant, Message, texts, join_lines}
use llmdevsilo.Core.Replay.{
  ScriptedLlmTurn, ScriptState, ok, count_done, get_elem?, set_done, next_llm, expects_within,
  last_user_text, is_user, find_below_text, contains,
}
use llmdevsilo.Core.Replay.Consumed.{next_llm-Open}

-- The needle stands somewhere in the text.
abbrev pub Within : Text → Text → Type 0
Within needle text = (front : Text) × (rest : Text) × (text ≡ front ++ (needle ++ rest))

find_below_text_iff :
    (needle text : Text) → (find_below_text needle text ≡ true) ↔ Within needle text
find_below_text_iff needle text = (to text, from text)
  where
    to : (text : Text) → find_below_text needle text ≡ true → Within needle text
    to [] h = let (rest, e) = (starts_with_iff [] needle).0 h in ([], rest, e)
    to (c ∷ cs) h = elim (or_cases (starts_with (c ∷ cs) needle) (find_below_text needle cs) h) [
      | inl here ↦ let (rest, e) = (starts_with_iff (c ∷ cs) needle).0 here in ([], rest, e)
      | inr there ↦ let (front, rest, e) = to cs there in (c ∷ front, rest, ap (λ t. c ∷ t) e)
    ]

    from : (text : Text) → Within needle text → find_below_text needle text ≡ true
    from [] ([], rest, e) = (starts_with_iff [] needle).1 (rest, e)
    from [] (c ∷ front, rest, e) = absurd (ground arith)
    from (c ∷ cs) ([], rest, e) = rw ((starts_with_iff (c ∷ cs) needle).1 (rest, e)) refl
    from (c ∷ cs) (d ∷ front, rest, e) =
        let tail : cs ≡ front ++ (needle ++ rest) = ground arith in
        rw (from cs (front, rest, tail)) (or_true_right (starts_with (c ∷ cs) needle))
      where
        or_true_right : (b : Bool) → b || true ≡ true
        or_true_right true = refl
        or_true_right false = refl

module _ {J : Type 0} where
  -- The turn expects a text, and it stands in this one.
  abbrev pub Expects : String → ScriptedLlmTurn J → Type 0
  Expects text turn =
      (needle : String) × (turn.expect_user_contains ≡ some needle)
      × Within (codes needle) (codes text)

  expects_within-Expects :
      (text : String) (turn : ScriptedLlmTurn J)
      → (expects_within text turn ≡ true) ↔ Expects text turn
  expects_within-Expects text turn = (
    go turn.expect_user_contains refl,
    λ (needle, e, within). rw (e) ((find_below_text_iff (codes needle) (codes text)).1 within),
  )
    where
      go :
          (o : Option String)
          → turn.expect_user_contains ≡ o
          → (elim o [ some needle ↦ contains text needle | none ↦ false ]) ≡ true
          → Expects text turn
      go none e h = absurd (false≢true h)
      go (some needle) e h = (needle, e, (find_below_text_iff (codes needle) (codes text)).0 h)

  find-assistants :
      (behind ys : List (Message J))
      → All (λ (x : Message J). x.role ≡ assistant) behind
      → find is_user (reverse behind ++ ys) ≡ find is_user ys
  find-assistants [] ys h = refl
  find-assistants (x ∷ behind) ys h =
      ap (λ l. find is_user (l ++ ys)) (reverse-cons x behind)
      ∙ ap (find is_user) (append_assoc (reverse behind) (x ∷ []) ys)
      ∙ find-assistants behind (x ∷ ys) h.1
      ∙ rw (h.0) refl

  -- The text of the last user message.
  last_user_text-last :
      (messages before behind : List (Message J)) (m : Message J)
      → messages ≡ before ++ (m ∷ behind)
      → m.role ≡ user
      → All (λ (x : Message J). x.role ≡ assistant) behind
      → last_user_text messages ≡ join_lines (texts m.content)
  last_user_text-last messages before behind m e u h =
      let there : find is_user (reverse messages) ≡ some m =
        ap (λ l. find is_user (reverse l)) e
        ∙ ap (find is_user) (reverse-append before (m ∷ behind))
        ∙ ap (λ l. find is_user (l ++ reverse before)) (reverse-cons m behind)
        ∙ ap (find is_user) (append_assoc (reverse behind) (m ∷ []) (reverse before))
        ∙ find-assistants behind (m ∷ reverse before) h
        ∙ rw (u) refl in
      ap (λ (o : Option (Message J)). elim o [ some x ↦ join_lines (texts x.content) | none ↦ "" ])
        there

  -- The turn at a place of the script that was not consumed expects the text.
  abbrev pub Waits : ScriptState J → String → ℕ → ScriptedLlmTurn J → Type 0
  Waits s text i turn =
      (get_elem? s.script.llm i ≡ some turn)
      × (get_elem? s.llm_consumed i ≡ some false)
      × Expects text turn

  -- If a turn that was not consumed expects a text, and it stands in the texts of the last user message,
  -- joined by newlines, then the request gets the response of such a turn, at the same place or before it
  -- in the script, and that turn alone is consumed by it.
  pub next_llm-Waits :
      (s : ScriptState J) (messages before behind : List (Message J)) (m : Message J) (i : ℕ)
      (turn : ScriptedLlmTurn J)
      → messages ≡ before ++ (m ∷ behind)
      → m.role ≡ user
      → All (λ (x : Message J). x.role ≡ assistant) behind
      → Waits s (join_lines (texts m.content)) i turn
      → (j : ℕ) × (chosen : ScriptedLlmTurn J) × (j ≤ i)
        × Waits s (join_lines (texts m.content)) j chosen
        × (next_llm s messages
            ≡ (record s { llm_consumed = set_done j s.llm_consumed }, ok chosen.response))
        × (count_done (set_done j s.llm_consumed) ≡ suc (count_done s.llm_consumed))
  next_llm-Waits s messages before behind m i turn e u h (there, unconsumed, expects) =
      let text = join_lines (texts m.content) in
      let last = last_user_text-last messages before behind m e u h in
      let (j, chosen, le, found, run, counted) =
        next_llm-Open s messages i turn
          (there, unconsumed, rw (last) ((expects_within-Expects text turn).1 expects)) in
      (
        j,
        chosen,
        le,
        (
          found.0,
          found.1,
          (expects_within-Expects text chosen).0
              (subst (λ t. expects_within t chosen ≡ true) last found.2),
        ),
        run,
        counted,
      )
