-- ===== src/Core/Replay/Consumed.antt =====
-- replay.rs: which entry of the script a request or a call gets.
use llmdevsilo.Prelude.{
  ℕ, zero, suc, ◌≤◌, ◌≡◌, refl, sym, ap, ◌∙◌, Bool, true, false, not, ◌&&◌, List, [], ◌∷◌, some,
  arith, Bool-cases, inl, inr,
}
use llmdevsilo.Core.Conversation.{Message}
use llmdevsilo.Core.Tool.{ToolCall}
use llmdevsilo.Core.Replay.{
  ScriptedLlmTurn, ScriptedToolExec, ScriptState, ok, all_done, count_done, find_index, get_elem?,
  set_done, choose_llm, next_llm, next_tool, expects_call, expects_within, last_user_text,
}

-- The entry at an index is unconsumed, and has a property.
abbrev pub Open : {A : Type 0} → (A → Bool) → List A → List Bool → ℕ → A → Type 0
Open p xs flags i x = (get_elem? xs i ≡ some x) × (get_elem? flags i ≡ some false) × (p x ≡ true)

module _ {A : Type 0} (p : A → Bool) where
  -- The search finds the first such entry.
  find_index-first :
      (xs : List A) (flags : List Bool) (i : ℕ) (x : A)
      → Open p xs flags i x
      → (j : ℕ) × (y : A) × (find_index p xs flags ≡ some j) × (j ≤ i) × Open p xs flags j y
  find_index-first [] flags i x (a, b, c) = absurd (ground arith)
  find_index-first (y ∷ xs) [] i x (a, b, c) = absurd (ground arith)
  find_index-first (y ∷ xs) (done ∷ flags) zero x (a, b, c) =
      let e : x ≡ y = ground arith in
      let d : done ≡ false = ground arith in
      let q : p y ≡ true = ap p (sym e) ∙ c in
      (0, y, rw (d, q) refl, omega arith, (refl, ap some d, q))
  find_index-first (y ∷ xs) (done ∷ flags) (suc i) x h = elim (Bool-cases (not done && p y)) [
    | inl e ↦ (0, y, rw (e) refl, omega arith, (refl, ap some (ground arith), ground arith))
    | inr e ↦
        let (j, z, found, le, open_there) = find_index-first xs flags i x h in
        (suc j, z, rw (e, found) refl, omega arith, open_there)
  ]

count_done-set_done :
    (flags : List Bool) (i : ℕ)
    → get_elem? flags i ≡ some false
    → count_done (set_done i flags) ≡ suc (count_done flags)
count_done-set_done [] i h = ground arith
count_done-set_done (done ∷ flags) zero h = ground arith
count_done-set_done (done ∷ flags) (suc i) h = omega (arith, count_done-set_done flags i h)

all_done-open :
    (flags : List Bool) (i : ℕ) → get_elem? flags i ≡ some false → all_done flags ≡ false
all_done-open [] i h = ground arith
all_done-open (done ∷ flags) zero h = ground arith
all_done-open (done ∷ flags) (suc i) h = rw (all_done-open flags i h) (ground arith)

module _ {J : Type 0} (s : ScriptState J) where
  pub next_llm-Open :
      (messages : List (Message J)) (i : ℕ) (turn : ScriptedLlmTurn J)
      → Open (expects_within (last_user_text messages)) s.script.llm s.llm_consumed i turn
      → (j : ℕ) × (chosen : ScriptedLlmTurn J) × (j ≤ i)
        × Open (expects_within (last_user_text messages)) s.script.llm s.llm_consumed j chosen
        × (next_llm s messages
            ≡ (record s { llm_consumed = set_done j s.llm_consumed }, ok chosen.response))
        × (count_done (set_done j s.llm_consumed) ≡ suc (count_done s.llm_consumed))
  unfolding next_llm choose_llm
  next_llm-Open messages i turn h =
      let (j, chosen, found, le, o) =
        find_index-first (expects_within (last_user_text messages)) s.script.llm s.llm_consumed i
          turn h in
      (
        j,
        chosen,
        le,
        o,
        rw (all_done-open s.llm_consumed j o.1, found, o.0, choose_llm, next_llm) refl,
        count_done-set_done s.llm_consumed j o.1,
      )

  -- If an execution that was not consumed expects the call, the call gets an execution that expects it,
  -- at the same place or before it in the script, and that one alone is consumed by it.
  pub next_tool-Open :
      (subset_matches : J → J → Bool) (call : ToolCall J) (i : ℕ) (scripted : ScriptedToolExec J)
      → Open (expects_call subset_matches call) s.script.tools s.tool_consumed i scripted
      → (j : ℕ) × (chosen : ScriptedToolExec J) × (j ≤ i)
        × Open (expects_call subset_matches call) s.script.tools s.tool_consumed j chosen
        × (next_tool subset_matches s call
            ≡ (record s { tool_consumed = set_done j s.tool_consumed }, ok chosen.output))
        × (count_done (set_done j s.tool_consumed) ≡ suc (count_done s.tool_consumed))
  unfolding next_tool
  next_tool-Open subset_matches call i scripted h =
      let (j, chosen, found, le, o) =
        find_index-first (expects_call subset_matches call) s.script.tools s.tool_consumed i
          scripted h in
      (
        j,
        chosen,
        le,
        o,
        rw (all_done-open s.tool_consumed j o.1, found, o.0, next_tool) refl,
        count_done-set_done s.tool_consumed j o.1,
      )
