-- ===== src/Harness/Agent/Turns.antt =====
-- agent.rs: the loop ends, and the fuel that is enough for it.
use llmdevsilo.Prelude.{
  ℕ, zero, suc, ◌+◌, ◌*◌, ◌≤◌, ◌≡◌, refl, ◌⊎◌, inl, inr, Bool, true, false, not, String, List, [],
  ◌∷◌, Option, some, is_some, if_elim, Bool-cases, leb, leb→le, arith,
}
use llmdevsilo.Core.Conversation.{AgentKind, ContentBlock, Message, CompletionResponse, texts}
use llmdevsilo.Core.Tool.{ToolCall, ToolOutput}
use llmdevsilo.Harness.Session.{
  World, Session, Completion, response, Disposition, check, is_shutdown, is_interrupted, journal,
  emit, llm_request, llm_response, assistant_text,
}
use llmdevsilo.Harness.Tools.Moments.{execute_tool-moment, check-moment}
use llmdevsilo.Harness.Agent.{
  tool_calls, Ended, Calls, all_run, cut, left, after_tool, start_call, record_output, run_calls,
  emit_texts, after_calls, respond, complete_turn, round, drive_inner, is_tool_use,
}

-- The backend asks for no further round.
abbrev pub ends_turn : {Json : Type 0} → Completion Json → Bool
ends_turn (response r) = not (is_tool_use r.stop_reason)
ends_turn (Completion.script_mismatch message) = true
ends_turn (Completion.failed message) = true

module _ (w : World) (agent : String) (kind : AgentKind)
    (run_harness_tool : Session w.Json → ToolCall w.Json → Session w.Json × Disposition)
    (generation : ℕ)
    (later : (s : Session w.Json) (call : ToolCall w.Json)
      → s.moment ≤ (run_harness_tool s call).0.moment) where
  open w use {Json}

  abbrev CallsLater : ℕ → Calls Json → Type 0
  CallsLater m (all_run s results) = m ≤ s.moment
  CallsLater m (cut s results) = Unit
  CallsLater m (left s outcome) = Unit

  after_tool-CallsLater :
      (m : ℕ) (s : Session Json) (results : List (ContentBlock Json))
      (next : String → ToolOutput → Calls Json) (d : Disposition)
      → ((owner : String) (out : ToolOutput) → CallsLater m (next owner out))
      → CallsLater m (after_tool w agent kind run_harness_tool generation s results next d)
  after_tool-CallsLater m s results next (Disposition.output owner out) h = h owner out
  after_tool-CallsLater m s results next Disposition.shutdown h = tt
  after_tool-CallsLater m s results next Disposition.interrupted h = tt
  after_tool-CallsLater m s results next (Disposition.script_failed message) h = tt
  after_tool-CallsLater m s results next (Disposition.harness_error message) h = tt

  start_call-moment :
      (s : Session Json) (call : ToolCall Json)
      → s.moment ≤ (start_call w agent kind run_harness_tool generation s call).0.moment
  unfolding emit journal
  start_call-moment s call = execute_tool-moment w agent run_harness_tool _ call generation later

  run_calls-CallsLater :
      (m : ℕ) (calls : List (ToolCall Json)) (s : Session Json) (results : List (ContentBlock Json))
      → m ≤ s.moment
      → CallsLater m (run_calls w agent kind run_harness_tool generation s calls results)
  unfolding run_calls record_output emit journal
  run_calls-CallsLater m [] s results h = h
  run_calls-CallsLater m (call ∷ calls) s results h =
      let h' = check-moment w agent s in
      let h'' = start_call-moment (check w s) call in
      if_elim (CallsLater m) (is_shutdown (check w s)) (λ _. tt)
        (λ _.
          if_elim (CallsLater m) (is_interrupted (check w s) generation) (λ _. tt)
            (λ _.
              after_tool-CallsLater m _ results _ _
                (λ owner out. run_calls-CallsLater m calls _ _ (omega arith))))

  emit_texts-moment :
      (ts : List String) (s : Session Json)
      → (emit_texts w agent kind run_harness_tool generation s ts).moment ≡ s.moment
  unfolding emit_texts emit journal
  emit_texts-moment [] s = refl
  emit_texts-moment (t ∷ ts) s = emit_texts-moment ts (emit s (assistant_text agent t))

  abbrev NextLater : ℕ → Ended Json ⊎ (List (Message Json) × Session Json) → Type 0
  NextLater m (inl e) = Unit
  NextLater m (inr next) = m ≤ next.1.moment

  after_calls-NextLater :
      (m : ℕ) (ms : List (Message Json)) (r : CompletionResponse Json) (c : Calls Json)
      → CallsLater m c
      → NextLater m (after_calls w agent kind run_harness_tool generation ms r c)
  unfolding after_calls
  after_calls-NextLater m ms r (left s outcome) h = tt
  after_calls-NextLater m ms r (cut s results) h = tt
  after_calls-NextLater m ms r (all_run s results) h =
      if_elim (NextLater m) (is_tool_use r.stop_reason) (λ _. h) (λ _. tt)

  respond-NextLater :
      (ms : List (Message Json)) (s : Session Json) (r : CompletionResponse Json)
      → NextLater s.moment (respond w agent kind run_harness_tool generation ms s r)
  unfolding respond emit journal
  respond-NextLater ms s r = go (tool_calls r.content) refl
    where
      go :
          (calls : List (ToolCall Json))
          → tool_calls r.content ≡ calls
          → NextLater s.moment (respond w agent kind run_harness_tool generation ms s r)
      go [] e = rw (e, respond) tt
      go (call ∷ calls) e =
          rw (e, respond)
            (after_calls-NextLater s.moment _ r _ (
              run_calls-CallsLater s.moment (call ∷ calls) _ [] (
                rw (emit_texts-moment (texts r.content) (journal s (llm_response agent r.content)))
                  (omega arith))))

  complete_turn-NextLater :
      (ms : List (Message Json)) (s : Session Json) (c : Completion Json)
      → NextLater s.moment (complete_turn w agent kind run_harness_tool generation ms s c)
  unfolding complete_turn
  complete_turn-NextLater ms s (response r) = respond-NextLater ms s r
  complete_turn-NextLater ms s (Completion.script_mismatch message) = tt
  complete_turn-NextLater ms s (Completion.failed message) = tt

  -- A round that goes on has looked for commands twice.
  round-NextLater :
      (ms : List (Message Json)) (s : Session Json)
      → NextLater (suc (suc s.moment)) (round w agent kind run_harness_tool generation ms s)
  unfolding round check journal
  round-NextLater ms s =
      let s1 = check w s in
      let s3 = check w (journal s1 (llm_request agent ms)) in
      let P = NextLater (suc (suc s.moment)) in
      if_elim P (is_shutdown s1) (λ _. tt)
        (λ _.
          if_elim P (is_interrupted s1 generation) (λ _. tt)
            (λ _.
              if_elim P (is_shutdown s3) (λ _. tt)
                (λ _.
                  if_elim P (is_interrupted s3 generation) (λ _. tt)
                    (λ _.
                      complete_turn-NextLater ms s3
                        (w.complete (journal s1 (llm_request agent ms)).moment ms)))))

  abbrev is_end : Ended Json ⊎ (List (Message Json) × Session Json) → Bool
  is_end (inl e) = true
  is_end (inr next) = false

  after_calls-is_end :
      (ms : List (Message Json)) (r : CompletionResponse Json) (c : Calls Json)
      → not (is_tool_use r.stop_reason) ≡ true
      → is_end (after_calls w agent kind run_harness_tool generation ms r c) ≡ true
  unfolding after_calls
  after_calls-is_end ms r (left s outcome) h = refl
  after_calls-is_end ms r (cut s results) h = refl
  after_calls-is_end ms r (all_run s results) h = ground arith

  respond-is_end :
      (ms : List (Message Json)) (s : Session Json) (r : CompletionResponse Json)
      → not (is_tool_use r.stop_reason) ≡ true
      → is_end (respond w agent kind run_harness_tool generation ms s r) ≡ true
  unfolding respond
  respond-is_end ms s r h = go (tool_calls r.content) refl
    where
      go :
          (calls : List (ToolCall Json))
          → tool_calls r.content ≡ calls
          → is_end (respond w agent kind run_harness_tool generation ms s r) ≡ true
      go [] e = rw (e, respond) refl
      go (call ∷ calls) e = rw (e, respond) (after_calls-is_end _ r _ h)

  complete_turn-is_end :
      (ms : List (Message Json)) (s : Session Json) (c : Completion Json)
      → ends_turn c ≡ true
      → is_end (complete_turn w agent kind run_harness_tool generation ms s c) ≡ true
  unfolding complete_turn
  complete_turn-is_end ms s (response r) h = respond-is_end ms s r h
  complete_turn-is_end ms s (Completion.script_mismatch message) h = refl
  complete_turn-is_end ms s (Completion.failed message) h = refl

  round-is_end :
      (ms : List (Message Json)) (s : Session Json)
      → ends_turn (w.complete (suc s.moment) ms) ≡ true
      → is_end (round w agent kind run_harness_tool generation ms s) ≡ true
  unfolding round check journal
  round-is_end ms s h =
      let s1 = check w s in
      let s3 = check w (journal s1 (llm_request agent ms)) in
      let P = λ (n : Ended Json ⊎ (List (Message Json) × Session Json)). is_end n ≡ true in
      if_elim P (is_shutdown s1) (λ _. refl)
        (λ _.
          if_elim P (is_interrupted s1 generation) (λ _. refl)
            (λ _.
              if_elim P (is_shutdown s3) (λ _. refl)
                (λ _.
                  if_elim P (is_interrupted s3 generation) (λ _. refl)
                    (λ _. complete_turn-is_end ms s3 (w.complete (suc s.moment) ms) h))))

  -- The loop behind one round.
  abbrev go_on : ℕ → Ended Json ⊎ (List (Message Json) × Session Json) → Option (Ended Json)
  go_on fuel (inl ended) = some ended
  go_on fuel (inr next) = drive_inner w agent kind run_harness_tool generation fuel next.0 next.1

  go_on-is_end :
      (fuel : ℕ) (next : Ended Json ⊎ (List (Message Json) × Session Json))
      → is_end next ≡ true
      → is_some (go_on fuel next) ≡ true
  go_on-is_end fuel (inl e) h = refl
  go_on-is_end fuel (inr next) h = ground arith

  go_on-NextLater :
      (m fuel : ℕ) (next : Ended Json ⊎ (List (Message Json) × Session Json))
      → NextLater m next
      → ((ms : List (Message Json)) (s : Session Json)
          → m ≤ s.moment
          → is_some (drive_inner w agent kind run_harness_tool generation fuel ms s) ≡ true)
      → is_some (go_on fuel next) ≡ true
  go_on-NextLater m fuel (inl e) h rest = refl
  go_on-NextLater m fuel (inr next) h rest = rest next.0 next.1 h

  -- If from the moment n on every answer of the backend is an error or a response that does not stop
  -- for tool use, and the tools of the harness do not go back in time, then a fuel of half the moments
  -- that are left, plus one, is enough: the loop ends with an outcome, whatever the other tools, the
  -- shutdowns and the interrupts do.
  pub drive_inner-ends :
      (n : ℕ) (fuel : ℕ) (ms : List (Message Json)) (s : Session Json)
      → ((k : ℕ) (ms' : List (Message Json)) → n ≤ k → ends_turn (w.complete k ms') ≡ true)
      → n ≤ s.moment + (1 + 2 * fuel)
      → is_some (drive_inner w agent kind run_harness_tool generation (suc fuel) ms s) ≡ true
  unfolding drive_inner
  drive_inner-ends n zero ms s quiet h =
      go_on-is_end zero (round w agent kind run_harness_tool generation ms s)
        (round-is_end ms s (quiet (suc s.moment) ms (omega arith)))
  drive_inner-ends n (suc fuel) ms s quiet h = elim (Bool-cases (leb n (suc s.moment))) [
    | inl e ↦
        go_on-is_end (suc fuel) (round w agent kind run_harness_tool generation ms s)
          (round-is_end ms s (quiet (suc s.moment) ms (leb→le n (suc s.moment) e)))
    | inr e ↦
        go_on-NextLater (suc (suc s.moment)) (suc fuel)
          (round w agent kind run_harness_tool generation ms s) (round-NextLater ms s)
          (λ ms' s' h'. drive_inner-ends n fuel ms' s' quiet (omega arith))
  ]
