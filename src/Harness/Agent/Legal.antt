-- ===== src/Harness/Agent/Legal.antt =====
-- agent.rs: what a turn leaves of the conversation is legal for the next request to the backend.
use mathlib.Core.List.{map-append}
use llmdevsilo.Prelude.{
  ℕ, zero, suc, ◌≡◌, refl, sym, ap, ◌∙◌, ◌⊎◌, inl, inr, Bool, true, false, String, List, [], ◌∷◌,
  ◌++◌, Option, none, some, length, drop, if_elim, arith, subst,
}
use llmdevsilo.Core.Conversation.{AgentKind, assistant, ContentBlock, Message, CompletionResponse}
use llmdevsilo.Core.Tool.{ToolCall}
use llmdevsilo.Harness.Session.{
  World, Session, Completion, response, Disposition, check, is_shutdown, is_interrupted, journal,
  llm_request,
}
use llmdevsilo.Harness.Agent.{
  tool_calls, Ended, Calls, all_run, cut, left, synthetic, after_calls, respond, complete_turn,
  round, drive_inner, is_tool_use,
}
use llmdevsilo.Harness.Agent.Conversation.{
  closed, result_ids, call_ids, WellFormed, WellFormed-append, WellFormed-answered,
  result_ids-append, drop-append, CallsOk, run_calls-CallsOk,
}

module _ (w : World) (agent : String) (kind : AgentKind)
    (run_harness_tool : Session w.Json → ToolCall w.Json → Session w.Json × Disposition)
    (generation : ℕ) where
  open w use {Json}

  -- Well-formed, unless the outcome ends the session.
  abbrev Left : List (Message Json) → Bool → Type 0
  Left ms true = WellFormed ms
  Left ms false = Unit

  abbrev NextOk : Ended Json ⊎ (List (Message Json) × Session Json) → Type 0
  NextOk (inl e) = Left e.messages (closed e.outcome)
  NextOk (inr next) = WellFormed next.0

  result_ids-synthetic :
      (calls : List (ToolCall Json))
      → result_ids (synthetic w agent kind run_harness_tool generation calls) ≡ call_ids calls
  result_ids-synthetic [] = refl
  result_ids-synthetic (call ∷ calls) = ap (λ is. call.id ∷ is) (result_ids-synthetic calls)

  -- The results of the calls that were run and the synthetic ones of the rest answer all calls.
  result_ids-cut :
      (calls done rest : List (ToolCall Json)) (rs : List (ContentBlock Json))
      → calls ≡ done ++ rest
      → result_ids rs ≡ call_ids done
      → length rs ≡ length done
      → result_ids
          (rs ++ synthetic w agent kind run_harness_tool generation (drop (length rs) calls))
        ≡ call_ids calls
  result_ids-cut calls done rest rs e ids len =
      rw
        (
          e,
          drop-append done rest (length rs) len,
          result_ids-append rs (synthetic w agent kind run_harness_tool generation rest),
          result_ids-synthetic rest,
          ids,
        )
        (sym (map-append (λ (call : ToolCall Json). call.id) done rest))

  after_calls-NextOk :
      (ms : List (Message Json)) (r : CompletionResponse Json) (c : Calls Json)
      → WellFormed ms
      → CallsOk w agent kind run_harness_tool generation (tool_calls r.content) [] c
      → NextOk (
          after_calls w agent kind run_harness_tool generation
            (ms ++ (record { role = assistant; content = r.content } ∷ []))
            r
            c)
  unfolding after_calls
  after_calls-NextOk ms r (left s outcome) h ok = rw (ok) tt
  after_calls-NextOk ms r (all_run s rs) h ok =
      if_elim NextOk (is_tool_use r.stop_reason) (λ _. WellFormed-answered ms r.content rs h ok)
        (λ _. WellFormed-answered ms r.content rs h ok)
  after_calls-NextOk ms r (cut s rs) h (done, rest, e, ids, len) =
      WellFormed-answered ms r.content _ h
        (result_ids-cut (tool_calls r.content) done rest rs e ids (len ∙ omega arith))

  respond-NextOk :
      (ms : List (Message Json)) (s : Session Json) (r : CompletionResponse Json)
      → WellFormed ms
      → NextOk (respond w agent kind run_harness_tool generation ms s r)
  unfolding respond
  respond-NextOk ms s r h = go (tool_calls r.content) refl
    where
      go :
          (calls : List (ToolCall Json))
          → tool_calls r.content ≡ calls
          → NextOk (respond w agent kind run_harness_tool generation ms s r)
      go [] e =
          rw (e, respond)
            (WellFormed-append ms (record { role = assistant; content = r.content } ∷ []) h
              (rw (e) tt, tt))
      go (call ∷ calls) e =
          rw (e, respond)
            (after_calls-NextOk ms r _ h (
              rw (e)
                (run_calls-CallsOk w agent kind run_harness_tool generation (call ∷ calls) _ [])))

  complete_turn-NextOk :
      (ms : List (Message Json)) (s : Session Json) (c : Completion Json)
      → WellFormed ms
      → NextOk (complete_turn w agent kind run_harness_tool generation ms s c)
  unfolding complete_turn
  complete_turn-NextOk ms s (response r) h = respond-NextOk ms s r h
  complete_turn-NextOk ms s (Completion.script_mismatch message) h = tt
  complete_turn-NextOk ms s (Completion.failed message) h = h

  round-NextOk :
      (ms : List (Message Json)) (s : Session Json)
      → WellFormed ms
      → NextOk (round w agent kind run_harness_tool generation ms s)
  unfolding round
  round-NextOk ms s h =
      let s1 = check w s in
      let s3 = check w (journal s1 (llm_request agent ms)) in
      if_elim NextOk (is_shutdown s1) (λ _. tt)
        (λ _.
          if_elim NextOk (is_interrupted s1 generation) (λ _. h)
            (λ _.
              if_elim NextOk (is_shutdown s3) (λ _. tt)
                (λ _.
                  if_elim NextOk (is_interrupted s3 generation) (λ _. h)
                    (λ _.
                      complete_turn-NextOk ms s3
                        (w.complete (journal s1 (llm_request agent ms)).moment ms) h))))

  abbrev EndOk : Option (Ended Json) → Type 0
  EndOk none = Unit
  EndOk (some e) = Left e.messages (closed e.outcome)

  drive_inner-EndOk :
      (fuel : ℕ) (ms : List (Message Json)) (s : Session Json)
      → WellFormed ms
      → EndOk (drive_inner w agent kind run_harness_tool generation fuel ms s)
  unfolding drive_inner
  drive_inner-EndOk zero ms s h = tt
  drive_inner-EndOk (suc fuel) ms s h =
      go (round w agent kind run_harness_tool generation ms s) (round-NextOk ms s h)
        (λ ms' s' h'. drive_inner-EndOk fuel ms' s' h')
    where
      go :
          (n : Ended Json ⊎ (List (Message Json) × Session Json))
          → NextOk n
          → ((ms' : List (Message Json)) (s' : Session Json)
              → WellFormed ms'
              → EndOk (drive_inner w agent kind run_harness_tool generation fuel ms' s'))
          → EndOk (elim n [
            | inl ended ↦ some ended
            | inr next ↦ drive_inner w agent kind run_harness_tool generation fuel next.0 next.1
          ])
      go (inl e) ok rest = ok
      go (inr next) ok rest = rest next.0 next.1 ok

  -- A conversation that is well-formed when the loop starts, each tool use of an assistant message
  -- answered by the results of the very next message in the order of the calls, is well-formed when
  -- the loop ends with a completed turn, an interrupt or a failed request, however many rounds it took
  -- and whatever the backend, the tools and the user did.
  pub drive_inner-WellFormed :
      (fuel : ℕ) (ms : List (Message Json)) (s : Session Json) (e : Ended Json)
      → WellFormed ms
      → drive_inner w agent kind run_harness_tool generation fuel ms s ≡ some e
      → closed e.outcome ≡ true
      → WellFormed e.messages
  drive_inner-WellFormed fuel ms s e h run c =
      subst (λ b. Left e.messages b) c (subst EndOk run (drive_inner-EndOk fuel ms s h))
