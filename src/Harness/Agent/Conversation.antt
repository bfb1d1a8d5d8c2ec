-- ===== src/Harness/Agent/Conversation.antt =====
-- agent.rs: the conversation stays well-formed, so that the next request to the backend is legal.
use mathlib.Core.List.{append_assoc, append-nil}
use llmdevsilo.Prelude.{
  ℕ, zero, suc, ◌+◌, ◌≡◌, refl, sym, ap, ◌∙◌, Bool, true, false, String, List, [], ◌∷◌, ◌++◌, map,
  length, drop, if_elim, arith, length-append,
}
use llmdevsilo.Core.Conversation.{AgentKind, Role, user, assistant, ContentBlock, Message}
use llmdevsilo.Core.Tool.{ToolCall, ToolOutput}
use llmdevsilo.Harness.Session.{World, Session, Disposition, check, is_shutdown, is_interrupted}
use llmdevsilo.Harness.Agent.{
  TurnOutcome, completed, shutdown_requested, interrupted, llm_failed, script_failed, failed,
  tool_calls, Calls, all_run, cut, left, after_tool, run_calls,
}

-- The outcomes after which the conversation can go on with a new message of the user.
abbrev pub closed : TurnOutcome → Bool
closed (completed text) = true
closed interrupted = true
closed (llm_failed message) = true
closed shutdown_requested = false
closed (script_failed message) = false
closed (failed message) = false

module _ {Json : Type 0} where
  abbrev pub result_ids : List (ContentBlock Json) → List String
  result_ids [] = []
  result_ids (ContentBlock.text t ∷ blocks) = result_ids blocks
  result_ids (ContentBlock.tool_use id name input ∷ blocks) = result_ids blocks
  result_ids (ContentBlock.tool_result id content is_error ∷ blocks) = id ∷ result_ids blocks

  abbrev pub call_ids : List (ToolCall Json) → List String
  call_ids calls = map (λ call. call.id) calls

  -- The ids that a message leaves to be answered.
  abbrev pub pending : Role → List (ContentBlock Json) → List String
  pending user content = []
  pending assistant content = call_ids (tool_calls content)

  -- The next message is the user's and answers just these calls, in order.
  abbrev pub Answers : List String → List (Message Json) → Type 0
  Answers [] ms = Unit
  Answers (i ∷ is) [] = ⊥
  Answers (i ∷ is) (m ∷ ms) = (m.role ≡ user) × (result_ids m.content ≡ i ∷ is)

  -- Every tool use is answered in the very next message.
  abbrev pub WellFormed : List (Message Json) → Type 0
  WellFormed [] = Unit
  WellFormed (m ∷ ms) = Answers (pending m.role m.content) ms × WellFormed ms

  Answers-append :
      (ids : List String) (ms more : List (Message Json))
      → Answers ids ms
      → Answers ids (ms ++ more)
  Answers-append [] ms more h = tt
  Answers-append (i ∷ is) [] more h = absurd h
  Answers-append (i ∷ is) (m ∷ ms) more h = h

  pub WellFormed-append :
      (ms more : List (Message Json)) → WellFormed ms → WellFormed more → WellFormed (ms ++ more)
  WellFormed-append [] more h k = k
  WellFormed-append (m ∷ ms) more h k =
      (Answers-append (pending m.role m.content) ms more h.0, WellFormed-append ms more h.1 k)

  abbrev reply_of : List (ContentBlock Json) → Message Json
  reply_of content = record { role = assistant; content = content }

  -- A response with its answer behind it.
  pub WellFormed-answered :
      (ms : List (Message Json)) (content results : List (ContentBlock Json))
      → WellFormed ms
      → result_ids results ≡ call_ids (tool_calls content)
      → WellFormed
          ((ms ++ (reply_of content ∷ [])) ++ (record { role = user; content = results } ∷ []))
  WellFormed-answered ms content results h e =
      rw (append_assoc ms (reply_of content ∷ []) (record { role = user; content = results } ∷ []))
        (WellFormed-append ms _ h (answered (call_ids (tool_calls content)) e, (tt, tt)))
    where
      answered :
          (ids : List String)
          → result_ids results ≡ ids
          → Answers ids (record { role = user; content = results } ∷ [])
      answered [] e = tt
      answered (i ∷ is) e = (refl, e)

  pub result_ids-append :
      (xs ys : List (ContentBlock Json)) → result_ids (xs ++ ys) ≡ result_ids xs ++ result_ids ys
  result_ids-append [] ys = refl
  result_ids-append (ContentBlock.text t ∷ xs) ys = result_ids-append xs ys
  result_ids-append (ContentBlock.tool_use i n input ∷ xs) ys = result_ids-append xs ys
  result_ids-append (ContentBlock.tool_result i c b ∷ xs) ys =
      ap (λ is. i ∷ is) (result_ids-append xs ys)

  pub drop-append :
      (done rest : List (ToolCall Json)) (n : ℕ) → n ≡ length done → drop n (done ++ rest) ≡ rest
  drop-append [] rest zero e = refl
  drop-append [] rest (suc n) e = absurd (omega arith)
  drop-append (d ∷ done) rest zero e = absurd (omega arith)
  drop-append (d ∷ done) rest (suc n) e = drop-append done rest n (omega arith)

  result_ids-push :
      (results : List (ContentBlock Json)) (id content : String) (is_error : Bool)
      (ids : List String)
      → result_ids (results ++ (ContentBlock.tool_result id content is_error ∷ [])) ++ ids
        ≡ result_ids results ++ (id ∷ ids)
  result_ids-push results id content is_error ids =
      rw (result_ids-append results (ContentBlock.tool_result id content is_error ∷ []))
        (append_assoc (result_ids results) (id ∷ []) ids)

-- What the loop over the calls of a response returns: a result for each call that was run, in order.
module _ (w : World) (agent : String) (kind : AgentKind)
    (run_harness_tool : Session w.Json → ToolCall w.Json → Session w.Json × Disposition)
    (generation : ℕ) where
  open w use {Json}

  abbrev pub CallsOk : List (ToolCall Json) → List (ContentBlock Json) → Calls Json → Type 0
  CallsOk calls results (all_run s rs) = result_ids rs ≡ result_ids results ++ call_ids calls
  CallsOk calls results (cut s rs) =
      (done : List (ToolCall Json)) × (rest : List (ToolCall Json)) × (calls ≡ done ++ rest)
      × (result_ids rs ≡ result_ids results ++ call_ids done)
      × (length rs ≡ length results + length done)
  CallsOk calls results (left s outcome) = closed outcome ≡ false

  -- One result more, one call less.
  CallsOk-step :
      (call : ToolCall Json) (calls : List (ToolCall Json)) (results : List (ContentBlock Json))
      (content : String) (is_error : Bool) (c : Calls Json)
      → CallsOk calls (results ++ (ContentBlock.tool_result call.id content is_error ∷ [])) c
      → CallsOk (call ∷ calls) results c
  CallsOk-step call calls results content is_error (all_run s rs) h =
      h ∙ result_ids-push results call.id content is_error (call_ids calls)
  CallsOk-step call calls results content is_error (cut s rs) (done, rest, e, ids, len) = (
    call ∷ done,
    rest,
    ap (λ cs. call ∷ cs) e,
    ids ∙ result_ids-push results call.id content is_error (call_ids done),
    len
        ∙ ap (λ n. n + length done)
            (length-append results (ContentBlock.tool_result call.id content is_error ∷ []))
        ∙ omega arith,
  )
  CallsOk-step call calls results content is_error (left s outcome) h = h

  -- No call was run.
  CallsOk-cut :
      (s : Session Json) (calls : List (ToolCall Json)) (results : List (ContentBlock Json))
      → CallsOk calls results (cut s results)
  CallsOk-cut s calls results =
      ([], calls, refl, sym (append-nil (result_ids results)), omega arith)

  after_tool-CallsOk :
      (s : Session Json) (calls : List (ToolCall Json)) (results : List (ContentBlock Json))
      (next : String → ToolOutput → Calls Json) (d : Disposition)
      → ((owner : String) (out : ToolOutput) → CallsOk calls results (next owner out))
      → CallsOk calls results (after_tool w agent kind run_harness_tool generation s results next d)
  after_tool-CallsOk s calls results next (Disposition.output owner out) h = h owner out
  after_tool-CallsOk s calls results next Disposition.shutdown h = refl
  after_tool-CallsOk s calls results next Disposition.interrupted h = CallsOk-cut s calls results
  after_tool-CallsOk s calls results next (Disposition.script_failed message) h = refl
  after_tool-CallsOk s calls results next (Disposition.harness_error message) h = refl

  pub run_calls-CallsOk :
      (calls : List (ToolCall Json)) (s : Session Json) (results : List (ContentBlock Json))
      → CallsOk calls results (run_calls w agent kind run_harness_tool generation s calls results)
  unfolding run_calls
  run_calls-CallsOk [] s results = sym (append-nil (result_ids results))
  run_calls-CallsOk (call ∷ calls) s results =
      if_elim (CallsOk (call ∷ calls) results) (is_shutdown (check w s)) (λ _. refl)
        (λ _.
          if_elim (CallsOk (call ∷ calls) results) (is_interrupted (check w s) generation)
            (λ _. CallsOk-cut (check w s) (call ∷ calls) results)
            (λ _. after_tool-CallsOk _ (call ∷ calls) results _ _ (λ owner out.
              CallsOk-step call calls results out.content out.is_error _
                (run_calls-CallsOk calls _ _))))
