-- ===== src/Core/Replay/Remaining.antt =====
-- replay.rs: what is left of the lists of a script, and what the next request, call or step takes.
use llmdevsilo.Prelude.{
  suc, ◌≡◌, refl, subst, ◌∙◌, Bool, true, false, String, List, [], ◌∷◌, ◌++◌, some, string_eq,
  arith, beq_refl, length, length-append, All,
}
use llmdevsilo.Core.Conversation.{Message}
use llmdevsilo.Core.Tool.{ToolCall, ToolOutput}
use llmdevsilo.Core.Replay.{
  ScriptedLlmTurn, ScriptedToolExec, FrontendStep, ScriptState, ok, all_done, find_index, get_elem?,
  set_done, choose_llm, next_llm, next_tool, peek_frontend, next_frontend, expects_call,
  expects_within, last_user_text, positional,
}
use llmdevsilo.Core.Replay.Positions.{
  flags_after, find_index-next, find_index-never, get_elem-next, set_done-next, all_done-next,
  append-next,
}
use llmdevsilo.Core.Replay.Scripted.{Plain}

module _ {J : Type 0} where
  -- What is left of each list of the script: all before it is consumed, and nothing of it.
  pub record LlmLeft (s : ScriptState J) (rest : List (ScriptedLlmTurn J)) : Type 0 where
    pub used : List (ScriptedLlmTurn J)
    pub listed : s.script.llm ≡ used ++ rest
    pub flags : s.llm_consumed ≡ flags_after used rest
    pub plain : All Plain s.script.llm

  pub record ToolsLeft (s : ScriptState J) (rest : List (ScriptedToolExec J)) : Type 0 where
    pub used : List (ScriptedToolExec J)
    pub listed : s.script.tools ≡ used ++ rest
    pub flags : s.tool_consumed ≡ flags_after used rest

  pub record StepsLeft (s : ScriptState J) (rest : List FrontendStep) : Type 0 where
    pub used : List FrontendStep
    pub listed : s.script.frontend ≡ used ++ rest
    pub cursor : s.frontend_cursor ≡ length used

  pub record Left (s : ScriptState J) (turns : List (ScriptedLlmTurn J))
      (execs : List (ScriptedToolExec J)) (steps : List FrontendStep) : Type 0 where
    pub llm_left : LlmLeft s turns
    pub tools_left : ToolsLeft s execs
    pub steps_left : StepsLeft s steps

  plain_never :
      (text : String) (turns : List (ScriptedLlmTurn J))
      → All Plain turns
      → All (λ t. expects_within text t ≡ false) turns
  plain_never text [] p = tt
  plain_never text (t ∷ turns) p = (rw (p.0) refl, plain_never text turns p.1)

  All-middle :
      (used : List (ScriptedLlmTurn J)) (t : ScriptedLlmTurn J) (rest : List (ScriptedLlmTurn J))
      → All Plain (used ++ (t ∷ rest))
      → Plain t
  All-middle [] t rest p = p.0
  All-middle (u ∷ used) t rest p = All-middle used t rest p.1

  module _ (s : ScriptState J) (t : ScriptedLlmTurn J) (rest : List (ScriptedLlmTurn J))
      (l : LlmLeft s (t ∷ rest)) where
    first_turn : find_index (λ _. true) s.script.llm s.llm_consumed ≡ some (length l.used)
    first_turn = rw (l.listed, l.flags) (find_index-next (λ _. true) l.used t rest refl)

    turn_there : get_elem? s.script.llm (length l.used) ≡ some t
    turn_there = rw (l.listed) (get_elem-next l.used t rest)

    flags_next : set_done (length l.used) s.llm_consumed ≡ flags_after (l.used ++ (t ∷ [])) rest
    flags_next = rw (l.flags) (set_done-next l.used t rest)

    some_left : all_done s.llm_consumed ≡ false
    some_left = rw (l.flags) (all_done-next l.used t rest)

    plain_turn : Plain t
    plain_turn = All-middle l.used t rest (subst (λ xs. All Plain xs) l.listed l.plain)

    choose_llm-next : (text : String) → choose_llm s text ≡ some (length l.used)
    unfolding choose_llm
    choose_llm-next text =
        rw
          (
            find_index-never (expects_within text) s.script.llm s.llm_consumed
                (plain_never text s.script.llm l.plain),
            first_turn,
            turn_there,
            plain_turn,
            positional,
            choose_llm,
          )
          refl

    pub next_llm-next :
        (messages : List (Message J))
        → next_llm s messages
          ≡ (record s { llm_consumed = flags_after (l.used ++ (t ∷ [])) rest }, ok t.response)
    unfolding next_llm
    next_llm-next messages =
        rw (some_left, choose_llm-next (last_user_text messages), turn_there, flags_next) refl

    pub LlmLeft-next :
        LlmLeft (record s { llm_consumed = flags_after (l.used ++ (t ∷ [])) rest }) rest
    LlmLeft-next = record {
      used = l.used ++ (t ∷ []);
      listed = l.listed ∙ append-next l.used t rest;
      flags = refl;
      plain = l.plain;
    }

  module _ (subset_matches : J → J → Bool) (s : ScriptState J) (call : ToolCall J)
      (output : ToolOutput) (rest : List (ScriptedToolExec J))
      (l : ToolsLeft s (
        record { expect_name = call.name; expect_input = some call.input; output = output } ∷ rest))
      (self : subset_matches call.input call.input ≡ true) where
    abbrev this_exec : ScriptedToolExec J
    this_exec = record { expect_name = call.name; expect_input = some call.input; output = output }

    chosen_exec :
        find_index (expects_call subset_matches call) s.script.tools s.tool_consumed
        ≡ some (length l.used)
    chosen_exec =
        rw (l.listed, l.flags)
          (find_index-next (expects_call subset_matches call) l.used this_exec rest
            (rw (beq_refl call.name) self))

    exec_there : get_elem? s.script.tools (length l.used) ≡ some this_exec
    exec_there = rw (l.listed) (get_elem-next l.used this_exec rest)

    tool_flags_next :
        set_done (length l.used) s.tool_consumed ≡ flags_after (l.used ++ (this_exec ∷ [])) rest
    tool_flags_next = rw (l.flags) (set_done-next l.used this_exec rest)

    some_tool_left : all_done s.tool_consumed ≡ false
    some_tool_left = rw (l.flags) (all_done-next l.used this_exec rest)

    pub next_tool-next :
        next_tool subset_matches s call
        ≡ (record s { tool_consumed = flags_after (l.used ++ (this_exec ∷ [])) rest }, ok output)
    unfolding next_tool
    next_tool-next = rw (some_tool_left, chosen_exec, exec_there, tool_flags_next) refl

    pub ToolsLeft-next :
        ToolsLeft (record s { tool_consumed = flags_after (l.used ++ (this_exec ∷ [])) rest }) rest
    ToolsLeft-next = record {
      used = l.used ++ (this_exec ∷ []);
      listed = l.listed ∙ append-next l.used this_exec rest;
      flags = refl;
    }

  module _ (s : ScriptState J) (this : FrontendStep) (rest : List FrontendStep)
      (l : StepsLeft s (this ∷ rest)) where
    step_there : get_elem? s.script.frontend s.frontend_cursor ≡ some this
    step_there = rw (l.listed, l.cursor) (get_elem-next l.used this rest)

    pub next_frontend-next :
        next_frontend s ≡ (record s { frontend_cursor = suc s.frontend_cursor }, some this)
    unfolding next_frontend peek_frontend
    next_frontend-next = rw (step_there, peek_frontend, next_frontend) refl

    pub StepsLeft-next : StepsLeft (record s { frontend_cursor = suc s.frontend_cursor }) rest
    StepsLeft-next = record {
      used = l.used ++ (this ∷ []);
      listed = l.listed ∙ append-next l.used this rest;
      cursor = rw (l.cursor, length-append l.used (this ∷ [])) (omega arith);
    }
