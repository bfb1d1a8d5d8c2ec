-- ===== src/Core/Replay/Roundtrip.antt =====
-- replay.rs: a recorded session, made into a script and replayed.
use llmdevsilo.Prelude.{
  suc, ◌≡◌, refl, ap, Bool, true, false, String, List, [], ◌∷◌, ◌++◌, map, Option, none, some, ◌==◌,
  string_eq, arith, length-append, All, Eq,
}
use llmdevsilo.Core.Conversation.{Message}
use llmdevsilo.Core.Tool.{ToolCall, ToolOutput}
use llmdevsilo.Core.Replay.{
  Json, json_subset_matches, ScriptedLlmTurn, ScriptedToolExec, FrontendStep, TestScript,
  ScriptState, new, finished,
}
use llmdevsilo.Core.Replay.Positions.{all_done-end}
use llmdevsilo.Core.Replay.FromJournal.{
  JournalEntry, llm_response, tool_exec, event, frontend_command, network, other_entry,
  script_from_journal,
}
use llmdevsilo.Harness.Shutdown.{FrontendCommand}
use llmdevsilo.Core.Replay.Subset.{UniqueKeys, json_subset_matches_self}
use llmdevsilo.Core.Replay.Scripted.{all_plain, add_entries-lists}
use llmdevsilo.Core.Replay.Recorded.{
  step, steps_of_event, steps_of_command, turns_of, execs_when, execs_of, all_of, ask_steps,
  ask_exec, ask, replay, recorded_steps, recorded_exec, steps_of, recorded,
}
use llmdevsilo.Core.Replay.Remaining.{
  Left, next_llm-next, LlmLeft-next, next_tool-next, ToolsLeft-next, next_frontend-next,
  StepsLeft-next,
}

module _ {J : Type 0} where
  -- Asking for the steps that are next.
  ask_steps-Left :
      (steps : List FrontendStep) (s : ScriptState J) (turns : List (ScriptedLlmTurn J))
      (execs : List (ScriptedToolExec J)) (rest : List FrontendStep)
      → Left s turns execs (steps ++ rest)
      → ((ask_steps s steps).1 ≡ recorded_steps steps) × Left (ask_steps s steps).0 turns execs rest
  unfolding ask_steps
  ask_steps-Left [] s turns execs rest h = (refl, h)
  ask_steps-Left (this ∷ steps) s turns execs rest h =
      let q = h.steps_left in
      let t : ScriptState J = record s { frontend_cursor = suc s.frontend_cursor } in
      let l = h.llm_left in
      let x = h.tools_left in
      let after : Left t turns execs (steps ++ rest) = record {
        llm_left = record { used = l.used; listed = l.listed; flags = l.flags; plain = l.plain };
        tools_left = record { used = x.used; listed = x.listed; flags = x.flags };
        steps_left = StepsLeft-next s this (steps ++ rest) q;
      } in
      rw (next_frontend-next s this (steps ++ rest) q) (
        let r = ask_steps-Left steps t turns execs rest after in
        (ap (λ xs. step (some this) ∷ xs) r.0, r.1))

  module _ (subset_matches : J → J → Bool) where
    ask_exec-Left :
        (b : Bool) (s : ScriptState J) (call : ToolCall J) (output : ToolOutput)
        (turns : List (ScriptedLlmTurn J)) (rest : List (ScriptedToolExec J))
        (steps : List FrontendStep)
        → subset_matches call.input call.input ≡ true
        → Left s turns (execs_when b call output ++ rest) steps
        → ((ask_exec subset_matches b s call).1 ≡ recorded_exec b output)
          × Left (ask_exec subset_matches b s call).0 turns rest steps
    unfolding ask_exec
    ask_exec-Left true s call output turns rest steps self h =
        let l = h.llm_left in
        let q = h.steps_left in
        rw (next_tool-next subset_matches s call output rest h.tools_left self) (
          refl,
          record {
            llm_left = record {
              used = l.used;
              listed = l.listed;
              flags = l.flags;
              plain = l.plain;
            };
            tools_left = ToolsLeft-next subset_matches s call output rest h.tools_left self;
            steps_left = record { used = q.used; listed = q.listed; cursor = q.cursor };
          },
        )
    ask_exec-Left false s call output turns rest steps self h = (refl, h)

    module _ (command_of : J → Option FrontendCommand) where
      -- The input of a recorded call matches itself.
      abbrev MatchesItself : JournalEntry J → Type 0
      MatchesItself (tool_exec owner call output) = subset_matches call.input call.input ≡ true
      MatchesItself _ = Unit

      abbrev LeftFor : ScriptState J → List (JournalEntry J) → Type 0
      LeftFor s entries =
          Left s (all_of turns_of entries) (all_of execs_of entries)
            (all_of (steps_of command_of) entries)

      ask-Left :
          (entry : JournalEntry J) (messages : List (Message J)) (s : ScriptState J)
          (entries : List (JournalEntry J))
          → MatchesItself entry
          → LeftFor s (entry ∷ entries)
          → ((ask subset_matches command_of s entry messages).1 ≡ recorded command_of entry)
            × LeftFor (ask subset_matches command_of s entry messages).0 entries
      unfolding ask
      ask-Left (llm_response response) messages s entries self h =
          let t : ScriptedLlmTurn J = record { expect_user_contains = none; response = response } in
          let x = h.tools_left in
          let q = h.steps_left in
          rw (next_llm-next s t (all_of turns_of entries) h.llm_left messages) (
            refl,
            record {
              llm_left = LlmLeft-next s t (all_of turns_of entries) h.llm_left;
              tools_left = record { used = x.used; listed = x.listed; flags = x.flags };
              steps_left = record { used = q.used; listed = q.listed; cursor = q.cursor };
            },
          )
      ask-Left (tool_exec owner call output) messages s entries self h =
          ask_exec-Left (owner == "sandbox") s call output (all_of turns_of entries)
            (all_of execs_of entries) (all_of (steps_of command_of) entries) self h
      ask-Left (event payload) messages s entries self h =
          ask_steps-Left (steps_of_event payload) s (all_of turns_of entries)
            (all_of execs_of entries) (all_of (steps_of command_of) entries) h
      ask-Left (frontend_command command) messages s entries self h =
          ask_steps-Left (steps_of_command (command_of command)) s (all_of turns_of entries)
            (all_of execs_of entries) (all_of (steps_of command_of) entries) h
      ask-Left (network entry) messages s entries self h = (refl, h)
      ask-Left other_entry messages s entries self h = (refl, h)

      replay-Left :
          (asked : List (JournalEntry J × List (Message J))) (s : ScriptState J)
          → All (λ e. MatchesItself e.0) asked
          → LeftFor s (map (λ e. e.0) asked)
          → ((replay subset_matches command_of s asked).1
              ≡ all_of (recorded command_of) (map (λ e. e.0) asked))
            × LeftFor (replay subset_matches command_of s asked).0 []
      unfolding replay
      replay-Left [] s self h = (refl, h)
      replay-Left ((entry, messages) ∷ asked) s self h =
          let a = ask-Left entry messages s (map (λ e. e.0) asked) self.0 h in
          let b = replay-Left asked (ask subset_matches command_of s entry messages).0 self.1 a.1 in
          ((λ i. a.0 i ++ b.0 i), b.1)

      LeftFor-finished : (s : ScriptState J) → LeftFor s [] → finished s ≡ true
      unfolding finished
      LeftFor-finished s h =
          let l = h.llm_left in
          let x = h.tools_left in
          let q = h.steps_left in
          rw
            (
              l.flags,
              x.flags,
              q.listed,
              q.cursor,
              all_done-end l.used,
              all_done-end x.used,
              finished,
            )
            (let n = length-append q.used [] in ground arith)

      script-LeftFor :
          (entries : List (JournalEntry J)) (name : String)
          → LeftFor (new (script_from_journal command_of entries name)) entries
      unfolding new script_from_journal
      script-LeftFor entries name =
          let script : TestScript J = record {
            name = name;
            llm = [];
            tools = [];
            frontend = [];
            network = [];
          } in
          let (turns, execs, steps) = add_entries-lists command_of entries script in
          record {
            llm_left = record {
              used = [];
              listed = turns;
              flags = rw (turns) refl;
              plain = rw (turns) (all_plain entries);
            };
            tools_left = record { used = []; listed = execs; flags = rw (execs) refl };
            steps_left = record { used = []; listed = steps; cursor = refl };
          }

module _ {Atom : Type 0} where
  -- The input of a recorded call has no key twice in an object.
  abbrev pub UniqueInput : JournalEntry (Json Atom) → Type 0
  UniqueInput (tool_exec owner call output) = UniqueKeys call.input
  UniqueInput _ = Unit

  unique_matches :
      ⦃e : Eq Atom⦄ (command_of : Json Atom → Option FrontendCommand)
      (asked : List (JournalEntry (Json Atom) × List (Message (Json Atom))))
      → All (λ a. UniqueInput a.0) asked
      → All (λ a. MatchesItself json_subset_matches command_of a.0) asked
  unique_matches command_of [] u = tt
  unique_matches command_of ((tool_exec owner call output, messages) ∷ asked) u =
      (json_subset_matches_self call.input u.0, unique_matches command_of asked u.1)
  unique_matches command_of ((llm_response r, messages) ∷ asked) u =
      (tt, unique_matches command_of asked u.1)
  unique_matches command_of ((event payload, messages) ∷ asked) u =
      (tt, unique_matches command_of asked u.1)
  unique_matches command_of ((frontend_command c, messages) ∷ asked) u =
      (tt, unique_matches command_of asked u.1)
  unique_matches command_of ((network n, messages) ∷ asked) u =
      (tt, unique_matches command_of asked u.1)
  unique_matches command_of ((other_entry, messages) ∷ asked) u =
      (tt, unique_matches command_of asked u.1)

  -- A session that the mock components drive by the script of a recorded journal, and that makes the
  -- recorded tool calls, with inputs that have no key twice in an object, in the recorded order,
  -- whatever its requests to the model are: it gets the recorded responses of the model, the recorded
  -- outputs of the sandbox and the recorded steps of the user, and at the end the script is used up.
  pub replay-script_from_journal :
      ⦃e : Eq Atom⦄ (command_of : Json Atom → Option FrontendCommand) (name : String)
      (asked : List (JournalEntry (Json Atom) × List (Message (Json Atom))))
      → All (λ a. UniqueInput a.0) asked
      → ((replay json_subset_matches command_of
            (new (script_from_journal command_of (map (λ a. a.0) asked) name))
            asked).1
          ≡ all_of (recorded command_of) (map (λ a. a.0) asked))
        × (finished
              (replay json_subset_matches command_of
                (new (script_from_journal command_of (map (λ a. a.0) asked) name))
                asked).0
            ≡ true)
  replay-script_from_journal command_of name asked unique =
      let s = new (script_from_journal command_of (map (λ a. a.0) asked) name) in
      let r =
        replay-Left json_subset_matches command_of asked s (unique_matches command_of asked unique)
          (script-LeftFor json_subset_matches command_of (map (λ a. a.0) asked) name) in
      (
        r.0,
        LeftFor-finished json_subset_matches command_of
            (replay json_subset_matches command_of s asked).0 r.1,
      )
