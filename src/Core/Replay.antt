-- ===== src/Core/Replay.antt =====
-- crates/silo-core/src/replay.rs: the script that the mock components share. Each operation locks the
-- script's state, so that it is a function of the state. The arrays, numbers and strings of a JSON
-- value are only compared.
pub mod FromJournal
pub mod Subset
pub mod Consumed
pub mod Expects
pub mod Positions
pub mod Recorded
pub mod Scripted
pub mod Remaining
pub mod Roundtrip
mod Examples
use llmdevsilo.Prelude.{
  ℕ, zero, suc, ◌+◌, Bool, true, false, not, ◌&&◌, ◌||◌, String, List, [], ◌∷◌, ◌++◌, map, reverse,
  Option, none, some, is_some, ◌==◌, string_eq, Eq, nat_eq, list_eq, find, keep, length, Text,
  codes, strip_prefix, if◌then◌else◌, ltb, leb,
}
use llmdevsilo.Core.Conversation.{
  Role, user, assistant, ContentBlock, Message, CompletionResponse, texts, join_lines,
}
use llmdevsilo.Core.Journal.{NetworkRecord}
use llmdevsilo.Core.Tool.{ToolCall, ToolOutput}

-- `serde_json::Value`, by whether it is an object.
mutual
  pub data Json (Atom : Type 0) : Type 0 where
    object : Fields Atom → Json Atom
    other : Atom → Json Atom

  pub data Fields (Atom : Type 0) : Type 0 where
    no_fields : Fields Atom
    field : String → Json Atom → Fields Atom → Fields Atom

abbrev pub get : {Atom : Type 0} → String → Fields Atom → Option (Json Atom)
get key no_fields = none
get key (field k value rest) = if k == key then some value else get key rest

module _ {Atom : Type 0} ⦃e : Eq Atom⦄ where
  unfoldable mutual
    pub json_subset_matches : Json Atom → Json Atom → Bool
    json_subset_matches (object expected) (object actual) = fields_match expected actual
    json_subset_matches (object expected) (other b) = false
    json_subset_matches (other a) (object actual) = false
    json_subset_matches (other a) (other b) = e.equals a b

    pub fields_match : Fields Atom → Fields Atom → Bool
    fields_match no_fields actual = true
    fields_match (field key value rest) actual =
        (elim (get key actual) [ some v ↦ json_subset_matches value v | none ↦ false ])
        && fields_match rest actual

pub record ScriptedLlmTurn (J : Type 0) : Type 0 where
  pub expect_user_contains : Option String
  pub response : CompletionResponse J

pub record ScriptedToolExec (J : Type 0) : Type 0 where
  pub expect_name : String
  pub expect_input : Option J
  pub output : ToolOutput

pub data FrontendStep : Type 0 where
  send_prompt : String → FrontendStep
  -- The kind of the event, and what its JSON form contains.
  expect_event : String → Option String → FrontendStep
  -- What the question contains, and the answer.
  answer_question : Option String → String → FrontendStep
  upload_file : String → String → FrontendStep
  interrupt : FrontendStep
  expect_shutdown : Option String → FrontendStep

pub record TestScript (J : Type 0) : Type 0 where
  pub name : String
  pub llm : List (ScriptedLlmTurn J)
  pub tools : List (ScriptedToolExec J)
  pub frontend : List FrontendStep
  pub network : List NetworkRecord

-- The state behind `SharedScript`. (The events that were seen are only searched.)
pub record ScriptState (J : Type 0) : Type 0 where
  pub script : TestScript J
  pub llm_consumed : List Bool
  pub tool_consumed : List Bool
  pub frontend_cursor : ℕ

-- The texts of `ScriptMismatch`, by what they are made of.
pub data Mismatch (J : Type 0) : Type 0 where
  llm_exhausted tool_exhausted : Mismatch J
  -- What was expected, and the last user text.
  no_turn : List String → String → Mismatch J
  -- The expected names, the name and the input.
  no_exec : List String → String → J → Mismatch J

pub data Reply (J : Type 0) (A : Type 0) : Type 0 where
  ok : A → Reply J A
  mismatch : Mismatch J → Reply J A

abbrev pub find_below_text : Text → Text → Bool
find_below_text needle [] = is_some (strip_prefix needle [])
find_below_text needle (c ∷ cs) =
    is_some (strip_prefix needle (c ∷ cs)) || find_below_text needle cs

-- `str::contains`.
abbrev pub contains : String → String → Bool
contains text needle = find_below_text (codes needle) (codes text)

abbrev pub all_done : List Bool → Bool
all_done [] = true
all_done (done ∷ flags) = done && all_done flags

abbrev pub count_done : List Bool → ℕ
count_done [] = 0
count_done (done ∷ flags) = (if done then 1 else 0) + count_done flags

abbrev pub shift : Option ℕ → Option ℕ
shift none = none
shift (some i) = some (suc i)

-- One flag for each entry.
abbrev pub all_false : {A : Type 0} → List A → List Bool
all_false xs = map (λ _. false) xs

module _ {A : Type 0} where
  -- `enumerate().find(..)` among the entries that were not consumed.
  abbrev pub find_index : (A → Bool) → List A → List Bool → Option ℕ
  find_index p [] flags = none
  find_index p (x ∷ xs) [] = none
  find_index p (x ∷ xs) (done ∷ flags) =
      if not done && p x then some 0 else shift (find_index p xs flags)

  abbrev pub left_over : List A → List Bool → List A
  left_over [] flags = []
  left_over (x ∷ xs) [] = []
  left_over (x ∷ xs) (done ∷ flags) = if done then left_over xs flags else x ∷ left_over xs flags

  abbrev pub get_elem? : List A → ℕ → Option A
  get_elem? [] n = none
  get_elem? (x ∷ xs) zero = some x
  get_elem? (x ∷ xs) (suc n) = get_elem? xs n

abbrev pub set_done : ℕ → List Bool → List Bool
set_done n [] = []
set_done zero (done ∷ flags) = true ∷ flags
set_done (suc n) (done ∷ flags) = done ∷ set_done n flags

module _ {J : Type 0} where
  unfoldable pub new : TestScript J → ScriptState J
  new script = record {
    script = script;
    llm_consumed = all_false script.llm;
    tool_consumed = all_false script.tools;
    frontend_cursor = 0;
  }

  abbrev pub is_user : Message J → Bool
  is_user m = elim m.role [ user ↦ true | assistant ↦ false ]

  abbrev pub last_user_text : List (Message J) → String
  last_user_text messages = elim (find is_user (reverse messages)) [
    | some m ↦ join_lines (texts m.content)
    | none ↦ ""
  ]

  abbrev pub expects_within : String → ScriptedLlmTurn J → Bool
  expects_within text turn = elim turn.expect_user_contains [
    | some needle ↦ contains text needle
    | none ↦ false
  ]

  -- The first unconsumed turn, if it has no expectation.
  abbrev pub positional : TestScript J → List Bool → Option ℕ
  positional script flags = elim (find_index (λ _. true) script.llm flags) [
    | none ↦ none
    | some i ↦ elim (get_elem? script.llm i) [
      | some turn ↦ if is_some turn.expect_user_contains then none else some i
      | none ↦ none
    ]
  ]

  unfoldable pub choose_llm : ScriptState J → String → Option ℕ
  choose_llm s text = elim (find_index (expects_within text) s.script.llm s.llm_consumed) [
    | some i ↦ some i
    | none ↦ positional s.script s.llm_consumed
  ]

  abbrev pub expectations : List (ScriptedLlmTurn J) → List String
  expectations [] = []
  expectations (turn ∷ turns) = elim turn.expect_user_contains [
    | some needle ↦ needle ∷ expectations turns
    | none ↦ expectations turns
  ]

  -- The last branch is the index out of range, which the search does not give.
  unfoldable pub next_llm :
      ScriptState J → List (Message J) → ScriptState J × Reply J (CompletionResponse J)
  unfolding choose_llm
  next_llm s messages =
      let text = last_user_text messages in
      if all_done s.llm_consumed then (s, mismatch llm_exhausted) else elim (choose_llm s text) [
        | none ↦ (s, mismatch (no_turn (expectations (left_over s.script.llm s.llm_consumed)) text))
        | some i ↦ elim (get_elem? s.script.llm i) [
          | some turn ↦ (record s { llm_consumed = set_done i s.llm_consumed }, ok turn.response)
          | none ↦ (s, mismatch llm_exhausted)
        ]
      ]

  module _ (subset_matches : J → J → Bool) where
    abbrev pub expects_call : ToolCall J → ScriptedToolExec J → Bool
    expects_call call scripted =
        (scripted.expect_name == call.name) && (elim scripted.expect_input [
          | some expected ↦ subset_matches expected call.input
          | none ↦ true
        ])

    unfoldable pub next_tool : ScriptState J → ToolCall J → ScriptState J × Reply J ToolOutput
    next_tool s call =
        if all_done s.tool_consumed
        then (s, mismatch tool_exhausted)
        else elim (find_index (expects_call call) s.script.tools s.tool_consumed) [
          | none ↦ (
            s,
            mismatch (
                no_exec (map (λ x. x.expect_name) (left_over s.script.tools s.tool_consumed))
                  call.name call.input),
          )
          | some i ↦ elim (get_elem? s.script.tools i) [
            | some scripted ↦
                (record s { tool_consumed = set_done i s.tool_consumed }, ok scripted.output)
            | none ↦ (s, mismatch tool_exhausted)
          ]
        ]

  unfoldable pub peek_frontend : ScriptState J → Option FrontendStep
  peek_frontend s = get_elem? s.script.frontend s.frontend_cursor

  unfoldable pub next_frontend : ScriptState J → ScriptState J × Option FrontendStep
  unfolding peek_frontend
  next_frontend s = elim (peek_frontend s) [
    | some step ↦ (record s { frontend_cursor = suc s.frontend_cursor }, some step)
    | none ↦ (s, none)
  ]

  abbrev pub tools_consumed : ScriptState J → ℕ
  tools_consumed s = count_done s.tool_consumed

  unfoldable pub finished : ScriptState J → Bool
  finished s =
      all_done s.llm_consumed
      && (all_done s.tool_consumed && leb (length s.script.frontend) s.frontend_cursor)
