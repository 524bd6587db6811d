-- ===== src/Runtime/Prompt.antt =====
-- internal/runtime/prompt_builder.go: sections of the system prompt, the history of a session, and
-- the loop that drops turns until the prompt fits its budget.
pub mod History
pub mod Budget
pub mod Build
use Prim.Native.Char.{code}
use Prim.Native.String.{count}
use oryxos_go.Common.{
  ℕ, zero, suc, ◌+◌, ◌-◌, String, Option, none, some, List, [], ◌∷◌, ◌++◌, map, Bool, true, false,
  not, ◌&&◌, ◌||◌, length, leb, ◌==◌, ◌===◌, if◌then◌else◌,
}
use oryxos_go.Common.Int.{ℤ, is_positive, pos_part}
use oryxos_go.Go.Text.{
  ◌⊕◌, join, is_blank, trim_space, quote, itoa, base, upper_equals, rune_prefix,
}
use oryxos_go.Go.Error.{Error, leaf, wrap}
use oryxos_go.Go.Json.{Value, Members, marshal}
use oryxos_go.Go.Effect.{Result, ok, err, Exec, Context, raise, annotate, continue}
use oryxos_go.Llm.{Message, ToolCall, text_message, role_system, role_user}
use oryxos_go.Profile.{Profile}
use oryxos_go.Session.{Session, messages_of, is_user, starts_from, from_start}

-- bootstrap.Section and skill.Section; a snapshot is its sections in order.
pub record Section : Type 0 where
  pub reference : String
  pub content : String

-- The three results of `classifyBootstrap`, the first one before it is rendered.
pub record Classified : Type 0 where
  pub project : List Section
  pub persona : String
  pub preferences : String

-- One round of the loop: a later SOUL.md or USER.md replaces an earlier one.
classify_one : Classified → Section → Classified
unfolding base upper_equals
classify_one found section =
    if upper_equals (base section.reference) "SOUL.MD"
    then record found { persona = section.content }
    else if upper_equals (base section.reference) "USER.MD"
    then record found { preferences = section.content }
    else record found { project = found.project ++ section ∷ [] }

classify_from : Classified → List Section → Classified
unfolding classify_one
classify_from found [] = found
classify_from found (section ∷ rest) = classify_from (classify_one found section) rest

-- `classifyBootstrap`
pub classify_bootstrap : List Section → Classified
unfolding classify_from
classify_bootstrap sections =
    classify_from (record { project = []; persona = ""; preferences = "" }) sections

-- `renderBootstrapSections` with the label BOOTSTRAP, `renderSkillSections` with SKILL.
pub render_sections : String → List Section → String
unfolding join
render_sections label sections =
    join (map (λ s. "--- " ⊕ label ⊕ ": " ⊕ s.reference ⊕ " ---\n" ⊕ s.content) sections) "\n"

-- `nonEmpty`
pub non_empty : List String → List String
unfolding is_blank
non_empty [] = []
non_empty (value ∷ values) =
    let rest = non_empty values in if is_blank value then rest else value ∷ rest

-- `truncateRunes`
pub truncate_runes : String → ℕ → String
unfolding rune_prefix
truncate_runes value limit = if leb (count value) limit then value else rune_prefix limit value

abbrev pub default_history_turns : ℕ
default_history_turns = 20

abbrev pub max_memory_characters : ℕ
max_memory_characters = 4000

-- `historyLimit`
pub history_limit : Profile → ℕ
history_limit selected =
    if is_positive selected.settings.max_history_turns
    then pos_part selected.settings.max_history_turns
    else default_history_turns

abbrev is_current : String → Message → Bool
is_current text message = is_user message && message.content === text

-- The backward loop of `splitCurrentTurn`: what stands before the last user message with this
-- content, and the messages from it on.
pub split_at_last : String → List Message → Option (List Message × List Message)
split_at_last text [] = none
split_at_last text (message ∷ rest) = elim (split_at_last text rest) [
  | some (before, turn) ↦ some (message ∷ before, turn)
  | none ↦ if is_current text message then some ([], message ∷ rest) else none
]

-- `splitCurrentTurn`
unfoldable pub split_current_turn : List Message → String → List Message × List Message
split_current_turn messages text = elim (split_at_last text messages) [
  | some (before, turn) ↦ (before, turn)
  | none ↦ (messages, text_message role_user text ∷ [])
]

-- `limitCompleteTurns`, which is only called with a positive limit (`historyLimit`).
pub limit_complete_turns : List Message → ℕ → List Message
limit_complete_turns messages zero = []
limit_complete_turns messages (suc n) =
    let starts = starts_from 0 messages in from_start starts (length starts - suc n) messages

-- The loop of `dropOldestCompleteTurn`; `found` is `foundFirst`.
drop_from : Bool → List Message → List Message
drop_from found [] = []
drop_from found (message ∷ rest) =
    let later = drop_from (found || is_user message) rest in
    if is_user message && found then message ∷ rest else later

-- `dropOldestCompleteTurn`
pub drop_oldest_complete_turn : List Message → List Message
unfolding drop_from
drop_oldest_complete_turn messages = drop_from false messages

-- `jsonRuneCount`; a value that stands for JSON can always be encoded.
pub json_rune_count : Option Members → ℕ
unfolding marshal
json_rune_count none = 0
json_rune_count (some Members.no_member) = 0
json_rune_count (some fields) = count (marshal (Value.object fields))

call_rune_count : ToolCall → ℕ
unfolding json_rune_count
call_rune_count call =
    count call.id
    + count call.type
    + count call.function.name
    + count call.function.arguments
    + json_rune_count call.extra

calls_rune_count : List ToolCall → ℕ
unfolding call_rune_count
calls_rune_count [] = 0
calls_rune_count (call ∷ calls) = call_rune_count call + calls_rune_count calls

pub message_rune_count : Message → ℕ
unfolding calls_rune_count json_rune_count
message_rune_count message =
    count message.role
    + count message.content
    + count message.name
    + count message.tool_call_id
    + count message.tool_name
    + count message.reasoning_content
    + calls_rune_count message.tool_calls
    + json_rune_count message.extra

-- `messagesRuneCount`
pub messages_rune_count : List Message → ℕ
unfolding message_rune_count
messages_rune_count [] = 0
messages_rune_count (message ∷ rest) = message_rune_count message + messages_rune_count rest

-- What the loop of `Build` comes to. It has no bound in the source; `out_of_fuel` is the model's.
pub data Fit : Type 0 where
  fits : List Message → Fit
  too_large : Fit
  out_of_fuel : Fit

abbrev is_nil {ℓ} : {A : Type ℓ} → List A → Bool
is_nil [] = true
is_nil (x ∷ xs) = false

-- The loop of `Build`.
unfoldable pub fit : ℕ → List Message → List Message → List Message → ℕ → Fit
fit zero opening history suffix budget = out_of_fuel
fit (suc fuel) opening history suffix budget =
    let messages = opening ++ (history ++ suffix) in
    let shorter = fit fuel opening (drop_oldest_complete_turn history) suffix budget in
    if leb (messages_rune_count messages) budget
    then fits messages
    else if is_nil history
    then too_large
    else shorter

-- The builder; `memory` is the memory reader, `now` the clock with its RFC 3339 format.
pub record PromptBuilder (W : Type 0) : Type 0 where
  pub runtime_rules : String
  pub bootstrap_by_profile : List (String × List Section)
  pub skills_by_profile : List (String × List Section)
  pub max_input_runes : List (String × ℤ)
  pub memory : Context W → Profile → Exec W String
  pub now : W → String × W

-- `m[name]` on a map, with its `ok`.
pub find {ℓ} : {A : Type ℓ} → String → List (String × A) → Option A
find name [] = none
find name ((key, value) ∷ rest) = if key === name then some value else find name rest

-- The system prompt.
pub system_content : String → List Section → List Section → Profile → String → String
unfolding classify_bootstrap render_sections non_empty truncate_runes trim_space join
system_content runtime_rules boot skills selected memory =
    let found = classify_bootstrap boot in
    let identity = trim_space (
      join
        (non_empty (selected.identity.agent_name ∷ selected.identity.prompt ∷ found.persona ∷ []))
        "\n") in
    join
      (("[RUNTIME_RULES]\n" ⊕ runtime_rules)
        ∷ ("[PROJECT_RULES]\n" ⊕ render_sections "BOOTSTRAP" found.project)
        ∷ ("[AGENT_IDENTITY]\n" ⊕ identity)
        ∷ ("[SKILLS]\n" ⊕ render_sections "SKILL" skills)
        ∷ ("[USER_PREFERENCES]\n" ⊕ found.preferences)
        ∷ ("[LONG_TERM_MEMORY]\n" ⊕ truncate_runes memory max_memory_characters)
        ∷ [])
      "\n"

pub opening_messages : String → List Message
opening_messages content =
    text_message role_system content ∷ text_message role_system "[HISTORY]" ∷ []

pub closing_messages : List Message → String → List Message
closing_messages current_turn time =
    text_message role_system "[USER_MESSAGE]"
    ∷ (current_turn ++ text_message role_system ("[CURRENT_DATETIME]\n" ⊕ time) ∷ [])

-- The result of the loop as that of `Build`; one round more than there are messages is enough.
assemble : String → ℕ → List Message → List Message → List Message → Result (List Message)
assemble name budget opening history suffix =
    elim (fit (suc (length history)) opening history suffix budget) [
      | fits messages ↦ ok messages
      | too_large ↦ err (
          leaf (
            "build prompt: protected context for profile "
            ⊕ quote name
            ⊕ " exceeds input budget "
            ⊕ itoa budget))
      | out_of_fuel ↦ err (leaf "")
    ]

-- A budget that is missing reads as zero, and zero or less is refused.
abbrev positive_budget : Option ℤ → Option ℕ
positive_budget none = none
positive_budget (some budget) = if is_positive budget then some (pos_part budget) else none

module _ {W : Type 0} (builder : PromptBuilder W) (ctx : Context W) where
  -- After the memory was read.
  pub finish :
      Session → Profile → String → List Section → List Section → ℕ → String → Exec W (List Message)
  unfolding system_content split_current_turn limit_complete_turns history_limit assemble
  finish current selected text boot skills budget memory w =
      let (history, current_turn) = split_current_turn (messages_of (some current)) text in
      let (time, w') = builder.now w in
      (
        assemble selected.name budget
            (opening_messages (system_content builder.runtime_rules boot skills selected memory))
            (limit_complete_turns history (history_limit selected))
            (closing_messages current_turn time),
        w',
      )

  -- From the check of the budget on.
  pub compose : Session → Profile → String → List Section → List Section → ℕ → Exec W (List Message)
  unfolding finish
  compose current selected text boot skills budget w =
      let (read, w') = builder.memory ctx selected w in
      continue (annotate "build prompt: read memory" read)
        (finish current selected text boot skills budget) w'

  pub with_snapshots : Session → Profile → String → Exec W (List Message)
  unfolding compose find
  with_snapshots current selected text = elim (find selected.name builder.bootstrap_by_profile) [
    | none ↦ raise (
        leaf ("build prompt: bootstrap snapshot for profile " ⊕ quote selected.name ⊕ " not found"))
    | some boot ↦ elim (find selected.name builder.skills_by_profile) [
      | none ↦
          raise (
            leaf ("build prompt: skill snapshot for profile " ⊕ quote selected.name ⊕ " not found"))
      | some skills ↦ elim (positive_budget (find selected.name builder.max_input_runes)) [
        | none ↦
            raise (
              leaf ("build prompt: input budget for profile " ⊕ quote selected.name ⊕ " not found"))
        | some budget ↦ compose current selected text boot skills budget
      ]
    ]
  ]

  pub from_session : Option Session → Option Profile → String → Exec W (List Message)
  unfolding with_snapshots is_blank
  from_session none selected text = raise (leaf "build prompt: session is nil")
  from_session (some current) none text = raise (leaf "build prompt: profile is required")
  from_session (some current) (some selected) text =
      if is_blank selected.name
      then raise (leaf "build prompt: profile is required")
      else with_snapshots current selected text

-- `Build`; a builder that is nil or that lacks its reader or clock is `none`.
unfoldable pub build :
    {W : Type 0}
    → Option (PromptBuilder W)
    → Option (Context W)
    → Option Session
    → Option Profile
    → String
    → Exec W (List Message)
unfolding from_session fit messages_rune_count drop_oldest_complete_turn opening_messages
    split_at_last closing_messages starts_from from_start messages_of
build none ctx current selected text w = raise (leaf "build prompt: builder is not initialized") w
build (some builder) none current selected text w = raise (leaf "build prompt: context is nil") w
build (some builder) (some ctx) current selected text w = elim (ctx.cancelled w) [
  | some e ↦ (err e, w)
  | none ↦ from_session builder ctx current selected text w
]
