-- ===== src/Runtime/Prompt/Build.antt =====
-- `Build` as a whole: what a prompt that it returns is made of.
use oryxos_go.Common.{[], ◌∷◌, ◌⊎◌, ℕ, ◌<◌, ◌≡◌, String, List, some}
use oryxos_go.Common.Int.{ℤ}
use oryxos_go.Go.Error.{Error}
use oryxos_go.Go.Effect.{ok, Context}
use oryxos_go.Llm.{Message, text_message, role_user}
use oryxos_go.Profile.{Profile}
use oryxos_go.Session.{Session}
use oryxos_go.Session.Turns.{IsNewest}
use oryxos_go.Runtime.Prompt.{
  PromptBuilder, Section, find, history_limit, opening_messages, closing_messages, system_content,
}
use oryxos_go.Runtime.Prompt.History.{IsSplit, NoneCurrent}
use oryxos_go.Runtime.Prompt.Budget.{IsFitted}

-- The history before the current turn, and that turn: from the last user message with this text on, or,
-- where there is none, a new user message after the whole conversation.
abbrev pub IsCurrent : List Message → String → List Message → List Message → Type 0
IsCurrent messages text before turn =
    IsSplit text messages before turn
    ⊎ (NoneCurrent text messages × (before ≡ messages) × (turn ≡ text_message role_user text ∷ []))

-- What `Build` returns where it is called in `w`: the profile has a positive budget and both snapshots;
-- the messages are the system prompt made of the memory that the reader gave, as many of the newest
-- complete turns before the current one as fit, and the current turn, whole, with the time that the
-- clock gave after that.
pub record IsPrompt {W : Type 0} (builder : PromptBuilder W) (ctx : Context W) (current : Session)
    (selected : Profile) (text : String) (w : W) (messages : List Message) : Type 0 where
  pub boot : List Section
  pub boot_found : find selected.name builder.bootstrap_by_profile ≡ some boot
  pub skills : List Section
  pub skills_found : find selected.name builder.skills_by_profile ≡ some skills
  pub budget : ℕ
  pub budget_found : find selected.name builder.max_input_runes ≡ some (ℤ.pos budget)
  pub budget_pos : 0 < budget
  pub memory : String
  pub memory_read : (builder.memory ctx selected w).0 ≡ ok memory
  pub before : List Message
  pub turn : List Message
  pub split : IsCurrent current.messages text before turn
  pub history : List Message
  pub newest : IsNewest (history_limit selected) history before
  pub fitted :
      IsFitted
        (opening_messages (system_content builder.runtime_rules boot skills selected memory))
        history
        (closing_messages turn (builder.now (builder.memory ctx selected w).1).0)
        budget
        messages
