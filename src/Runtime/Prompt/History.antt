-- ===== src/Runtime/Prompt/History.antt =====
-- Which part of the conversation goes into a prompt: the current turn, and the turns before it.
use oryxos_go.Common.{
  ℕ, zero, suc, ◌<◌, ◌≤◌, String, ◌≡◌, refl, ap, Option, none, some, List, [], ◌∷◌, ◌++◌, true,
  false, length, arith, ◌⊎◌, inl, inr, Bool-cases,
}
use oryxos_go.Llm.{Message, role_user, text_message}
use oryxos_go.Session.{is_user}
use oryxos_go.Session.Turns.{count_users, skip_turns, IsTurns, IsNewest, newest_lem}
use oryxos_go.Runtime.Prompt.{
  is_current, split_at_last, split_current_turn, limit_complete_turns, drop_from,
  drop_oldest_complete_turn,
}

-- No message of the list is a user message with this content.
abbrev pub NoneCurrent : String → List Message → Type 0
NoneCurrent text [] = Unit {0}
NoneCurrent text (m ∷ ms) = (is_current text m ≡ false) × NoneCurrent text ms

-- The split of a conversation at its last user message with the content `text`.
pub record IsSplit (text : String) (messages before turn : List Message) : Type 0 where
  pub joined : before ++ turn ≡ messages
  pub message : Message
  pub later : List Message
  pub head : turn ≡ message ∷ later
  pub current : is_current text message ≡ true
  pub last : NoneCurrent text later

abbrev SplitCases : String → List Message → Option (List Message × List Message) → Type 0
SplitCases text messages found =
    ((found ≡ none) × NoneCurrent text messages)
    ⊎ ((before : List Message) × (turn : List Message) × (found ≡ some (before, turn))
        × IsSplit text messages before turn)

split_at_last_cases :
    (text : String) (messages : List Message)
    → SplitCases text messages (split_at_last text messages)
unfolding split_at_last
split_at_last_cases text [] = inl (refl, tt)
split_at_last_cases text (m ∷ ms) = elim (split_at_last_cases text ms) [
  | inl (missed, clear) ↦ elim (Bool-cases (is_current text m)) [
    | inl here ↦ inr (
      [],
      m ∷ ms,
      rw (missed, split_at_last) (rw here),
      record { joined = refl; message = m; later = ms; head = refl; current = here; last = clear },
    )
    | inr other ↦ inl (rw (missed, split_at_last) (rw other), (other, clear))
  ]
  | inr (before, turn, found, split) ↦ inr (
    m ∷ before,
    turn,
    rw (found, split_at_last),
    record {
      joined = ap (λ rest. m ∷ rest) split.joined;
      message = split.message;
      later = split.later;
      head = split.head;
      current = split.current;
      last = split.last;
    },
  )
]

-- The current turn begins at the last user message with the request's text, and history and turn
-- together are the whole conversation. Where no message has that text, the whole conversation is
-- history and the turn is one new user message.
pub split_current_turn_lem :
    (messages : List Message) (text : String)
    → IsSplit text messages
        (split_current_turn messages text).0
        (split_current_turn messages text).1
      ⊎ (NoneCurrent text messages
          × (split_current_turn messages text ≡ (messages, text_message role_user text ∷ [])))
unfolding split_current_turn
split_current_turn_lem messages text = elim (split_at_last_cases text messages) [
  | inl (missed, clear) ↦ rw (missed, split_current_turn) (inr (clear, refl))
  | inr (before, turn, found, split) ↦ rw (found, split_current_turn) (inl split)
]

-- The history is cut to the newest complete turns, as many as the limit.
pub limit_complete_turns-IsNewest :
    (messages : List Message) (limit : ℕ)
    → 0 < limit
    → IsNewest limit (limit_complete_turns messages limit) messages
unfolding limit_complete_turns
limit_complete_turns-IsNewest messages zero h = absurd (omega arith)
limit_complete_turns-IsNewest messages (suc n) h = newest_lem (suc n) messages h

drop_from-true : (ms : List Message) → drop_from true ms ≡ skip_turns 0 ms
unfolding drop_from
drop_from-true [] = refl
drop_from-true (m ∷ ms) = ground (arith, drop_from-true ms)

drop_from-false : (ms : List Message) → drop_from false ms ≡ skip_turns 1 ms
unfolding drop_from
drop_from-false [] = refl
drop_from-false (m ∷ ms) = ground (arith, drop_from-true ms, drop_from-false ms)

-- Dropping the oldest turn leaves what begins at the second user message.
pub drop_oldest-skip_turns : (ms : List Message) → drop_oldest_complete_turn ms ≡ skip_turns 1 ms
unfolding drop_oldest_complete_turn
drop_oldest-skip_turns ms = drop_from-false ms

-- Turns that are dropped one after another are dropped together.
pub skip_turns-skip_turns :
    (k : ℕ) (ms : List Message) → skip_turns 1 (skip_turns k ms) ≡ skip_turns (suc k) ms
skip_turns-skip_turns k [] = refl
skip_turns-skip_turns zero (m ∷ ms) = elim (Bool-cases (is_user m)) [
  | inl user ↦ rw user (rw user)
  | inr other ↦ rw other (skip_turns-skip_turns zero ms)
]
skip_turns-skip_turns (suc k) (m ∷ ms) = elim (Bool-cases (is_user m)) [
  | inl user ↦ rw user (skip_turns-skip_turns k ms)
  | inr other ↦ rw other (skip_turns-skip_turns (suc k) ms)
]

pub skip_turns-zero : (ms : List Message) → IsTurns ms → skip_turns 0 ms ≡ ms
skip_turns-zero [] h = refl
skip_turns-zero (m ∷ ms) h = rw h

-- Every turn that is dropped takes a user message with it, so a history of turns runs out.
pub skip_turns_all : (k : ℕ) (ms : List Message) → count_users ms ≤ k → skip_turns k ms ≡ []
skip_turns_all k [] h = refl
skip_turns_all zero (m ∷ ms) h = elim (Bool-cases (is_user m)) [
  | inl user ↦ let few : suc (count_users ms) ≤ 0 = rw user at h in absurd (omega arith)
  | inr other ↦ rw other (skip_turns_all zero ms (rw other at h))
]
skip_turns_all (suc k) (m ∷ ms) h = elim (Bool-cases (is_user m)) [
  | inl user ↦ rw user (skip_turns_all k ms (ground arith))
  | inr other ↦ rw other (skip_turns_all (suc k) ms (ground arith))
]

pub count_users-le-length : (ms : List Message) → count_users ms ≤ length ms
count_users-le-length [] = omega arith
count_users-le-length (m ∷ ms) = ground (arith, count_users-le-length ms)
