-- ===== src/Session/Turns.antt =====
-- Conversation turns: which suffix `RecentTurns` and the prompt builder's loops select, and that
-- copying a message keeps its value.
use oryxos_go.Common.{
  ℕ, zero, suc, ◌-◌, ◌≡◌, refl, sym, ap, ◌∙◌, inl, inr, Option, none, some, List, [], ◌∷◌, ◌++◌,
  map, true, length, drop, if◌then◌else◌, arith, Bool-cases, ◌<◌,
}
use Prim.Native.Nat.{min}
use oryxos_go.Common.Int.{ℤ}
use oryxos_go.Go.Json.{Value, Elements, Members}
use oryxos_go.Llm.{Message, ToolCall}
use oryxos_go.Session.{
  Session, clone_value, clone_elements, clone_members, clone_map, clone_call, clone_message,
  is_user, clone_messages, append, appended, starts_from, from_start, recent_turns, messages_of,
}

mutual
  unfolding clone_value

  clone_value-eq : (v : Value) → clone_value v ≡ v
  clone_value-eq (Value.object fields) = ap Value.object (clone_members-eq fields)
  clone_value-eq (Value.array items) = ap Value.array (clone_elements-eq items)
  clone_value-eq Value.null = refl
  clone_value-eq (Value.boolean b) = refl
  clone_value-eq (Value.number text) = refl
  clone_value-eq (Value.text text) = refl

  clone_elements-eq : (vs : Elements) → clone_elements vs ≡ vs
  clone_elements-eq Elements.no_element = refl
  clone_elements-eq (Elements.element v vs) = cc (clone_value-eq v, clone_elements-eq vs)

  clone_members-eq : (fs : Members) → clone_members fs ≡ fs
  clone_members-eq Members.no_member = refl
  clone_members-eq (Members.member k v fs) = cc (clone_value-eq v, clone_members-eq fs)

clone_map-eq : (m : Option Members) → clone_map m ≡ m
unfolding clone_map
clone_map-eq none = refl
clone_map-eq (some fs) = ap some (clone_members-eq fs)

clone_calls-eq : (calls : List ToolCall) → map clone_call calls ≡ calls
unfolding clone_call
clone_calls-eq [] = refl
clone_calls-eq (call ∷ calls) =
    λ i. record call { extra = clone_map-eq call.extra i } ∷ clone_calls-eq calls i

pub clone_message-eq : (m : Message) → clone_message m ≡ m
unfolding clone_message
clone_message-eq m =
    λ i. record m { extra = clone_map-eq m.extra i; tool_calls = clone_calls-eq m.tool_calls i }

pub clone_messages-eq : (ms : List Message) → clone_messages ms ≡ ms
unfolding clone_messages
clone_messages-eq [] = refl
clone_messages-eq (m ∷ ms) = λ i. clone_message-eq m i ∷ clone_messages-eq ms i

-- What is appended stands at the end, and nothing else of the session changes.
pub appended_lem :
    (s : Session) (m : Message) → appended s m ≡ record s { messages = s.messages ++ m ∷ [] }
unfolding appended
appended_lem s m = λ i. record s { messages = s.messages ++ clone_message-eq m i ∷ [] }

pub append_lem :
    (s : Session) (m : Message)
    → append (some s) m ≡ some (record s { messages = s.messages ++ m ∷ [] })
unfolding append
append_lem s m = ap some (appended_lem s m)

pub messages_of_lem : (s : Session) → messages_of (some s) ≡ s.messages
unfolding messages_of
messages_of_lem s = clone_messages-eq s.messages

-- Reading back what was appended gives the whole conversation, in order.
pub messages_of-append :
    (s : Session) (m : Message) → messages_of (append (some s) m) ≡ messages_of (some s) ++ m ∷ []
unfolding messages_of
messages_of-append s m =
    rw append_lem
      (clone_messages-eq _ ∙ ap (λ ms. ms ++ m ∷ []) (sym (clone_messages-eq s.messages)))

-- The number of user messages.
abbrev pub count_users : List Message → ℕ
count_users [] = 0
count_users (m ∷ ms) = if is_user m then suc (count_users ms) else count_users ms

-- The suffix that begins at the user message number `turn`, from zero.
abbrev pub skip_turns : ℕ → List Message → List Message
skip_turns turn [] = []
skip_turns zero (m ∷ ms) = if is_user m then m ∷ ms else skip_turns zero ms
skip_turns (suc turn) (m ∷ ms) = if is_user m then skip_turns turn ms else skip_turns (suc turn) ms

drop-suc {ℓ} :
    {A : Type ℓ} (k : ℕ) (xs : List A) {x : A} {rest : List A}
    → drop k xs ≡ x ∷ rest
    → drop (suc k) xs ≡ rest
drop-suc zero [] h = cc
drop-suc (suc k) [] h = cc
drop-suc zero (y ∷ ys) h = cc
drop-suc (suc k) (y ∷ ys) h = drop-suc k ys h

from_start-starts_from :
    (k turn : ℕ) (whole ms : List Message)
    → drop k whole ≡ ms
    → from_start (starts_from k ms) turn whole ≡ skip_turns turn ms
unfolding starts_from from_start
from_start-starts_from k turn whole [] h = refl
from_start-starts_from k zero whole (m ∷ ms) h =
    let ih = from_start-starts_from (suc k) zero whole ms (drop-suc k whole h) in
    elim (Bool-cases (is_user m)) [
      | inl user ↦ rw (user, starts_from) h
      | inr other ↦ rw (other, starts_from) ih
    ]
from_start-starts_from k (suc turn) whole (m ∷ ms) h =
    let here = from_start-starts_from (suc k) turn whole ms (drop-suc k whole h) in
    let there = from_start-starts_from (suc k) (suc turn) whole ms (drop-suc k whole h) in
    elim (Bool-cases (is_user m)) [
      | inl user ↦ rw (user, starts_from) here
      | inr other ↦ rw (other, starts_from) there
    ]

length-starts_from : (k : ℕ) (ms : List Message) → length (starts_from k ms) ≡ count_users ms
unfolding starts_from
length-starts_from k [] = refl
length-starts_from k (m ∷ ms) = ground (arith, length-starts_from (suc k) ms)

-- A list of complete turns: it is empty or begins at a user message.
abbrev pub IsTurns : List Message → Type 0
IsTurns [] = Unit {0}
IsTurns (m ∷ ms) = is_user m ≡ true

pub skip_turns-IsTurns : (turn : ℕ) (ms : List Message) → IsTurns (skip_turns turn ms)
skip_turns-IsTurns turn [] = tt
skip_turns-IsTurns zero (m ∷ ms) = elim (Bool-cases (is_user m)) [
  | inl user ↦ rw user user
  | inr other ↦ rw other (skip_turns-IsTurns zero ms)
]
skip_turns-IsTurns (suc turn) (m ∷ ms) = elim (Bool-cases (is_user m)) [
  | inl user ↦ rw user (skip_turns-IsTurns turn ms)
  | inr other ↦ rw other (skip_turns-IsTurns (suc turn) ms)
]

-- `skipped` is what stands before the suffix `kept`.
pub record IsSuffixOf (kept whole : List Message) : Type 0 where
  pub skipped : List Message
  pub split : skipped ++ kept ≡ whole

pub IsSuffixOf-cons :
    (m : Message) {kept whole : List Message} → IsSuffixOf kept whole → IsSuffixOf kept (m ∷ whole)
IsSuffixOf-cons m h = record { skipped = m ∷ h.skipped; split = ap (λ ms. m ∷ ms) h.split }

pub IsSuffixOf-refl : (ms : List Message) → IsSuffixOf ms ms
IsSuffixOf-refl ms = record { skipped = []; split = refl }

pub skip_turns-IsSuffixOf : (turn : ℕ) (ms : List Message) → IsSuffixOf (skip_turns turn ms) ms
skip_turns-IsSuffixOf turn [] = IsSuffixOf-refl []
skip_turns-IsSuffixOf zero (m ∷ ms) = elim (Bool-cases (is_user m)) [
  | inl user ↦ rw user (IsSuffixOf-refl (m ∷ ms))
  | inr other ↦ rw other (IsSuffixOf-cons m (skip_turns-IsSuffixOf zero ms))
]
skip_turns-IsSuffixOf (suc turn) (m ∷ ms) = elim (Bool-cases (is_user m)) [
  | inl user ↦ rw user (IsSuffixOf-cons m (skip_turns-IsSuffixOf turn ms))
  | inr other ↦ rw other (IsSuffixOf-cons m (skip_turns-IsSuffixOf (suc turn) ms))
]

pub count_users-skip_turns :
    (turn : ℕ) (ms : List Message) → count_users (skip_turns turn ms) ≡ count_users ms - turn
count_users-skip_turns turn [] = omega arith
count_users-skip_turns zero (m ∷ ms) = ground (arith, count_users-skip_turns zero ms)
count_users-skip_turns (suc turn) (m ∷ ms) =
    ground (arith, count_users-skip_turns turn ms, count_users-skip_turns (suc turn) ms)

-- The newest complete turns of a conversation, `limit` of them or all that there are.
pub record IsNewest (limit : ℕ) (kept whole : List Message) : Type 0 where
  pub suffix : IsSuffixOf kept whole
  pub complete : IsTurns kept
  pub newest : count_users kept ≡ min limit (count_users whole)

-- The indices that the two limiting loops compute select the newest turns.
pub newest_lem :
    (limit : ℕ) (ms : List Message)
    → 0 < limit
    → IsNewest limit (from_start (starts_from 0 ms) (length (starts_from 0 ms) - limit) ms) ms
newest_lem limit ms h =
    rw (from_start-starts_from 0 (length (starts_from 0 ms) - limit) ms ms refl) (
      rw (length-starts_from 0 ms) (record {
        suffix = skip_turns-IsSuffixOf (count_users ms - limit) ms;
        complete = skip_turns-IsTurns (count_users ms - limit) ms;
        newest = omega (arith, count_users-skip_turns (count_users ms - limit) ms);
      }))

-- RecentTurns with a positive limit returns the newest complete turns of the session, as many as
-- the limit or all of them, beginning at a user message.
pub recent_turns-IsNewest :
    (s : Session) (limit : ℕ)
    → 0 < limit
    → IsNewest limit (recent_turns (some s) (ℤ.pos limit)) s.messages
unfolding recent_turns
recent_turns-IsNewest s zero h = absurd (omega arith)
recent_turns-IsNewest s (suc n) h = rw clone_messages-eq (newest_lem (suc n) s.messages h)
