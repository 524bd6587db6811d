-- ===== src/Runtime/Prompt/Budget.antt =====
-- internal/runtime/prompt_builder.go: the loop of `Build` that fits a history into its budget.
use mathlib.Core.Path.{subst}
use native.Mathlib.Decide.{ℕ_discrete}
use oryxos_go.Common.{
  ℕ, zero, suc, ◌<◌, ◌≤◌, ◌≡◌, refl, List, [], ◌∷◌, ◌++◌, false, length, arith, ◌⊎◌, inl, inr,
  Bool-cases, leb,
}
use oryxos_go.Llm.{Message}
use oryxos_go.Session.Turns.{
  count_users, skip_turns, IsTurns, skip_turns-IsTurns, count_users-skip_turns,
}
use oryxos_go.Runtime.Prompt.{Fit, fits, too_large, fit, is_nil, messages_rune_count}
use oryxos_go.Runtime.Prompt.History.{
  drop_oldest-skip_turns, skip_turns-skip_turns, skip_turns-zero, count_users-le-length,
}

-- `messages` is the opening, the history without its `dropped` oldest turns, and the suffix; it
-- fits the budget, and with any turn fewer dropped it does not.
pub record IsFitted (opening history suffix : List Message) (budget : ℕ) (messages : List Message)
    : Type 0 where
  pub dropped : ℕ
  pub shape : messages ≡ opening ++ (skip_turns dropped history ++ suffix)
  pub within : messages_rune_count messages ≤ budget
  pub needed :
      (j : ℕ)
      → j < dropped
      → budget < messages_rune_count (opening ++ (skip_turns j history ++ suffix))

abbrev pub FitCases : List Message → List Message → List Message → ℕ → Fit → Type 0
FitCases opening history suffix budget result =
    ((messages : List Message) × (result ≡ fits messages)
      × IsFitted opening history suffix budget messages)
    ⊎ ((result ≡ too_large) × (budget < messages_rune_count (opening ++ suffix)))

nil_cases :
    (ms : List Message) → (ms ≡ []) ⊎ ((is_nil ms ≡ false) × (IsTurns ms → 0 < count_users ms))
nil_cases [] = inl refl
nil_cases (m ∷ ms) = inr (refl, λ h. rw h (omega arith))

gt_of_leb : (a b : ℕ) → leb a b ≡ false → b < a
gt_of_leb a b h = ground arith

-- Below, the budget that every longer history exceeds.
module _ (opening history suffix : List Message) (budget : ℕ) where
  abbrev Needed : ℕ → Type 0
  Needed k =
      (j : ℕ) → j < k → budget < messages_rune_count (opening ++ (skip_turns j history ++ suffix))

  Needed-suc :
      (k : ℕ)
      → Needed k
      → budget < messages_rune_count (opening ++ (skip_turns k history ++ suffix))
      → Needed (suc k)
  Needed-suc k below here j h = elim (ℕ_discrete j k) [
    | yes same ↦ rw same here
    | no other ↦ below j (omega arith)
  ]

  fit_from :
      (fuel k : ℕ)
      → count_users (skip_turns k history) < fuel
      → Needed k
      → FitCases opening history suffix budget
          (fit fuel opening (skip_turns k history) suffix budget)
  unfolding fit
  fit_from zero k enough needed = absurd (omega arith)
  fit_from (suc fuel) k enough needed =
      let ms = opening ++ (skip_turns k history ++ suffix) in
      elim (Bool-cases (leb (messages_rune_count ms) budget)) [
        | inl small ↦ rw small (
            inl (
              ms,
              refl,
              record { dropped = k; shape = refl; within = ground arith; needed = needed },
            ))
        | inr large ↦ elim (nil_cases (skip_turns k history)) [
          | inl empty ↦ rw large (
              rw empty (
                inr (
                  refl,
                  gt_of_leb (messages_rune_count (opening ++ suffix)) budget (rw empty at large),
                )))
          | inr (more, users) ↦ rw large (
              rw more (
                rw (drop_oldest-skip_turns (skip_turns k history), skip_turns-skip_turns k history)
                  (fit_from fuel (suc k)
                    (omega (
                      arith,
                      count_users-skip_turns k history,
                      count_users-skip_turns (suc k) history,
                      users (skip_turns-IsTurns k history),
                    ))
                    (Needed-suc k needed (gt_of_leb (messages_rune_count ms) budget large)))))
        ]
      ]

-- With fuel for one round more than the history has messages the loop ends. Either it returns the
-- opening, the longest suffix of complete turns with which the budget holds, and the suffix; or the
-- protected messages alone exceed the budget.
pub fit_lem :
    (opening history suffix : List Message) (budget : ℕ)
    → IsTurns history
    → FitCases opening history suffix budget
        (fit (suc (length history)) opening history suffix budget)
fit_lem opening history suffix budget turns =
    let enough : count_users (skip_turns 0 history) < suc (length history) =
      omega (arith, count_users-skip_turns 0 history, count_users-le-length history) in
    subst
      (λ h.
        FitCases opening history suffix budget (fit (suc (length history)) opening h suffix budget))
      (skip_turns-zero history turns)
      (fit_from opening history suffix budget (suc (length history)) 0 enough
        (λ j h. absurd (omega arith)))
