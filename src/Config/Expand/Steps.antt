-- ===== src/Config/Expand/Steps.antt =====
-- internal/config/expand.go: what `expandString` does with a text, without a bound on its rounds.
use oryxos_go.Common.{
  ℕ, zero, suc, ◌<◌, ◌≡◌, refl, inl, inr, arith, String, Option, none, some, true, false,
  Bool-cases, Option-cases,
}
use oryxos_go.Go.Text.{◌⊕◌}
use oryxos_go.Go.Scan.{rune_count}
use oryxos_go.Go.Parse.{cut}
use oryxos_go.Go.Parse.Lengths.{cut-rune_count}
use oryxos_go.Config.{new_config_error, Configured, configured, rejected}
use oryxos_go.Config.Expand.{
  valid_environment_name, with_text, look_up, resolve_name, expand_loop, expand_string,
}

cut-empty : cut "${" "" ≡ none
unfolding cut
cut-empty = refl

module _ (lookup_env : Option (String → Option String)) (path : String) where
  -- The expansion of a text: the text before a placeholder is copied, the placeholder is replaced by
  -- the value of its variable, which is not expanded again, and what follows is expanded.
  pub data IsExpanded : String → Configured String → Type 0 where
    plain : (s : String) → cut "${" s ≡ none → IsExpanded s (configured s)
    unclosed :
        (s before placeholder : String)
        → cut "${" s ≡ some (before, placeholder)
        → cut "}" placeholder ≡ none
        → IsExpanded s (rejected (new_config_error path "malformed environment placeholder" none))
    malformed :
        (s before placeholder name after : String)
        → cut "${" s ≡ some (before, placeholder)
        → cut "}" placeholder ≡ some (name, after)
        → valid_environment_name name ≡ false
        → IsExpanded s (rejected (new_config_error path "malformed environment placeholder" none))
    unset :
        (s before placeholder name after : String)
        → cut "${" s ≡ some (before, placeholder)
        → cut "}" placeholder ≡ some (name, after)
        → valid_environment_name name ≡ true
        → look_up lookup_env name ≡ none
        → IsExpanded s
            (rejected (new_config_error path ("environment variable " ⊕ name ⊕ " is not set") none))
    resolved :
        (s before placeholder name after value : String) (rest : Configured String)
        → cut "${" s ≡ some (before, placeholder)
        → cut "}" placeholder ≡ some (name, after)
        → valid_environment_name name ≡ true
        → look_up lookup_env name ≡ some value
        → IsExpanded after rest
        → IsExpanded s (with_text before (with_text value rest))

  shorter :
      (s before placeholder name after : String) (rounds : ℕ)
      → cut "${" s ≡ some (before, placeholder)
      → cut "}" placeholder ≡ some (name, after)
      → rune_count s < suc rounds
      → rune_count after < rounds
  shorter s before placeholder name after rounds opened closed h = omega (
    arith,
    h,
    cut-rune_count "${" s before placeholder opened,
    cut-rune_count "}" placeholder name after closed,
  )

  resolve_name-IsExpanded :
      (s before placeholder name after : String) (rest : Configured String)
      → cut "${" s ≡ some (before, placeholder)
      → cut "}" placeholder ≡ some (name, after)
      → IsExpanded after rest
      → IsExpanded s (with_text before (resolve_name lookup_env path name rest))
  unfolding resolve_name
  resolve_name-IsExpanded s before placeholder name after rest opened closed expanded =
      elim (Bool-cases (valid_environment_name name)) [
        | inr bad ↦ rw bad (malformed s before placeholder name after opened closed bad)
        | inl good ↦ elim (Option-cases (look_up lookup_env name)) [
          | inl missing ↦
              rw (good, missing) (unset s before placeholder name after opened closed good missing)
          | inr (value, found) ↦
              rw (good, found)
                (resolved s before placeholder name after value rest opened closed good found
                  expanded)
        ]
      ]

  expand_loop-IsExpanded :
      (rounds : ℕ) (s : String)
      → rune_count s < rounds
      → IsExpanded s (expand_loop lookup_env path rounds s)
  unfolding expand_loop
  expand_loop-IsExpanded zero s h = absurd (omega (arith, h))
  expand_loop-IsExpanded (suc rounds) String.[] h = plain "" cut-empty
  expand_loop-IsExpanded (suc rounds) (String.◌∷◌ c t) h =
      let s = String.◌∷◌ c t in
      elim (Option-cases (cut "${" s)) [
        | inl nothing ↦ rw nothing (plain s nothing)
        | inr ((before, placeholder), opened) ↦ elim (Option-cases (cut "}" placeholder)) [
          | inl nothing ↦ rw (opened, nothing) (unclosed s before placeholder opened nothing)
          | inr ((name, after), closed) ↦
              rw (opened, closed)
                (resolve_name-IsExpanded s before placeholder name after _ opened closed (
                  expand_loop-IsExpanded rounds after
                    (shorter s before placeholder name after rounds opened closed h)))
        ]
      ]

  -- `expandString` ends on every text, with the expansion of the text or the first error in it: its
  -- loop has rounds enough, as each one leaves a shorter text.
  pub expand_string-IsExpanded : (s : String) → IsExpanded s (expand_string lookup_env path s)
  unfolding expand_string
  expand_string-IsExpanded s = expand_loop-IsExpanded (suc (rune_count s)) s (omega arith)
