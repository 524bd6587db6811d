-- ===== src/Go/Parse/Lengths.antt =====
-- How many characters `strings.Cut` leaves.
use Prim.Native.Char.{code}
use mathlib.Core.Path.{subst}
use oryxos_go.Common.{if_elim, ℕ, suc, ◌+◌, ◌≤◌, ◌≡◌, arith, String, Option, none, some, ◌==◌}
use oryxos_go.Go.Scan.{strip_prefix, rune_count}
use oryxos_go.Go.Parse.{cut, here, longer, or_else}

-- What follows a part of `k` characters of a text of `n` characters.
abbrev Follows : ℕ → ℕ → Option String → Type 0
Follows k n none = Unit
Follows k n (some after) = k + rune_count after ≤ n

Follows-suc : (k n : ℕ) (found : Option String) → Follows k n found → Follows (suc k) (suc n) found
Follows-suc k n none h = tt
Follows-suc k n (some after) h = omega (arith, h)

strip_prefix-Follows :
    (start s : String) → Follows (rune_count start) (rune_count s) (strip_prefix start s)
unfolding strip_prefix
strip_prefix-Follows String.[] s = omega arith
strip_prefix-Follows (String.◌∷◌ p start) String.[] = tt
strip_prefix-Follows (String.◌∷◌ p start) (String.◌∷◌ c s) =
    if_elim (Follows (suc (rune_count start)) (suc (rune_count s))) (code p == code c)
      (strip_prefix start s) none
      (λ h. Follows-suc (rune_count start) (rune_count s) _ (strip_prefix-Follows start s))
      (λ h. tt)

abbrev FollowsCut : ℕ → ℕ → Option (String × String) → Type 0
FollowsCut k n none = Unit
FollowsCut k n (some (before, after)) = k + rune_count after ≤ n

here-FollowsCut :
    (k n : ℕ) (found : Option String) → Follows k n found → FollowsCut k n (here found)
here-FollowsCut k n none h = tt
here-FollowsCut k n (some after) h = h

longer-FollowsCut :
    (k n : ℕ) (start : String) (found : Option (String × String))
    → FollowsCut k n found
    → FollowsCut k (suc n) (longer start found)
longer-FollowsCut k n start none h = tt
longer-FollowsCut k n start (some (before, after)) h = omega (arith, h)

or_else-FollowsCut :
    (k n : ℕ) (first second : Option (String × String))
    → FollowsCut k n first
    → FollowsCut k n second
    → FollowsCut k n (or_else first second)
or_else-FollowsCut k n none second h h' = h'
or_else-FollowsCut k n (some found) second h h' = h

cut-FollowsCut :
    (separator s : String) → FollowsCut (rune_count separator) (rune_count s) (cut separator s)
unfolding cut
cut-FollowsCut separator String.[] = here-FollowsCut _ _ _ (strip_prefix-Follows separator "")
cut-FollowsCut separator (String.◌∷◌ c s) =
    or_else-FollowsCut _ _ _ _
      (here-FollowsCut _ _ _ (strip_prefix-Follows separator (String.◌∷◌ c s)))
      (longer-FollowsCut _ _ _ _ (cut-FollowsCut separator s))

-- What follows the separator is shorter than the text by the separator at least.
pub cut-rune_count :
    (separator s before after : String)
    → cut separator s ≡ some (before, after)
    → rune_count separator + rune_count after ≤ rune_count s
cut-rune_count separator s before after h =
    subst (FollowsCut (rune_count separator) (rune_count s)) h (cut-FollowsCut separator s)
