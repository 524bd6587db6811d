-- ===== src/Go/Scan.antt =====
-- `strings.HasPrefix`, `strings.Index`, `strings.Contains` and runs of characters, on texts that are
-- lists of code points; `sort.Strings`, which orders texts as their bytes do.
use Prim.Native.Char.{code}
use Prim.Native.Nat.{Ordering}
use Prim.Native.String
use oryxos_go.Common.{
  ℕ, suc, ◌+◌, String, Option, none, some, List, [], ◌∷◌, Bool, true, false, ◌&&◌, ◌||◌, leb, ◌==◌,
  if◌then◌else◌, is_some, ◌≡◌, refl, length, arith,
}
use oryxos_go.Go.Text.{◌⊕◌}

-- `strings.CutPrefix`: what follows the prefix.
unfoldable pub strip_prefix : String → String → Option String
strip_prefix String.[] s = some s
strip_prefix (String.◌∷◌ p prefix) String.[] = none
strip_prefix (String.◌∷◌ p prefix) (String.◌∷◌ c s) =
    if code p == code c then strip_prefix prefix s else none

-- The longest beginning whose characters pass the test, and the rest.
unfoldable pub span : (ℕ → Bool) → String → String × String
span test String.[] = ("", "")
span test (String.◌∷◌ c s) =
    let (run, rest) = span test s in
    if test (code c) then (String.◌∷◌ c run, rest) else ("", String.◌∷◌ c s)

abbrev pub is_empty_text : String → Bool
is_empty_text String.[] = true
is_empty_text (String.◌∷◌ c s) = false

-- `strings.Contains`
unfoldable pub contains : String → String → Bool
unfolding strip_prefix
contains String.[] part = is_some (strip_prefix part "")
contains (String.◌∷◌ c s) part = is_some (strip_prefix part (String.◌∷◌ c s)) || contains s part

abbrev pub rune_count : String → ℕ
rune_count String.[] = 0
rune_count (String.◌∷◌ c s) = suc (rune_count s)

abbrev pub is_letter : ℕ → Bool
is_letter c = (leb b'a' c && leb c b'z') || (leb b'A' c && leb c b'Z')

abbrev pub is_digit : ℕ → Bool
is_digit c = leb b'0' c && leb c b'9'

lower_code : ℕ → ℕ
lower_code c =
    if leb b'A' c && leb c b'Z'
    then c + 32
    else if c == 0x130
    then b'i'
    else if c == 0x212a
    then b'k'
    else c

-- `strings.ToLower(s) == t` for a text `t` in ASCII: no code point but these two beside `A` to `Z` has
-- a lower case in ASCII.
unfoldable pub lower_equals : String → String → Bool
unfolding lower_code
lower_equals String.[] String.[] = true
lower_equals (String.◌∷◌ c s) (String.◌∷◌ d t) = lower_code (code c) == code d && lower_equals s t
lower_equals _ _ = false

extension_from : String → String → String
extension_from found String.[] = found
extension_from found (String.◌∷◌ c s) =
    extension_from
      (if code c == b'.'
        then "."
        else if code c == b'/' || is_empty_text found
        then ""
        else found ⊕ String.◌∷◌ c "")
      s

-- `filepath.Ext`
unfoldable pub extension : String → String
unfolding extension_from
extension path = extension_from "" path

-- `s <= t` on Go strings.
abbrev pub text_leb : String → String → Bool
text_leb s t = elim (String.compare s t) [ Ordering.gt ↦ false | _ ↦ true ]

insert_text : String → List String → List String
insert_text s [] = s ∷ []
insert_text s (t ∷ ts) = if text_leb s t then s ∷ t ∷ ts else t ∷ insert_text s ts

-- `sort.Strings`
unfoldable pub sort_texts : List String → List String
unfolding insert_text
sort_texts [] = []
sort_texts (s ∷ ss) = insert_text s (sort_texts ss)

length-insert_text : (s : String) (ts : List String) → length (insert_text s ts) ≡ suc (length ts)
unfolding insert_text
length-insert_text s [] = refl
length-insert_text s (t ∷ ts) = ground (arith, length-insert_text s ts)

pub length-sort_texts : (ss : List String) → length (sort_texts ss) ≡ length ss
unfolding sort_texts
length-sort_texts [] = refl
length-sort_texts (s ∷ ss) =
    omega (arith, length-insert_text s (sort_texts ss), length-sort_texts ss)

scan_tests :
    (extension "a.b/c.yaml" ≡ ".yaml")
    × (extension "a.b/c" ≡ "")
    × (lower_equals ".YAML" ".yaml" ≡ true)
    × (contains "a${b}" "${" ≡ true)
    × (sort_texts ("b" ∷ "ab" ∷ "a" ∷ []) ≡ "a" ∷ "ab" ∷ "b" ∷ [])
unfolding extension lower_equals contains sort_texts
scan_tests = (refl, refl, refl, refl, refl)
