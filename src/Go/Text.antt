-- ===== src/Go/Text.antt =====
-- `strings.TrimSpace`, `strings.Join`, `strconv.Quote` (the verb %q) and `strconv.Itoa` (%d).
-- Texts are valid UTF-8: a `String` is a list of code points.
use Prim.Native.Char.{Char, code}
use Prim.Native.String
use oryxos_go.Common.{
  ℕ, zero, suc, ◌/◌, ◌%◌, ◌-◌, String, ◌≡◌, refl, Bool, true, false, ◌&&◌, ◌||◌, List, [], ◌∷◌, leb,
  ltb, ◌==◌, ◌===◌, if◌then◌else◌,
}

infixr 65 ◌⊕◌
-- `+` on Go strings.
abbrev pub ◌⊕◌ : String → String → String
s ⊕ t = String.◌++◌ s t

-- `unicode.IsSpace`
is_space : ℕ → Bool
is_space c =
    (leb 9 c && leb c 13)
    || c == 0x20
    || c == 0x85
    || c == 0xA0
    || c == 0x1680
    || (leb 0x2000 c && leb c 0x200a)
    || c == 0x2028
    || c == 0x2029
    || c == 0x202f
    || c == 0x205f
    || c == 0x3000

pub trim_left : String → String
unfolding is_space
trim_left String.[] = ""
trim_left (String.◌∷◌ c s) = if is_space (code c) then trim_left s else String.◌∷◌ c s

is_empty : String → Bool
is_empty String.[] = true
is_empty (String.◌∷◌ c s) = false

pub trim_right : String → String
unfolding is_space is_empty
trim_right String.[] = ""
trim_right (String.◌∷◌ c s) =
    let rest = trim_right s in if is_space (code c) && is_empty rest then "" else String.◌∷◌ c rest

-- `strings.TrimSpace`
unfoldable pub trim_space : String → String
unfolding trim_left trim_right
trim_space s = trim_right (trim_left s)

-- `strings.TrimSpace(s) == ""`
unfoldable pub is_blank : String → Bool
unfolding trim_space
is_blank s = trim_space s === ""

join_from : String → List String → String → String
join_from s [] separator = s
join_from s (t ∷ ts) separator = s ⊕ separator ⊕ join_from t ts separator

-- `strings.Join`
unfoldable pub join : List String → String → String
unfolding join_from
join [] separator = ""
join (s ∷ ss) separator = join_from s ss separator

hex_digit : ℕ → String
hex_digit n =
    if n == 0
    then "0"
    else if n == 1
    then "1"
    else if n == 2
    then "2"
    else if n == 3
    then "3"
    else if n == 4
    then "4"
    else if n == 5
    then "5"
    else if n == 6
    then "6"
    else if n == 7
    then "7"
    else if n == 8
    then "8"
    else if n == 9
    then "9"
    else if n == 10
    then "a"
    else if n == 11
    then "b"
    else if n == 12
    then "c"
    else if n == 13
    then "d"
    else if n == 14
    then "e"
    else "f"

quote_char : Char → String
unfolding hex_digit
quote_char c =
    let n = code c in
    if n == 0x22
    then "\\\""
    else if n == 0x5c
    then "\\\\"
    else if n == 7
    then "\\a"
    else if n == 8
    then "\\b"
    else if n == 12
    then "\\f"
    else if n == 10
    then "\\n"
    else if n == 13
    then "\\r"
    else if n == 9
    then "\\t"
    else if n == 11
    then "\\v"
    else if ltb n 0x20 || n == 0x7f
    then "\\x" ⊕ hex_digit (n / 16) ⊕ hex_digit (n % 16)
    else String.◌∷◌ c ""

quote_body : String → String
unfolding quote_char
quote_body String.[] = ""
quote_body (String.◌∷◌ c s) = quote_char c ⊕ quote_body s

-- `strconv.Quote`; code points from U+0080 count as printable.
unfoldable pub quote : String → String
unfolding quote_body
quote s = "\"" ⊕ quote_body s ⊕ "\""

decimal_from : ℕ → ℕ → String → String
unfolding hex_digit
decimal_from zero n shown = shown
decimal_from (suc fuel) n shown =
    let longer = hex_digit (n % 10) ⊕ shown in
    let more = decimal_from fuel (n / 10) longer in if ltb n 10 then longer else more

-- `strconv.Itoa` of a number that is not negative; `suc n` digits are enough for `n`.
unfoldable pub itoa : ℕ → String
unfolding decimal_from
itoa n = decimal_from (suc n) n ""

-- Four hexadecimal digits.
unfoldable pub hex4 : ℕ → String
unfolding hex_digit
hex4 n =
    hex_digit (n / 4096) ⊕ hex_digit (n / 256 % 16) ⊕ hex_digit (n / 16 % 16) ⊕ hex_digit (n % 16)

trim_space_tests :
    (trim_space " \t a b\n" ≡ "a b") × (trim_space " \n" ≡ "") × (is_blank "x" ≡ false)
unfolding is_blank
trim_space_tests = (refl, refl, refl)

quote_test : quote "a\"b" ≡ "\"a\\\"b\""
unfolding quote
quote_test = refl

itoa_tests : (itoa 0 ≡ "0") × (itoa 4096 ≡ "4096")
unfolding itoa
itoa_tests = (refl, refl)

join_test : join ("a" ∷ "b" ∷ []) ", " ≡ "a, b"
unfolding join
join_test = refl

upper_code : ℕ → ℕ
upper_code c =
    if leb b'a' c && leb c b'z'
    then c - 32
    else if c == 0x131
    then b'I'
    else if c == 0x17f
    then b'S'
    else c

-- `strings.ToUpper(s) == t` for a text `t` in ASCII: no code point but these two has an upper case
-- in ASCII.
unfoldable pub upper_equals : String → String → Bool
unfolding upper_code
upper_equals String.[] String.[] = true
upper_equals (String.◌∷◌ c s) (String.◌∷◌ d t) = upper_code (code c) == code d && upper_equals s t
upper_equals _ _ = false

strip_slashes : String → String
unfolding is_empty
strip_slashes String.[] = ""
strip_slashes (String.◌∷◌ c s) =
    let rest = strip_slashes s in if code c == b'/' && is_empty rest then "" else String.◌∷◌ c rest

last_element : String → String → String
last_element found String.[] = found
last_element found (String.◌∷◌ c s) =
    last_element (if code c == b'/' then "" else found ⊕ String.◌∷◌ c "") s

-- `filepath.Base` on a system with the separator `/`.
unfoldable pub base : String → String
unfolding strip_slashes last_element
base path =
    if path === ""
    then "."
    else if strip_slashes path === ""
    then "/"
    else last_element "" (strip_slashes path)

take_runes : ℕ → String → String
take_runes zero s = ""
take_runes (suc n) String.[] = ""
take_runes (suc n) (String.◌∷◌ c s) = String.◌∷◌ c (take_runes n s)

-- `string([]rune(s)[:n])`
unfoldable pub rune_prefix : ℕ → String → String
unfolding take_runes
rune_prefix n s = take_runes n s

base_tests :
    (base "a/b//" ≡ "b")
    × (base "" ≡ ".")
    × (base "//" ≡ "/")
    × (upper_equals (base "x/soul.md") "SOUL.MD" ≡ true)
unfolding base upper_equals
base_tests = (refl, refl, refl, refl)
