-- ===== src/Go/Parse.antt =====
-- `strings.Cut`, `strconv.Atoi` and `net.SplitHostPort`.
pub mod Lengths
use Prim.Native.Char.{code}
use Prim.Native.String
use oryxos_go.Common.{
  ℕ, zero, suc, ◌+◌, ◌-◌, ◌*◌, ◌^◌, ◌<◌, ◌≡◌, refl, inl, inr, arith, String, Option, none, some,
  Bool, true, false, not, ltb, leb, ◌==◌, ◌===◌, if◌then◌else◌, Option-cases, if_elim, is_some,
}
use oryxos_go.Common.Int.{ℤ}
use oryxos_go.Go.Text.{◌⊕◌, quote}
use oryxos_go.Go.Error.{Error, leaf, wrap}
use oryxos_go.Go.Effect.{Result, ok, err}
use oryxos_go.Go.Scan.{strip_prefix, is_digit, is_empty_text, rune_count, contains}

abbrev pub longer : String → Option (String × String) → Option (String × String)
longer start none = none
longer start (some (before, after)) = some (start ⊕ before, after)

abbrev pub or_else : {A : Type 0} → Option A → Option A → Option A
or_else none other = other
or_else (some a) other = some a

abbrev pub here : Option String → Option (String × String)
here none = none
here (some after) = some ("", after)

-- `strings.Cut`, or the slices around `strings.Index`.
unfoldable pub cut : String → String → Option (String × String)
unfolding strip_prefix
cut separator String.[] = here (strip_prefix separator "")
cut separator (String.◌∷◌ c s) =
    or_else (here (strip_prefix separator (String.◌∷◌ c s)))
      (longer (String.◌∷◌ c "") (cut separator s))

-- Around the last colon.
unfoldable pub cut_last_colon : String → Option (String × String)
cut_last_colon String.[] = none
cut_last_colon (String.◌∷◌ c s) =
    or_else (longer (String.◌∷◌ c "") (cut_last_colon s))
      (if code c == b':' then some ("", s) else none)

-- The loop of `strconv.ParseUint` for 64 bits.
digits_from : ℕ → String → Result ℕ
digits_from n String.[] = ok n
digits_from n (String.◌∷◌ c s) =
    let next = n * 10 + (code c - b'0') in
    let rest = digits_from next s in
    if not (is_digit (code c))
    then err (leaf "invalid syntax")
    else if leb (2 ^ 64) next
    then err (leaf "value out of range")
    else rest

unsigned : String → Result ℕ
unfolding digits_from
unsigned s = if is_empty_text s then err (leaf "invalid syntax") else digits_from 0 s

abbrev bounded : Bool → Result ℕ → Result ℤ
bounded negative (err e) = err e
bounded false (ok n) = if leb (2 ^ 63) n then err (leaf "value out of range") else ok (ℤ.pos n)
bounded true (ok zero) = ok (ℤ.pos 0)
bounded true (ok (suc n)) =
    if leb (2 ^ 63) n then err (leaf "value out of range") else ok (ℤ.negsuc n)

abbrev signed : String → Result ℤ
unfolding unsigned strip_prefix
signed s = elim (strip_prefix "-" s) [
  | some rest ↦ bounded true (unsigned rest)
  | none ↦ elim (strip_prefix "+" s) [
    | some rest ↦ bounded false (unsigned rest)
    | none ↦ bounded false (unsigned s)
  ]
]

abbrev parsing : String → Result ℤ → Result ℤ
parsing s (ok n) = ok n
parsing s (err e) = err (wrap ("strconv.Atoi: parsing " ⊕ quote s) e)

-- `strconv.Atoi`, where an `int` has 64 bits.
unfoldable pub atoi : String → Result ℤ
unfolding unsigned strip_prefix
atoi s = parsing s (signed s)

abbrev address_error : String → String → Error
address_error address why = leaf (if address === "" then why else "address " ⊕ address ⊕ ": " ⊕ why)

-- The tests for brackets that do not belong there.
unbracketed : String → String → String → String → String → Result (String × String)
unfolding contains
unbracketed address host port opened closed =
    if contains opened "["
    then err (address_error address "unexpected '[' in address")
    else if contains closed "]"
    then err (address_error address "unexpected ']' in address")
    else ok (host, port)

-- An address whose host stands in brackets; `inside` follows the first one.
bracketed : String → String → String → Result (String × String)
unfolding unbracketed cut strip_prefix
bracketed address inside port = elim (cut "]" inside) [
  | none ↦ err (address_error address "missing ']' in address")
  | some (host, after) ↦
      if after === ":" ⊕ port
      then unbracketed address host port inside after
      else if is_some (strip_prefix ":" after)
      then err (address_error address "too many colons in address")
      else err (address_error address "missing port in address")
]

-- `net.SplitHostPort`
unfoldable pub split_host_port : String → Result (String × String)
unfolding bracketed unbracketed cut_last_colon contains strip_prefix
split_host_port address = elim (cut_last_colon address) [
  | none ↦ err (address_error address "missing port in address")
  | some (host, port) ↦ elim (strip_prefix "[" address) [
    | some inside ↦ bracketed address inside port
    | none ↦
        if contains host ":"
        then err (address_error address "too many colons in address")
        else unbracketed address host port address address
  ]
]

parse_tests :
    (cut "${" "a${b}" ≡ some ("a", "b}"))
    × (cut ":" "a" ≡ none)
    × (atoi "-12" ≡ ok (ℤ.negsuc 11))
    × (atoi "1x" ≡ err (wrap "strconv.Atoi: parsing \"1x\"" (leaf "invalid syntax")))
    × (split_host_port "[::1]:80" ≡ ok ("::1", "80"))
    × (split_host_port "a:b:80" ≡ err (leaf "address a:b:80: too many colons in address"))
    × (split_host_port ":80" ≡ ok ("", "80"))
unfolding cut atoi split_host_port quote
parse_tests = (refl, refl, refl, refl, refl, refl, refl)
