-- ===== src/Web/Pagination/Bounds.antt =====
-- internal/web/api/pagination.go: the loop with its test for overflow against plain decimal numbers.
use Prim.Native.Char.{Char, code}
use oryxos_go.Common.{
  ℕ, ◌+◌, ◌-◌, ◌*◌, ◌/◌, ◌%◌, ◌^◌, ◌<◌, ◌≤◌, ◌≡◌, refl, String, some, none, [], ◌∷◌, true, false,
  ◌||◌, not, ltb, ◌==◌, ◌===◌, if◌then◌else◌, Bool-cases, inl, inr, arith,
}
use oryxos_go.Web.Pagination.{
  Parsed, parsed, refused, accumulate, within, is_unsigned_decimal, parse_pagination_value,
}

-- The number that digits stand for, after those of `sum`.
pub decimal : ℕ → String → ℕ
decimal sum String.[] = sum
decimal sum (String.◌∷◌ c s) = decimal (sum * 10 + (code c - 0x30)) s

sum_le_decimal : (sum : ℕ) (s : String) → sum ≤ decimal sum s
unfolding decimal
sum_le_decimal sum String.[] = omega arith
sum_le_decimal sum (String.◌∷◌ c s) =
    let rest = sum_le_decimal (sum * 10 + (code c - 0x30)) s in omega arith

head_digit :
    (c : Char) (s : String)
    → is_unsigned_decimal (String.◌∷◌ c s) ≡ true
    → (code c ≤ 0x39) × (is_unsigned_decimal s ≡ true)
unfolding is_unsigned_decimal
head_digit c s h = ground (arith, h)

ltb_lem : (m n : ℕ) → (ltb m n ≡ true → m < n) × (ltb m n ≡ false → n ≤ m)
ltb_lem m n = ((λ h. ground arith), (λ h. ground arith))

ltb_large : (m n : ℕ) → n ≤ m → ltb m n ≡ false
ltb_large m n h = ground arith

-- The loop over digits gives their number where that is below 2 ^ 64, and stops where it is not.
accumulate_lem :
    (sum : ℕ) (s : String)
    → is_unsigned_decimal s ≡ true
    → sum < 2 ^ 64
    → accumulate sum s ≡ (if ltb (decimal sum s) (2 ^ 64) then some (decimal sum s) else none)
unfolding accumulate decimal
accumulate_lem sum String.[] h below =
    let small : ltb sum (2 ^ 64) ≡ true = ground arith in rw small refl
accumulate_lem sum (String.◌∷◌ c s) h below =
    let (digit, rest) = head_digit c s h in
    let d = code c - 0x30 in
    let d_le : d ≤ 9 = omega (arith, digit) in
    let next = sum * 10 + d in
    let grows = sum_le_decimal next s in
    elim (Bool-cases (ltb ((2 ^ 64 - 1 - d) / 10) sum)) [
      | inl over ↦
          let past = (ltb_lem ((2 ^ 64 - 1 - d) / 10) sum).0 over in
          let large : 2 ^ 64 ≤ decimal next s = omega (arith, past, grows, d_le) in
          rw (over, ltb_large (decimal next s) (2 ^ 64) large) refl
      | inr fits ↦
          let bound = (ltb_lem ((2 ^ 64 - 1 - d) / 10) sum).1 fits in
          let fits_next : next < 2 ^ 64 = omega (arith, bound, d_le) in
          let same : next % 2 ^ 64 ≡ next = omega (arith, fits_next) in
          rw (fits, same) (accumulate_lem next s rest fits_next)
    ]

-- What a single value stands for, by its plain decimal number.
pub expected : String → ℕ → String → Parsed ℕ
expected field maximum value =
    if value === "" || not (is_unsigned_decimal value)
    then refused (record { field = field; rule = "invalid_format" })
    else if decimal 0 value == 0 || ltb maximum (decimal 0 value)
    then refused (record { field = field; rule = "out_of_range" })
    else parsed (decimal 0 value)

within_lem :
    (field : String) (maximum number : ℕ)
    → maximum < 2 ^ 64
    → within field maximum (if ltb number (2 ^ 64) then some number else none) ≡ (
        if number == 0 || ltb maximum number
        then refused (record { field = field; rule = "out_of_range" })
        else parsed number)
unfolding within
within_lem field maximum number small = elim (Bool-cases (ltb number (2 ^ 64))) [
  | inl fits ↦ rw fits refl
  | inr large ↦
      let least = (ltb_lem number (2 ^ 64)).1 large in
      let above : (number == 0 || ltb maximum number) ≡ true = ground arith in
      rw (large, above) refl
]

-- Of a field that has one value, with a maximum below 2 ^ 64: the page number is the decimal number
-- of the value, however long it is, where that is from one to the maximum. It is refused as out of
-- range where the number is not, so also where the machine integer would overflow, and as invalid
-- where the value is empty or has another character than a digit.
pub parse_pagination_value_lem :
    (value field : String) (default_value maximum : ℕ)
    → maximum < 2 ^ 64
    → parse_pagination_value (some (value ∷ [])) field default_value maximum
      ≡ expected field maximum value
unfolding parse_pagination_value expected
parse_pagination_value_lem value field default_value maximum small =
    elim (Bool-cases (is_unsigned_decimal value)) [
      | inl digits ↦
          rw
            (
              accumulate_lem 0 value digits (omega arith),
              within_lem field maximum (decimal 0 value) small,
            )
            refl
      | inr other ↦ elim (Bool-cases (value === "")) [
        | inl blank ↦ rw blank refl
        | inr filled ↦ rw (filled, other) refl
      ]
    ]
