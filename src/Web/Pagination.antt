-- ===== src/Web/Pagination.antt =====
-- internal/web/api/pagination.go: the page and its size from a query. A uint64 is a number below
-- 2 ^ 64; `int(parsed)` keeps it, as it is at most the small maximum. A field that the query does not
-- have is none, else the list of its values.
pub mod Bounds
use Prim.Native.Char.{Char, code}
use oryxos_go.Common.{
  ℕ, ◌+◌, ◌-◌, ◌*◌, ◌/◌, ◌%◌, ◌^◌, String, Option, none, some, List, [], ◌∷◌, Bool, true, false,
  ◌&&◌, ◌||◌, not, ltb, leb, ◌==◌, ◌===◌, if◌then◌else◌,
}

abbrev pub default_page : ℕ
default_page = 1

abbrev pub default_page_size : ℕ
default_page_size = 20

abbrev pub max_page : ℕ
max_page = 10000

abbrev pub max_page_size : ℕ
max_page_size = 100

-- `paginationDetails`
pub record PaginationDetails : Type 0 where
  pub field : String
  pub rule : String

-- A value, or the details that say why there is none.
pub data Parsed (A : Type 0) : Type 0 where
  parsed : A → Parsed A
  refused : PaginationDetails → Parsed A

-- `isUnsignedDecimal`
pub is_unsigned_decimal : String → Bool
is_unsigned_decimal String.[] = true
is_unsigned_decimal (String.◌∷◌ c s) =
    leb 0x30 (code c) && leb (code c) 0x39 && is_unsigned_decimal s

-- The loop over the digits: none where the next one would pass 2 ^ 64 - 1.
pub accumulate : ℕ → String → Option ℕ
accumulate sum String.[] = some sum
accumulate sum (String.◌∷◌ c s) =
    let digit = code c - 0x30 in
    let rest = accumulate ((sum * 10 + digit) % 2 ^ 64) s in
    if ltb ((2 ^ 64 - 1 - digit) / 10) sum then none else rest

-- The tests after the loop.
pub within : String → ℕ → Option ℕ → Parsed ℕ
within field maximum none = refused (record { field = field; rule = "out_of_range" })
within field maximum (some value) =
    if value == 0 || ltb maximum value
    then refused (record { field = field; rule = "out_of_range" })
    else parsed value

-- `parsePaginationValue`
pub parse_pagination_value : Option (List String) → String → ℕ → ℕ → Parsed ℕ
unfolding is_unsigned_decimal accumulate within
parse_pagination_value none field default_value maximum = parsed default_value
parse_pagination_value (some []) field default_value maximum =
    refused (record { field = field; rule = "duplicate" })
parse_pagination_value (some (value ∷ [])) field default_value maximum =
    if value === "" || not (is_unsigned_decimal value)
    then refused (record { field = field; rule = "invalid_format" })
    else within field maximum (accumulate 0 value)
parse_pagination_value (some (value ∷ other ∷ more)) field default_value maximum =
    refused (record { field = field; rule = "duplicate" })

abbrev pub with_page : Parsed ℕ → Parsed ℕ → Parsed (ℕ × ℕ)
with_page (refused details) size = refused details
with_page (parsed page) (refused details) = refused details
with_page (parsed page) (parsed size) = parsed (page, size)

-- `parsePagination`
unfoldable pub parse_pagination : (String → Option (List String)) → Parsed (ℕ × ℕ)
unfolding parse_pagination_value
parse_pagination values =
    with_page (parse_pagination_value (values "page") "page" default_page max_page)
      (parse_pagination_value (values "page_size") "page_size" default_page_size max_page_size)

-- `totalPages`, of a total and a size that are not negative.
unfoldable pub total_pages : ℕ → ℕ → ℕ
total_pages total page_size =
    let pages = total / page_size in if total % page_size == 0 then pages else pages + 1
