-- ===== src/Tests/Web.antt =====
-- Page numbers and request ids.
use oryxos_go.Common.{◌≡◌, refl, some, [], ◌∷◌, arith}
use oryxos_go.Web.Pagination.{
  parse_pagination, parse_pagination_value, parsed, max_page, total_pages,
}
use oryxos_go.Web.Pagination.Bounds.{expected, parse_pagination_value_lem}

parse_pagination_value_lem_example :
    parse_pagination_value (some ("18446744073709551617" ∷ [])) "page" 1 max_page
    ≡ expected "page" max_page "18446744073709551617"
parse_pagination_value_lem_example =
    parse_pagination_value_lem "18446744073709551617" "page" 1 max_page (omega arith)

parses_page : parse_pagination (λ field. some ("7" ∷ [])) ≡ parsed (7, 7)
unfolding parse_pagination
parses_page = refl

last_page_is_partial : total_pages 41 20 ≡ 3
unfolding total_pages
last_page_is_partial = refl
