-- ===== src/Tests/Pages.antt =====
-- Pagination.
use devflow_service.Base.{List, [], arith, none, refl, some, ℕ, ◌%◌, ◌*◌, ◌-◌, ◌↔◌, ◌∷◌, ◌≡◌, ◌≤◌}
use devflow_service.Platform.Pagination.{
  int_limit, int_span, invalid_page_size, paginate_slice, pagination_of, parse_pagination, parsed,
}
use devflow_service.Platform.Pagination.Pages.{pages, pages_cover, paginate_slice-panics}
use devflow_service.Text.{codes}

abbrev three_items : List ℕ
three_items = 4 ∷ 5 ∷ 6 ∷ []

pages_cover_example : pages 2 1 2 three_items ≡ some three_items
pages_cover_example = pages_cover 2 2 three_items (omega arith) (omega arith)

paginate_slice-panics_example :
    (paginate_slice three_items (pagination_of 92233720368547760 100) ≡ none)
    ↔ (int_limit ≤ ((92233720368547760 - 1) * 100) % int_span)
paginate_slice-panics_example = paginate_slice-panics three_items 92233720368547760 100

-- A request with this page and page size passes the parser.
parsed_test :
    parse_pagination (codes " 92233720368547760") (codes "100")
    ≡ parsed (pagination_of 92233720368547760 100)
unfolding parse_pagination
parsed_test = refl

refused_test : parse_pagination (codes "2") (codes "101") ≡ invalid_page_size
unfolding parse_pagination
refused_test = refl

panic_test : paginate_slice three_items (pagination_of 92233720368547760 100) ≡ none
unfolding paginate_slice pagination_of
panic_test = refl
