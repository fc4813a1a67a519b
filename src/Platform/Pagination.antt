-- ===== src/Platform/Pagination.antt =====
-- internal/platform/httpx/pagination.go.
pub mod Pages
use devflow_service.Base.{
  Bool, List, Option, [], drop, if◌then◌else◌, leb, length, ltb, negsuc, none, not, pos, some, suc,
  take, true, zero, ℕ, ℤ, ◌%◌, ◌&&◌, ◌*◌, ◌+◌, ◌-◌, ◌==◌, ◌∷◌,
}
use devflow_service.Text.{Text, is_empty, trim_space}

-- 2 ^ 63 and 2 ^ 64: an `int` has 64 bits.
abbrev pub int_limit : ℕ
int_limit = 9223372036854775808

abbrev pub int_span : ℕ
int_span = 18446744073709551616

-- The `int` that a product of natural numbers wraps around to.
pub wrap_int : ℕ → ℤ
wrap_int n = let m = n % int_span in if ltb m int_limit then pos m else negsuc (int_span - 1 - m)

-- The digits of `strconv.Atoi`, after those that the number stands for.
digits_value : ℕ → Text → Option ℕ
digits_value value [] = some value
digits_value value (c ∷ s) =
    let rest = digits_value (10 * value + (c - b'0')) s in
    if leb b'0' c && leb c b'9' then rest else none

abbrev digits : Text → Option ℕ
digits [] = none
digits (c ∷ s) = digits_value 0 (c ∷ s)

abbrev positive_int : Option ℕ → Option ℤ
positive_int none = none
positive_int (some n) = if ltb n int_limit then some (pos n) else none

abbrev negated : ℕ → ℤ
negated zero = pos 0
negated (suc n) = negsuc n

abbrev negative_int : Option ℕ → Option ℤ
negative_int none = none
negative_int (some n) = if leb n int_limit then some (negated n) else none

-- `strconv.Atoi`.
atoi : Text → Option ℤ
unfolding digits_value
atoi [] = none
atoi (c ∷ s) =
    if c == b'+'
    then positive_int (digits s)
    else if c == b'-'
    then negative_int (digits s)
    else positive_int (digits (c ∷ s))

-- `err != nil || parsed < 1`.
abbrev at_least_one : Option ℤ → Option ℕ
at_least_one (some (pos (suc n))) = some (suc n)
at_least_one _ = none

abbrev at_most : ℕ → Option ℕ → Option ℕ
at_most bound none = none
at_most bound (some n) = if leb n bound then some n else none

abbrev default_page_size : ℕ
default_page_size = 10

abbrev max_page_size : ℕ
max_page_size = 100

-- The limit, the page and the page size are positive wherever the code makes one.
pub record Pagination : Type 0 where
  pub enabled : Bool
  pub limit : ℕ
  pub offset : ℤ
  pub page : ℕ
  pub page_size : ℕ
  pub total : ℕ

pub data ParseResult : Type 0 where
  invalid_page invalid_page_size : ParseResult
  parsed : Pagination → ParseResult

unfoldable pub pagination_of : ℕ → ℕ → Pagination
unfolding wrap_int
pagination_of page page_size = record {
  enabled = true;
  limit = page_size;
  offset = wrap_int ((page - 1) * page_size);
  page = page;
  page_size = page_size;
  total = 0;
}

parse_page : Text → Option ℕ
unfolding atoi trim_space is_empty
parse_page s = if is_empty (trim_space s) then some 1 else at_least_one (atoi (trim_space s))

parse_page_size : Text → Option ℕ
unfolding atoi trim_space is_empty
parse_page_size s =
    if is_empty (trim_space s)
    then some default_page_size
    else at_most max_page_size (at_least_one (atoi (trim_space s)))

abbrev parse_result : Option ℕ → Option ℕ → ParseResult
parse_result none size = invalid_page
parse_result (some page) none = invalid_page_size
parse_result (some page) (some size) = parsed (pagination_of page size)

-- `ParsePagination`, on the two values of the query.
unfoldable pub parse_pagination : Text → Text → ParseResult
unfolding pagination_of parse_page parse_page_size
parse_pagination page page_size = parse_result (parse_page page) (parse_page_size page_size)

module _ {ℓ} {A : Type ℓ} where
  -- `items[offset:end]` with `end` cut to the length.
  pub slice_page : List A → ℕ → ℕ → List A
  slice_page items offset limit =
      let end = if ltb (length items) (offset + limit) then length items else offset + limit in
      take (end - offset) (drop offset items)

  abbrev paginate_from : List A → ℕ → ℤ → Option (List A)
  paginate_from items limit (pos offset) =
      if leb (length items) offset then some [] else some (slice_page items offset limit)
  paginate_from items limit (negsuc n) = none

  -- `PaginateSlice`; `none` is the panic of a slice expression with a negative index.
  unfoldable pub paginate_slice : List A → Pagination → Option (List A)
  unfolding slice_page
  paginate_slice items p =
      if not p.enabled then some items else paginate_from items p.limit p.offset
