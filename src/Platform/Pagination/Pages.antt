-- ===== src/Platform/Pagination/Pages.antt =====
-- What the pages of internal/platform/httpx/pagination.go hold.
use devflow_service.Base.{
  Bool-cases, List, Option, [], ap, arith, drop, inl, inr, leb, leb→le, length, ltb, ltb→lt, none,
  pos, refl, some, suc, sym, take, zero, ℕ, ◌%◌, ◌*◌, ◌++◌, ◌+◌, ◌-◌, ◌<◌, ◌↔◌, ◌∙◌, ◌∷◌, ◌≡◌, ◌≤◌,
}
use devflow_service.Platform.Pagination.{
  int_limit, int_span, paginate_slice, pagination_of, slice_page, wrap_int,
}

wrap_small : (n : ℕ) → n < int_limit → wrap_int n ≡ pos n
unfolding wrap_int
wrap_small n h = ground arith

zero_plus : (m : ℕ) → zero + m ≡ m
zero_plus m = omega arith

suc_plus : (n m : ℕ) → suc n + m ≡ suc (n + m)
suc_plus n m = omega arith

times_suc : (k size : ℕ) → suc k * size ≡ size + k * size
times_suc k size = omega arith

times_suc_add : (p size : ℕ) → suc p * size ≡ p * size + size
times_suc_add p size = omega arith

no_times : (size : ℕ) → zero * size ≡ zero
no_times size = omega arith

pred_suc : (p : ℕ) → suc p - 1 ≡ p
pred_suc p = omega arith

module _ {ℓ} {A : Type ℓ} where
  take-nil : (n : ℕ) → take {A = A} n [] ≡ []
  take-nil zero = refl
  take-nil (suc n) = refl

  take_all : (n : ℕ) (xs : List A) → length xs ≤ n → take n xs ≡ xs
  take_all n [] h = take-nil n
  take_all zero (x ∷ xs) h = absurd (omega arith)
  take_all (suc n) (x ∷ xs) h = ap (λ t. x ∷ t) (take_all n xs (omega arith))

  drop_past : (n : ℕ) (xs : List A) → length xs ≤ n → drop n xs ≡ []
  drop_past zero [] h = refl
  drop_past (suc n) [] h = refl
  drop_past zero (x ∷ xs) h = absurd (omega arith)
  drop_past (suc n) (x ∷ xs) h = drop_past n xs (omega arith)

  length-drop : (n : ℕ) (xs : List A) → length (drop n xs) ≡ length xs - n
  length-drop zero xs = omega arith
  length-drop (suc n) [] = omega arith
  length-drop (suc n) (x ∷ xs) = omega (arith, length-drop n xs)

  drop-nil : (n : ℕ) → drop {A = A} n [] ≡ []
  drop-nil zero = refl
  drop-nil (suc n) = refl

  drop-drop : (n m : ℕ) (xs : List A) → drop m (drop n xs) ≡ drop (n + m) xs
  drop-drop zero m xs = rw (zero_plus m) refl
  drop-drop (suc n) m [] = drop-nil m ∙ sym (drop-nil (suc n + m))
  drop-drop (suc n) m (x ∷ xs) = rw (suc_plus n m) (drop-drop n m xs)

  take-add : (n m : ℕ) (xs : List A) → take (n + m) xs ≡ take n xs ++ take m (drop n xs)
  take-add zero m xs = rw (zero_plus m) refl
  take-add (suc n) m [] = take-nil (suc n + m) ∙ sym (take-nil m)
  take-add (suc n) m (x ∷ xs) = rw (suc_plus n m) (ap (λ t. x ∷ t) (take-add n m xs))

  slice_page_lem :
      (items : List A) (offset limit : ℕ)
      → slice_page items offset limit ≡ take limit (drop offset items)
  unfolding slice_page
  slice_page_lem items offset limit = elim (Bool-cases (ltb (length items) (offset + limit))) [
    | inl short ↦ rw short (
        take_all (length items - offset) (drop offset items)
          (omega (arith, length-drop offset items))
        ∙ sym (
            take_all limit (drop offset items)
              (omega (arith, length-drop offset items, ltb→lt _ _ short))))
    | inr long ↦ rw long (ap (λ n. take n (drop offset items)) (omega arith))
  ]

  -- A page whose offset fits into an `int` is the piece of the list that its number says.
  pub paginate_slice-page :
      (items : List A) (page size : ℕ)
      → (page - 1) * size < int_limit
      → paginate_slice items (pagination_of page size)
        ≡ some (take size (drop ((page - 1) * size) items))
  unfolding paginate_slice pagination_of
  paginate_slice-page items page size h =
      elim (Bool-cases (leb (length items) ((page - 1) * size))) [
        | inl past ↦
            rw (wrap_small _ h, past)
              (ap some (
                sym (
                  ap (take size) (drop_past ((page - 1) * size) items (leb→le _ _ past))
                  ∙ take-nil size)))
        | inr inside ↦
            rw (wrap_small _ h, inside) (ap some (slice_page_lem items ((page - 1) * size) size))
      ]

  -- The pages from one number on, that many of them, in a row.
  abbrev append_page : Option (List A) → Option (List A) → Option (List A)
  append_page (some a) (some b) = some (a ++ b)
  append_page _ _ = none

  pub pages : ℕ → ℕ → ℕ → List A → Option (List A)
  pages size page zero items = some []
  pages size page (suc count) items =
      append_page (paginate_slice items (pagination_of page size))
        (pages size (suc page) count items)

  pages-take :
      (size p count : ℕ) (items : List A)
      → (p + count) * size < int_limit
      → pages size (suc p) count items ≡ some (take (count * size) (drop (p * size) items))
  unfolding pages
  pages-take size p zero items h = rw (no_times size) refl
  pages-take size p (suc count) items h =
      let first = paginate_slice-page items (suc p) size (rw (pred_suc p) (omega arith)) in
      let others = pages-take size (suc p) count items (omega arith) in
      rw (first, others, pred_suc p)
        (ap some (
          ap (λ t. take size (drop (p * size) items) ++ t)
            (ap (take (count * size))
              (rw (times_suc_add p size) (sym (drop-drop (p * size) size items))))
          ∙ sym (take-add size (count * size) (drop (p * size) items))
          ∙ ap (λ n. take n (drop (p * size) items)) (sym (times_suc count size))))

  -- Enough pages in a row give the whole list back: none is lost, and none comes twice.
  pub pages_cover :
      (size count : ℕ) (items : List A)
      → length items ≤ count * size
      → count * size < int_limit
      → pages size 1 count items ≡ some items
  pages_cover size count items enough h =
      pages-take size 0 count items (omega arith)
      ∙ (rw (no_times size) (ap some (take_all (count * size) items enough)))

  -- Cutting a page panics exactly when the product of the page before it and the page size wraps
  -- around to a negative number.
  pub paginate_slice-panics :
      (items : List A) (page size : ℕ)
      → (paginate_slice items (pagination_of page size) ≡ none)
        ↔ (int_limit ≤ ((page - 1) * size) % int_span)
  unfolding paginate_slice pagination_of wrap_int
  paginate_slice-panics items page size = (λ e. ground arith, λ h. ground arith)
