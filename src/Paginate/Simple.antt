-- ===== src/Paginate/Simple.antt =====
-- SimplePaginate, which does not count, shows the pages of Paginate.
use native.Mathlib.Nat.{div-lt_iff_lt-mul, le-div_iff_mul-le}
use tug.Common.{
  ℕ, zero, suc, ◌+◌, ◌-◌, ◌*◌, ◌/◌, ◌≤◌, ◌<◌, min, ◌≡◌, ap, refl, List, [], ◌∷◌, false, Option,
  none, some, arith, Bytes, ltb, leb, ◌==◌, if◌then◌else◌, length, take, drop, length-take,
  length-drop, Bool-cases, inl, inr,
}
use tug.Common.Int.{ℤ, pos}
use tug.Paginate.{
  Result, returns, Paginated, SimplePaginated, max_int, page_number, span, last_of, paginated,
  simply_paginated, and_then, simple_paginate,
}
use tug.Paginate.Pages.{serve, page, page-returns, drop-all, take-nil}

module _ {T : Type 0} where
  -- Of a page and an item more, the page is kept.
  page_kept :
      (p : ℕ) (ys : List T) → take (min (length (take (p + 1) ys)) p) (take (p + 1) ys) ≡ take p ys
  page_kept zero ys = let e : min (length (take (0 + 1) ys)) 0 ≡ 0 = omega arith in rw e refl
  page_kept (suc p) [] =
      let e : suc p + 1 ≡ suc (p + 1) = omega arith in rw (e, take-nil {T = T} (min 0 (suc p))) refl
  page_kept (suc p) (y ∷ ys) =
      let e : suc p + 1 ≡ suc (p + 1) = omega arith in
      let f : min (suc (length (take (p + 1) ys))) (suc p)
          ≡ suc (min (length (take (p + 1) ys)) p) =
        omega arith in
      rw (e, f) (ap (◌∷◌ y) (page_kept p ys))

module _ (E : Type 0) {T : Type 0} (xs : List T) (link : ℕ → Bytes) (path name : Bytes)
    (p : ℕ) where
  abbrev pub simple_page : ℕ → Result E (SimplePaginated T)
  simple_page n = simple_paginate p (serve xs) (some (pos n)) link path name

  past_max :
      (m : ℕ)
      → 0 < p
      → length xs + p < max_int
      → leb m ((max_int - p - 1) / p) ≡ false
      → take (p + 1) (drop (m * p) xs) ≡ []
  past_max m some_items fits b =
      let past : (max_int - p - 1) / p < m = ground arith in
      let over = (div-lt_iff_lt-mul {k = p} {x = max_int - p - 1} {y = m} some_items).0 past in
      rw (drop-all (m * p) xs (omega (arith, over))) (take-nil (p + 1))

  simple_page-returns :
      (m : ℕ)
      → 0 < p
      → length xs + p < max_int
      → simple_page (suc m)
        ≡ returns (simply_paginated p (suc m) (take (p + 1) (drop (m * p) xs)) link path name)
  unfolding simple_paginate and_then page_number
  simple_page-returns m some_items fits =
      let sized : (p == 0) ≡ false = ground arith in
      let first : ltb (suc m) 1 ≡ false = ground arith in
      let before : suc m - 1 ≡ m = omega arith in
      elim (Bool-cases (leb m ((max_int - p - 1) / p))) [
        | inl b ↦ rw (sized, first, before, b) refl
        | inr b ↦ rw (sized, first, before, b, past_max m some_items fits b) refl
      ]

  -- There is an item more than the page's where there is a page more.
  one_more :
      (m : ℕ)
      → 0 < p
      → ltb p (length (take (p + 1) (drop (m * p) xs))) ≡ ltb (suc m) (last_of (length xs) p)
  one_more m some_items =
      let total : ℕ = length xs in
      let e : suc (suc m) * p ≡ m * p + p + p = omega arith in
      let next =
        rw e at (le-div_iff_mul-le {k = p} {x = suc (suc m)} {y = total + p - 1} some_items) in
      rw (length-take (p + 1) (drop (m * p) xs), length-drop (m * p) xs) (ground (arith, next))

  -- SimplePaginate returns the page that Paginate does, with the same items, their places and the links to
  -- the pages before and after it, on every page from the first on, even past the last, where
  -- fetch gives the list's items by their limit and offset, count its length, and the length and a page
  -- fit an int together.
  pub simple_paginate-agrees :
      (m : ℕ)
      → 0 < p
      → length xs + p < max_int
      → (q : Paginated T) × (s : SimplePaginated T) × (page E xs link path name p (suc m)
          ≡ returns q)
        × (simple_page (suc m) ≡ returns s)
        × (s.data_items ≡ q.data_items)
        × (s.from ≡ q.from)
        × (s.to ≡ q.to)
        × (s.next_page_url ≡ q.next_page_url)
        × (s.prev_page_url ≡ q.prev_page_url)
  unfolding simply_paginated paginated
  simple_paginate-agrees m some_items fits =
      let items = page_kept p (drop (m * p) xs) in
      (
        _,
        _,
        page-returns E xs link path name p m some_items,
        simple_page-returns m some_items fits,
        items,
        ap (λ ys. (span ys (suc m) p).0) items,
        ap (λ ys. (span ys (suc m) p).1) items,
        ap (λ b. if b then some (link (suc m + 1)) else none) (one_more m some_items),
        refl,
      )

-- SimplePaginate asks fetch for no items past those that an int numbers, whatever page is asked for:
-- two that answer alike where the limit and the offset together fit an int make the same page.
pub simple_paginate-fits :
    (E : Type 0) {T : Type 0} (f g : (limit offset : ℕ) → Result E (List T))
    → (p : ℕ) → (query : Option ℤ) → (link : ℕ → Bytes) → (path name : Bytes) → p < max_int
    → ((limit offset : ℕ) → limit + offset ≤ max_int → f limit offset ≡ g limit offset)
    → simple_paginate p f query link path name ≡ simple_paginate p g query link path name
unfolding simple_paginate and_then
simple_paginate-fits E f g p query link path name fits alike =
    let n : ℕ = page_number query in
    elim (Bool-cases (p == 0)) [
      | inl z ↦ rw z refl
      | inr z ↦ elim (Bool-cases (leb (n - 1) ((max_int - p - 1) / p))) [
        | inr b ↦ rw (z, b) refl
        | inl b ↦
            let some_items : 0 < p = ground arith in
            let near : n - 1 ≤ (max_int - p - 1) / p = ground arith in
            let offset =
              (le-div_iff_mul-le {k = p} {x = n - 1} {y = max_int - p - 1} some_items).0 near in
            rw (z, b, alike (p + 1) ((n - 1) * p) (omega (arith, offset))) refl
      ]
    ]
