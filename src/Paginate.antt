-- ===== src/Paginate.antt =====
-- Lists in numbered pages (paginate.go). The request's path and the links to its pages, which net/url
-- writes, are arguments, and so is what strconv.Atoi reads in the query.
pub mod Pages
pub mod Simple
pub mod Window
mod Tests
use tug.Common.{
  ℕ, zero, suc, ◌+◌, ◌-◌, ◌*◌, ◌/◌, ◌^◌, min, max, List, [], ◌∷◌, ◌++◌, map, Bool, true, false, not,
  ◌&&◌, Option, none, some, Bytes, itoa, ltb, leb, ◌==◌, if◌then◌else◌, length, take,
}
use tug.Common.Int.{ℤ, pos, negsuc}

-- What a call does: it panics, returns an error, or returns a value.
pub data Result {ℓ} (E A : Type ℓ) : Type ℓ where
  panics : Result E A
  fails : E → Result E A
  returns : A → Result E A

pub record PageLink : Type 0 where
  pub url : Option Bytes
  pub label : Bytes
  pub active : Bool

pub record Paginated (T : Type 0) : Type 0 where
  pub current_page : ℕ
  pub data_items : List T
  pub first_page_url : Bytes
  pub from : Option ℕ
  pub last_page : ℕ
  pub last_page_url : Bytes
  pub links : List PageLink
  pub next_page_url : Option Bytes
  pub path : Bytes
  pub per_page : ℕ
  pub prev_page_url : Option Bytes
  pub to : Option ℕ
  pub total : ℕ
  pub page_name : Bytes

pub record SimplePaginated (T : Type 0) : Type 0 where
  pub current_page : ℕ
  pub current_page_url : Bytes
  pub data_items : List T
  pub first_page_url : Bytes
  pub from : Option ℕ
  pub next_page_url : Option Bytes
  pub path : Bytes
  pub per_page : ℕ
  pub prev_page_url : Option Bytes
  pub to : Option ℕ
  pub page_name : Bytes

-- `math.MaxInt`, of 64 bits.
abbrev pub max_int : ℕ
max_int = 9223372036854775807

-- `pageNumber`, of what Atoi reads, where none is its error.
unfoldable pub page_number : Option ℤ → ℕ
page_number none = 1
page_number (some (negsuc _)) = 1
page_number (some (pos n)) = if ltb n 1 then 1 else n

-- `max(total, 0)`.
unfoldable pub at_least_zero : ℤ → ℕ
at_least_zero (pos n) = n
at_least_zero (negsuc _) = 0

-- So many numbers from one on: the loop of `add`.
unfoldable pub count_up : ℕ → ℕ → List ℕ
count_up n zero = []
count_up n (suc k) = n ∷ count_up (suc n) k

-- The numbers that `add` appends.
abbrev pub add_pages : ℕ → ℕ → List ℕ
add_pages from to = count_up from (suc to - from)

-- The pages that `pageWindow` shows, with 0 for "...".
unfoldable pub pages_around : ℕ → ℕ → List ℕ
pages_around page last =
    if ltb last (3 * 2 + 8)
    then add_pages 1 last
    else if leb page 7
    then add_pages 1 (7 + 3) ++ 0 ∷ add_pages (last - 1) last
    else if ltb (last - 7) page
    then add_pages 1 2 ++ 0 ∷ add_pages (last - (7 + 3 - 1)) last
    else add_pages 1 2 ++ 0 ∷ add_pages (page - 3) (page + 3) ++ 0 ∷ add_pages (last - 1) last

unfoldable pub link_of : ℕ → (ℕ → Bytes) → ℕ → PageLink
link_of page link n =
    if n == 0
    then record { url = none; label = 46 ∷ 46 ∷ 46 ∷ []; active = false }
    else record { url = some (link n); label = itoa n; active = n == page }

unfoldable pub page_window : ℕ → ℕ → (ℕ → Bytes) → List PageLink
page_window page last link = map (link_of page link) (pages_around page last)

-- The number of the last page.
abbrev pub last_of : ℕ → ℕ → ℕ
last_of total per_page = max ((total + per_page - 1) / per_page) 1

module _ {T : Type 0} where
  -- The places of the first and the last of a page's items; a list that is nil is an empty one.
  unfoldable pub span : List T → ℕ → ℕ → Option ℕ × Option ℕ
  span [] page per_page = (none, none)
  span (x ∷ xs) page per_page =
      let from : ℕ = (page - 1) * per_page + 1 in (some from, some (from + length (x ∷ xs) - 1))

  -- `Paginate` once it has its items.
  unfoldable pub paginated :
      (per_page total page : ℕ) → List T → (ℕ → Bytes) → (path name : Bytes) → Paginated T
  paginated per_page total page items link path name =
      let last : ℕ = last_of total per_page in
      let (from, to) = span items page per_page in
      record {
        current_page = page;
        data_items = items;
        first_page_url = link 1;
        from = from;
        last_page = last;
        last_page_url = link last;
        links = page_window page last link;
        next_page_url = if ltb page last then some (link (page + 1)) else none;
        path = path;
        per_page = per_page;
        prev_page_url = if ltb 1 page then some (link (page - 1)) else none;
        to = to;
        total = total;
        page_name = name;
      }

  -- `SimplePaginate` once it has its items.
  unfoldable pub simply_paginated :
      (per_page page : ℕ) → List T → (ℕ → Bytes) → (path name : Bytes) → SimplePaginated T
  simply_paginated per_page page fetched link path name =
      let items : List T = take (min (length fetched) per_page) fetched in
      let (from, to) = span items page per_page in
      record {
        current_page = page;
        current_page_url = link page;
        data_items = items;
        first_page_url = link 1;
        from = from;
        next_page_url = if ltb per_page (length fetched) then some (link (page + 1)) else none;
        path = path;
        per_page = per_page;
        prev_page_url = if ltb 1 page then some (link (page - 1)) else none;
        to = to;
        page_name = name;
      }

  module _ {E : Type 0} where
    -- What is done with fetched items.
    unfoldable pub and_then : {A : Type 0} → Result E (List T) → (List T → A) → Result E A
    and_then panics f = panics
    and_then (fails e) f = fails e
    and_then (returns items) f = returns (f items)

    unfoldable pub paginate_counted :
        (per_page total page : ℕ)
        → (fetch : ℕ → ℕ → Result E (List T)) → (ℕ → Bytes)
        → (path name : Bytes) → Result E (Paginated T)
    paginate_counted per_page total page fetch link path name =
        and_then
          (if ltb 0 total && leb page (last_of total per_page)
            then fetch per_page ((page - 1) * per_page)
            else returns [])
          (λ fetched.
            paginated per_page total page (take (min (length fetched) per_page) fetched) link path
              name)

    -- `Paginate`. Its `count` and `fetch` are the app's, and return errors or panic as they like.
    unfoldable pub paginate :
        (per_page : ℕ)
        → (count : Result E ℤ) → (fetch : (limit offset : ℕ) → Result E (List T))
        → (query : Option ℤ) → (link : ℕ → Bytes) → (path name : Bytes) → Result E (Paginated T)
    paginate per_page count fetch query link path name =
        if per_page == 0 then panics else elim count [
          | panics ↦ panics
          | fails e ↦ fails e
          | returns total ↦
              paginate_counted per_page (at_least_zero total) (page_number query) fetch link path
                name
        ]

    -- `SimplePaginate`.
    unfoldable pub simple_paginate :
        (per_page : ℕ)
        → (fetch : (limit offset : ℕ) → Result E (List T)) → (query : Option ℤ) → (link : ℕ → Bytes)
        → (path name : Bytes) → Result E (SimplePaginated T)
    simple_paginate per_page fetch query link path name =
        let page : ℕ = page_number query in
        if per_page == 0
        then panics
        else and_then
            (if leb (page - 1) ((max_int - per_page - 1) / per_page)
              then fetch (per_page + 1) ((page - 1) * per_page)
              else returns [])
            (λ fetched. simply_paginated per_page page fetched link path name)
