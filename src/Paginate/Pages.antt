-- ===== src/Paginate/Pages.antt =====
-- The pages of a list, as Paginate and SimplePaginate cut them.
use native.Mathlib.Nat.{lt-div-mul-add, mul-le-mul_right}
use tug.Common.{
  ℕ, zero, suc, ◌+◌, ◌-◌, ◌*◌, ◌/◌, ◌≤◌, ◌<◌, min, max, ◌≡◌, ap, sym, ◌∙◌, refl, List, [], ◌∷◌,
  ◌++◌, false, ◌&&◌, some, arith, Bytes, ltb, leb, ◌==◌, length, take, drop, length-take,
  Bool-cases, inl, inr,
}
use tug.Common.Int.{pos}
use tug.Paginate.{
  Result, panics, fails, returns, Paginated, page_number, at_least_zero, last_of, paginated,
  and_then, paginate_counted, paginate,
}

module _ {T : Type 0} where
  take-all : (n : ℕ) (xs : List T) → length xs ≤ n → take n xs ≡ xs
  take-all zero [] le = refl
  take-all zero (x ∷ xs) le = absurd (omega arith)
  take-all (suc n) [] le = refl
  take-all (suc n) (x ∷ xs) le = ap (◌∷◌ x) (take-all n xs (omega arith))

  pub drop-all : (n : ℕ) (xs : List T) → length xs ≤ n → drop n xs ≡ []
  drop-all zero [] le = refl
  drop-all zero (x ∷ xs) le = absurd (omega arith)
  drop-all (suc n) [] le = refl
  drop-all (suc n) (x ∷ xs) le = drop-all n xs (omega arith)

  pub take-nil : (n : ℕ) → take {A = T} n [] ≡ []
  take-nil zero = refl
  take-nil (suc n) = refl

  drop-nil : (n : ℕ) → drop {A = T} n [] ≡ []
  drop-nil zero = refl
  drop-nil (suc n) = refl

  take-add : (a b : ℕ) (xs : List T) → take (a + b) xs ≡ take a xs ++ take b (drop a xs)
  take-add zero b xs = ap (λ n. take n xs) (omega arith)
  take-add (suc a) b [] = take-nil (suc a + b) ∙ sym (take-nil b)
  take-add (suc a) b (x ∷ xs) =
      let e : suc a + b ≡ suc (a + b) = omega arith in rw e (ap (◌∷◌ x) (take-add a b xs))

  drop-drop : (a b : ℕ) (xs : List T) → drop a (drop b xs) ≡ drop (b + a) xs
  drop-drop a zero xs = ap (λ n. drop n xs) (omega arith)
  drop-drop a (suc b) [] = drop-nil a ∙ sym (drop-nil (suc b + a))
  drop-drop a (suc b) (x ∷ xs) =
      let e : suc b + a ≡ suc (b + a) = omega arith in rw e (drop-drop a b xs)

-- The pages up to the last have places for every item.
last_of-covers : (total p : ℕ) → 0 < p → total ≤ last_of total p * p
last_of-covers total p some_items =
    let q : ℕ = (total + p - 1) / p in
    let most = mul-le-mul_right {m = q} {n = max q 1} p (omega arith) in
    omega (arith, lt-div-mul-add {a = total + p - 1} {b = p} some_items, most)

-- A list, as an app serves it: LIMIT and OFFSET.
abbrev pub serve : {E T : Type 0} → List T → ℕ → ℕ → Result E (List T)
serve xs limit offset = returns (take limit (drop offset xs))

abbrev pub items_of : {E T : Type 0} → Result E (Paginated T) → List T
items_of panics = []
items_of (fails e) = []
items_of (returns p) = p.data_items

module _ (E : Type 0) {T : Type 0} (xs : List T) (link : ℕ → Bytes) (path name : Bytes)
    (p : ℕ) where
  -- The page that ?page asks for, by its number.
  abbrev pub page : ℕ → Result E (Paginated T)
  page n = paginate p (returns (pos (length xs))) (serve xs) (some (pos n)) link path name

  fetched_whole :
      (m : ℕ)
      → take (min (length (take p (drop (m * p) xs))) p) (take p (drop (m * p) xs))
        ≡ take p (drop (m * p) xs)
  fetched_whole m = take-all _ _ (omega (arith, length-take p (drop (m * p) xs)))

  past_last :
      (m : ℕ)
      → 0 < p
      → (ltb 0 (length xs) && leb (suc m) (last_of (length xs) p)) ≡ false
      → take p (drop (m * p) xs) ≡ []
  past_last m some_items b =
      let covers = last_of-covers (length xs) p some_items in
      let past : length xs ≤ m * p = elim (Bool-cases (ltb 0 (length xs))) [
        | inl t ↦
            let over : last_of (length xs) p ≤ m = ground arith in
            omega (arith, covers, mul-le-mul_right p over)
        | inr t ↦ ground arith
      ] in
      rw (drop-all (m * p) xs past) (take-nil p)

  -- What Paginate returns, on every page from the first on.
  pub page-returns :
      (m : ℕ)
      → 0 < p
      → page (suc m)
        ≡ returns (paginated p (length xs) (suc m) (take p (drop (m * p) xs)) link path name)
  unfolding paginate paginate_counted and_then at_least_zero page_number
  page-returns m some_items =
      let sized : (p == 0) ≡ false = ground arith in
      let first : ltb (suc m) 1 ≡ false = ground arith in
      let before : suc m - 1 ≡ m = omega arith in
      elim (Bool-cases (ltb 0 (length xs) && leb (suc m) (last_of (length xs) p))) [
        | inl b ↦ rw (sized, first, before, b, fetched_whole m) refl
        | inr b ↦
            rw (sized, first, before, b, past_last m some_items b, take-nil {T = T} (min 0 p)) refl
      ]

  page-items : (m : ℕ) → 0 < p → items_of (page (suc m)) ≡ take p (drop (m * p) xs)
  unfolding paginated
  page-items m some_items = ap items_of (page-returns m some_items)

  -- The items of so many pages from one on.
  abbrev pub items_from : ℕ → ℕ → List T
  items_from n zero = []
  items_from n (suc k) = items_of (page n) ++ items_from (suc n) k

  items_from-take : (m k : ℕ) → 0 < p → items_from (suc m) k ≡ take (k * p) (drop (m * p) xs)
  items_from-take m zero some_items = let none_yet : 0 * p ≡ 0 = omega arith in rw none_yet refl
  items_from-take m (suc k) some_items =
      let e : suc k * p ≡ p + k * p = omega arith in
      let d : m * p + p ≡ suc m * p = omega arith in
      rw
        (
          page-items m some_items,
          items_from-take (suc m) k some_items,
          e,
          take-add p (k * p) (drop (m * p) xs),
          drop-drop p (m * p) xs,
          d,
        )
        refl

  -- Where fetch gives the list's items by their limit and offset, and count its length, the pages of
  -- Paginate from the first to the last are the list, each item once and in order.
  pub paginate_whole : 0 < p → items_from 1 (last_of (length xs) p) ≡ xs
  paginate_whole some_items =
      let start : 0 * p ≡ 0 = omega arith in
      let whole = take-all _ xs (last_of-covers (length xs) p some_items) in
      (rw start at (items_from-take 0 (last_of (length xs) p) some_items)) ∙ whole
