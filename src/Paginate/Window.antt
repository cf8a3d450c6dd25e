-- ===== src/Paginate/Window.antt =====
-- Which pages a pager links.
use tug.Common.{
  Bytes, ℕ, zero, suc, ◌+◌, ◌-◌, ◌≤◌, ◌≡◌, refl, List, [], ◌∷◌, ◌++◌, map, Bool, true, ◌&&◌, ◌||◌,
  arith, ltb, leb, ◌==◌, length, any, Bool-cases, inl, inr, ◌⊎◌, length-append,
}
use tug.Paginate.{count_up, pages_around, page_window, link_of}

abbrev pub shows : ℕ → List ℕ → Bool
shows n = any (λ k. k == n)

shows-append : (n : ℕ) (xs ys : List ℕ) → shows n (xs ++ ys) ≡ (shows n xs || shows n ys)
shows-append n [] ys = refl
shows-append n (x ∷ xs) ys = ground (arith, shows-append n xs ys)

shows-count_up : (n a k : ℕ) → shows n (count_up a k) ≡ (leb a n && ltb n (a + k))
unfolding count_up
shows-count_up n a zero = ground arith
shows-count_up n a (suc k) = ground (arith, shows-count_up n (suc a) k)

length-count_up : (a k : ℕ) → length (count_up a k) ≡ k
unfolding count_up
length-count_up a zero = refl
length-count_up a (suc k) = omega (arith, length-count_up (suc a) k)

-- One of so many numbers from one on.
abbrev among : ℕ → ℕ → ℕ → Bool
among n a k = leb a n && ltb n (a + k)

two_runs :
    (n a k b l : ℕ)
    → shows n (count_up a k ++ 0 ∷ count_up b l) ≡ (among n a k || (0 == n || among n b l))
two_runs n a k b l =
    rw
      (shows-append n (count_up a k) (0 ∷ count_up b l), shows-count_up n a k, shows-count_up n b l)
      refl

three_runs :
    (n a k b l c j : ℕ)
    → shows n (count_up a k ++ 0 ∷ count_up b l ++ 0 ∷ count_up c j)
      ≡ ((among n a k || (0 == n || among n b l)) || (0 == n || among n c j))
three_runs n a k b l c j =
    rw
      (
        shows-append n (count_up a k ++ 0 ∷ count_up b l) (0 ∷ count_up c j),
        two_runs n a k b l,
        shows-count_up n c j,
      )
      refl

two_runs-length : (a k b l : ℕ) → length (count_up a k ++ 0 ∷ count_up b l) ≡ k + suc l
two_runs-length a k b l =
    rw (length-append (count_up a k) (0 ∷ count_up b l), length-count_up a k, length-count_up b l)
      (omega arith)

three_runs-length :
    (a k b l c j : ℕ)
    → length (count_up a k ++ 0 ∷ count_up b l ++ 0 ∷ count_up c j) ≡ k + suc (l + suc j)
three_runs-length a k b l c j =
    rw
      (
        length-append (count_up a k ++ 0 ∷ count_up b l) (0 ∷ count_up c j),
        two_runs-length a k b l,
        length-count_up c j,
      )
      (omega arith)

-- A page beside the one shown, or at an end of the list.
abbrev pub IsBeside : ℕ → ℕ → ℕ → Type 0
IsBeside page last n = (n ≤ 2) ⊎ (last ≤ n + 1) ⊎ ((page ≤ n + 3) × (n ≤ page + 3))

-- The pager links the first two pages, the last two, and those up to three from the page shown.
pub pages_around-beside :
    (page last n : ℕ)
    → 1 ≤ n
    → n ≤ last
    → IsBeside page last n
    → shows n (pages_around page last) ≡ true
unfolding pages_around
pages_around-beside page last n one le beside = elim (Bool-cases (ltb last 14)) [
  | inl a ↦ rw (a, shows-count_up n 1 (suc last - 1)) (ground arith)
  | inr a ↦ elim (Bool-cases (leb page 7)) [
    | inl b ↦
        rw (a, b, two_runs n 1 (11 - 1) (last - 1) (suc last - (last - 1))) (ground (arith, beside))
    | inr b ↦ elim (Bool-cases (ltb (last - 7) page)) [
      | inl c ↦
          rw (a, b, c, two_runs n 1 (3 - 1) (last - 9) (suc last - (last - 9)))
            (ground (arith, beside))
      | inr c ↦
          rw
            (
              a,
              b,
              c,
              three_runs n 1 (3 - 1) (page - 3) (suc (page + 3) - (page - 3)) (last - 1)
                  (suc last - (last - 1)),
            )
            (ground (arith, beside))
    ]
  ]
]

pages_around-few : (page last : ℕ) → length (pages_around page last) ≤ 13
unfolding pages_around
pages_around-few page last = elim (Bool-cases (ltb last 14)) [
  | inl a ↦ rw (a, length-count_up 1 (suc last - 1)) (ground arith)
  | inr a ↦ elim (Bool-cases (leb page 7)) [
    | inl b ↦
        rw (a, b, two_runs-length 1 (11 - 1) (last - 1) (suc last - (last - 1))) (ground arith)
    | inr b ↦ elim (Bool-cases (ltb (last - 7) page)) [
      | inl c ↦
          rw (a, b, c, two_runs-length 1 (3 - 1) (last - 9) (suc last - (last - 9))) (ground arith)
      | inr c ↦
          rw
            (
              a,
              b,
              c,
              three_runs-length 1 (3 - 1) (page - 3) (suc (page + 3) - (page - 3)) (last - 1)
                  (suc last - (last - 1)),
            )
            (ground arith)
    ]
  ]
]

length-map : {A B : Type 0} (f : A → B) (ys : List A) → length (map f ys) ≡ length ys
length-map f [] = refl
length-map f (y ∷ ys) = omega (arith, length-map f ys)

-- A pager has 13 links at most, its "..." counted in.
pub page_window-few : (page last : ℕ) (link : ℕ → Bytes) → length (page_window page last link) ≤ 13
unfolding page_window
page_window-few page last link =
    rw (length-map (link_of page link) (pages_around page last)) (pages_around-few page last)
