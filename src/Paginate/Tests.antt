-- ===== src/Paginate/Tests.antt =====
-- Pages of a small list (paginate.go), and the theorems at it.
use tug.Common.{ℕ, ◌≡◌, refl, arith, List, [], ◌∷◌, Bytes, itoa}
use tug.Paginate.{last_of, pages_around, count_up}
use tug.Paginate.Pages.{items_from, paginate_whole}

abbrev five : List ℕ
five = 10 ∷ 20 ∷ 30 ∷ 40 ∷ 50 ∷ []

abbrev here : Bytes
here = 47 ∷ []

-- A pager of 20 pages, in its middle.
middle : pages_around 10 20 ≡ 1 ∷ 2 ∷ 0 ∷ 7 ∷ 8 ∷ 9 ∷ 10 ∷ 11 ∷ 12 ∷ 13 ∷ 0 ∷ 19 ∷ 20 ∷ []
unfolding pages_around count_up
middle = refl

paginate_whole_example : items_from Bytes five itoa here here 2 1 (last_of 5 2) ≡ five
paginate_whole_example = paginate_whole Bytes five itoa here here 2 (omega arith)
