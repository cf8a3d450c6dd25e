-- ===== src/Auth/Cbor/Bounds.antt =====
-- What the CBOR decoder makes of its input is no larger than the input, and nests 9 deep at most.
use tug.Common.{
  ℕ, zero, suc, ◌+◌, ◌-◌, ◌/◌, ◌%◌, ◌^◌, ◌≤◌, max, ◌≡◌, refl, [], ◌∷◌, Bool, ◌||◌, arith, Bytes,
  ltb, ◌==◌, length, length-drop, drop, take, ok, Ensures, Ensures-bind, Ensures-any,
  Ensures-weaken, Ensures-ok, Bool-cases, inl, inr,
}
use tug.Auth.Cbor.{
  Item, Items, Entries, list, dict, no_items, item, no_entries, entry, max_int64, Read, argument,
  simple, read_items, put, check_key, read_entries, read_string, read_list, read_dict, of_major,
  after_head, read_item, decode_cbor,
}

-- How many items there are, those in arrays and maps counted in, and how deep they nest.
unfoldable mutual
  pub size : Item → ℕ
  size (list vs) = suc (size_items vs)
  size (dict m) = suc (size_entries m)
  size _ = 1

  pub size_items : Items → ℕ
  size_items no_items = 0
  size_items (item v vs) = size v + size_items vs

  pub size_entries : Entries → ℕ
  size_entries no_entries = 0
  size_entries (entry k v m) = size k + size v + size_entries m

unfoldable mutual
  pub depth : Item → ℕ
  depth (list vs) = suc (depth_items vs)
  depth (dict m) = suc (depth_entries m)
  depth _ = 1

  pub depth_items : Items → ℕ
  depth_items no_items = 0
  depth_items (item v vs) = max (depth v) (depth_items vs)

  pub depth_entries : Entries → ℕ
  depth_entries no_entries = 0
  depth_entries (entry k v m) = max (depth k) (max (depth v) (depth_entries m))

-- Of so many bytes, an item of a depth that uses up at least as many as it has items.
abbrev pub IsSmall : ℕ → ℕ → Item × Bytes → Type 0
IsSmall d n (v, rest) = (size v + length rest ≤ n) × (depth v ≤ d)

abbrev AreSmall : ℕ → ℕ → Items × Bytes → Type 0
AreSmall d n (vs, rest) = (size_items vs + length rest ≤ n) × (depth_items vs ≤ d)

abbrev EntriesSmall : ℕ → ℕ → Entries × Bytes → Type 0
EntriesSmall d n (m, rest) = (size_entries m + length rest ≤ n) × (depth_entries m ≤ d)

abbrev ArgumentSmall : ℕ → ℕ × Bytes → Type 0
ArgumentSmall n (k, rest) = length rest ≤ n

size-put : (k v : Item) (m : Entries) → size_entries (put k v m) ≡ size k + size v + size_entries m
unfolding put size
size-put k v no_entries = refl
size-put k v (entry j w m) = omega (arith, size-put k v m)

depth-put :
    (k v : Item) (m : Entries)
    → depth_entries (put k v m) ≡ max (depth k) (max (depth v) (depth_entries m))
unfolding put depth
depth-put k v no_entries = refl
depth-put k v (entry j w m) = omega (arith, depth-put k v m)

argument-small : (info : ℕ) (b : Bytes) → Ensures (ArgumentSmall (length b)) (argument info b)
unfolding argument
argument-small info b = elim (Bool-cases (ltb info 24)) [
  | inl x ↦ rw x (omega arith)
  | inr x ↦ elim (Bool-cases (ltb 27 info)) [
    | inl y ↦ rw (x, y) tt
    | inr y ↦ elim (Bool-cases (ltb (length b) (2 ^ (info - 24)))) [
      | inl z ↦ rw (x, y, z) tt
      | inr z ↦ rw (x, y, z) (omega (arith, length-drop (2 ^ (info - 24)) b))
    ]
  ]
]

module _ (read : Bytes → Read Item) (d : ℕ)
    (small : (b : Bytes) → Ensures (IsSmall d (length b)) (read b)) where
  items-small : (n : ℕ) (b : Bytes) → Ensures (AreSmall d (length b)) (read_items read n b)
  unfolding read_items size depth
  items-small zero b = (omega arith, omega arith)
  items-small (suc n) b =
      Ensures-bind (IsSmall d (length b)) _ (read b) _ (small b) λ (v, rest) (s, e).
        Ensures-bind (AreSmall d (length rest)) _ (read_items read n rest) _ (items-small n rest)
          λ (vs, end) (t, f). (omega arith, omega arith)

  entries-small :
      (n : ℕ) (m : Entries) (b : Bytes)
      → depth_entries m ≤ d
      → Ensures (EntriesSmall d (size_entries m + length b)) (read_entries read n m b)
  unfolding read_entries
  entries-small zero m b dm = (omega arith, dm)
  entries-small (suc n) m b dm =
      Ensures-bind (IsSmall d (length b)) _ (read b) _ (small b) λ (k, rest) (s, e).
        Ensures-bind (λ _. Unit {0}) _ (check_key k m) _ (Ensures-any (check_key k m))
          λ _ _.
            Ensures-bind (IsSmall d (length rest)) _ (read rest) _ (small rest) λ (v, end) (t, f).
              let more = size-put k v m in
              let deeper : depth_entries (put k v m) ≤ d = omega (arith, depth-put k v m) in
              Ensures-weaken (EntriesSmall d (size_entries (put k v m) + length end)) _
                (read_entries read n (put k v m) end)
                (λ (m', last) (x, y). (omega (arith, more), y))
                (entries-small n (put k v m) end deeper)

  list-IsSmall :
      (valid : Bytes → Bool) (n : ℕ) (b : Bytes)
      → Ensures (IsSmall (suc d) (suc (length b))) (read_list valid read n b)
  unfolding read_list size depth
  list-IsSmall valid n b = elim (Bool-cases (ltb (length b) n)) [
    | inl x ↦ rw x tt
    | inr x ↦ rw x (
        Ensures-bind (AreSmall d (length b)) _ (read_items read n b) _ (items-small n b)
          λ (vs, end) (t, f). (omega arith, omega arith))
  ]

  dict-IsSmall :
      (valid : Bytes → Bool) (n : ℕ) (b : Bytes)
      → Ensures (IsSmall (suc d) (suc (length b))) (read_dict valid read n b)
  unfolding read_dict size depth
  dict-IsSmall valid n b = elim (Bool-cases (ltb (length b / 2) n)) [
    | inl x ↦ rw x tt
    | inr x ↦ rw x (
        Ensures-bind (EntriesSmall d (size_entries no_entries + length b)) _
          (read_entries read n no_entries b) _ (entries-small n no_entries b (omega arith))
          λ (m, end) (t, f). (omega arith, omega arith))
  ]

  string-IsSmall :
      (valid : Bytes → Bool) (major n : ℕ) (b : Bytes)
      → Ensures (IsSmall (suc d) (suc (length b))) (read_string valid major n b)
  unfolding read_string size depth
  string-IsSmall valid major n b =
      let left : length (drop n b) ≤ length b = omega (arith, length-drop n b) in
      elim (Bool-cases (ltb (length b) n)) [
        | inl x ↦ rw x tt
        | inr x ↦ elim (Bool-cases (major == 2)) [
          | inl y ↦ rw (x, y) (omega arith, omega arith)
          | inr y ↦ elim (Bool-cases (valid (take n b))) [
            | inl z ↦ rw (x, y, z) (omega arith, omega arith)
            | inr z ↦ rw (x, y, z) tt
          ]
        ]
      ]

  major-IsSmall :
      (valid : Bytes → Bool) (major n : ℕ) (b : Bytes)
      → Ensures (IsSmall (suc d) (suc (length b))) (of_major valid read major n b)
  unfolding of_major size depth
  major-IsSmall valid major n b = elim (Bool-cases (major == 0)) [
    | inl a ↦ elim (Bool-cases (ltb max_int64 n)) [
      | inl x ↦ rw (a, x) tt
      | inr x ↦ rw (a, x) (omega arith, omega arith)
    ]
    | inr a ↦ elim (Bool-cases (major == 1)) [
      | inl c ↦ elim (Bool-cases (ltb max_int64 n)) [
        | inl x ↦ rw (a, c, x) tt
        | inr x ↦ rw (a, c, x) (omega arith, omega arith)
      ]
      | inr c ↦ elim (Bool-cases (major == 2 || major == 3)) [
        | inl e ↦ rw (a, c, e) (string-IsSmall valid major n b)
        | inr e ↦ elim (Bool-cases (major == 4)) [
          | inl f ↦ rw (a, c, e, f) (list-IsSmall valid n b)
          | inr f ↦ elim (Bool-cases (major == 5)) [
            | inl g ↦ rw (a, c, e, f, g) (dict-IsSmall valid n b)
            | inr g ↦ rw (a, c, e, f, g) tt
          ]
        ]
      ]
    ]
  ]

  simple-IsSmall :
      (info : ℕ) (b : Bytes) → Ensures (IsSmall (suc d) (suc (length b))) (simple info b)
  unfolding simple size depth
  simple-IsSmall info b = elim (Bool-cases (info == 20)) [
    | inl x ↦ rw x (omega arith, omega arith)
    | inr x ↦ elim (Bool-cases (info == 21)) [
      | inl y ↦ rw (x, y) (omega arith, omega arith)
      | inr y ↦ elim (Bool-cases (info == 22)) [
        | inl z ↦ rw (x, y, z) (omega arith, omega arith)
        | inr z ↦ rw (x, y, z) tt
      ]
    ]
  ]

  head-IsSmall :
      (valid : Bytes → Bool) (major info : ℕ) (b : Bytes)
      → Ensures (IsSmall (suc d) (suc (length b))) (after_head valid read major info b)
  unfolding after_head
  head-IsSmall valid major info b = elim (Bool-cases (major == 7)) [
    | inl x ↦ rw x (simple-IsSmall info b)
    | inr x ↦ rw x (
        Ensures-bind (ArgumentSmall (length b)) _ (argument info b) _ (argument-small info b)
          λ (n, rest) le.
            Ensures-weaken (IsSmall (suc d) (suc (length rest))) _
              (of_major valid read major n rest) (λ (v, end) (s, e). (omega arith, e))
              (major-IsSmall valid major n rest))
  ]

item-IsSmall :
    (valid : Bytes → Bool) (left : ℕ) (b : Bytes)
    → Ensures (IsSmall left (length b)) (read_item valid left b)
unfolding read_item
item-IsSmall valid zero b = tt
item-IsSmall valid (suc left) [] = tt
item-IsSmall valid (suc left) (c ∷ rest) =
    head-IsSmall (read_item valid left) left (item-IsSmall valid left) valid (c / 32) (c % 32) rest

-- Whatever bytes the decoder is given, an item that it returns has no more items in it than it took bytes,
-- and nests 9 deep at most.
pub decode_cbor-small :
    (valid : Bytes → Bool) (b : Bytes) (v : Item) (rest : Bytes)
    → decode_cbor valid b ≡ ok (v, rest)
    → (size v + length rest ≤ length b) × (depth v ≤ 9)
unfolding decode_cbor
decode_cbor-small valid b v rest e =
    Ensures-ok (λ (r : Item × Bytes). (size r.0 + length r.1 ≤ length b) × (depth r.0 ≤ 9)) _
      (v, rest) e (item-IsSmall valid 9 b)
