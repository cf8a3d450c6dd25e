-- ===== src/Auth/Cbor/RoundTrip.antt =====
-- What the authenticator writes as CBOR, the decoder reads.
use native.Mathlib.Nat.{div-div-eq-div-mul, div-le_self, pow-suc, div-one}
use mathlib.Core.List.{append_assoc}
use tug.Common.{
  ℕ, zero, suc, ◌+◌, ◌-◌, ◌*◌, ◌/◌, ◌%◌, ◌^◌, ◌≤◌, ◌<◌, ◌≡◌, refl, sym, ap, ◌∙◌, List, [], ◌∷◌,
  ◌++◌, Bool, true, false, arith, Bytes, ltb, ◌==◌, if◌then◌else◌, length, length-append, take,
  drop, ok, Bool-cases, inl, inr, ◌⊎◌,
}
use tug.Common.Int.{ℤ, pos, negsuc}
use tug.Auth.Cbor.{
  Item, Entries, int, bytes, text, dict, no_entries, max_int64, Read, big_endian, argument, put,
  check_key, read_entries, read_string, read_dict, of_major, after_head, read_item, decode_cbor,
  Written, Pairs, w_int, w_bytes, w_text, w_map, no_pairs, pair, count_pairs, big_bytes, cbor_head,
  cbor_append, append_pairs,
}

module _ {A : Type 0} where
  take-append : (xs ys : List A) → take (length xs) (xs ++ ys) ≡ xs
  take-append [] ys = refl
  take-append (x ∷ xs) ys = ap (◌∷◌ x) (take-append xs ys)

  drop-append : (xs ys : List A) → drop (length xs) (xs ++ ys) ≡ ys
  drop-append [] ys = refl
  drop-append (x ∷ xs) ys = drop-append xs ys

length-big_bytes : (k n : ℕ) → length (big_bytes k n) ≡ k
unfolding big_bytes
length-big_bytes zero n = refl
length-big_bytes (suc k) n = ap suc (length-big_bytes k n)

-- The bytes of a number, after the part above them, give the number.
big_endian-big_bytes : (k n : ℕ) → n < 2 ^ 64 → big_endian (n / 256 ^ k) (big_bytes k n) ≡ n
unfolding big_endian big_bytes
big_endian-big_bytes zero n lt = div-one n
big_endian-big_bytes (suc k) n lt =
    let m : ℕ = n / 256 ^ k in
    let up : n / 256 ^ suc k ≡ m / 256 =
      ap (◌/◌ n) (pow-suc 256 k) ∙ sym (div-div-eq-div-mul n (256 ^ k) 256) in
    let small : m ≤ n = div-le_self n (256 ^ k) in
    let step : (m / 256 * 256 + m % 256) % 2 ^ 64 ≡ m = omega arith in
    rw (up, big_bytes, big_endian, step) (big_endian-big_bytes k n lt)

-- An argument of k bytes.
argument-big_bytes :
    (info k n : ℕ) (rest : Bytes)
    → 24 ≤ info
    → info ≤ 27
    → 2 ^ (info - 24) ≡ k
    → n / 256 ^ k ≡ 0
    → n < 2 ^ 64
    → argument info (big_bytes k n ++ rest) ≡ ok (n, rest)
unfolding argument
argument-big_bytes info k n rest low high size none_above lt =
    let a : ltb info 24 ≡ false = ground arith in
    let b : ltb 27 info ≡ false = ground arith in
    let enough : ltb (length (big_bytes k n ++ rest)) k ≡ false =
      ground (arith, length-append (big_bytes k n) rest, length-big_bytes k n) in
    let front : take k (big_bytes k n ++ rest) ≡ big_bytes k n =
      rw (length-big_bytes k n) at (take-append (big_bytes k n) rest) in
    let back : drop k (big_bytes k n ++ rest) ≡ rest =
      rw (length-big_bytes k n) at (drop-append (big_bytes k n) rest) in
    let value : big_endian 0 (big_bytes k n) ≡ n = rw none_above at (big_endian-big_bytes k n lt) in
    rw (a, b, size, enough, front, back, value) refl

-- The decoder at a head of the writer's goes on with its argument.
Heads : (Bytes → Bool) → ℕ → ℕ → ℕ → Bytes → Type 0
Heads valid left major n rest =
    read_item valid (suc left) (cbor_head major n ++ rest)
    ≡ of_major valid (read_item valid left) major n rest

module _ (valid : Bytes → Bool) (left major : ℕ) (low : major < 7) where
  long_head :
      (info k n : ℕ) (rest : Bytes)
      → 24 ≤ info
      → info ≤ 27
      → 2 ^ (info - 24) ≡ k
      → n / 256 ^ k ≡ 0
      → n < 2 ^ 64
      → read_item valid (suc left) ((major * 32 + info) ∷ (big_bytes k n ++ rest))
        ≡ of_major valid (read_item valid left) major n rest
  unfolding read_item after_head
  long_head info k n rest least most size none_above lt =
      let top : (major * 32 + info) / 32 ≡ major = omega arith in
      let bottom : (major * 32 + info) % 32 ≡ info = omega arith in
      let other : (major == 7) ≡ false = ground arith in
      rw (top, bottom, other, argument-big_bytes info k n rest least most size none_above lt) refl

  short_head :
      (n : ℕ) (rest : Bytes)
      → n < 24
      → read_item valid (suc left) ((major * 32 + n) ∷ rest)
        ≡ of_major valid (read_item valid left) major n rest
  unfolding read_item after_head argument
  short_head n rest lt =
      let top : (major * 32 + n) / 32 ≡ major = omega arith in
      let bottom : (major * 32 + n) % 32 ≡ n = omega arith in
      let other : (major == 7) ≡ false = ground arith in
      let within : ltb n 24 ≡ true = ground arith in rw (top, bottom, other, within) refl

  head-Heads : (n : ℕ) (rest : Bytes) → n < 2 ^ 64 → Heads valid left major n rest
  unfolding Heads cbor_head
  head-Heads n rest lt = elim (Bool-cases (ltb n 24)) [
    | inl a ↦ rw a (short_head n rest (ground arith))
    | inr a ↦ elim (Bool-cases (ltb 255 n)) [
      | inr b ↦ rw (a, b) (long_head 24 1 n rest (omega arith) (omega arith) refl (ground arith) lt)
      | inl b ↦ elim (Bool-cases (ltb 65535 n)) [
        | inr c ↦
            rw (a, b, c) (long_head 25 2 n rest (omega arith) (omega arith) refl (ground arith) lt)
        | inl c ↦ elim (Bool-cases (ltb 4294967295 n)) [
          | inr d ↦
              rw (a, b, c, d)
                (long_head 26 4 n rest (omega arith) (omega arith) refl (ground arith) lt)
          | inl d ↦
              rw (a, b, c, d)
                (long_head 27 8 n rest (omega arith) (omega arith) refl (ground arith) lt)
        ]
      ]
    ]
  ]

-- The item that is read of what is written.
unfoldable mutual
  pub item_of : Written → Item
  item_of (w_int n) = int n
  item_of (w_bytes b) = bytes b
  item_of (w_text s) = text s
  item_of (w_map ps) = dict (put_all ps no_entries)

  pub put_all : Pairs → Entries → Entries
  put_all no_pairs m = m
  put_all (pair k v ps) m = put_all ps (put (item_of k) (item_of v) m)

abbrev pub IsInt64 : ℤ → Type 0
IsInt64 (pos n) = n ≤ max_int64
IsInt64 (negsuc n) = n ≤ max_int64

-- What may be written, to be read with so many levels left: ints of 64 bits, strings and maps of a length
-- of 64 bits, text in UTF-8, and maps with different keys that are ints or text.
unfoldable mutual
  pub IsWritable : (Bytes → Bool) → ℕ → Written → Type 0
  IsWritable valid left (w_int n) = (0 < left) × IsInt64 n
  IsWritable valid left (w_bytes b) = (0 < left) × (length b < 2 ^ 64)
  IsWritable valid left (w_text s) = (0 < left) × (length s < 2 ^ 64) × (valid s ≡ true)
  IsWritable valid left (w_map ps) =
      (0 < left) × (count_pairs ps < 2 ^ 64) × AreWritable valid (left - 1) ps no_entries

  pub AreWritable : (Bytes → Bool) → ℕ → Pairs → Entries → Type 0
  AreWritable valid left no_pairs m = Unit
  AreWritable valid left (pair k v ps) m =
      IsWritable valid left k
      × IsWritable valid left v
      × (check_key (item_of k) m ≡ ok tt)
      × AreWritable valid left ps (put (item_of k) (item_of v) m)

length-cbor_head : (major n : ℕ) → 1 ≤ length (cbor_head major n)
unfolding cbor_head
length-cbor_head major n = ground arith

length-cbor_append : (w : Written) → 1 ≤ length (cbor_append w)
unfolding cbor_append
length-cbor_append (w_int (pos n)) = length-cbor_head 0 n
length-cbor_append (w_int (negsuc n)) = length-cbor_head 1 n
length-cbor_append (w_bytes b) =
    omega (arith, length-append (cbor_head 2 (length b)) b, length-cbor_head 2 (length b))
length-cbor_append (w_text s) =
    omega (arith, length-append (cbor_head 3 (length s)) s, length-cbor_head 3 (length s))
length-cbor_append (w_map ps) = omega (
  arith,
  length-append (cbor_head 5 (count_pairs ps)) (append_pairs ps),
  length-cbor_head 5 (count_pairs ps),
)

length-append_pairs : (ps : Pairs) → count_pairs ps * 2 ≤ length (append_pairs ps)
unfolding count_pairs append_pairs
length-append_pairs no_pairs = omega arith
length-append_pairs (pair k v ps) = omega (
  arith,
  length-append (cbor_append k) (cbor_append v ++ append_pairs ps),
  length-append (cbor_append v) (append_pairs ps),
  length-cbor_append k,
  length-cbor_append v,
  length-append_pairs ps,
)

module _ (valid : Bytes → Bool) where
  -- A string or a map after its head is read as its major type has it.
  after_written :
      (left major n : ℕ) (body rest : Bytes) (r : Read Item)
      → 0 < left
      → major < 7
      → n < 2 ^ 64
      → of_major valid (read_item valid (left - 1)) major n (body ++ rest) ≡ r
      → read_item valid left ((cbor_head major n ++ body) ++ rest) ≡ r
  unfolding Heads
  after_written zero major n body rest r some_left low lt e = absurd (omega arith)
  after_written (suc left) major n body rest r some_left low lt e =
      let same : suc left - 1 ≡ left = omega arith in
      rw
        (
          append_assoc (cbor_head major n) body rest,
          head-Heads valid left major low n (body ++ rest) lt,
        )
        (rw same at e)

  int_written :
      (left major n : ℕ) (rest : Bytes) (r : Read Item)
      → 0 < left
      → major < 7
      → n < 2 ^ 64
      → of_major valid (read_item valid (left - 1)) major n rest ≡ r
      → read_item valid left (cbor_head major n ++ rest) ≡ r
  unfolding Heads
  int_written zero major n rest r some_left low lt e = absurd (omega arith)
  int_written (suc left) major n rest r some_left low lt e =
      let same : suc left - 1 ≡ left = omega arith in
      rw (head-Heads valid left major low n rest lt) (rw same at e)

  of_major-string :
      (read : Bytes → Read Item) (major : ℕ) (s rest : Bytes)
      → (major ≡ 2) ⊎ (major ≡ 3) × (valid s ≡ true)
      → of_major valid read major (length s) (s ++ rest)
        ≡ ok (if major == 2 then bytes s else text s, rest)
  unfolding of_major read_string
  of_major-string read major s rest (inl e) =
      let fits : ltb (length (s ++ rest)) (length s) ≡ false =
        ground (arith, length-append s rest) in
      rw (e, fits, take-append s rest, drop-append s rest) refl
  of_major-string read major s rest (inr (e, utf8)) =
      let fits : ltb (length (s ++ rest)) (length s) ≡ false =
        ground (arith, length-append s rest) in
      rw (e, fits, take-append s rest, drop-append s rest, utf8) refl

  of_major-map :
      (read : Bytes → Read Item) (n : ℕ) (b rest : Bytes) (m : Entries)
      → n * 2 ≤ length b
      → read_entries read n no_entries b ≡ ok (m, rest)
      → of_major valid read 5 n b ≡ ok (dict m, rest)
  unfolding of_major read_dict
  of_major-map read n b rest m room e =
      let fits : ltb (length b / 2) n ≡ false = ground arith in rw (fits, e) refl

  pair_read :
      (read : Bytes → Read Item) (n : ℕ) (k v : Written) (ps : Pairs) (m : Entries) (rest : Bytes)
      (r : Read Entries)
      → ((more : Bytes) → read (cbor_append k ++ more) ≡ ok (item_of k, more))
      → ((more : Bytes) → read (cbor_append v ++ more) ≡ ok (item_of v, more))
      → check_key (item_of k) m ≡ ok tt
      → read_entries read n (put (item_of k) (item_of v) m) (append_pairs ps ++ rest) ≡ r
      → read_entries read (suc n) m ((cbor_append k ++ (cbor_append v ++ append_pairs ps)) ++ rest)
        ≡ r
  unfolding read_entries
  pair_read read n k v ps m rest r ek ev fresh e =
      rw
        (
          append_assoc (cbor_append k) (cbor_append v ++ append_pairs ps) rest,
          ek ((cbor_append v ++ append_pairs ps) ++ rest),
          fresh,
          append_assoc (cbor_append v) (append_pairs ps) rest,
          ev (append_pairs ps ++ rest),
        )
        e

  mutual
    unfolding item_of IsWritable cbor_append read_entries count_pairs of_major

    reads_item :
        (w : Written) (left : ℕ) (rest : Bytes)
        → IsWritable valid left w
        → read_item valid left (cbor_append w ++ rest) ≡ ok (item_of w, rest)
    reads_item (w_int (pos n)) left rest (some_left, small) =
        let fits : ltb max_int64 n ≡ false = ground arith in
        int_written left 0 n rest _ some_left (omega arith) (omega arith) (rw fits refl)
    reads_item (w_int (negsuc n)) left rest (some_left, small) =
        let fits : ltb max_int64 n ≡ false = ground arith in
        int_written left 1 n rest _ some_left (omega arith) (omega arith) (rw fits refl)
    reads_item (w_bytes b) left rest (some_left, small) =
        after_written left 2 (length b) b rest _ some_left (omega arith) small
          (of_major-string (read_item valid (left - 1)) 2 b rest (inl refl))
    reads_item (w_text s) left rest (some_left, small, utf8) =
        after_written left 3 (length s) s rest _ some_left (omega arith) small
          (of_major-string (read_item valid (left - 1)) 3 s rest (inr (refl, utf8)))
    reads_item (w_map ps) left rest (some_left, small, writable) =
        after_written left 5 (count_pairs ps) (append_pairs ps) rest _ some_left (omega arith) small
          (of_major-map (read_item valid (left - 1)) (count_pairs ps) (append_pairs ps ++ rest) rest
            _ (omega (arith, length-append (append_pairs ps) rest, length-append_pairs ps))
            (reads_pairs ps (left - 1) no_entries rest writable))

    reads_pairs :
        (ps : Pairs) (left : ℕ) (m : Entries) (rest : Bytes)
        → AreWritable valid left ps m
        → read_entries (read_item valid left) (count_pairs ps) m (append_pairs ps ++ rest)
          ≡ ok (put_all ps m, rest)
    reads_pairs no_pairs left m rest writable = refl
    reads_pairs (pair k v ps) left m rest (wk, wv, fresh, more) =
        pair_read (read_item valid left) (count_pairs ps) k v ps m rest _
          (λ end. reads_item k left end wk) (λ end. reads_item v left end wv) fresh
          (reads_pairs ps left (put (item_of k) (item_of v) m) rest more)

  -- What the authenticator writes, the decoder reads: each number, byte string, text and map that it may
  -- write, nested 9 deep at most, is read back as it is, up to the bytes that follow.
  pub decode_cbor-append :
      (w : Written) (rest : Bytes)
      → IsWritable valid 9 w
      → decode_cbor valid (cbor_append w ++ rest) ≡ ok (item_of w, rest)
  unfolding decode_cbor
  decode_cbor-append w rest writable = reads_item w 9 rest writable
