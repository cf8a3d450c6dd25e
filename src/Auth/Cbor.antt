-- ===== src/Auth/Cbor.antt =====
-- The CBOR of a passkey's answer: the decoder that reads it (auth/cbor.go), and the writer of the test
-- authenticator (auth/passkeytest/passkeytest.go). A slice of bytes is a list of numbers below 256.
pub mod Bounds
pub mod RoundTrip
mod Tests
use tug.Common.{
  ℕ, zero, suc, ◌+◌, ◌-◌, ◌*◌, ◌/◌, ◌%◌, ◌^◌, List, [], ◌∷◌, ◌++◌, Bool, true, false, ◌||◌, Bytes,
  str_eq, ltb, ◌==◌, if◌then◌else◌, length, take, drop, Result, ok, err, ◌>>=◌,
}
use tug.Common.Int.{ℤ, pos, negsuc}

-- What an item may be refused for.
pub data CborError : Type 0 where
  too_deep ends_early not_simple too_big too_small not_text bad_key key_twice is_tag left_open :
      CborError

-- An item: an int64, a []byte, a string, a []any, a map[any]any, a bool or nil. The entries of a map are in
-- the order in which they were read.
mutual
  pub data Item : Type 0 where
    int : ℤ → Item
    bytes : Bytes → Item
    text : Bytes → Item
    list : Items → Item
    dict : Entries → Item
    bool : Bool → Item
    null : Item

  pub data Items : Type 0 where
    no_items : Items
    item : Item → Items → Items

  pub data Entries : Type 0 where
    no_entries : Entries
    entry : Item → Item → Entries → Entries

abbrev pub max_int64 : ℕ
max_int64 = 9223372036854775807

abbrev pub Read : Type 0 → Type 0
Read A = Result CborError (A × Bytes)

-- The loop of `argument`, in 64 bits; `n<<8 | c` is a sum, as the low byte of n<<8 is 0.
unfoldable pub big_endian : ℕ → Bytes → ℕ
big_endian n [] = n
big_endian n (c ∷ rest) = big_endian ((n * 256 + c) % 2 ^ 64) rest

unfoldable pub argument : ℕ → Bytes → Read ℕ
argument info b =
    let size : ℕ = 2 ^ (info - 24) in
    if ltb info 24
    then ok (info, b)
    else if ltb 27 info
    then err left_open
    else if ltb (length b) size
    then err ends_early
    else ok (big_endian 0 (take size b), drop size b)

unfoldable pub simple : ℕ → Bytes → Read Item
simple info b =
    if info == 20
    then ok (bool false, b)
    else if info == 21
    then ok (bool true, b)
    else if info == 22
    then ok (null, b)
    else err not_simple

-- The loop that reads n items of an array, with what reads one.
unfoldable pub read_items : (Bytes → Read Item) → ℕ → Bytes → Read Items
read_items read zero b = ok (no_items, b)
read_items read (suc n) b = do
  (v, rest) ← read b
  (vs, end) ← read_items read n rest
  ok (item v vs, end)

-- Equality of the keys of a map[any]any, int64s and strings.
unfoldable pub same_item : Item → Item → Bool
same_item (int (pos a)) (int (pos b)) = a == b
same_item (int (negsuc a)) (int (negsuc b)) = a == b
same_item (text a) (text b) = str_eq a b
same_item _ _ = false

unfoldable pub has_key : Item → Entries → Bool
has_key k no_entries = false
has_key k (entry j v m) = same_item j k || has_key k m

unfoldable pub put : Item → Item → Entries → Entries
put k v no_entries = entry k v no_entries
put k v (entry j w m) = entry j w (put k v m)

-- What is done with a key that was read: it is refused, or goes on to its value.
unfoldable pub check_key : Item → Entries → Result CborError (Unit {0})
check_key (int n) m = if has_key (int n) m then err key_twice else ok tt
check_key (text s) m = if has_key (text s) m then err key_twice else ok tt
check_key _ m = err bad_key

-- The loop that reads n entries of a map into those read so far.
unfoldable pub read_entries : (Bytes → Read Item) → ℕ → Entries → Bytes → Read Entries
read_entries read zero m b = ok (m, b)
read_entries read (suc n) m b = do
  (k, rest) ← read b
  _ ← check_key k m
  (v, end) ← read rest
  read_entries read n (put k v m) end

module _ (valid_utf8 : Bytes → Bool) where
  unfoldable pub read_string : ℕ → ℕ → Bytes → Read Item
  read_string major n b =
      if ltb (length b) n
      then err ends_early
      else if major == 2
      then ok (bytes (take n b), drop n b)
      else if valid_utf8 (take n b)
      then ok (text (take n b), drop n b)
      else err not_text

  unfoldable pub read_list : (Bytes → Read Item) → ℕ → Bytes → Read Item
  read_list read n b =
      if ltb (length b) n
      then err ends_early
      else (do (vs, end) ← read_items read n b; ok (list vs, end))

  unfoldable pub read_dict : (Bytes → Read Item) → ℕ → Bytes → Read Item
  read_dict read n b =
      if ltb (length b / 2) n
      then err ends_early
      else (do (m, end) ← read_entries read n no_entries b; ok (dict m, end))

  -- The switch on the major type of an item whose argument is n.
  unfoldable pub of_major : (Bytes → Read Item) → ℕ → ℕ → Bytes → Read Item
  of_major read major n b =
      if major == 0
      then (if ltb max_int64 n then err too_big else ok (int (pos n), b))
      else if major == 1
      then (if ltb max_int64 n then err too_small else ok (int (negsuc n), b))
      else if major == 2 || major == 3
      then read_string major n b
      else if major == 4
      then read_list read n b
      else if major == 5
      then read_dict read n b
      else err is_tag

  unfoldable pub after_head : (Bytes → Read Item) → ℕ → ℕ → Bytes → Read Item
  after_head read major info b =
      if major == 7
      then simple info b
      else (do (n, rest) ← argument info b; of_major read major n rest)

  -- `item`, with how many levels it may still nest, 9 less its depth.
  unfoldable pub read_item : ℕ → Bytes → Read Item
  read_item zero b = err too_deep
  read_item (suc left) [] = err ends_early
  read_item (suc left) (c ∷ rest) = after_head (read_item left) (c / 32) (c % 32) rest

  unfoldable pub decode_cbor : Bytes → Read Item
  decode_cbor b = read_item 9 b

-- What the authenticator writes: an int, a []byte, a string or a cborMap.
mutual
  pub data Written : Type 0 where
    w_int : ℤ → Written
    w_bytes : Bytes → Written
    w_text : Bytes → Written
    w_map : Pairs → Written

  pub data Pairs : Type 0 where
    no_pairs : Pairs
    pair : Written → Written → Pairs → Pairs

unfoldable pub count_pairs : Pairs → ℕ
count_pairs no_pairs = 0
count_pairs (pair k v ps) = suc (count_pairs ps)

-- So many bytes of a number, the highest first: `binary.BigEndian`.
unfoldable pub big_bytes : ℕ → ℕ → Bytes
big_bytes zero n = []
big_bytes (suc k) n = (n / 256 ^ k % 256) ∷ big_bytes k n

-- `cborHead`; major is below 8, so `major<<5|info` is a sum.
unfoldable pub cbor_head : ℕ → ℕ → Bytes
cbor_head major n =
    if ltb n 24
    then (major * 32 + n) ∷ []
    else if ltb 0xff n
    then (if ltb 0xffff n
        then (if ltb 0xffffffff n
            then (major * 32 + 27) ∷ big_bytes 8 n
            else (major * 32 + 26) ∷ big_bytes 4 n)
        else (major * 32 + 25) ∷ big_bytes 2 n)
    else (major * 32 + 24) ∷ big_bytes 1 n

-- `cborAppend`, to nothing: it appends to the bytes before.
unfoldable mutual
  pub cbor_append : Written → Bytes
  cbor_append (w_int (pos n)) = cbor_head 0 n
  cbor_append (w_int (negsuc n)) = cbor_head 1 n
  cbor_append (w_bytes b) = cbor_head 2 (length b) ++ b
  cbor_append (w_text s) = cbor_head 3 (length s) ++ s
  cbor_append (w_map ps) = cbor_head 5 (count_pairs ps) ++ append_pairs ps

  pub append_pairs : Pairs → Bytes
  append_pairs no_pairs = []
  append_pairs (pair k v ps) = cbor_append k ++ (cbor_append v ++ append_pairs ps)
