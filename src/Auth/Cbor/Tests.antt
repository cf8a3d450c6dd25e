-- ===== src/Auth/Cbor/Tests.antt =====
-- CBOR of a passkey (auth/cbor.go), and the theorems at it. Any text passes for UTF-8.
use tug.Common.{◌+◌, ◌≤◌, ◌≡◌, refl, arith, [], ◌∷◌, ◌++◌, Bool, true, Bytes, ok, err}
use tug.Common.Int.{pos, negsuc}
use tug.Auth.Cbor.{
  int, dict, entry, no_entries, too_deep, key_twice, Written, w_int, w_bytes, w_map, pair, no_pairs,
  decode_cbor, read_item, after_head, argument, of_major, read_list, read_items, read_dict,
  read_entries, check_key, has_key, same_item, put, cbor_append, cbor_head, count_pairs,
}
use tug.Auth.Cbor.RoundTrip.{item_of, IsWritable, decode_cbor-append}
use tug.Auth.Cbor.Bounds.{size, depth, decode_cbor-small}

abbrev any_text : Bytes → Bool
any_text s = true

-- The key {1: 2, -1: h'0102'}.
abbrev key : Written
key =
    w_map (
      pair (w_int (pos 1)) (w_int (pos 2))
        (pair (w_int (negsuc 0)) (w_bytes (1 ∷ 2 ∷ [])) no_pairs))

writes_key : cbor_append key ≡ 162 ∷ 1 ∷ 2 ∷ 32 ∷ 66 ∷ 1 ∷ 2 ∷ []
unfolding cbor_append cbor_head count_pairs
writes_key = refl

-- A key twice is refused, and arrays that nest ten deep.
refuses_twice : decode_cbor any_text (162 ∷ 1 ∷ 2 ∷ 1 ∷ 3 ∷ []) ≡ err key_twice
unfolding decode_cbor read_item after_head argument of_major read_dict read_entries check_key
    has_key same_item put
refuses_twice = refl

refuses_deep :
    decode_cbor any_text (129 ∷ 129 ∷ 129 ∷ 129 ∷ 129 ∷ 129 ∷ 129 ∷ 129 ∷ 129 ∷ 1 ∷ [])
    ≡ err too_deep
unfolding decode_cbor read_item after_head argument of_major read_list read_items
refuses_deep = refl

decode_cbor-append_example :
    decode_cbor any_text (cbor_append key ++ 9 ∷ []) ≡ ok (item_of key, 9 ∷ [])
unfolding IsWritable item_of check_key has_key same_item put count_pairs
decode_cbor-append_example = decode_cbor-append any_text key (9 ∷ []) (
  omega arith,
  omega arith,
  (
    (omega arith, omega arith),
    (omega arith, omega arith),
    refl,
    ((omega arith, omega arith), (omega arith, omega arith), refl, tt),
  ),
)

-- Of five bytes, three make the item {1: 2}.
abbrev five_bytes : Bytes
five_bytes = 161 ∷ 1 ∷ 2 ∷ 3 ∷ 4 ∷ []

decode_cbor-small_example :
    (size (dict (entry (int (pos 1)) (int (pos 2)) no_entries)) + 2 ≤ 5)
    × (depth (dict (entry (int (pos 1)) (int (pos 2)) no_entries)) ≤ 9)
unfolding decode_cbor read_item after_head argument of_major read_dict read_entries check_key
    has_key same_item put
decode_cbor-small_example =
    decode_cbor-small any_text five_bytes (dict (entry (int (pos 1)) (int (pos 2)) no_entries))
      (3 ∷ 4 ∷ []) refl
