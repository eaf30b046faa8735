-- ===== src/Tests/Keys.antt =====
-- Keys, negative ones included.
use Prim.Native.Nat.{Ordering}
use index_lab.Key.{
  encode_int64, decode_int64, encode_composite_key, decode_composite_key, compare_keys,
}
use index_lab.Key.Order.{compare_keys-encode_int64, compare_keys-encode_composite_key}
use index_lab.Key.RoundTrip.{decode-encode_int64, decode-encode_composite_key}
use index_lab.Prelude.{◌≡◌, some, [], ◌∷◌, ◌++◌, arith}
use index_lab.Prelude.Int.{pos, negsuc}

decode-encode_int64_example : decode_int64 (encode_int64 (negsuc 41) ++ (1 ∷ [])) ≡ some (negsuc 41)
decode-encode_int64_example = decode-encode_int64 (negsuc 41) (1 ∷ []) (omega arith)

decode-encode_composite_key_example :
    decode_composite_key (encode_composite_key (pos 7) (negsuc 2)) ≡ some (pos 7, negsuc 2)
decode-encode_composite_key_example =
    decode-encode_composite_key (pos 7) (negsuc 2) (omega arith) (omega arith)

compare_keys-encode_int64_example :
    compare_keys (encode_int64 (negsuc 0)) (encode_int64 (pos 0)) ≡ Ordering.lt
compare_keys-encode_int64_example =
    compare_keys-encode_int64 (negsuc 0) (pos 0) (omega arith) (omega arith)

compare_keys-encode_composite_key_example :
    compare_keys (encode_composite_key (pos 7) (pos 3)) (encode_composite_key (pos 7) (negsuc 9))
    ≡ Ordering.gt
compare_keys-encode_composite_key_example =
    compare_keys-encode_composite_key (pos 7) (pos 3) (pos 7) (negsuc 9) (omega arith) (omega arith)
      (omega arith) (omega arith)
