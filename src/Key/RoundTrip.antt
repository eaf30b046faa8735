-- ===== src/Key/RoundTrip.antt =====
-- Decoding after encoding.
use Prim.Native.Nat.{bit_xor}
use mathlib.Core.List.{append-nil}
use index_lab.Bits.{bit_xor-pow_set, bit_xor-pow_clear}
use index_lab.Bytes.{length-be_bytes, uint64-be_bytes}
use index_lab.Key.{
  IsInt64, to_word, of_word, encode_int64, decode_int64, encode_composite_key, decode_composite_key,
  sign_bit_mask,
}
use index_lab.Prelude.{
  [], sym, ℕ, ◌+◌, ◌-◌, ◌%◌, ◌^◌, ◌<◌, ◌≡◌, ◌∙◌, ap, some, List, ◌++◌, length, length-append, take,
  drop, take-append, drop-append, arith,
}
use index_lab.Prelude.Int.{ℤ, pos, negsuc, pos_part, neg_part}

-- The encoded word of `n` is `n + 2^63`, so words are ordered like the integers.
pub flipped :
    (n : ℤ) → IsInt64 n → bit_xor (to_word n) sign_bit_mask + neg_part n ≡ pos_part n + 2 ^ 63
unfolding to_word
flipped (pos n) h =
    let word : n % 2 ^ 64 ≡ n = omega arith in
    omega (arith, ap (λ t. bit_xor t (2 ^ 63)) word, bit_xor-pow_set 63 n h)
flipped (negsuc n) h =
    let low = 2 ^ 63 - 1 - n in
    let word : 2 ^ 64 - 1 - n % 2 ^ 64 ≡ low + 2 ^ 63 = omega arith in
    omega (arith, ap (λ t. bit_xor t (2 ^ 63)) word, bit_xor-pow_clear 63 low (omega arith))

pub flipped_bound : (n : ℤ) → IsInt64 n → bit_xor (to_word n) sign_bit_mask < 2 ^ 64
flipped_bound (pos n) h = omega (arith, flipped (pos n) h)
flipped_bound (negsuc n) h = omega (arith, flipped (negsuc n) h)

of_word_flipped :
    (n : ℤ) → IsInt64 n → of_word (bit_xor (bit_xor (to_word n) sign_bit_mask) sign_bit_mask) ≡ n
unfolding of_word
of_word_flipped (pos n) h =
    let word : bit_xor (to_word (pos n)) sign_bit_mask ≡ n + 2 ^ 63 =
      omega (arith, flipped (pos n) h) in
    let back : bit_xor (bit_xor (to_word (pos n)) sign_bit_mask) sign_bit_mask ≡ n =
      ap (λ t. bit_xor t (2 ^ 63)) word ∙ bit_xor-pow_clear 63 n h in
    ground (arith, back)
of_word_flipped (negsuc n) h =
    let low = 2 ^ 63 - 1 - n in
    let word : bit_xor (to_word (negsuc n)) sign_bit_mask ≡ low =
      omega (arith, flipped (negsuc n) h) in
    let back : bit_xor (bit_xor (to_word (negsuc n)) sign_bit_mask) sign_bit_mask ≡ low + 2 ^ 63 =
      ap (λ t. bit_xor t (2 ^ 63)) word ∙ bit_xor-pow_set 63 low (omega arith) in
    ground (arith, back)

pub length-encode_int64 : (n : ℤ) → length (encode_int64 n) ≡ 8
unfolding encode_int64
length-encode_int64 n = length-be_bytes 8 (bit_xor (to_word n) sign_bit_mask)

-- Every int64 is decoded from its encoding, whatever bytes follow.
pub decode-encode_int64 :
    (n : ℤ) (rest : List ℕ) → IsInt64 n → decode_int64 (encode_int64 n ++ rest) ≡ some n
unfolding encode_int64 decode_int64
decode-encode_int64 n rest h =
    rw (uint64-be_bytes (bit_xor (to_word n) sign_bit_mask) rest (omega (arith, flipped_bound n h)))
      (ap some (of_word_flipped n h))

-- Every pair of int64 columns is decoded from its composite key.
pub decode-encode_composite_key :
    (a b : ℤ)
    → IsInt64 a
    → IsInt64 b
    → decode_composite_key (encode_composite_key a b) ≡ some (a, b)
unfolding encode_composite_key decode_composite_key
decode-encode_composite_key a b h k =
    let x = encode_int64 a in
    let y = encode_int64 b in
    let size : length x ≡ 8 = length-encode_int64 a in
    let first : take 8 (x ++ y) ≡ x ++ [] =
      ap (λ k. take k (x ++ y)) (sym size) ∙ take-append x y ∙ sym (append-nil x) in
    let second : drop 8 (x ++ y) ≡ y ++ [] =
      ap (λ k. drop k (x ++ y)) (sym size) ∙ drop-append x y ∙ sym (append-nil y) in
    ground (
      arith,
      size,
      length-append x y,
      ap decode_int64 first ∙ decode-encode_int64 a [] h,
      ap decode_int64 second ∙ decode-encode_int64 b [] k,
    )
