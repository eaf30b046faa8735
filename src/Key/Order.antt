-- ===== src/Key/Order.antt =====
-- `CompareKeys` is a total order on byte strings, and on encoded keys it is the order of the keys.
use Prim.Native.Nat.{bit_xor, compare, Ordering}
use native.Mathlib.Nat.{pow-suc, mod-lt}
use native.Mathlib.Decide.{dec_lt}
use mathlib.Core.Path.{ap₂}
use index_lab.Bytes.{be_bytes, mod_next_byte}
use index_lab.Key.{
  IsInt64, to_word, encode_int64, encode_composite_key, compare_keys, sign_bit_mask,
}
use index_lab.Key.RoundTrip.{flipped, flipped_bound, length-encode_int64}
use index_lab.Prelude.{
  ℕ, zero, suc, ◌+◌, ◌*◌, ◌/◌, ◌%◌, ◌^◌, ◌≤◌, ◌<◌, ◌≡◌, ◌∙◌, ap, refl, List, [], ◌∷◌, ◌++◌, length,
  arith,
}
use index_lab.Prelude.Int.{ℤ, compare_ℤ}

abbrev pub first_then : Ordering → Ordering → Ordering
first_then o rest = elim o [
  | Ordering.lt ↦ Ordering.lt
  | Ordering.eq ↦ rest
  | Ordering.gt ↦ Ordering.gt
]

abbrev pub IsLess : List ℕ → List ℕ → Type 0
IsLess a b = compare_keys a b ≡ Ordering.lt

pub compare_keys_refl : (a : List ℕ) → compare_keys a a ≡ Ordering.eq
unfolding compare_keys
compare_keys_refl [] = refl
compare_keys_refl (x ∷ xs) = ground (arith, compare_keys_refl xs)

pub compare_keys_eq : (a b : List ℕ) → compare_keys a b ≡ Ordering.eq → a ≡ b
unfolding compare_keys
compare_keys_eq [] [] h = refl
compare_keys_eq [] (y ∷ ys) h = ground arith
compare_keys_eq (x ∷ xs) [] h = ground arith
compare_keys_eq (x ∷ xs) (y ∷ ys) h = ground (arith, compare_keys_eq xs ys)

-- Comparing the other way round.
pub compare_keys_gt : (a b : List ℕ) → compare_keys a b ≡ Ordering.gt → IsLess b a
unfolding compare_keys
compare_keys_gt [] [] h = ground arith
compare_keys_gt [] (y ∷ ys) h = ground arith
compare_keys_gt (x ∷ xs) [] h = refl
compare_keys_gt (x ∷ xs) (y ∷ ys) h = ground (arith, compare_keys_gt xs ys)

pub compare_keys_lt : (a b : List ℕ) → IsLess a b → compare_keys b a ≡ Ordering.gt
unfolding compare_keys
compare_keys_lt [] [] h = ground arith
compare_keys_lt [] (y ∷ ys) h = refl
compare_keys_lt (x ∷ xs) [] h = ground arith
compare_keys_lt (x ∷ xs) (y ∷ ys) h = ground (arith, compare_keys_lt xs ys)

pub IsLess-trans : (a b c : List ℕ) → IsLess a b → IsLess b c → IsLess a c
unfolding compare_keys
IsLess-trans [] [] c h k = ground arith
IsLess-trans [] (y ∷ ys) [] h k = ground arith
IsLess-trans [] (y ∷ ys) (z ∷ zs) h k = refl
IsLess-trans (x ∷ xs) [] c h k = ground arith
IsLess-trans (x ∷ xs) (y ∷ ys) [] h k = ground arith
IsLess-trans (x ∷ xs) (y ∷ ys) (z ∷ zs) h k = ground (arith, IsLess-trans xs ys zs)

-- Byte strings with parts of one length compare by the first part, then by the second.
pub compare_keys-append :
    (a b c d : List ℕ)
    → length a ≡ length b
    → compare_keys (a ++ c) (b ++ d) ≡ first_then (compare_keys a b) (compare_keys c d)
unfolding compare_keys
compare_keys-append [] [] c d h = refl
compare_keys-append [] (y ∷ b) c d h = absurd (omega arith)
compare_keys-append (x ∷ a) [] c d h = absurd (omega arith)
compare_keys-append (x ∷ a) (y ∷ b) c d h =
    ground (arith, compare_keys-append a b c d (omega arith))

-- Numbers in base `p` compare by the leading digit, then by the rest.
pow-pos : (w : ℕ) → 0 < 256 ^ w
pow-pos zero = omega arith
pow-pos (suc w) = omega (arith, pow-pos w, pow-suc 256 w)

mul_gap : (p a b : ℕ) → a < b → a * p + p ≤ b * p
mul_gap p a b h = grind arith

compare_digits :
    (p a b r s : ℕ)
    → r < p
    → s < p
    → compare (a * p + r) (b * p + s) ≡ first_then (compare a b) (compare r s)
compare_digits p a b r s h k = elim (dec_lt a b) [
  | yes lt ↦ ground (arith, mul_gap p a b lt)
  | no ge ↦ elim (dec_lt b a) [
    | yes gt ↦ ground (arith, mul_gap p b a gt)
    | no le ↦ let same : a ≡ b = omega arith in ground (arith, ap (λ (t : ℕ). t * p) same)
  ]
]

compare_keys-be_bytes :
    (w u v : ℕ) → compare_keys (be_bytes w u) (be_bytes w v) ≡ compare (u % 256 ^ w) (v % 256 ^ w)
unfolding compare_keys be_bytes
compare_keys-be_bytes zero u v = ground arith
compare_keys-be_bytes (suc w) u v =
    let p = 256 ^ w in
    let positive : 0 < p = pow-pos w in
    rw (
      pow-suc 256 w,
      mod_next_byte u p,
      mod_next_byte v p,
      compare_digits p (u / p % 256) (v / p % 256) (u % p) (v % p) (mod-lt u positive)
          (mod-lt v positive),
      ← compare_keys-be_bytes w u v,
    )

-- Big-endian bytes of numbers that fit compare like the numbers.
pub compare_keys-words :
    (u v : ℕ) → u < 2 ^ 64 → v < 2 ^ 64 → compare_keys (be_bytes 8 u) (be_bytes 8 v) ≡ compare u v
compare_keys-words u v h k =
    let left : u % 256 ^ 8 ≡ u = omega arith in
    let right : v % 256 ^ 8 ≡ v = omega arith in
    compare_keys-be_bytes 8 u v ∙ ap₂ compare left right

-- Two encoded int64 values compare as bytes as the integers do.
pub compare_keys-encode_int64 :
    (a b : ℤ)
    → IsInt64 a
    → IsInt64 b
    → compare_keys (encode_int64 a) (encode_int64 b) ≡ compare_ℤ a b
unfolding encode_int64
compare_keys-encode_int64 a b h k =
    compare_keys-words (bit_xor (to_word a) sign_bit_mask) (bit_xor (to_word b) sign_bit_mask)
      (flipped_bound a h) (flipped_bound b k)
    ∙ ground (arith, flipped a h, flipped b k)

-- Two encoded pairs of int64 columns compare as bytes by the first column, and by the second where
-- the first is the same.
pub compare_keys-encode_composite_key :
    (a b c d : ℤ)
    → IsInt64 a
    → IsInt64 b
    → IsInt64 c
    → IsInt64 d
    → compare_keys (encode_composite_key a b) (encode_composite_key c d)
      ≡ first_then (compare_ℤ a c) (compare_ℤ b d)
unfolding encode_composite_key
compare_keys-encode_composite_key a b c d ha hb hc hd =
    compare_keys-append (encode_int64 a) (encode_int64 c) (encode_int64 b) (encode_int64 d)
      (omega (arith, length-encode_int64 a, length-encode_int64 c))
    ∙ ap₂ first_then (compare_keys-encode_int64 a c ha hc) (compare_keys-encode_int64 b d hb hd)
