-- ===== src/Key.antt =====
-- The key codec of internal/btree/key.go: signed integers as byte strings that compare in their
-- order.
pub mod RoundTrip
pub mod Order
use Prim.Native.Nat.{bit_xor, compare, Ordering}
use index_lab.Bytes.{be_bytes, uint64}
use index_lab.Prelude.{
  ℕ, ◌-◌, ◌%◌, ◌^◌, ◌<◌, Option, none, some, List, [], ◌∷◌, ◌++◌, take, drop, length, leb, ltb,
  if◌then◌else◌, ◌>>=◌,
}
use index_lab.Prelude.Int.{ℤ, pos, negsuc}

-- The values of an `int64`.
abbrev pub IsInt64 : ℤ → Type 0
IsInt64 (pos n) = n < 2 ^ 63
IsInt64 (negsuc n) = n < 2 ^ 63

-- `uint64(n)`, in two's complement.
unfoldable pub to_word : ℤ → ℕ
to_word (pos n) = n % 2 ^ 64
to_word (negsuc n) = 2 ^ 64 - 1 - n % 2 ^ 64

-- `int64(w)`.
unfoldable pub of_word : ℕ → ℤ
of_word w = if ltb w (2 ^ 63) then pos w else negsuc (2 ^ 64 - 1 - w)

abbrev pub sign_bit_mask : ℕ
sign_bit_mask = 2 ^ 63

unfoldable pub encode_int64 : ℤ → List ℕ
encode_int64 n = be_bytes 8 (bit_xor (to_word n) sign_bit_mask)

unfoldable pub decode_int64 : List ℕ → Option ℤ
decode_int64 encoded = do decoded ← uint64 encoded; some (of_word (bit_xor decoded sign_bit_mask))

-- `bytes.Compare`: -1, 0 and 1 are the three orderings.
unfoldable pub compare_keys : List ℕ → List ℕ → Ordering
compare_keys [] [] = Ordering.eq
compare_keys [] (y ∷ ys) = Ordering.lt
compare_keys (x ∷ xs) [] = Ordering.gt
compare_keys (x ∷ xs) (y ∷ ys) = elim (compare x y) [
  | Ordering.lt ↦ Ordering.lt
  | Ordering.eq ↦ compare_keys xs ys
  | Ordering.gt ↦ Ordering.gt
]

abbrev pub composite_entry_size : ℕ
composite_entry_size = 24

unfoldable pub encode_composite_key : ℤ → ℤ → List ℕ
encode_composite_key column_a column_b = encode_int64 column_a ++ encode_int64 column_b

-- `encoded[:8]` panics on fewer than 8 bytes.
unfoldable pub decode_composite_key : List ℕ → Option (ℤ × ℤ)
decode_composite_key encoded = if ltb (length encoded) 8 then none else do
  column_a ← decode_int64 (take 8 encoded)
  column_b ← decode_int64 (drop 8 encoded)
  some (column_a, column_b)
